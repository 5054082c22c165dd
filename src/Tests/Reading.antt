-- ===== src/Tests/Reading.antt =====
-- Reads and the cleaning of the cache at concrete inputs.
use immich_on_demand.Prelude.{ℤ, [], ◌∷◌, ◌++◌, none, some, ◌≡◌, ◌⊎◌, refl}
use immich_on_demand.Prelude.Text.{Text, codes, ◌=ₜ◌}
use immich_on_demand.Prelude.Exec.{ok, guard, ◌>>=◌}
use immich_on_demand.Prelude.Dict.{get, put, contains, add}
use immich_on_demand.Cache.{require_uuid, acquire, release, open_count, is_busy}
use immich_on_demand.Cache.Space.{is_entry, is_before, is_evictable, sum_counts, sum_written}
use immich_on_demand.Cache.Hydration.{complete_info, info_of, hydrate}
use immich_on_demand.Cache.Space.Entries.{Distinct}
use immich_on_demand.Cache.Reading.{
  read, ensure, read_hydrated, slice, clean_stale_downloads, without_stale, is_stale, stale_id,
  split_dot,
}
use immich_on_demand.Cache.Reading.Slices.{Slice, read-Slice}
use immich_on_demand.Cache.Reading.Stale.{StaleFile, clean_stale_downloads_result}
use immich_on_demand.Cache.{CachedFile, ContentCache}
use immich_on_demand.Tests.Host.{job_id}
use immich_on_demand.Tests.Cache.{cache_host, asset, environment, cache, original}

read_returns : (read cache_host asset (ℤ.pos 1) (ℤ.pos 2) environment cache).0 ≡ ok (8 ∷ 9 ∷ [])
unfolding read ensure read_hydrated slice guard require_uuid acquire release open_count
    complete_info info_of hydrate get ◌=ₜ◌ contains is_entry is_before is_evictable is_busy add
    sum_counts sum_written put ◌>>=◌
read_returns = refl

read-Slice_example : Slice cache_host asset environment cache (ℤ.pos 1) (ℤ.pos 2) (8 ∷ 9 ∷ [])
read-Slice_example =
    read-Slice cache_host asset environment (ℤ.pos 1) (ℤ.pos 2) (8 ∷ 9 ∷ []) cache read_returns

-- A temporary file of a download that was broken off, and the cache with it.
abbrev stale_name : Text
stale_name = codes "." ++ job_id ++ codes ".part"

abbrev stale_file : CachedFile
stale_file = original (1 ∷ []) (ℤ.pos 10)

abbrev littered : ContentCache
littered = record cache { files = (stale_name, stale_file) ∷ [] }

clean_stale_downloads_result_example :
    (StaleFile cache_host stale_name stale_file
      × (get (clean_stale_downloads cache_host littered).files stale_name ≡ none))
    ⊎ ((¬ StaleFile cache_host stale_name stale_file)
        × (get (clean_stale_downloads cache_host littered).files stale_name ≡ some stale_file))
unfolding Distinct get ◌=ₜ◌
clean_stale_downloads_result_example =
    clean_stale_downloads_result cache_host littered stale_name stale_file (refl, tt) refl

stale_goes : get (clean_stale_downloads cache_host littered).files stale_name ≡ none
unfolding clean_stale_downloads without_stale is_stale stale_id split_dot get ◌=ₜ◌
stale_goes = refl
