-- ===== src/Tests/Cache.antt =====
-- The content cache at concrete inputs.
use immich_on_demand.Prelude.{
  ℕ, List, [], ◌∷◌, none, some, true, false, ◌≡◌, refl, ℤ, ◌⊎◌, length, ◌==◌,
}
use immich_on_demand.Prelude.Text.{Text, ◌=ₜ◌, codes}
use immich_on_demand.Prelude.Dict.{get, put, contains, add}
use immich_on_demand.Prelude.Exec.{ok, err}
use immich_on_demand.Errors.{Exception, capacity_error}
use immich_on_demand.Model.Asset.{Asset}
use immich_on_demand.Cache.{CacheHost, CachedFile, ContentCache, is_busy, open_count}
use immich_on_demand.Cache.Space.{
  reserve, evict_to_limits, is_entry, is_before, is_evictable, sum_counts, sum_written,
}
use immich_on_demand.Cache.Space.Entries.{Distinct}
use immich_on_demand.Cache.Space.Reserving.{can_fit, Reserved, reserve_outcome}
use immich_on_demand.Cache.Space.Evicting.{Limited, limits_of, evict_to_limits-Limited}
use immich_on_demand.Cache.Download.{Response, Stamp, cache_mtime_ns, download, checksum_matches}
use immich_on_demand.Cache.Download.Receiving.{body, OnlyWritten}
use immich_on_demand.Cache.Download.Storing.{is_delivered, stored_file, download_outcome}
use immich_on_demand.Cache.Hydration.{Environment, hydrate}
use immich_on_demand.Cache.Hydration.Finished.{Hydrated, hydrate-Hydrated}
use immich_on_demand.Cache.Handles.{
  acquired, released, evicted, discarded, handle, handle_all, WaitsOnlyForOpen,
  handle_all-WaitsOnlyForOpen, handle_open_file, Discarded, releases, discard-Discarded, handle_all,
}
use immich_on_demand.Tests.Host.{asset_id, job_id, owner_id}

abbrev pub cache_host : CacheHost
cache_host = record {
  is_uuid = λ value. length value == 36;
  fromisoformat = λ value. none;
  b64decode = λ value. some value;
  sha1 = λ bytes. bytes;
}

abbrev pub original : List ℕ → ℤ → CachedFile
original bytes atime = record {
  is_own = true;
  bytes = bytes;
  atime_ns = atime;
  mtime_ns = ℤ.pos 1;
  ctime_ns = ℤ.pos 1;
  dev = 1;
  ino = 1;
}

abbrev pub cache : ContentCache
cache = record {
  files =
      (job_id, original (1 ∷ 2 ∷ []) (ℤ.pos 10)) ∷ (owner_id, original (3 ∷ 4 ∷ []) (ℤ.pos 5)) ∷ [];
  max_bytes = some 5;
  minimum_free_bytes = 1;
  hydrations = [];
  opened = [];
  reservations = [];
  written = [];
  validated = [];
  pending_discards = [];
  pinned = [];
  downloads_enabled = true;
}

cache-Distinct : Distinct cache.files
unfolding Distinct get ◌=ₜ◌
cache-Distinct = (refl, (refl, tt))

abbrev pub asset : Asset
asset = record {
  id = asset_id;
  size = some 3;
  library_id = none;
  checksum = 7 ∷ 8 ∷ 9 ∷ [];
  updated_at = [];
  modified_ns = ℤ.pos 2;
  owner_id = owner_id;
  original_name = codes "photo.jpg";
  mime_type = codes "image/jpeg";
  created_ns = ℤ.pos 1;
  visibility = codes "timeline";
  is_trashed = false;
  is_offline = false;
  local_date = none;
  is_favorite = false;
  person_ids = [];
  live_photo_video_id = none;
}

abbrev pub stamp : Stamp
stamp = record { now_ns = ℤ.pos 20; ctime_ns = ℤ.pos 20; dev = 1; ino = 3 }

abbrev pub response : Response
response = record {
  chunks =
      record { bytes = 7 ∷ 8 ∷ []; free = 50; accepted = 2 }
      ∷ record { bytes = 9 ∷ []; free = 48; accepted = 1 }
      ∷ [];
  failure = none;
}

reserve_outcome_example :
    ((can_fit cache_host asset 3 9 cache ≡ true)
      × (c' : ContentCache) × (reserve cache_host asset 9 cache ≡ (ok tt, c'))
      × Reserved cache_host asset 3 9 cache c')
    ⊎ ((can_fit cache_host asset 3 9 cache ≡ false)
        × (reserve cache_host asset 9 cache ≡ (err capacity_error, cache)))
reserve_outcome_example = reserve_outcome cache_host asset 3 9 cache cache-Distinct refl

evict_to_limits-Limited_example :
    (removed : List Text) × (c' : ContentCache) × (evict_to_limits cache_host
        (ℤ.pos 100)
        (ℤ.pos 3)
        (ℤ.pos 1)
        (ℤ.pos 12)
        9
        cache
      ≡ (ok removed, c'))
    × Limited cache_host (limits_of (ℤ.pos 100) (ℤ.pos 3) (ℤ.pos 1) (ℤ.pos 12)) 9 cache removed c'
evict_to_limits-Limited_example =
    evict_to_limits-Limited cache_host (ℤ.pos 100) (ℤ.pos 3) (ℤ.pos 1) (ℤ.pos 12) 9 cache
      cache-Distinct refl

download_outcome_example :
    ((is_delivered cache_host asset 3 cache.minimum_free_bytes response ≡ true)
      × (mtime : ℤ) × (cache_mtime_ns cache_host asset ≡ ok mtime)
      × (c' : ContentCache) × (download cache_host asset stamp response cache ≡ (ok tt, c'))
      × (c' ≡ record cache {
        files = put cache.files asset.id (stored_file stamp (body response.chunks) mtime);
        written = c'.written;
      }))
    ⊎ ((is_delivered cache_host asset 3 cache.minimum_free_bytes response ≡ false)
        × (e : Exception) × (c' : ContentCache) × (download cache_host asset stamp response cache
            ≡ (err e, c'))
        × OnlyWritten cache c')
download_outcome_example = download_outcome cache_host asset 3 stamp response cache refl

-- One original is open, and its discard waits.
abbrev waiting_cache : ContentCache
waiting_cache = record cache { opened = (job_id, 1) ∷ []; pending_discards = job_id ∷ [] }

discard-Discarded_example :
    (get (handle cache_host (discarded job_id) waiting_cache).files job_id
      ≡ get waiting_cache.files job_id)
    × Discarded job_id (handle_all cache_host (discarded job_id ∷ releases job_id 1) waiting_cache)
unfolding open_count get ◌=ₜ◌
discard-Discarded_example = discard-Discarded cache_host job_id 0 waiting_cache refl

handle_open_file_example :
    get (handle cache_host (discarded job_id) waiting_cache).files job_id
    ≡ get waiting_cache.files job_id
unfolding handle open_count get ◌=ₜ◌
handle_open_file_example =
    handle_open_file cache_host (discarded job_id) waiting_cache job_id refl refl

cache-WaitsOnlyForOpen : WaitsOnlyForOpen cache
unfolding contains
cache-WaitsOnlyForOpen = record { waits = λ j p. cc }

handle_all-WaitsOnlyForOpen_example : WaitsOnlyForOpen (
    handle_all cache_host
      (acquired job_id ∷ discarded job_id ∷ released job_id ∷ evicted owner_id ∷ [])
      cache)
handle_all-WaitsOnlyForOpen_example =
    handle_all-WaitsOnlyForOpen cache_host
      (acquired job_id ∷ discarded job_id ∷ released job_id ∷ evicted owner_id ∷ []) cache
      cache-WaitsOnlyForOpen

abbrev pub environment : Environment
environment = record {
  waits = [];
  reading = record { content = none; meanwhile = λ c. c };
  free = 9;
  response = response;
  stamp = stamp;
}

hydration_succeeds : (hydrate cache_host asset environment cache).0 ≡ ok tt
unfolding hydrate get ◌=ₜ◌ contains is_entry is_before is_evictable is_busy add sum_counts
    sum_written put
hydration_succeeds = refl

hydrate-Hydrated_example : Hydrated asset cache (hydrate cache_host asset environment cache).1
hydrate-Hydrated_example = hydrate-Hydrated cache_host asset environment cache hydration_succeeds

-- The oldest original leaves, and the reservation is made.
room_is_made : reserve cache_host asset 9 cache ≡ (
  ok tt,
  record cache {
    files = (job_id, original (1 ∷ 2 ∷ []) (ℤ.pos 10)) ∷ [];
    reservations = (asset_id, 3) ∷ [];
    written = (asset_id, 0) ∷ [];
  },
)
unfolding reserve put contains is_entry is_before is_evictable is_busy get sum_counts sum_written
    ◌=ₜ◌
room_is_made = refl

-- The response is the original.
response_is_delivered : is_delivered cache_host asset 3 cache.minimum_free_bytes response ≡ true
unfolding is_delivered checksum_matches ◌=ₜ◌ cache_mtime_ns
response_is_delivered = refl
