-- ===== src/Cache/Space.antt =====
-- The complete originals of a cache, oldest first, and the two ways src/immich_on_demand/
-- content_cache.py makes space: `_reserve` and `evict_to_limits`.
pub mod Entries
pub mod Sweeping
pub mod Reserving
pub mod Evicting
use immich_on_demand.Prelude.{
  ℕ, zero, suc, ◌+◌, ◌-◌, ◌*◌, List, [], ◌∷◌, Option, none, some, Bool, true, false, ◌&&◌, ◌||◌,
  not, ltb, leb, ◌==◌, if◌then◌else◌, is_none, none_or, ℤ, pos_part, neg_part, is_nonneg, eq_ℤ,
  leb_ℤ,
}
use immich_on_demand.Prelude.Text.{Text, text_lt}
use immich_on_demand.Prelude.Exec.{Exec, ok, err, pure, raise, lift, guard, ◌>>=◌, ◌>>◌}
use immich_on_demand.Prelude.Dict.{Dict, get, put, remove, contains}
use immich_on_demand.Errors.{value_error, integrity_error, capacity_error}
use immich_on_demand.Model.Asset.{Asset}
use immich_on_demand.Cache.{
  CacheHost, CachedFile, file_size, ContentCache, CacheAction, or_zero, is_busy, unlink,
}

starts_hidden : Text → Bool
starts_hidden [] = false
starts_hidden (c ∷ cs) = c == b'.'

-- A complete original is a regular file of this user under the name of a UUID.
unfoldable pub is_entry : CacheHost → Text → CachedFile → Bool
unfolding starts_hidden
is_entry h name f = not (starts_hidden name) && h.is_uuid name && f.is_own

-- `_complete_entries`
unfoldable pub complete_entries : CacheHost → Dict CachedFile → Dict CachedFile
complete_entries h [] = []
complete_entries h ((name, f) ∷ files) =
    let rest = complete_entries h files in if is_entry h name f then (name, f) ∷ rest else rest

-- `sum(info.st_size for ...)`
unfoldable pub sum_sizes : Dict CachedFile → ℕ
sum_sizes [] = 0
sum_sizes ((name, f) ∷ entries) = file_size f + sum_sizes entries

-- The order of the keys `(info.st_atime_ns, asset_id)`
unfoldable pub is_before : Text × CachedFile → Text × CachedFile → Bool
is_before (j, f) (k, g) =
    if eq_ℤ f.atime_ns g.atime_ns then text_lt j k else leb_ℤ f.atime_ns g.atime_ns

unfoldable pub insert_entry : Text × CachedFile → Dict CachedFile → Dict CachedFile
insert_entry e [] = e ∷ []
insert_entry e (d ∷ entries) =
    let later = insert_entry e entries in if is_before d e then d ∷ later else e ∷ d ∷ entries

-- `sorted(entries.items(), key=...)`
unfoldable pub sorted : Dict CachedFile → Dict CachedFile
unfolding insert_entry
sorted [] = []
sorted (e ∷ entries) = insert_entry e (sorted entries)

unfoldable pub is_evictable : ContentCache → Text → Bool
is_evictable c asset_id = not (contains c.pinned asset_id) && not (is_busy c asset_id)

-- The entries that `_reserve` may remove.
unfoldable pub only_evictable : ContentCache → Dict CachedFile → Dict CachedFile
only_evictable c [] = []
only_evictable c ((name, f) ∷ entries) =
    let rest = only_evictable c entries in if is_evictable c name then (name, f) ∷ rest else rest

unfoldable pub sum_counts : Dict ℕ → ℕ
sum_counts [] = 0
sum_counts ((name, n) ∷ counts) = n + sum_counts counts

-- The bytes that reservations have already written.
unfoldable pub sum_written : Dict ℕ → Dict ℕ → ℕ
sum_written written [] = 0
sum_written written ((name, n) ∷ counts) = or_zero (get written name) + sum_written written counts

-- `fits` of `_reserve`: the free space that remains after every reservation is compared without a
-- negative number, `free - (reserved - written) - size >= minimum`.
unfoldable pub fits : ContentCache → Bool → ℕ → ℕ → ℕ → Bool
fits c is_pinned size total free =
    (is_pinned || none_or (leb (total + sum_counts c.reservations + size)) c.max_bytes)
    && leb (c.minimum_free_bytes + size + sum_counts c.reservations)
        (free + sum_written c.written c.reservations)

-- A cache in which files are being removed, with the running totals of the loop.
pub record Sweep : Type 0 where
  pub cache : ContentCache
  pub total : ℕ
  pub free : ℕ

-- One removal: `path.unlink()`, and `continue` where the file is gone.
unfoldable pub swept : Text → CachedFile → Sweep → Sweep
unfolding unlink
swept name f s = if is_none (get s.cache.files name) then s else record {
  cache = unlink name s.cache;
  total = s.total - file_size f;
  free = s.free + file_size f;
}

-- The loop of `_reserve`.
unfoldable pub make_room : (ℕ → ℕ → Bool) → Dict CachedFile → Sweep → Sweep
unfolding swept
make_room enough [] s = s
make_room enough ((name, f) ∷ entries) s =
    let rest = make_room enough entries (swept name f s) in
    if enough s.total s.free then s else rest

-- What a finished loop does with the reservation.
unfoldable pub settle : Asset → ℕ → Bool → ContentCache → CacheAction Unit
settle asset size fitting c _ =
    if fitting
    then (
      ok tt,
      record c {
        reservations = put c.reservations asset.id size;
        written = put c.written asset.id 0;
      },
    )
    else (err capacity_error, c)

unfoldable pub entries_of : CacheHost → ContentCache → Dict CachedFile
unfolding complete_entries
entries_of h c = complete_entries h c.files

unfoldable pub evictable_of : CacheHost → ContentCache → Dict CachedFile
unfolding only_evictable sorted entries_of
evictable_of h c = only_evictable c (sorted (entries_of h c))

unfoldable pub sweep_of : CacheHost → ContentCache → ℕ → Sweep
unfolding sum_sizes entries_of
sweep_of h c free = record { cache = c; total = sum_sizes (entries_of h c); free = free }

reserve_after : Asset → ℕ → (ℕ → ℕ → Bool) → Sweep → CacheAction Unit
unfolding settle
reserve_after asset size enough s c = settle asset size (enough s.total s.free) s.cache c

reserve_room : CacheHost → Asset → ℕ → ℕ → CacheAction Unit
unfolding fits make_room reserve_after evictable_of sweep_of sum_sizes ◌>>=◌
reserve_room h asset size free c =
    let is_pinned = contains c.pinned asset.id in
    let enough = fits c is_pinned size in
    let evictable = evictable_of h c in
    let start = sweep_of h c free in
    let reclaimable = sum_sizes evictable in
    (guard (is_pinned || none_or (leb size) c.max_bytes) capacity_error
        >> guard (enough (start.total - reclaimable) (free + reclaimable)) capacity_error
        >> reserve_after asset size enough (make_room enough evictable start))
      c

-- `_reserve`, with the free space of the disk.
unfoldable pub reserve : CacheHost → Asset → ℕ → CacheAction Unit
unfolding reserve_room
reserve h asset free c = elim asset.size [
  | none ↦ (err integrity_error, c)
  | some size ↦ reserve_room h asset size free c
]

-- `now - stat.st_atime_ns > max_age_seconds * 1_000_000_000`
unfoldable pub is_expired : ℤ → ℕ → CachedFile → Bool
is_expired now max_age f =
    ltb (max_age * 1000000000 + pos_part f.atime_ns + neg_part now)
      (pos_part now + neg_part f.atime_ns)

unfoldable pub is_over : ℕ → ℕ → ℕ → ℕ → Bool
is_over max_bytes minimum_free total free = ltb max_bytes total || ltb free minimum_free

-- The limits of one call of `evict_to_limits`.
pub record Limits : Type 0 where
  pub now_ns : ℤ
  pub max_age_seconds : ℕ
  pub max_bytes : ℕ
  pub minimum_free_bytes : ℕ

-- Whether the loop of `evict_to_limits` unlinks an entry.
unfoldable pub is_due : Limits → Text → CachedFile → Sweep → Bool
unfolding is_expired is_over is_evictable
is_due l name f s =
    (is_expired l.now_ns l.max_age_seconds f
      || is_over l.max_bytes l.minimum_free_bytes s.total s.free)
    && is_evictable s.cache name
    && not (is_none (get s.cache.files name))

-- The loop of `evict_to_limits`, with the names it removed.
unfoldable pub sweep : Limits → Dict CachedFile → Sweep → List Text × Sweep
unfolding is_due swept
sweep l [] s = ([], s)
sweep l ((name, f) ∷ entries) s =
    let kept = sweep l entries s in
    let (removed, s') = sweep l entries (swept name f s) in
    if is_due l name f s then (name ∷ removed, s') else kept

sweep_entries : CacheHost → Limits → ℕ → CacheAction (List Text)
unfolding sweep sorted entries_of sweep_of
sweep_entries h l free c =
    let (removed, s) = sweep l (sorted (entries_of h c)) (sweep_of h c free) in
    (ok removed, s.cache)

unfoldable pub evict_to_limits : CacheHost → ℤ → ℤ → ℤ → ℤ → ℕ → CacheAction (List Text)
unfolding sweep_entries ◌>>=◌
evict_to_limits h max_age max_bytes minimum_free now free =
    guard (is_nonneg max_age && is_nonneg max_bytes && is_nonneg minimum_free) value_error
    >> sweep_entries h
        (record {
          now_ns = now;
          max_age_seconds = pos_part max_age;
          max_bytes = pos_part max_bytes;
          minimum_free_bytes = pos_part minimum_free;
        })
        free
