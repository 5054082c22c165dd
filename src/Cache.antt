-- ===== src/Cache.antt =====
-- The state of `ContentCache` in src/immich_on_demand/content_cache.py and its operations that touch
-- one asset: pins, open counts, discards and single evictions.
pub mod Handles
pub mod Space
pub mod Download
pub mod Hydration
pub mod Reading
use immich_on_demand.Prelude.{
  ℕ, zero, suc, List, Option, none, some, Bool, true, false, ◌&&◌, ◌||◌, not, ltb, ◌==◌,
  if◌then◌else◌, is_some, is_none, length, ℤ,
}
use immich_on_demand.Prelude.Text.{Text, codes, ◌=ₜ◌}
use immich_on_demand.Prelude.Exec.{Exec, ok, err, pure, raise, lift, guard, ◌>>=◌, ◌>>◌}
use immich_on_demand.Prelude.Dict.{Dict, get, put, remove, contains, add, discard}
use immich_on_demand.Model.Asset.{Asset}
use immich_on_demand.Errors.{
  Exception, Fallible, value_error, permission_error, cache_error, busy_error,
}

-- A parsed date: whether it has a time zone, and its timestamp in nanoseconds.
pub record Moment : Type 0 where
  pub has_zone : Bool
  pub timestamp_ns : ℤ

-- What the standard library computes; `none` stands for a ValueError of the call.
pub record CacheHost : Type 0 where
  pub is_uuid : Text → Bool
  pub fromisoformat : Text → Option Moment
  pub b64decode : Text → Option (List ℕ)
  pub sha1 : List ℕ → List ℕ

-- An entry of the cache's directory; `is_own` when it is a regular file of this user.
pub record CachedFile : Type 0 where
  pub is_own : Bool
  pub bytes : List ℕ
  pub atime_ns : ℤ
  pub mtime_ns : ℤ
  pub ctime_ns : ℤ
  pub dev : ℕ
  pub ino : ℕ

-- `st_size`
abbrev pub file_size : CachedFile → ℕ
file_size f = length f.bytes

-- `_Validation`: the file's identity and what its content stands for.
pub record Validation : Type 0 where
  pub dev : ℕ
  pub ino : ℕ
  pub size : ℕ
  pub mtime_ns : ℤ
  pub ctime_ns : ℤ
  pub source : Text

-- The directory beside the attributes of `ContentCache`. `hydrations` holds the assets for which a
-- task hydrates at the moment.
pub record ContentCache : Type 0 where
  pub files : Dict CachedFile
  pub max_bytes : Option ℕ
  pub minimum_free_bytes : ℕ
  pub hydrations : List Text
  pub opened : Dict ℕ
  pub reservations : Dict ℕ
  pub written : Dict ℕ
  pub validated : Dict Validation
  pub pending_discards : List Text
  pub pinned : List Text
  pub downloads_enabled : Bool

abbrev pub CacheAction : Type 0 → Type 0
CacheAction A = Exec Exception ContentCache A

-- `d.get(k, 0)`
abbrev pub or_zero : Option ℕ → ℕ
or_zero none = 0
or_zero (some n) = n

unfoldable pub open_count : ContentCache → Text → ℕ
open_count c asset_id = or_zero (get c.opened asset_id)

-- `_busy`
unfoldable pub is_busy : ContentCache → Text → Bool
unfolding open_count
is_busy c asset_id = contains c.hydrations asset_id || ltb 0 (open_count c asset_id)

-- `path.unlink()` and the removal of the validation
unfoldable pub unlink : Text → ContentCache → ContentCache
unlink asset_id c = record c {
  files = remove c.files asset_id;
  validated = remove c.validated asset_id;
}

unfoldable pub enable_downloads : CacheAction Unit
enable_downloads c = (ok tt, record c { downloads_enabled = true })

module _ (h : CacheHost) where
  -- `UUID(asset_id)` for its ValueError
  unfoldable pub require_uuid : Text → CacheAction Unit
  require_uuid asset_id = guard (h.is_uuid asset_id) value_error

  add_pin : Text → CacheAction Unit
  add_pin asset_id c = (ok tt, record c { pinned = add c.pinned asset_id })

  drop_pin : Text → CacheAction Unit
  drop_pin asset_id c = (ok tt, record c { pinned = discard c.pinned asset_id })

  unfoldable pub pin : Text → CacheAction Unit
  unfolding ◌>>=◌ require_uuid add_pin
  pin asset_id = require_uuid asset_id >> add_pin asset_id

  unfoldable pub unpin : Text → CacheAction Unit
  unfolding ◌>>=◌ require_uuid drop_pin
  unpin asset_id = require_uuid asset_id >> drop_pin asset_id

  count_open : Text → CacheAction Unit
  unfolding open_count
  count_open asset_id c =
      (ok tt, record c { opened = put c.opened asset_id (suc (open_count c asset_id)) })

  unfoldable pub acquire : Text → CacheAction Unit
  unfolding ◌>>=◌ require_uuid count_open
  acquire asset_id = require_uuid asset_id >> count_open asset_id

-- `_discard`
unfoldable pub discard_file : Text → CacheAction Unit
unfolding open_count unlink
discard_file asset_id c =
    if ltb 0 (open_count c asset_id)
    then (err busy_error, record c { pending_discards = add c.pending_discards asset_id })
    else (
      ok tt,
      record (unlink asset_id c) { pending_discards = discard c.pending_discards asset_id },
    )

close_last : Text → CacheAction Unit
unfolding discard_file
close_last asset_id c =
    let closed = record c { opened = remove c.opened asset_id } in
    if contains c.pending_discards asset_id then discard_file asset_id closed else (ok tt, closed)

release_one : Text → ℕ → CacheAction Unit
unfolding close_last
release_one asset_id zero c = (err cache_error, c)
release_one asset_id (suc zero) c = close_last asset_id c
release_one asset_id (suc (suc n)) c = (ok tt, record c { opened = put c.opened asset_id (suc n) })

unfoldable pub release : Text → CacheAction Unit
unfolding release_one open_count
release asset_id c = release_one asset_id (open_count c asset_id) c

unlink_found : Text → CacheAction Bool
unfolding unlink
unlink_found asset_id c =
    if is_some (get c.files asset_id) then (ok true, unlink asset_id c) else (ok false, c)

evict_free : Text → CacheAction Bool
unfolding ◌>>=◌ is_busy unlink_found
evict_free asset_id c =
    (guard (not (contains c.pinned asset_id)) cache_error
        >> guard (not (is_busy c asset_id)) busy_error
        >> unlink_found asset_id)
      c

unfoldable pub evict : CacheHost → Text → CacheAction Bool
unfolding ◌>>=◌ require_uuid evict_free
evict h asset_id = require_uuid h asset_id >> evict_free asset_id
