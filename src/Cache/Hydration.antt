-- ===== src/Cache/Hydration.antt =====
-- `_cached_path`, `_touch`, `hydrate` and `describe` of
-- src/immich_on_demand/content_cache.py. Where a method awaits while another task may run, the other
-- tasks' change of the cache is an argument.
pub mod Present
pub mod Body
pub mod Finished
use immich_on_demand.Prelude.{
  ℕ, List, [], ◌∷◌, Option, none, some, Bool, true, false, ◌&&◌, not, ◌==◌, if◌then◌else◌, is_some,
  eq_ℤ,
}
use immich_on_demand.Prelude.Text.{Text, ◌=ₜ◌}
use immich_on_demand.Prelude.Exec.{ok, err, pure, raise, lift, guard, ◌>>=◌, ◌>>◌}
use immich_on_demand.Prelude.Dict.{get, put, remove, contains, add, discard}
use immich_on_demand.Errors.{
  Exception, permission_error, cache_error, busy_error, downloads_disabled, local_error,
}
use immich_on_demand.Model.Asset.{Asset}
use immich_on_demand.Cache.{
  CacheHost, CachedFile, file_size, ContentCache, CacheAction, Validation, is_busy, require_uuid,
  discard_file,
}
use immich_on_demand.Cache.Space.{reserve}
use immich_on_demand.Cache.Download.{
  checksum_matches, cache_mtime_ns, validation, Stamp, Response, download,
}

unfoldable pub info_of : Option CachedFile → CacheAction (Option CachedFile)
info_of none c = (ok none, c)
info_of (some f) c = if f.is_own then (ok (some f), c) else (err permission_error, c)

-- `_complete_info`
unfoldable pub complete_info : Text → CacheAction (Option CachedFile)
unfolding info_of
complete_info asset_id c = info_of (get c.files asset_id) c

-- What happens while a thread reads the file: the bytes it read, `none` where the file was gone, and
-- what other tasks did to the cache.
pub record Reading : Type 0 where
  pub content : Option (List ℕ)
  pub meanwhile : ContentCache → ContentCache

-- Equality of two `_Validation` tuples.
unfoldable pub same_validation : Validation → Validation → Bool
same_validation v w =
    v.dev == w.dev
    && v.ino == w.ino
    && v.size == w.size
    && eq_ℤ v.mtime_ns w.mtime_ns
    && eq_ℤ v.ctime_ns w.ctime_ns
    && v.source =ₜ w.source

is_validated : Option Validation → Validation → Bool
unfolding same_validation
is_validated none v = false
is_validated (some w) v = same_validation w v

-- `if discard_invalid: self._discard(...)` and `return None`
drop_invalid : Text → Bool → CacheAction Bool
unfolding ◌>>=◌
drop_invalid asset_id true = discard_file asset_id >> pure false
drop_invalid asset_id false = pure false

external_path : CacheHost → Asset → Bool → CachedFile → CacheAction Bool
unfolding drop_invalid cache_mtime_ns ◌>>=◌
external_path h asset discard_invalid f = lift (cache_mtime_ns h asset) >>= λ mtime.
    if eq_ℤ f.mtime_ns mtime then pure true else drop_invalid asset.id discard_invalid

is_unchanged : Asset → CachedFile → Option CachedFile → Bool
unfolding same_validation validation
is_unchanged asset f none = false
is_unchanged asset f (some g) = same_validation (validation asset g) (validation asset f)

hashed_path : CacheHost → Asset → Bool → CachedFile → Option (List ℕ) → CacheAction Bool
unfolding drop_invalid is_unchanged checksum_matches complete_info ◌>>=◌
hashed_path h asset discard_invalid f none c =
    (ok false, record c { validated = remove c.validated asset.id })
hashed_path h asset discard_invalid f (some content) c =
    (complete_info asset.id >>= λ current.
    if is_unchanged asset f current && checksum_matches h asset.checksum (h.sha1 content)
    then pure true
    else drop_invalid asset.id discard_invalid)
      c

managed_path : CacheHost → Asset → Bool → Reading → CachedFile → CacheAction Bool
unfolding hashed_path is_validated validation
managed_path h asset discard_invalid r f c =
    if is_validated (get c.validated asset.id) (validation asset f)
    then (ok true, c)
    else hashed_path h asset discard_invalid f r.content (r.meanwhile c)

has_size : Option ℕ → CachedFile → Bool
has_size none f = false
has_size (some size) f = file_size f == size

path_of_info : CacheHost → Asset → Bool → Reading → Option CachedFile → CacheAction Bool
unfolding external_path managed_path has_size drop_invalid
path_of_info h asset discard_invalid r none = pure false
path_of_info h asset discard_invalid r (some f) =
    if not (has_size asset.size f)
    then drop_invalid asset.id discard_invalid
    else if is_some asset.library_id
    then external_path h asset discard_invalid f
    else managed_path h asset discard_invalid r f

-- `_cached_path`: whether the cached original can be used.
unfoldable pub cached_path : CacheHost → Asset → Bool → Reading → CacheAction Bool
unfolding path_of_info complete_info require_uuid ◌>>=◌
cached_path h asset discard_invalid r =
    require_uuid h asset.id
    >> (complete_info asset.id >>= λ info. path_of_info h asset discard_invalid r info)

touch_info : Asset → Stamp → Option CachedFile → CacheAction Unit
unfolding validation
touch_info asset stamp none c = (err cache_error, c)
touch_info asset stamp (some f) c =
    let touched = record f { atime_ns = stamp.now_ns; ctime_ns = stamp.ctime_ns } in
    (
      ok tt,
      record c {
        files = put c.files asset.id touched;
        validated = put c.validated asset.id (validation asset touched);
      },
    )

-- `_touch`
unfoldable pub touch : Asset → Stamp → CacheAction Unit
unfolding touch_info complete_info ◌>>=◌
touch asset stamp = complete_info asset.id >>= λ info. touch_info asset stamp info

-- The end of another task's hydration of the asset that this task waits for: with which error, what
-- was done to the cache until this task goes on, and the reading and the touch that follow.
pub record Wait : Type 0 where
  pub error : Option Exception
  pub meanwhile : ContentCache → ContentCache
  pub reading : Reading
  pub stamp : Stamp

-- What the system does during one call of `hydrate`: the hydrations of others that come to an end
-- while the call waits for them, and what happens to its own.
pub record Environment : Type 0 where
  pub waits : List Wait
  pub reading : Reading
  pub free : ℕ
  pub response : Response
  pub stamp : Stamp

fetch : CacheHost → Asset → Environment → CacheAction Unit
unfolding reserve download ◌>>=◌
fetch h asset env c =
    (guard c.downloads_enabled downloads_disabled
        >> reserve h asset env.free
        >> download h asset env.stamp env.response)
      c

fetch_missing : CacheHost → Asset → Environment → Bool → CacheAction Unit
unfolding fetch
fetch_missing h asset env true = pure tt
fetch_missing h asset env false = fetch h asset env

-- The body of the `try`.
unfoldable pub hydrate_body : CacheHost → Asset → Environment → CacheAction Unit
unfolding cached_path fetch_missing touch ◌>>=◌
hydrate_body h asset env c =
    (cached_path h asset c.downloads_enabled env.reading >>= λ found.
    (fetch_missing h asset env found >> touch asset env.stamp))
      c

-- The `finally` clause.
unfoldable pub finish_hydration : Text → ContentCache → ContentCache
finish_hydration asset_id c = record c {
  reservations = remove c.reservations asset_id;
  written = remove c.written asset_id;
  hydrations = discard c.hydrations asset_id;
}

-- `hydrate` from where it has found no other hydration of the asset.
unfoldable pub hydrate_alone : CacheHost → Asset → Environment → CacheAction Unit
unfolding hydrate_body finish_hydration
hydrate_alone h asset env c =
    let (result, c') =
      hydrate_body h asset env (record c { hydrations = add c.hydrations asset.id }) in
    (result, finish_hydration asset.id c')

-- What a task does that has waited for another's hydration: `again` stands for
-- `return await self.hydrate(asset)`.
pub data Waited : Type 0 where
  ready again : Waited

touch_found : Asset → Stamp → CacheAction Waited → Bool → CacheAction Waited
unfolding touch ◌>>=◌
touch_found asset stamp otherwise true = touch asset stamp >> pure ready
touch_found asset stamp otherwise false = otherwise

-- `hydrate` after `await hydration.done.wait()`, with `hydration.error`.
unfoldable pub after_wait :
    CacheHost → Asset → Reading → Stamp → Option Exception → CacheAction Waited
unfolding cached_path touch_found ◌>>=◌
after_wait h asset r stamp none =
    cached_path h asset true r >>= touch_found asset stamp (pure again)
after_wait h asset r stamp (some downloads_disabled) = raise downloads_disabled
after_wait h asset r stamp (some busy_error) =
    cached_path h asset true r >>= touch_found asset stamp (raise cache_error)
after_wait h asset r stamp (some _) = raise cache_error

go_on : CacheAction Unit → Waited → CacheAction Unit
go_on next ready = pure tt
go_on next again = next

-- A hydration by another task is waited for. A wait whose end is not among `waits` is cancelled;
-- `local_error` stands for that.
unfoldable pub hydrate_from : CacheHost → Asset → Environment → List Wait → CacheAction Unit
unfolding hydrate_alone after_wait go_on ◌>>=◌
hydrate_from h asset env [] c =
    if contains c.hydrations asset.id then (err local_error, c) else hydrate_alone h asset env c
hydrate_from h asset env (wait ∷ waits) c =
    let next = hydrate_from h asset env waits in
    if contains c.hydrations asset.id
    then (after_wait h asset wait.reading wait.stamp wait.error >>= go_on next) (wait.meanwhile c)
    else hydrate_alone h asset env c

-- `hydrate`
unfoldable pub hydrate : CacheHost → Asset → Environment → CacheAction Unit
unfolding hydrate_from
hydrate h asset env = hydrate_from h asset env env.waits

pub record Description : Type 0 where
  pub cached : Bool
  pub busy : Bool
  pub pinned : Bool

described : Asset → Bool → CacheAction Description
described asset cached c = (
  ok (record { cached = cached; busy = is_busy c asset.id; pinned = contains c.pinned asset.id }),
  c,
)

is_cached : CacheHost → Asset → Option CachedFile → CacheAction Bool
unfolding has_size cache_mtime_ns ◌>>=◌
is_cached h asset none = pure false
is_cached h asset (some f) =
    if has_size asset.size f
    then (lift (cache_mtime_ns h asset) >>= λ mtime. pure (eq_ℤ f.mtime_ns mtime))
    else pure false

-- `describe`
unfoldable pub describe : CacheHost → Asset → CacheAction Description
unfolding is_cached described complete_info require_uuid ◌>>=◌
describe h asset =
    require_uuid h asset.id >> (complete_info asset.id >>= is_cached h asset >>= described asset)
