-- ===== src/Cache/Reading.antt =====
-- `read`, `transfer_pin` and `_clean_stale_downloads` of src/immich_on_demand/content_cache.py.
pub mod Slices
pub mod Stale
use immich_on_demand.Prelude.{
  ℕ, ℤ, List, [], ◌∷◌, Option, none, some, Bool, true, false, ◌&&◌, ◌==◌, if◌then◌else◌, is_nonneg,
  take, drop, pos_part,
}
use immich_on_demand.Prelude.Text.{Text}
use immich_on_demand.Prelude.Exec.{Result, ok, err, guard, raise, pure, ◌>>=◌, ◌>>◌}
use immich_on_demand.Prelude.Dict.{Dict, add, discard}
use immich_on_demand.Errors.{Exception, value_error, cache_error}
use immich_on_demand.Model.Asset.{Asset}
use immich_on_demand.Cache.{
  CacheHost, CachedFile, ContentCache, CacheAction, require_uuid, acquire, release,
}
use immich_on_demand.Cache.Hydration.{Environment, hydrate, complete_info}

-- An error of the `finally` clause takes the place of the result.
abbrev pub outcome :
    {A : Type 0} → Result Exception A → Result Exception (Unit {0}) → Result Exception A
outcome r (ok _) = r
outcome r (err x) = err x

-- `try: … finally: …`
unfoldable pub ensure : {A : Type 0} → CacheAction A → CacheAction (Unit {0}) → CacheAction A
ensure m cleanup c = let (r, c') = m c in let (s, c'') = cleanup c' in (outcome r s, c'')

-- `stream.seek(offset)` and `stream.read(size)`
unfoldable pub slice : ℕ → ℕ → Option CachedFile → CacheAction (List ℕ)
slice offset size none = raise cache_error
slice offset size (some f) = pure (take size (drop offset f.bytes))

unfoldable pub read_hydrated : CacheHost → Asset → ℕ → ℕ → Environment → CacheAction (List ℕ)
read_hydrated h asset offset size env = do
  hydrate h asset env
  info ← complete_info asset.id
  slice offset size info

-- `read`
unfoldable pub read : CacheHost → Asset → ℤ → ℤ → Environment → CacheAction (List ℕ)
read h asset offset size env = do
  guard (is_nonneg offset && is_nonneg size) value_error
  acquire h asset.id
  ensure (read_hydrated h asset (pos_part offset) (pos_part size) env) (release asset.id)

unfoldable pub unpin_all : List Text → CacheAction Unit
unpin_all [] c = (ok tt, c)
unpin_all (asset_id ∷ ids) c = unpin_all ids (record c { pinned = discard c.pinned asset_id })

unfoldable pub set_pin : Text → CacheAction Unit
set_pin asset_id c = (ok tt, record c { pinned = add c.pinned asset_id })

unfoldable pub move_pin : CacheHost → Text → Asset → Bool → Environment → CacheAction Unit
move_pin h source_asset_id replacement pinned env =
    if pinned
    then (do unpin_all (source_asset_id ∷ []); set_pin replacement.id; hydrate h replacement env)
    else unpin_all (source_asset_id ∷ replacement.id ∷ [])

-- `transfer_pin`
unfoldable pub transfer_pin : CacheHost → Text → Asset → Bool → Environment → CacheAction Unit
transfer_pin h source_asset_id replacement pinned env = do
  require_uuid h source_asset_id
  require_uuid h replacement.id
  move_pin h source_asset_id replacement pinned env

-- The text up to the first dot and the rest behind it, if there is a dot.
unfoldable pub split_dot : Text → Option (Text × Text)
split_dot [] = none
split_dot (c ∷ name) =
    let rest = split_dot name in
    if c == b'.'
    then some ([], name)
    else (elim rest [ none ↦ none | some (before, after) ↦ some (c ∷ before, after) ])

abbrev stale_parts : Option (Text × Text) → Option Text
stale_parts none = none
stale_parts (some (part, [])) = none
stale_parts (some (part, c ∷ suffix)) = some part

-- The asset's id in the name of a temporary file, `.<id>.<suffix>`.
unfoldable pub stale_id : Text → Option Text
unfolding split_dot
stale_id [] = none
stale_id (c ∷ name) = if c == b'.' then stale_parts (split_dot name) else none

unfoldable pub is_stale : CacheHost → Text → CachedFile → Bool
is_stale h name f = (elim (stale_id name) [ none ↦ false | some id ↦ h.is_uuid id ]) && f.is_own

unfoldable pub without_stale : CacheHost → Dict CachedFile → Dict CachedFile
without_stale h [] = []
without_stale h ((name, f) ∷ files) =
    let rest = without_stale h files in if is_stale h name f then rest else (name, f) ∷ rest

-- `_clean_stale_downloads`
unfoldable pub clean_stale_downloads : CacheHost → ContentCache → ContentCache
clean_stale_downloads h c = record c { files = without_stale h c.files }
