-- ===== src/Cache/Reading/Slices.antt =====
-- What `read` of src/immich_on_demand/content_cache.py gives.
use mathlib.Core.Path.{subst}
use immich_on_demand.Prelude.{
  ℕ, ℤ, List, some, Bool, true, false, ◌&&◌, ◌≡◌, refl, sym, ap, arith, is_nonneg, take, drop,
  pos_part,
}
use immich_on_demand.Prelude.Exec.{Result, ok, err, guard, pure, ◌>>=◌, ◌>>◌, bind_split}
use immich_on_demand.Prelude.Dict.{get}
use immich_on_demand.Errors.{Exception, value_error}
use immich_on_demand.Model.Asset.{Asset}
use immich_on_demand.Cache.{CacheHost, CachedFile, ContentCache, acquire, release}
use immich_on_demand.Cache.Hydration.{Environment, hydrate, complete_info, info_of}
use immich_on_demand.Cache.Hydration.Finished.{Stored, hydrate-Hydrated}
use immich_on_demand.Cache.Reading.{outcome, ensure, slice, read_hydrated, read}

-- A part of the complete original that stands under the asset's name when its hydration, while the
-- asset is held open, has returned.
pub record Slice (h : CacheHost) (asset : Asset) (env : Environment) (c : ContentCache)
    (offset size : ℤ) (bytes : List ℕ) : Type 0 where
  pub from_zero : (is_nonneg offset ≡ true) × (is_nonneg size ≡ true)
  pub stored : Stored asset (hydrate h asset env (acquire h asset.id c).1).1
  pub part : bytes ≡ take (pos_part size) (drop (pos_part offset) stored.file.bytes)

guard_same : (b : Bool) (x : Exception) (c : ContentCache) → (guard b x c).1 ≡ c
unfolding guard
guard_same true x c = refl
guard_same false x c = refl

outcome_ok :
    {A : Type 0} (r : Result Exception A) (s : Result Exception (Unit {0})) (a : A)
    → outcome r s ≡ ok a
    → r ≡ ok a
outcome_ok r (ok _) a h = h
outcome_ok r (err x) a h = absurd cc

pure_ok : {A : Type 0} (a b : A) → ◌≡◌ {A = Result Exception A} (ok a) (ok b) → a ≡ b
pure_ok a b h = ap (λ r. elim r [ ok x ↦ x | err e ↦ a ]) h

guard_holds :
    (a b : Bool) (x : Exception) (c : ContentCache) (u : Unit {0})
    → (guard (a && b) x c).0 ≡ ok u
    → (a ≡ true) × (b ≡ true)
unfolding guard
guard_holds true true x c u e = (refl, refl)
guard_holds true false x c u e = absurd cc
guard_holds false b x c u e = absurd cc

module _ (h : CacheHost) (asset : Asset) (env : Environment) where
  sliced :
      (offset size : ℕ) (bytes : List ℕ) (c : ContentCache) (f : CachedFile)
      → get c.files asset.id ≡ some f
      → f.is_own ≡ true
      → ((complete_info asset.id >>= slice offset size) c).0 ≡ ok bytes
      → bytes ≡ take size (drop offset f.bytes)
  unfolding complete_info info_of slice pure ◌>>=◌
  sliced offset size bytes c f found own e =
      sym (pure_ok (take size (drop offset f.bytes)) bytes (ground (arith, found, own, e)))

  read_hydrated-Stored :
      (offset size : ℕ) (bytes : List ℕ) (c : ContentCache)
      → (read_hydrated h asset offset size env c).0 ≡ ok bytes
      → (s : Stored asset (hydrate h asset env c).1) × (bytes
          ≡ take size (drop offset s.file.bytes))
  unfolding read_hydrated
  read_hydrated-Stored offset size bytes c e =
      let (u, first, rest, whole) =
        bind_split (hydrate h asset env) (λ x. complete_info asset.id >>= slice offset size) c bytes
          e in
      let s = (hydrate-Hydrated h asset env c first).stored in
      (s, sliced offset size bytes (hydrate h asset env c).1 s.file s.found s.own rest)

  -- When `read` returns, neither argument was negative, and its bytes are those from `offset` on, at
  -- most `size` of them, of the complete original that its hydration of the asset has left under the
  -- asset's name.
  pub read-Slice :
      (offset size : ℤ) (bytes : List ℕ) (c : ContentCache)
      → (read h asset offset size env c).0 ≡ ok bytes
      → Slice h asset env c offset size bytes
  unfolding read ensure
  read-Slice offset size bytes c e =
      let body = read_hydrated h asset (pos_part offset) (pos_part size) env in
      let test = guard (is_nonneg offset && is_nonneg size) value_error in
      let (u, checked, rest, whole) =
        bind_split test (λ x. acquire h asset.id >> ensure body (release asset.id)) c bytes e in
      let same = guard_same (is_nonneg offset && is_nonneg size) value_error c in
      let (v, acquired, last, whole') =
        bind_split (acquire h asset.id) (λ x. ensure body (release asset.id)) (test c).1 bytes
          rest in
      let (stored, part) =
        subst
          (λ d.
            (s : Stored asset (hydrate h asset env (acquire h asset.id d).1).1) × (bytes
              ≡ take (pos_part size) (drop (pos_part offset) s.file.bytes)))
          same
          (read_hydrated-Stored (pos_part offset) (pos_part size) bytes
            (acquire h asset.id (test c).1).1
            (outcome_ok (body (acquire h asset.id (test c).1).1).0 _ bytes last)) in
      record {
        from_zero = guard_holds (is_nonneg offset) (is_nonneg size) value_error c u checked;
        stored = stored;
        part = part;
      }
