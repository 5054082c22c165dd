-- ===== src/Cache/Hydration/Present.antt =====
-- `_cached_path` answers with a path only for a complete original of the right size.
use immich_on_demand.Prelude.{
  ℕ, List, Option, none, some, Bool, true, false, is_some, ◌≡◌, ◌≢◌, refl, arith, ◌∙◌, ap, sym, inl,
  inr, Bool-cases, Option-cases,
}
use immich_on_demand.Prelude.Exec.{ok, ◌>>=◌, Result-cases}
use immich_on_demand.Prelude.Dict.{get}
use immich_on_demand.Model.Asset.{Asset}
use immich_on_demand.Cache.{
  CacheHost, CachedFile, file_size, ContentCache, require_uuid, discard_file,
}
use immich_on_demand.Cache.Download.{validation, cache_mtime_ns}
use immich_on_demand.Cache.Hydration.{
  complete_info, info_of, cached_path, path_of_info, external_path, managed_path, hashed_path,
  drop_invalid, has_size, Reading, is_unchanged, same_validation, is_validated,
}

-- A complete original of the right size stands under the asset's name.
pub record IsPresent (asset : Asset) (c : ContentCache) : Type 0 where
  pub file : CachedFile
  pub found : get c.files asset.id ≡ some file
  pub own : file.is_own ≡ true
  pub sized : asset.size ≡ some (file_size file)

module _ (h : CacheHost) (asset : Asset) where
  drop_invalid_false : (b : Bool) (c : ContentCache) → (drop_invalid asset.id b c).0 ≢ ok true
  unfolding drop_invalid ◌>>=◌
  drop_invalid_false true c e = elim (Result-cases (discard_file asset.id c).0) [
    | inl (a, done) ↦ absurd (ground (arith, done))
    | inr (x, failed) ↦ absurd (ground (arith, failed))
  ]
  drop_invalid_false false c e = absurd (ground arith)

  external_same :
      (b : Bool) (f : CachedFile) (c : ContentCache)
      → (external_path h asset b f c).0 ≡ ok true
      → (external_path h asset b f c).1 ≡ c
  unfolding external_path ◌>>=◌
  external_same b f c e = elim (Result-cases (cache_mtime_ns h asset)) [
    | inl (mtime, m) ↦ ground (arith, m, drop_invalid_false b c)
    | inr (x, m) ↦ ground (arith, m)
  ]

  has_size_eq :
      (size : Option ℕ) (f : CachedFile) → has_size size f ≡ true → size ≡ some (file_size f)
  unfolding has_size
  has_size_eq none f e = absurd (ground arith)
  has_size_eq (some n) f e = ground arith

  unchanged_size :
      (f g : CachedFile) → is_unchanged asset f (some g) ≡ true → file_size g ≡ file_size f
  unfolding is_unchanged same_validation validation
  unchanged_size f g e = ground arith

  hashed_same :
      (b : Bool) (f g : CachedFile) (content : List ℕ) (c : ContentCache)
      → get c.files asset.id ≡ some g
      → (hashed_path h asset b f (some content) c).0 ≡ ok true
      → ((hashed_path h asset b f (some content) c).1 ≡ c)
        × (g.is_own ≡ true)
        × (is_unchanged asset f (some g) ≡ true)
  unfolding hashed_path complete_info info_of ◌>>=◌
  hashed_same b f g content c there e = ground (arith, there, drop_invalid_false b c)

  hashed_missing :
      (b : Bool) (f : CachedFile) (content : List ℕ) (c : ContentCache)
      → get c.files asset.id ≡ none
      → (hashed_path h asset b f (some content) c).0 ≢ ok true
  unfolding hashed_path complete_info info_of is_unchanged ◌>>=◌
  hashed_missing b f content c missing e = absurd (ground (arith, missing, drop_invalid_false b c))

  keep-IsPresent :
      (c c' : ContentCache) (g : CachedFile)
      → c' ≡ c
      → get c.files asset.id ≡ some g
      → g.is_own ≡ true
      → asset.size ≡ some (file_size g)
      → IsPresent asset c'
  keep-IsPresent c c' g same there own size = record {
    file = g;
    found = ap (λ (d : ContentCache). get d.files asset.id) same ∙ there;
    own = own;
    sized = size;
  }

  hashed-IsPresent :
      (b : Bool) (f : CachedFile) (content : Option (List ℕ)) (c : ContentCache)
      → asset.size ≡ some (file_size f)
      → (hashed_path h asset b f content c).0 ≡ ok true
      → IsPresent asset (hashed_path h asset b f content c).1
  hashed-IsPresent b f none c size e = absurd (unfold hashed_path in (ground arith))
  hashed-IsPresent b f (some content) c size e = elim (Option-cases (get c.files asset.id)) [
    | inl missing ↦ absurd (hashed_missing b f content c missing e)
    | inr (g, there) ↦
        (let (same, own, unchanged) = hashed_same b f g content c there e in
          keep-IsPresent c _ g same there own
            (size ∙ ap {A = ℕ} (λ n. some n) (sym (unchanged_size f g unchanged))))
  ]

  managed-IsPresent :
      (b : Bool) (r : Reading) (f : CachedFile) (c : ContentCache)
      → get c.files asset.id ≡ some f
      → f.is_own ≡ true
      → asset.size ≡ some (file_size f)
      → (managed_path h asset b r f c).0 ≡ ok true
      → IsPresent asset (managed_path h asset b r f c).1
  unfolding managed_path
  managed-IsPresent b r f c there own size e =
      elim (Bool-cases (is_validated (get c.validated asset.id) (validation asset f))) [
        | inl valid ↦ rw valid (keep-IsPresent c c f refl there own size)
        | inr stale ↦ rw stale (hashed-IsPresent b f r.content (r.meanwhile c) size (rw stale at e))
      ]

  info-IsPresent :
      (b : Bool) (r : Reading) (f : CachedFile) (c : ContentCache)
      → get c.files asset.id ≡ some f
      → f.is_own ≡ true
      → (path_of_info h asset b r (some f) c).0 ≡ ok true
      → IsPresent asset (path_of_info h asset b r (some f) c).1
  unfolding path_of_info
  info-IsPresent b r f c there own e = elim (Bool-cases (has_size asset.size f)) [
    | inr wrong ↦ absurd (drop_invalid_false b c (rw wrong at e))
    | inl right ↦ elim (Bool-cases (is_some asset.library_id)) [
      | inl external ↦
          rw (right, external)
            (keep-IsPresent c _ f (external_same b f c (rw (right, external) at e)) there own
              (has_size_eq asset.size f right))
      | inr managed ↦
          rw (right, managed)
            (managed-IsPresent b r f c there own (has_size_eq asset.size f right)
              (rw (right, managed) at e))
    ]
  ]

  cached_owned :
      (b : Bool) (r : Reading) (f : CachedFile) (c : ContentCache)
      → get c.files asset.id ≡ some f
      → (cached_path h asset b r c).0 ≡ ok true
      → (f.is_own ≡ true) × (cached_path h asset b r c ≡ path_of_info h asset b r (some f) c)
  unfolding cached_path require_uuid complete_info info_of ◌>>=◌
  cached_owned b r f c there e = elim (Bool-cases (h.is_uuid asset.id)) [
    | inr bad ↦ absurd (ground (arith, bad))
    | inl good ↦ elim (Bool-cases f.is_own) [
      | inl own ↦ (own, rw (good, there, own) refl)
      | inr strange ↦ absurd (ground (arith, good, there, strange))
    ]
  ]

  cached_missing :
      (b : Bool) (r : Reading) (c : ContentCache)
      → get c.files asset.id ≡ none
      → (cached_path h asset b r c).0 ≢ ok true
  unfolding cached_path require_uuid complete_info info_of path_of_info ◌>>=◌
  cached_missing b r c missing e = ground (arith, missing)

  -- `_cached_path` answers with a path only where a complete original of the right size stands.
  pub cached-IsPresent :
      (b : Bool) (r : Reading) (c : ContentCache)
      → (cached_path h asset b r c).0 ≡ ok true
      → IsPresent asset (cached_path h asset b r c).1
  cached-IsPresent b r c e = elim (Option-cases (get c.files asset.id)) [
    | inl missing ↦ absurd (cached_missing b r c missing e)
    | inr (f, there) ↦
        (let (own, same) = cached_owned b r f c there e in
          rw same (info-IsPresent b r f c there own (ap (λ p. p.0) (sym same) ∙ e)))
  ]
