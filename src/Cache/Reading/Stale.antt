-- ===== src/Cache/Reading/Stale.antt =====
-- What `_clean_stale_downloads` of src/immich_on_demand/content_cache.py removes.
use mathlib.Core.Path.{subst}
use immich_on_demand.Prelude.{
  ℕ, [], ◌∷◌, ◌++◌, Option, none, some, Bool, true, false, not, ◌&&◌, ◌==◌, ◌≡◌, ◌≢◌, refl, ap, ◌∙◌,
  arith, if◌then◌else◌, all_of, ◌⊎◌, inl, inr, Bool-cases, &&-eq-true,
}
use immich_on_demand.Prelude.Text.{Text, =ₜ_iff}
use immich_on_demand.Prelude.Dict.{Dict, get}
use immich_on_demand.Cache.{CacheHost, CachedFile, ContentCache}
use immich_on_demand.Cache.Space.Entries.{Distinct}
use immich_on_demand.Cache.Reading.{
  split_dot, stale_parts, stale_id, is_stale, without_stale, clean_stale_downloads,
}

absent_without_stale :
    (h : CacheHost) (files : Dict CachedFile) (name : Text)
    → get files name ≡ none
    → get (without_stale h files) name ≡ none
unfolding get without_stale
absent_without_stale h [] name e = refl
absent_without_stale h ((k, f) ∷ files) name e = ground (arith, absent_without_stale h files name)

-- What of an entry is left after the cleaning.
abbrev unless_stale : CacheHost → Text → Option CachedFile → Option CachedFile
unless_stale h name none = none
unless_stale h name (some f) = if is_stale h name f then none else some f

get-without_stale :
    (h : CacheHost) (files : Dict CachedFile) (name : Text)
    → Distinct files
    → get (without_stale h files) name ≡ unless_stale h name (get files name)
unfolding get without_stale Distinct
get-without_stale h [] name d = refl
get-without_stale h ((k, f) ∷ files) name d =
    ground
      (arith, get-without_stale h files name d.1, absent_without_stale h files name, =ₜ_iff k name)

-- The user's own regular file whose name is a dot, a UUID without dots, a dot and something more.
pub record StaleFile (h : CacheHost) (name : Text) (f : CachedFile) : Type 0 where
  pub asset_id : Text
  pub first : ℕ
  pub suffix : Text
  pub shape : name ≡ b'.' ∷ asset_id ++ b'.' ∷ first ∷ suffix
  pub dotless : all_of (λ c. not (c == b'.')) asset_id ≡ true
  pub known : h.is_uuid asset_id ≡ true
  pub own : f.is_own ≡ true

split_dot_of :
    (id rest : Text)
    → all_of (λ c. not (c == b'.')) id ≡ true
    → split_dot (id ++ b'.' ∷ rest) ≡ some (id, rest)
unfolding split_dot
split_dot_of [] rest d = refl
split_dot_of (c ∷ id) rest d = elim (Bool-cases (c == b'.')) [
  | inl e ↦ absurd (ground arith)
  | inr e ↦ rw (e, split_dot_of id rest (ground arith)) refl
]

-- The text is what was split.
Parts : Text → Option (Text × Text) → Type 0
Parts name none = Unit
Parts name (some (id, rest)) =
    (name ≡ id ++ b'.' ∷ rest) × (all_of (λ c. not (c == b'.')) id ≡ true)

join_part :
    (c : ℕ) (name : Text) (o : Option (Text × Text))
    → (c == b'.') ≡ false
    → Parts name o
    → Parts (c ∷ name) (elim o [ none ↦ none | some (before, after) ↦ some (c ∷ before, after) ])
unfolding Parts
join_part c name none e p = tt
join_part c name (some (id, rest)) e p = (ap (λ n. c ∷ n) p.0, ground (arith, p.1))

split_dot-Parts : (name : Text) → Parts name (split_dot name)
unfolding split_dot Parts
split_dot-Parts [] = tt
split_dot-Parts (c ∷ name) = elim (Bool-cases (c == b'.')) [
  | inl e ↦ rw e (ap (λ d. d ∷ name) (ground arith), refl)
  | inr e ↦ rw e (join_part c name (split_dot name) e (split_dot-Parts name))
]

StaleFile-is_stale :
    (h : CacheHost) (name : Text) (f : CachedFile) → StaleFile h name f → is_stale h name f ≡ true
unfolding is_stale stale_id
StaleFile-is_stale h name f s =
    rw (s.shape, split_dot_of s.asset_id (s.first ∷ s.suffix) s.dotless, s.known) s.own

stale_file :
    (h : CacheHost) (name : Text) (f : CachedFile) (o : Option (Text × Text))
    → Parts name o
    → ((elim (stale_parts o) [ none ↦ false | some id ↦ h.is_uuid id ]) && f.is_own) ≡ true
    → StaleFile h (b'.' ∷ name) f
unfolding Parts
stale_file h name f none p e = absurd cc
stale_file h name f (some (id, [])) p e = absurd cc
stale_file h name f (some (id, c ∷ rest)) p e =
    let (known, own) = &&-eq-true (h.is_uuid id) f.is_own e in
    record {
      asset_id = id;
      first = c;
      suffix = rest;
      shape = ap (λ n. b'.' ∷ n) p.0;
      dotless = p.1;
      known = known;
      own = own;
    }

is_stale-StaleFile :
    (h : CacheHost) (name : Text) (f : CachedFile) → is_stale h name f ≡ true → StaleFile h name f
unfolding is_stale stale_id
is_stale-StaleFile h [] f e = absurd cc
is_stale-StaleFile h (c ∷ name) f e = elim (Bool-cases (c == b'.')) [
  | inr n ↦ absurd (ground (arith, n, e))
  | inl d ↦
      subst (λ (k : ℕ). StaleFile h (k ∷ name) f) (ground (arith, d))
        (stale_file h name f (split_dot name) (split_dot-Parts name) (rw d at e))
]

clash : (b : Bool) → b ≡ true → b ≢ false
clash b t e = cc

-- If no name stands twice in the directory, `_clean_stale_downloads` removes a file exactly if it is
-- the user's own regular file and its name is a dot, a UUID without dots, a dot and something more;
-- every other file is left as it is.
pub clean_stale_downloads_result :
    (h : CacheHost) (c : ContentCache) (name : Text) (f : CachedFile)
    → Distinct c.files
    → get c.files name ≡ some f
    → (StaleFile h name f × (get (clean_stale_downloads h c).files name ≡ none))
      ⊎ ((¬ StaleFile h name f) × (get (clean_stale_downloads h c).files name ≡ some f))
unfolding clean_stale_downloads
clean_stale_downloads_result h c name f d found =
    let left : get (without_stale h c.files) name ≡ (if is_stale h name f then none else some f) =
      get-without_stale h c.files name d ∙ ap (unless_stale h name) found in
    elim (Bool-cases (is_stale h name f)) [
      | inl e ↦ inl (is_stale-StaleFile h name f e, rw e at left)
      | inr e ↦
          inr ((λ s. clash (is_stale h name f) (StaleFile-is_stale h name f s) e), rw e at left)
    ]
