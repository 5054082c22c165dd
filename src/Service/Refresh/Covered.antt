-- ===== src/Service/Refresh/Covered.antt =====
-- Every sealed replacement is covered by the policy that `_replacement_refresh_policy` of
-- src/immich_on_demand/service.py returns.
use mathlib.Core.Path.{subst}
use mathlib.Core.List.{Memᴰ}
use mathlib.Core.List.Memᴰ
use immich_on_demand.Prelude.{
  ℕ, List, [], ◌∷◌, Option, none, some, true, ◌≡◌, sym, ap, inl, inr, if◌then◌else◌, Bool-cases,
}
use immich_on_demand.Prelude.Text.{Text, ◌=ₜ◌}
use immich_on_demand.Prelude.Exec.{ok}
use immich_on_demand.Prelude.Fallible.{chain_split, ok_injective}
use immich_on_demand.Prelude.Dict.{Dict, get}
use immich_on_demand.Model.Asset.{Asset, CatalogAsset}
use immich_on_demand.Uploads.Validate.{is_replacement}
use immich_on_demand.Uploads.Queue.{UploadStatus}
use immich_on_demand.Service.Refresh.{
  RefreshHost, Policy, RefreshPolicy, assets_of, policy_of, add_sealed, add_any, add_jobs,
  replacement_refresh_policy,
}
use immich_on_demand.Service.Refresh.Growing.{Grows, Grows-refl, Grows-trans, Listed}
use immich_on_demand.Service.Refresh.Round.{
  Covered, CoveredBy, Covered-map, Covered-Grows, add_job_lem,
}

-- An asset of this identifier is returned, as the catalog lists it.
pub record Returned (h : RefreshHost) (assets : List Asset) (id : Text) : Type 0 where
  pub entry : CatalogAsset
  pub key : Text
  pub listed : h.by_id key ≡ some entry
  pub same_id : entry.asset.id ≡ id
  pub kept : Memᴰ entry.asset assets

member-assets_of :
    (d : Dict Asset) (id : Text) (asset : Asset) → get d id ≡ some asset → Memᴰ asset (assets_of d)
unfolding get assets_of
member-assets_of [] id asset e = absurd cc
member-assets_of ((k, v) ∷ d) id asset e = elim (Bool-cases (k =ₜ id)) [
  | inl same ↦ Memᴰ.head (ap (λ o. elim o [ none ↦ asset | some x ↦ x ]) (sym (rw same at e)))
  | inr other ↦ Memᴰ.tail (member-assets_of d id asset (rw other at e))
]

Listed-Returned :
    (h : RefreshHost) (d : Dict Asset) (id : Text) → Listed h d id → Returned h (assets_of d) id
Listed-Returned h d id l = record {
  entry = l.entry;
  key = l.key;
  listed = l.listed;
  same_id = l.same_id;
  kept = member-assets_of d id l.entry.asset l.kept;
}

module _ (h : RefreshHost) (job : UploadStatus) where
  add_sealed-Grows :
      (size : Option ℕ) (sha1 : Option Text) (p q : Policy)
      → add_sealed h job size sha1 p ≡ ok q
      → Grows h p q
  unfolding add_sealed
  add_sealed-Grows (some size) (some sha1) p q e = (add_job_lem h job size sha1 p q e).0
  add_sealed-Grows (some size) none p q e = subst (Grows h p) (ok_injective p q e) (Grows-refl h p)
  add_sealed-Grows none sha1 p q e = subst (Grows h p) (ok_injective p q e) (Grows-refl h p)

  add_any-Grows : (p q : Policy) → add_any h job p ≡ ok q → Grows h p q
  unfolding add_any
  add_any-Grows p q e = elim (Bool-cases (is_replacement job.operation)) [
    | inl t ↦
        add_sealed-Grows job.size job.sha1 p q
          (subst (λ b. (if b then add_sealed h job job.size job.sha1 p else ok p) ≡ ok q) t e)
    | inr f ↦
        subst (Grows h p)
          (ok_injective p q
            (subst (λ b. (if b then add_sealed h job job.size job.sha1 p else ok p) ≡ ok q) f e))
          (Grows-refl h p)
  ]

  module _ (size : ℕ) (sha1 : Text) where
    add_any-Covered :
        (p q : Policy)
        → is_replacement job.operation ≡ true
        → job.size ≡ some size
        → job.sha1 ≡ some sha1
        → add_any h job p ≡ ok q
        → CoveredBy h job q size sha1
    unfolding add_any add_sealed
    add_any-Covered p q t s c e =
        (add_job_lem h job size sha1 p q (
          subst (λ x. add_sealed h job (some size) x p ≡ ok q) c
            (subst (λ x. add_sealed h job x job.sha1 p ≡ ok q) s
              (subst (λ b. (if b then add_sealed h job job.size job.sha1 p else ok p) ≡ ok q) t
                e)))).1

add_jobs-Grows :
    (h : RefreshHost) (jobs : List UploadStatus) (p q : Policy)
    → add_jobs h jobs p ≡ ok q
    → Grows h p q
unfolding add_jobs
add_jobs-Grows h [] p q e = subst (Grows h p) (ok_injective p q e) (Grows-refl h p)
add_jobs-Grows h (job ∷ jobs) p q e =
    let (r, (first, rest)) = chain_split _ _ _ e in
    Grows-trans h p r q (add_any-Grows h job p r first) (add_jobs-Grows h jobs r q rest)

module _ (h : RefreshHost) (job : UploadStatus) (size : ℕ) (sha1 : Text) where
  add_jobs-Covered :
      (jobs : List UploadStatus) (p q : Policy)
      → Memᴰ job jobs
      → is_replacement job.operation ≡ true
      → job.size ≡ some size
      → job.sha1 ≡ some sha1
      → add_jobs h jobs p ≡ ok q
      → CoveredBy h job q size sha1
  unfolding add_jobs
  add_jobs-Covered [] p q m t s c e = absurd (Memᴰ.not-nil m)
  add_jobs-Covered (x ∷ jobs) p q m t s c e =
      let (r, (first, rest)) = chain_split _ _ _ e in
      elim (Memᴰ.cases_cons m) [
        | inl same ↦ Covered-Grows h job size sha1 r q (add_jobs-Grows h jobs r q rest) (
            add_any-Covered h job size sha1 p r t s c
              (subst (λ y. add_any h y p ≡ ok r) (sym same) first))
        | inr behind ↦ add_jobs-Covered jobs r q behind t s c rest
      ]

  -- If `_replacement_refresh_policy` returns, then of every job of the list that is a replacement with
  -- a size and a SHA-1 the catalog lists the source with the inode of the job, and an asset of the
  -- source's identifier is among the returned assets, as the catalog lists it; the candidate, if the
  -- job has one, is among the identifiers to leave out or, if one of the two conditions for keeping it
  -- holds, an asset of its identifier is returned likewise; and if the job has none, its owner, size
  -- and base64 checksum are among the signatures.
  pub replacement_refresh_policy-Covered :
      (jobs : List UploadStatus) (r : RefreshPolicy)
      → Memᴰ job jobs
      → is_replacement job.operation ≡ true
      → job.size ≡ some size
      → job.sha1 ≡ some sha1
      → replacement_refresh_policy h jobs ≡ ok r
      → Covered h job (Returned h r.assets) r.left_out r.recognised size sha1
  unfolding replacement_refresh_policy policy_of
  replacement_refresh_policy-Covered jobs r m t s c e =
      let (p, (built, last)) = chain_split _ _ _ e in
      subst
        (λ (r : RefreshPolicy).
          Covered h job (Returned h r.assets) r.left_out r.recognised size sha1)
        (ok_injective _ r last)
        (Covered-map h job (Listed h p.preserved) (Returned h (assets_of p.preserved)) p.excluded
          p.excluded p.signatures p.signatures (Listed-Returned h p.preserved) (λ id e. e)
          (λ s m. m) size sha1
          (add_jobs-Covered jobs (record { preserved = []; excluded = []; signatures = [] }) p m t s
            c built))
