-- ===== src/Service/Refresh/Round.antt =====
-- One round of the loop of `_replacement_refresh_policy` in src/immich_on_demand/service.py: the job of
-- the round is covered.
use mathlib.Core.Path.{subst}
use mathlib.Core.List.{Memᴰ}
use immich_on_demand.Prelude.{
  ℕ, Option, none, some, true, ◌≡◌, refl, ap, arith, ◌⊎◌, inl, inr, if◌then◌else◌, Bool-cases, List,
}
use immich_on_demand.Prelude.Text.{Text, =ₜ_iff}
use immich_on_demand.Prelude.Exec.{ok, err}
use immich_on_demand.Prelude.Fallible.{chain_split, ok_injective}
use immich_on_demand.Prelude.Dict.{contains, contains-add}
use immich_on_demand.Errors.{Fallible, local_error}
use immich_on_demand.Model.Asset.{CatalogAsset}
use immich_on_demand.Uploads.Queue.{UploadStatus}
use immich_on_demand.Service.Refresh.{
  RefreshHost, Signature, Policy, keeps_candidate, preserve, exclude, sign, place_candidate, place,
  current_source, encoded, old_id, has_inode, add_job,
}
use immich_on_demand.Service.Refresh.Growing.{
  Listed, Grows, Grows-trans, preserved_lem, preserve-Grows, exclude-Grows, sign-Grows,
}

module _ (h : RefreshHost) (job : UploadStatus) (Kept : Text → Type 0) (left_out : List Text)
    (recognised : List Signature) where
  -- A known candidate is kept, if it is in the catalog and the conditions say so, or left out. An
  -- unknown one is recognised by its signature.
  unfoldable pub CandidateCovered : CatalogAsset → Signature → Option Text → Type 0
  CandidateCovered source s none = Memᴰ s recognised
  CandidateCovered source s (some id) =
      (contains left_out id ≡ true)
      ⊎ ((entry : CatalogAsset) × ((h.by_id id ≡ some entry)
            × (keeps_candidate job source entry ≡ true)
            × Kept entry.asset.id))

  -- The job's source is kept, and its candidate is kept or left out, or is recognised by its owner,
  -- size and checksum if it is not known.
  pub record Covered (size : ℕ) (sha1 : Text) : Type 0 where
    pub source : CatalogAsset
    pub listed : h.by_id (old_id job.old_asset_id) ≡ some source
    pub same_inode : has_inode job.old_inode source.inode ≡ true
    pub source_kept : Kept source.asset.id
    pub checksum : Text
    pub decoded : h.base64_of_hex sha1 ≡ some checksum
    pub candidate :
        CandidateCovered source
          (record { owner_id = job.owner_id; size = size; checksum = checksum })
          job.candidate_asset_id

-- A job is covered by the policy as it stands in the loop.
abbrev pub CoveredBy : RefreshHost → UploadStatus → Policy → ℕ → Text → Type 0
CoveredBy h job p = Covered h job (Listed h p.preserved) p.excluded p.signatures

err_apart :
    {P : Type 0} (x : CatalogAsset) → ◌≡◌ {A = Fallible CatalogAsset} (err local_error) (ok x) → P
err_apart x h = absurd cc

module _ (h : RefreshHost) (job : UploadStatus) where
  module _ (K K' : Text → Type 0) (a a' : List Text) (b b' : List Signature)
      (f : (id : Text) → K id → K' id)
      (g : (id : Text) → contains a id ≡ true → contains a' id ≡ true)
      (k : (s : Signature) → Memᴰ s b → Memᴰ s b') where
    candidate-map :
        (source : CatalogAsset) (s : Signature) (id : Option Text)
        → CandidateCovered h job K a b source s id
        → CandidateCovered h job K' a' b' source s id
    unfolding CandidateCovered
    candidate-map source s none m = k s m
    candidate-map source s (some id) (inl e) = inl (g id e)
    candidate-map source s (some id) (inr (entry, (l, t, e))) =
        inr (entry, (l, t, f entry.asset.id e))

    pub Covered-map :
        (size : ℕ) (sha1 : Text) → Covered h job K a b size sha1 → Covered h job K' a' b' size sha1
    Covered-map size sha1 c = record {
      source = c.source;
      listed = c.listed;
      same_inode = c.same_inode;
      source_kept = f c.source.asset.id c.source_kept;
      checksum = c.checksum;
      decoded = c.decoded;
      candidate =
          candidate-map c.source
            (record { owner_id = job.owner_id; size = size; checksum = c.checksum })
            job.candidate_asset_id c.candidate;
    }

  pub Covered-Grows :
      (size : ℕ) (sha1 : Text) (p q : Policy)
      → Grows h p q
      → CoveredBy h job p size sha1
      → CoveredBy h job q size sha1
  Covered-Grows size sha1 p q g =
      Covered-map (Listed h p.preserved) (Listed h q.preserved) p.excluded q.excluded p.signatures
        q.signatures g.preserved g.excluded g.signatures size sha1

  place_candidate-Grows :
      (source : CatalogAsset) (id : Text) (found : Option CatalogAsset) (p : Policy)
      → h.by_id id ≡ found
      → Grows h p (place_candidate job source id found p)
  unfolding place_candidate
  place_candidate-Grows source id none p l = exclude-Grows h id p
  place_candidate-Grows source id (some entry) p l =
      elim (Bool-cases (keeps_candidate job source entry)) [
        | inl e ↦ rw e (preserve-Grows h id entry l p)
        | inr e ↦ rw e (exclude-Grows h id p)
      ]

  place-Grows :
      (source : CatalogAsset) (s : Signature) (id : Option Text) (p : Policy)
      → Grows h p (place h job source s id p)
  unfolding place
  place-Grows source s none p = sign-Grows h s p
  place-Grows source s (some id) p = place_candidate-Grows source id (h.by_id id) p refl

  excluded_lem : (id : Text) (p : Policy) → contains (exclude id p).excluded id ≡ true
  unfolding exclude
  excluded_lem id p = ground (arith, contains-add p.excluded id id, =ₜ_iff id id)

  abbrev CoveredIn : Policy → CatalogAsset → Signature → Option Text → Type 0
  CoveredIn p = CandidateCovered h job (Listed h p.preserved) p.excluded p.signatures

  place_candidate-Covered :
      (source : CatalogAsset) (s : Signature) (id : Text) (found : Option CatalogAsset) (p : Policy)
      → h.by_id id ≡ found
      → CoveredIn (place_candidate job source id found p) source s (some id)
  unfolding place_candidate CandidateCovered
  place_candidate-Covered source s id none p e = inl (excluded_lem id p)
  place_candidate-Covered source s id (some entry) p l =
      elim (Bool-cases (keeps_candidate job source entry)) [
        | inl e ↦ inr (entry, (l, e, rw e (preserved_lem h id entry l p)))
        | inr e ↦ inl (rw e (excluded_lem id p))
      ]

  place-Covered :
      (source : CatalogAsset) (s : Signature) (id : Option Text) (p : Policy)
      → CoveredIn (place h job source s id p) source s id
  unfolding place CandidateCovered sign
  place-Covered source s none p = Memᴰ.head refl
  place-Covered source s (some id) p = place_candidate-Covered source s id (h.by_id id) p refl

  current_source_lem :
      (found : Option CatalogAsset) (source : CatalogAsset)
      → current_source job found ≡ ok source
      → (found ≡ some source) × (has_inode job.old_inode source.inode ≡ true)
  unfolding current_source
  current_source_lem none source e = absurd cc
  current_source_lem (some entry) source e =
      elim (Bool-cases (has_inode job.old_inode entry.inode)) [
        | inl t ↦
            let same =
              ok_injective entry source
                (subst (λ b. (if b then ok entry else err local_error) ≡ ok source) t e) in
            (ap some same, subst (λ x. has_inode job.old_inode x.inode ≡ true) same t)
        | inr f ↦
            err_apart source
              (subst (λ b. (if b then ok entry else err local_error) ≡ ok source) f e)
      ]

  encoded_lem :
      (found : Option Text) (checksum : Text) → encoded found ≡ ok checksum → found ≡ some checksum
  unfolding encoded
  encoded_lem none checksum e = absurd cc
  encoded_lem (some x) checksum e = ap some (ok_injective x checksum e)

  pub add_job_lem :
      (size : ℕ) (sha1 : Text) (p q : Policy)
      → add_job h job size sha1 p ≡ ok q
      → Grows h p q × CoveredBy h job q size sha1
  unfolding add_job
  add_job_lem size sha1 p q e =
      let (source, (found, rest)) = chain_split _ _ _ e in
      let (checksum, (decoded, last)) = chain_split _ _ _ rest in
      let (listed, same_inode) =
        current_source_lem (h.by_id (old_id job.old_asset_id)) source found in
      let s : Signature = record { owner_id = job.owner_id; size = size; checksum = checksum } in
      let kept = preserve source.asset p in
      let r = place h job source s job.candidate_asset_id kept in
      let grown = place-Grows source s job.candidate_asset_id kept in
      subst (λ q. Grows h p q × CoveredBy h job q size sha1) (ok_injective r q last)
        (
          Grows-trans h p kept r (preserve-Grows h (old_id job.old_asset_id) source listed p) grown,
          record {
            source = source;
            listed = listed;
            same_inode = same_inode;
            source_kept =
                grown.preserved source.asset.id
                  (preserved_lem h (old_id job.old_asset_id) source listed p);
            checksum = checksum;
            decoded = encoded_lem (h.base64_of_hex sha1) checksum decoded;
            candidate = place-Covered source s job.candidate_asset_id kept;
          },
        )
