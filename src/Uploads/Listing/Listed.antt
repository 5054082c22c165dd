-- ===== src/Uploads/Listing/Listed.antt =====
-- What `list` of src/immich_on_demand/uploads.py returns: the jobs that can be read, in order.
use mathlib.Core.List.{Permᴰ}
use immich_on_demand.Prelude.{
  List, [], ◌∷◌, none, true, ◌&&◌, ◌≡◌, refl, sym, ap, ◌∙◌, arith, ◌⊎◌, inl, inr, is_some,
  Bool-cases,
}
use immich_on_demand.Prelude.Text.{Text, ◌=ₜ◌, =ₜ_iff}
use immich_on_demand.Prelude.Exec.{ok, ◌>>=◌, Result-cases}
use immich_on_demand.Prelude.Dict.{contains}
use immich_on_demand.Uploads.Manifest.{Host, is_canonical_uuid}
use immich_on_demand.Uploads.Disk.{Queue}
use immich_on_demand.Uploads.Queue.{UploadStatus}
use immich_on_demand.Uploads.Listing.{status, statuses, list, sort_jobs}
use immich_on_demand.Uploads.Listing.Order.{IsSorted, sort-IsSorted, sort-Permᴰ}
use immich_on_demand.Uploads.Listing.Readable.{
  read_job, readable, readings, load_by_jobs, Lists, Lists-refl, Lists-trans, status_state,
  status_result, status_leaves,
}

-- Each id is canonical, and listed unless it cannot be read.
abbrev Known : Host → Queue → List Text → Type 0
Known h q ids =
    (i : Text)
    → contains ids i ≡ true
    → (is_canonical_uuid h i ≡ true) × ((contains q.valid_ids i ≡ true) ⊎ (readable h q i ≡ none))

module _ (h : Host) where
  Known-after :
      (q q' : Queue) (id : Text) (ids : List Text)
      → Known h q (id ∷ ids)
      → Lists h q q'
      → Known h q' ids
  unfolding readable contains
  Known-after q q' id ids k l i e =
      let (c, listed) = k i (ground arith) in
      let same = ap read_job (load_by_jobs h i q q' l.same_jobs) in
      (
        c,
        elim listed [
          | inr n ↦ inr (same ∙ n)
          | inl v ↦ elim (l.dropped i v) [ inl v' ↦ inl v' | inr n ↦ inr (same ∙ n) ]
        ],
      )

  readings_by_jobs :
      (q q' : Queue) (ids : List Text) → q'.jobs ≡ q.jobs → readings h q' ids ≡ readings h q ids
  unfolding readings readable
  readings_by_jobs q q' [] e = refl
  readings_by_jobs q q' (id ∷ ids) e = rw (load_by_jobs h id q q' e, readings_by_jobs q q' ids e)

  statuses_state : (ids : List Text) (q : Queue) → Lists h q (statuses h ids q).1
  unfolding statuses ◌>>=◌
  statuses_state [] q = Lists-refl h q
  statuses_state (id ∷ ids) q = elim (Result-cases (status h id q).0) [
    | inr (x, e) ↦ rw e (status_state h q id)
    | inl (job, e) ↦ rw e (elim (Result-cases (statuses h ids (status h id q).1).0) [
      | inr (x, k) ↦ rw k (Lists-trans h _ _ _ (status_state h q id) (statuses_state ids _))
      | inl (jobs, k) ↦ rw k (Lists-trans h _ _ _ (status_state h q id) (statuses_state ids _))
    ])
  ]

  statuses_result :
      (ids : List Text) (q : Queue) → Known h q ids → (statuses h ids q).0 ≡ ok (readings h q ids)
  unfolding statuses readings contains ◌>>=◌
  statuses_result [] q k = refl
  statuses_result (id ∷ ids) q k =
      let (c, listed) = k id (ground (arith, =ₜ_iff id id)) in
      let first = status_result h q id c listed in
      let later = status_state h q id in
      let rest = statuses_result ids (status h id q).1 (Known-after q _ id ids k later) in
      rw (first, rest, readings_by_jobs q (status h id q).1 ids later.same_jobs)

  cons_state :
      (id : Text) (ids : List Text) (q : Queue)
      → is_canonical_uuid h id ≡ true
      → (contains q.valid_ids id ≡ true) ⊎ (readable h q id ≡ none)
      → Known h (status h id q).1 ids
      → (statuses h (id ∷ ids) q).1 ≡ (statuses h ids (status h id q).1).1
  unfolding statuses ◌>>=◌
  cons_state id ids q c listed known =
      rw (status_result h q id c listed, statuses_result ids (status h id q).1 known)

  statuses_leaves :
      (ids : List Text) (q : Queue)
      → Known h q ids
      → (i : Text) → contains ids i ≡ true
      → contains (statuses h ids q).1.valid_ids i ≡ true
      → is_some (readable h q i) ≡ true
  unfolding statuses contains readable
  statuses_leaves [] q k i m l = absurd cc
  statuses_leaves (id ∷ ids) q k i m l =
      let (c, listed) = k id (ground (arith, =ₜ_iff id id)) in
      let later = status_state h q id in
      let s = (status h id q).1 in
      let known = Known-after q s id ids k later in
      let l' : contains (statuses h ids s).1.valid_ids i ≡ true =
        ap (λ (r : Queue). contains r.valid_ids i) (sym (cons_state id ids q c listed known)) ∙ l in
      elim (Bool-cases (id =ₜ i)) [
        | inr other ↦
            ap (λ r. is_some (read_job r)) (sym (load_by_jobs h i q s later.same_jobs))
            ∙ statuses_leaves ids s known i (ground arith) l'
        | inl same ↦
            let e = (=ₜ_iff id i).0 same in
            ap (λ j. is_some (readable h q j)) (sym e)
            ∙ status_leaves h q id c
                (ap (contains s.valid_ids) e ∙ (statuses_state ids s).kept i l')
      ]

-- What `list` returns and what it leaves.
pub record Listed (h : Host) (q : Queue) (jobs : List UploadStatus) : Type 0 where
  pub returned : (list h q).0 ≡ ok jobs
  pub all_readable : Permᴰ (readings h q q.valid_ids) jobs
  pub ordered : IsSorted jobs
  pub same_jobs : (list h q).1.jobs ≡ q.jobs
  pub left :
      (i : Text)
      → contains (list h q).1.valid_ids i ≡ (contains q.valid_ids i && is_some (readable h q i))

abbrev pub AllCanonical : Host → Queue → Type 0
AllCanonical h q = (i : Text) → contains q.valid_ids i ≡ true → is_canonical_uuid h i ≡ true

module _ (h : Host) (q : Queue) (canonical : AllCanonical h q) where
  known : Known h q q.valid_ids
  known i e = (canonical i e, inl e)

  list_returns :
      list h q ≡ (ok (sort_jobs (readings h q q.valid_ids)), (statuses h q.valid_ids q).1)
  unfolding list ◌>>=◌
  list_returns = rw (statuses_result h q.valid_ids q known) refl

  left_after :
      (i : Text)
      → contains (statuses h q.valid_ids q).1.valid_ids i
        ≡ (contains q.valid_ids i && is_some (readable h q i))
  left_after i =
      let l = statuses_state h q.valid_ids q in
      let leaves = statuses_leaves h q.valid_ids q known i in
      ground (arith, l.kept i, l.dropped i, leaves)

  -- If every listed id is canonical, `list` returns the manifests of exactly the listed jobs that
  -- can be read, each as often as it is listed, sorted by the time of sealing and the id. Afterwards
  -- exactly these jobs are listed, and no job's directory has changed.
  pub list-Listed : Listed h q (sort_jobs (readings h q q.valid_ids))
  list-Listed = record {
    returned = ap (λ r. r.0) list_returns;
    all_readable = sort-Permᴰ (readings h q q.valid_ids);
    ordered = sort-IsSorted (readings h q q.valid_ids);
    same_jobs = ap (λ r. r.1.jobs) list_returns ∙ (statuses_state h q.valid_ids q).same_jobs;
    left = λ i. ap (λ r. contains r.1.valid_ids i) list_returns ∙ left_after i;
  }
