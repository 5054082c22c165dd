-- ===== src/Uploads/Machine/Soundness.antt =====
-- What holds of every manifest that the queue has written, in every order of calls.
use mathlib.Core.Path.{subst}
use immich_on_demand.Prelude.{
  List, [], ◌∷◌, some, true, ◌≡◌, refl, sym, ◌∙◌, ◌⊎◌, inl, inr, arith, Bool-cases,
}
use immich_on_demand.Prelude.Text.{Text, ◌=ₜ◌, =ₜ_iff}
use immich_on_demand.Uploads.Manifest.{Manifest, Host}
use immich_on_demand.Uploads.Validate.{is_valid, is_valid_iff, fits_state, is_identified}
use immich_on_demand.Uploads.Disk.{Queue}
use immich_on_demand.Uploads.Disk.View.{manifest_of, Saved}
use immich_on_demand.Uploads.Queue.{
  marked, with_candidate, verified, retried, stopped, finished, dropped,
}
use immich_on_demand.Uploads.Queue.Transitions.{is_counted}
use immich_on_demand.Uploads.Draft.{sealed_manifest, abandoned, new_manifest}
use immich_on_demand.Uploads.Attempt.{provisional, counted, rejected}
use immich_on_demand.Uploads.Machine.{
  Edge, mark, seal, abandon, admit, count, reject, find, verify, retry, stop, finish, drop, Outcome,
  unchanged, changed, created,
}
use immich_on_demand.Uploads.Machine.Calls.{Call, job_of, perform, run, perform-Outcome}

-- Every manifest is the job's own, passes the checks, and has no candidate without an attempt.
pub record IsSound (h : Host) (q : Queue) : Type 0 where
  pub valid : (id : Text) (m : Manifest) → manifest_of q id ≡ some m → is_valid h m id ≡ true
  pub counts : (id : Text) (m : Manifest) → manifest_of q id ≡ some m → is_counted m ≡ true

Edge-id : (h : Host) (m m' : Manifest) → Edge h m m' → m'.id ≡ m.id
unfolding marked sealed_manifest abandoned provisional counted rejected with_candidate verified
    retried stopped finished dropped
Edge-id h m m' (mark _ s p) = refl
Edge-id h m m' (seal _ r now p) = refl
Edge-id h m m' (abandon _ error p) = refl
Edge-id h m m' (admit _ p) = refl
Edge-id h m m' (count _ p) = refl
Edge-id h m m' (reject _ p) = refl
Edge-id h m m' (find _ candidate p a) = refl
Edge-id h m m' (verify _ p c) = refl
Edge-id h m m' (retry _ at_ns error p s) = refl
Edge-id h m m' (stop _ error p) = refl
Edge-id h m m' (finish _ p c) = refl
Edge-id h m m' (drop _ p a) = refl

-- The new manifest passed the checks, so only a blocked one needs its past.
Edge-counted :
    (h : Host) (m m' : Manifest)
    → fits_state m'.state m' ≡ true
    → is_counted m ≡ true
    → Edge h m m'
    → is_counted m' ≡ true
unfolding marked sealed_manifest abandoned provisional counted rejected with_candidate verified
    retried stopped finished dropped fits_state
Edge-counted h m m' fits c (mark _ s p) = ground arith
Edge-counted h m m' fits c (seal _ r now p) = ground arith
Edge-counted h m m' fits c (abandon _ error p) = ground arith
Edge-counted h m m' fits c (admit _ p) = ground arith
Edge-counted h m m' fits c (count _ p) = ground arith
Edge-counted h m m' fits c (reject _ p) = ground arith
Edge-counted h m m' fits c (find _ candidate p a) = ground arith
Edge-counted h m m' fits c (verify _ p x) = ground arith
Edge-counted h m m' fits c (retry _ at_ns error p s) = ground arith
Edge-counted h m m' fits c (stop _ error p) = ground arith
Edge-counted h m m' fits c (finish _ p x) = ground arith
Edge-counted h m m' fits c (drop _ p a) = ground arith

-- A manifest of the queue after a save is the new one or one that was there.
Saved-cases :
    {h : Host} {q q' : Queue} {job : Text} {n : Manifest} (id : Text) (m : Manifest)
    → Saved h q job n q'
    → manifest_of q' id ≡ some m
    → ((job ≡ id) × (n ≡ m)) ⊎ (manifest_of q id ≡ some m)
Saved-cases {q} {job} {n} id m saved found = elim (Bool-cases (job =ₜ id)) [
  | inl e ↦ inl ((=ₜ_iff job id).0 e, ground (arith, saved.views id))
  | inr e ↦ inr (ground (arith, saved.views id))
]

valid_id : (h : Host) (m : Manifest) (id : Text) → is_valid h m id ≡ true → m.id ≡ id
unfolding is_identified
valid_id h m id v =
    let parts = ((is_valid_iff h m id).0 v).identified in (=ₜ_iff m.id id).0 (ground arith)

-- A saved manifest is valid as that of the job whose identifier it has.
Saved-valid :
    {h : Host} {q q' : Queue} {job : Text} (n m : Manifest) (id : Text)
    → Saved h q job n q'
    → n.id ≡ id
    → n ≡ m
    → is_valid h m id ≡ true
Saved-valid {h} n m id saved own same =
    subst (λ k. is_valid h k id ≡ true) same (subst (λ i. is_valid h n i ≡ true) own saved.valid)

new_manifest-id : (job origin owner name : Text) → (new_manifest job origin owner name).id ≡ job
unfolding new_manifest
new_manifest-id job origin owner name = refl

Outcome-IsSound :
    (h : Host) (q : Queue) (job : Text) (q' : Queue)
    → IsSound h q
    → Outcome h q job q'
    → IsSound h q'
Outcome-IsSound h q job q' s (unchanged same) = record {
  valid = λ id m found. s.valid id m (sym (same id) ∙ found);
  counts = λ id m found. s.counts id m (sym (same id) ∙ found);
}
Outcome-IsSound h q job q' s (created origin owner name absent saved) = record {
  valid = λ id m found. elim (Saved-cases id m saved found) [
    | inl (e, same) ↦
        Saved-valid (new_manifest job origin owner name) m id saved
          (new_manifest-id job origin owner name ∙ e) same
    | inr old ↦ s.valid id m old
  ];
  counts = λ id m found. elim (Saved-cases id m saved found) [
    | inl (e, same) ↦ rw (← same) (unfold new_manifest in refl)
    | inr old ↦ s.counts id m old
  ];
}
Outcome-IsSound h q job q' s (changed n n' loaded valid edge saved) = record {
  valid = λ id m found. elim (Saved-cases id m saved found) [
    | inl (e, same) ↦
        Saved-valid n' m id saved (Edge-id h n n' edge ∙ valid_id h n job valid ∙ e) same
    | inr old ↦ s.valid id m old
  ];
  counts = λ id m found. elim (Saved-cases id m saved found) [
    | inl (e, same) ↦ rw (← same) (
        Edge-counted h n n' ((is_valid_iff h n' n'.id).0 saved.valid).state (s.counts job n loaded)
          edge)
    | inr old ↦ s.counts id m old
  ];
}

-- From a queue whose manifests are sound, such as an empty one, any sequence of the calls that write
-- manifests (`Call`: all but the removal of a job and the recovery at the start), with any arguments,
-- leads to a queue whose manifests are sound: each passes `_validate_manifest` under its own job, and none has a
-- candidate without an attempt.
pub run-IsSound :
    (h : Host) (calls : List Call) (q : Queue) → IsSound h q → IsSound h (run h calls q)
unfolding run
run-IsSound h [] q s = s
run-IsSound h (c ∷ calls) q s =
    run-IsSound h calls (perform h c q)
      (Outcome-IsSound h q (job_of c) (perform h c q) s (perform-Outcome h c q))
