-- ===== src/Uploads/Machine/History.antt =====
-- What every sequence of calls keeps of a job.
use immich_on_demand.Prelude.{
  ◌≤◌, List, [], ◌∷◌, Option, none, some, true, false, ◌≡◌, refl, ◌∙◌, ap, ◌⊎◌, inl, inr, arith,
  Bool-cases,
}
use immich_on_demand.Prelude.Text.{Text, ◌=ₜ◌, =ₜ_iff}
use immich_on_demand.Uploads.Manifest.{cancelled, ordinary, replacement, Manifest, Host}
use immich_on_demand.Uploads.Validate.{is_valid_iff, fits_state}
use immich_on_demand.Uploads.Disk.{Queue}
use immich_on_demand.Uploads.Disk.View.{manifest_of}
use immich_on_demand.Uploads.Queue.{
  marked, with_candidate, verified, retried, stopped, finished, dropped,
}
use immich_on_demand.Uploads.Draft.{sealed_manifest, abandoned}
use immich_on_demand.Uploads.Attempt.{provisional, counted, rejected}
use immich_on_demand.Uploads.Machine.{
  Edge, mark, seal, abandon, admit, count, reject, find, verify, retry, stop, finish, drop, Outcome,
  unchanged, changed, created,
}
use immich_on_demand.Uploads.Machine.Calls.{Call, job_of, perform, run, perform-Outcome}

-- What a later manifest of a job keeps of an earlier one.
pub record Follows (m m' : Manifest) : Type 0 where
  pub same_id : m'.id ≡ m.id
  pub same_owner : m'.owner_id ≡ m.owner_id
  pub revision : m.revision ≤ m'.revision
  pub attempts : m.attempt_count ≤ m'.attempt_count
  pub candidate : (m.candidate_asset_id ≡ none) ⊎ (m'.candidate_asset_id ≡ m.candidate_asset_id)
  pub hash : (m.sha1 ≡ none) ⊎ (m'.sha1 ≡ m.sha1)
  pub size : (m.size ≡ none) ⊎ (m'.size ≡ m.size)
  pub target :
      (m.operation ≡ ordinary) ⊎ ((m'.operation ≡ replacement) × (m'.old_asset_id ≡ m.old_asset_id))
  pub verification : (m.candidate_verified ≡ false) ⊎ (m'.candidate_verified ≡ true)
  pub absorbs : m.state ≡ cancelled → m' ≡ m

pub Follows-refl : (m : Manifest) → Follows m m
Follows-refl m = record {
  same_id = refl;
  same_owner = refl;
  revision = omega arith;
  attempts = omega arith;
  candidate = inr refl;
  hash = inr refl;
  size = inr refl;
  target = ground arith;
  verification = ground arith;
  absorbs = λ _. refl;
}

Edge-Follows :
    (h : Host) (m m' : Manifest) → fits_state m.state m ≡ true → Edge h m m' → Follows m m'
unfolding marked sealed_manifest abandoned provisional counted rejected with_candidate verified
    retried stopped finished dropped fits_state
Edge-Follows h m m' fits (mark _ s p) = ground arith
Edge-Follows h m m' fits (seal _ r now p) = ground arith
Edge-Follows h m m' fits (abandon _ error p) = ground arith
Edge-Follows h m m' fits (admit _ p) = ground arith
Edge-Follows h m m' fits (count _ p) = ground arith
Edge-Follows h m m' fits (reject _ p) = ground arith
Edge-Follows h m m' fits (find _ candidate p a) = ground arith
Edge-Follows h m m' fits (verify _ p c) = ground arith
Edge-Follows h m m' fits (retry _ at_ns error p s) = ground arith
Edge-Follows h m m' fits (stop _ error p) = ground arith
Edge-Follows h m m' fits (finish _ p c) = ground arith
Edge-Follows h m m' fits (drop _ p a) = ground arith

Follows-trans : {m n o : Manifest} → Follows m n → Follows n o → Follows m o
Follows-trans f g = record {
  same_id = g.same_id ∙ f.same_id;
  same_owner = g.same_owner ∙ f.same_owner;
  revision = omega arith;
  attempts = omega arith;
  candidate = ground (arith, f.candidate, g.candidate);
  hash = ground (arith, f.hash, g.hash);
  size = ground (arith, f.size, g.size);
  target = ground (arith, f.target, g.target);
  verification = ground (arith, f.verification, g.verification);
  absorbs =
      λ e. let same = f.absorbs e in g.absorbs (ap (λ (k : Manifest). k.state) same ∙ e) ∙ same;
}

-- The manifest that a job has later, and that it follows the earlier one.
abbrev Later : Manifest → Option Manifest → Type 0
Later m o = (m' : Manifest) × (o ≡ some m') × Follows m m'

Outcome-Later :
    (h : Host) (q : Queue) (job : Text) (q' : Queue) (id : Text) (m : Manifest)
    → manifest_of q id ≡ some m
    → Outcome h q job q'
    → Later m (manifest_of q' id)
Outcome-Later h q job q' id m found (unchanged same) = (m, same id ∙ found, Follows-refl m)
Outcome-Later h q job q' id m found (created origin owner name absent saved) =
    elim (Bool-cases (job =ₜ id)) [
      | inl e ↦ absurd (ground (arith, =ₜ_iff job id))
      | inr e ↦ (m, saved.views id ∙ (rw e found), Follows-refl m)
    ]
Outcome-Later h q job q' id m found (changed n n' loaded valid edge saved) =
    elim (Bool-cases (job =ₜ id)) [
      | inl e ↦
          let n≡m : n ≡ m = ground (arith, =ₜ_iff job id) in
          (
            n',
            saved.views id ∙ (rw e),
            rw (← n≡m) (Edge-Follows h n n' ((is_valid_iff h n job).0 valid).state edge),
          )
      | inr e ↦ (m, saved.views id ∙ (rw e found), Follows-refl m)
    ]

-- After any sequence of the calls that write manifests (`Call`: all but the removal of a job and the
-- recovery at the start), a job that had a manifest still has one. It has the same identifier and owner, and no smaller revision or attempt count. A candidate that was recorded, the hash and
-- size of a sealed payload, the asset that a replacement is aimed at and a verification stay. A
-- cancelled job stays exactly as it was.
pub run-Follows :
    (h : Host) (calls : List Call) (q : Queue) (id : Text) (m : Manifest)
    → manifest_of q id ≡ some m
    → (m' : Manifest) × (manifest_of (run h calls q) id ≡ some m') × Follows m m'
unfolding run
run-Follows h [] q id m found = (m, found, Follows-refl m)
run-Follows h (c ∷ calls) q id m found =
    let (n, found', f) =
      Outcome-Later h q (job_of c) (perform h c q) id m found (perform-Outcome h c q) in
    let (o, found'', g) = run-Follows h calls (perform h c q) id n found' in
    (o, found'', Follows-trans f g)
