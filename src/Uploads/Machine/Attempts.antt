-- ===== src/Uploads/Machine/Attempts.antt =====
-- The locked sections of `_begin_attempt` have outcomes of the state machine.
use immich_on_demand.Prelude.{ℕ, Option, true, ◌≡◌, arith}
use immich_on_demand.Prelude.Text.{Text}
use immich_on_demand.Uploads.Manifest.{Manifest, Host}
use immich_on_demand.Uploads.Disk.{open_job}
use immich_on_demand.Uploads.Queue.{is_attempting}
use immich_on_demand.Uploads.Attempt.{provisional, counted, rejected, admit, confirm, reject}
use immich_on_demand.Uploads.Equality.{same_manifest, same_manifest_iff}
use immich_on_demand.Uploads.Machine.{Edge, Touches}
use immich_on_demand.Uploads.Machine.Methods.{known_load}
use immich_on_demand.Uploads.Machine.Rules.{
  Reads, Reads-pure, Reads-lift, Reads-guard, Touches-load, Writes-bind, Writes-guard, Writes-if,
  Writes-Reads, Writes-save, Writes-save-pure, Writes-write_status,
}

pub Reads-open_job : (h : Host) (job_id : Text) → Reads (open_job h job_id)
unfolding open_job
Reads-open_job h job_id = record { keeps = λ q. ground arith }

module _ (h : Host) (job_id : Text) where
  pub admit-Touches : (revision : Option ℕ) → Touches h job_id (admit h job_id revision)
  unfolding admit
  admit-Touches revision = known_load h job_id _ (λ m.
      Writes-bind h job_id m _ _ (Reads-guard _ _) (λ _. Writes-guard h job_id m _ _ _ (λ ready.
        Writes-bind h job_id m _ _ (Reads-open_job h job_id) (λ dir.
          Writes-bind h job_id m _ _ (Reads-lift _)
            (λ payload. Writes-save-pure h job_id m (provisional m) (Edge.admit m ready) _)))))

  -- The manifest that was admitted is in the state ATTEMPTING.
  pub confirm-Touches :
      (admitted : Manifest)
      → is_attempting admitted.state ≡ true
      → Touches h job_id (confirm h job_id admitted)
  unfolding confirm
  confirm-Touches admitted running = Touches-load h job_id _ (λ m.
      Writes-guard h job_id m _ _ _ (λ same.
        Writes-write_status h job_id m (counted m)
          (Edge.count m (rw ((same_manifest_iff m admitted).0 same) running))))

  pub reject-Touches :
      (admitted : Manifest)
      → is_attempting admitted.state ≡ true
      → Touches h job_id (reject h job_id admitted)
  unfolding reject
  reject-Touches admitted running = Touches-load h job_id _ (λ m.
      Writes-if h job_id m (same_manifest m admitted) _ _
        (λ same.
          Writes-save h job_id m (rejected m)
            (Edge.reject m (rw ((same_manifest_iff m admitted).0 same) running)))
        (λ _. Writes-Reads h job_id m _ (Reads-pure tt)))
