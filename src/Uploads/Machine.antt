-- ===== src/Uploads/Machine.antt =====
-- The state machine that the methods of `UploadQueue` (src/immich_on_demand/uploads.py) drive: the
-- changes that one locked section may make to a job's manifest.
pub mod Rules
pub mod Methods
pub mod Attempts
pub mod Drafts
pub mod Begin
pub mod Calls
pub mod History
pub mod Soundness
use immich_on_demand.Prelude.{
  ℕ, ℤ, Option, none, some, Bool, true, false, not, ◌&&◌, ◌||◌, ◌≡◌, is_some, is_none, is_nonneg,
  ◌==◌,
}
use immich_on_demand.Prelude.Text.{Text}
use immich_on_demand.Prelude.Exec.{Exec}
use immich_on_demand.Uploads.Manifest.{UploadErrorCode, Manifest, Host, is_canonical_uuid}
use immich_on_demand.Uploads.Validate.{is_valid, is_replacement, is_replacing}
use immich_on_demand.Uploads.Disk.{Queue, Op}
use immich_on_demand.Uploads.Disk.View.{manifest_of, Saved}
use immich_on_demand.Uploads.Queue.{
  Source, is_writing, is_pending, is_attempting, is_queued, is_idle, is_rejected, marked,
  with_candidate, verified, retried, stopped, finished, dropped,
}
use immich_on_demand.Uploads.Draft.{Reading, sealed_manifest, abandoned, new_manifest}
use immich_on_demand.Uploads.Attempt.{provisional, counted, rejected}

-- One change of a manifest, with what the method has checked before it.
pub data Edge (h : Host) : Manifest → Manifest → Type 0 where
  mark :
      (m : Manifest) (s : Source)
      → (not (is_replacement m.operation) && (is_writing m.state || is_pending m.state)) ≡ true
      → Edge h m (marked m s)
  seal :
      (m : Manifest) (r : Reading) (now : ℤ)
      → is_writing m.state ≡ true
      → Edge h m (sealed_manifest m r now)
  abandon :
      (m : Manifest) (error : UploadErrorCode)
      → is_writing m.state ≡ true
      → Edge h m (abandoned m error)
  admit :
      (m : Manifest)
      → (is_pending m.state || is_attempting m.state) ≡ true
      → Edge h m (provisional m)
  count : (m : Manifest) → is_attempting m.state ≡ true → Edge h m (counted m)
  reject : (m : Manifest) → is_attempting m.state ≡ true → Edge h m (rejected m)
  find :
      (m : Manifest) (candidate : Text)
      → is_attempting m.state ≡ true
      → is_none m.candidate_asset_id ≡ true
      → Edge h m (with_candidate m candidate)
  verify :
      (m : Manifest)
      → is_replacement m.operation ≡ true
      → (is_attempting m.state && is_some m.candidate_asset_id) ≡ true
      → Edge h m (verified m)
  retry :
      (m : Manifest) (at_ns : ℤ) (error : Option UploadErrorCode)
      → is_queued m.state ≡ true
      → is_some m.sha1 ≡ true
      → Edge h m (retried m at_ns error)
  stop :
      (m : Manifest) (error : UploadErrorCode)
      → is_queued m.state ≡ true
      → Edge h m (stopped m error)
  finish :
      (m : Manifest)
      → (not (is_replacement m.operation) || is_replacing m.state) ≡ true
      → (is_some m.candidate_asset_id && (is_attempting m.state || is_replacing m.state)) ≡ true
      → Edge h m (finished m)
  drop :
      (m : Manifest)
      → is_idle m.state ≡ true
      → (is_none m.candidate_asset_id && (m.attempt_count == 0 || is_rejected m.error)) ≡ true
      → Edge h m (dropped m)

-- What one locked section may do to the queue: no manifest changes, or that of the one job does, by an
-- edge from a manifest that passed the checks.
pub data Outcome (h : Host) (q : Queue) (job_id : Text) (q' : Queue) : Type 0 where
  -- `begin` made the job.
  created :
      (origin owner requested_name : Text)
      → manifest_of q job_id ≡ none
      → Saved h q job_id (new_manifest job_id origin owner requested_name) q'
      → Outcome h q job_id q'
  unchanged : ((j : Text) → manifest_of q' j ≡ manifest_of q j) → Outcome h q job_id q'
  changed :
      (m m' : Manifest)
      → manifest_of q job_id ≡ some m
      → is_valid h m job_id ≡ true
      → Edge h m m'
      → Saved h q job_id m' q'
      → Outcome h q job_id q'

-- An action whose effect is one such outcome, whether it returns or raises.
pub record Touches {A : Type 0} (h : Host) (job_id : Text) (op : Op A) : Type 0 where
  pub at : (q : Queue) → Outcome h q job_id (op q).1

-- The rest of a method after it has loaded the manifest `m`.
pub record Writes {A : Type 0} (h : Host) (job_id : Text) (m : Manifest) (op : Op A) : Type 0 where
  pub at :
      (q : Queue)
      → manifest_of q job_id ≡ some m
      → is_valid h m job_id ≡ true
      → Outcome h q job_id (op q).1
