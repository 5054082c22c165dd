-- ===== src/Uploads/Machine/Calls.antt =====
-- The calls of the queue's locked sections that write manifests, in any order, by any number of
-- callers: each is atomic under the lock of `UploadQueue` in src/immich_on_demand/uploads.py.
use immich_on_demand.Prelude.{ℕ, ℤ, List, [], ◌∷◌, Option, true, ◌≡◌, refl}
use immich_on_demand.Prelude.Text.{Text}
use immich_on_demand.Uploads.Manifest.{Manifest, Host, UploadErrorCode}
use immich_on_demand.Uploads.Payload.{Bytes}
use immich_on_demand.Uploads.Disk.{Queue, FileInfo}
use immich_on_demand.Uploads.Queue.{Source, is_attempting}
use immich_on_demand.Uploads.Queue
use immich_on_demand.Uploads.Draft
use immich_on_demand.Uploads.Draft.{WritableUpload, Reading}
use immich_on_demand.Uploads.Attempt
use immich_on_demand.Uploads.Attempt.{provisional}
use immich_on_demand.Uploads.Machine.{Outcome}
use immich_on_demand.Uploads.Machine.Methods.{
  mark_replacement-Touches, record_candidate-Touches, begin_replacing-Touches, retry-Touches,
  block-Touches, commit-Touches, mark_cancelled-Touches,
}
use immich_on_demand.Uploads.Machine.Attempts.{admit-Touches, confirm-Touches, reject-Touches}
use immich_on_demand.Uploads.Machine.Drafts.{
  seal_draft-Touches, block_writing-Touches, write-Touches, truncate-Touches,
}
use immich_on_demand.Uploads.Machine.Begin.{begin-Touches}

-- A locked section with its arguments. What `confirm` and `reject` are given is a manifest that
-- `admit` has written.
pub data Call : Type 0 where
  begin : Text → FileInfo → FileInfo → Text → Text → Text → Call
  write : ℕ → ℕ → ℤ → WritableUpload → ℕ → Bytes → Call
  truncate : ℕ → ℕ → ℤ → WritableUpload → ℕ → Call
  seal : WritableUpload → Reading → ℤ → Call
  block_writing : WritableUpload → UploadErrorCode → Call
  mark_replacement : Text → ℕ → Source → Call
  admit : Text → Option ℕ → Call
  confirm reject : Text → Manifest → Call
  record_candidate : Text → Text → Call
  begin_replacing : Text → Call
  retry : Text → ℤ → Option UploadErrorCode → Option ℕ → Call
  block : Text → UploadErrorCode → Call
  commit : Text → Call
  -- What `cancel` records before it calls `_cleanup_job`.
  cancel : Text → Text → ℕ → Call

-- The job that a call names.
unfoldable pub job_of : Call → Text
job_of (begin id _ _ _ _ _) = id
job_of (write _ _ _ draft _ _) = draft.id
job_of (truncate _ _ _ draft _) = draft.id
job_of (seal draft _ _) = draft.id
job_of (block_writing draft _) = draft.id
job_of (mark_replacement id _ _) = id
job_of (admit id _) = id
job_of (confirm id _) = id
job_of (reject id _) = id
job_of (record_candidate id _) = id
job_of (begin_replacing id) = id
job_of (retry id _ _ _) = id
job_of (block id _) = id
job_of (commit id) = id
job_of (cancel id _ _) = id

-- The queue after a call, whether it returned or raised.
unfoldable pub perform : Host → Call → Queue → Queue
perform h (begin id dir file name origin owner) q =
    (Draft.begin h id dir file name origin owner q).1
perform h (write free floor now draft offset content) q =
    (Draft.write h free floor now draft offset content q).1
perform h (truncate free floor now draft size) q = (Draft.truncate h free floor now draft size q).1
perform h (seal draft r now) q = (Draft.seal_draft h draft r now q).1
perform h (block_writing draft error) q = (Draft.block_writing h draft error q).1
perform h (mark_replacement id revision s) q = (Queue.mark_replacement h id revision s q).1
perform h (admit id revision) q = (Attempt.admit h id revision q).1
perform h (confirm id m) q = (Attempt.confirm h id (provisional m) q).1
perform h (reject id m) q = (Attempt.reject h id (provisional m) q).1
perform h (record_candidate id candidate) q = (Queue.record_candidate h id candidate q).1
perform h (begin_replacing id) q = (Queue.begin_replacing h id q).1
perform h (retry id at error revision) q = (Queue.retry h id at error revision q).1
perform h (block id error) q = (Queue.block h id error q).1
perform h (commit id) q = (Queue.commit h id q).1
perform h (cancel id name revision) q = (Queue.mark_cancelled h id name revision q).1

unfoldable pub run : Host → List Call → Queue → Queue
run h [] q = q
run h (c ∷ calls) q = run h calls (perform h c q)

provisional_running : (m : Manifest) → is_attempting (provisional m).state ≡ true
unfolding provisional
provisional_running m = refl

-- Whatever the arguments and the state of the directory are, and whether one of these sections
-- returns or raises, it changes no manifest, or that of the one job that it names: by creating it where there was
-- none, or by one edge of the state machine from a manifest that passed `_validate_manifest` to one
-- that passes it too.
pub perform-Outcome : (h : Host) (c : Call) (q : Queue) → Outcome h q (job_of c) (perform h c q)
unfolding perform job_of
perform-Outcome h (begin id dir file name origin owner) q =
    (begin-Touches h id dir file name owner origin).at q
perform-Outcome h (write free floor now draft offset content) q =
    (write-Touches h free floor now draft offset content).at q
perform-Outcome h (truncate free floor now draft size) q =
    (truncate-Touches h free floor now draft size).at q
perform-Outcome h (seal draft r now) q = (seal_draft-Touches h draft r now).at q
perform-Outcome h (block_writing draft error) q = (block_writing-Touches h draft error).at q
perform-Outcome h (mark_replacement id revision s) q =
    (mark_replacement-Touches h id revision s).at q
perform-Outcome h (admit id revision) q = (admit-Touches h id revision).at q
perform-Outcome h (confirm id m) q =
    (confirm-Touches h id (provisional m) (provisional_running m)).at q
perform-Outcome h (reject id m) q =
    (reject-Touches h id (provisional m) (provisional_running m)).at q
perform-Outcome h (record_candidate id candidate) q = (record_candidate-Touches h id candidate).at q
perform-Outcome h (begin_replacing id) q = (begin_replacing-Touches h id).at q
perform-Outcome h (retry id at error revision) q = (retry-Touches h id at error revision).at q
perform-Outcome h (block id error) q = (block-Touches h id error).at q
perform-Outcome h (commit id) q = (commit-Touches h id).at q
perform-Outcome h (cancel id name revision) q = (mark_cancelled-Touches h id name revision).at q
