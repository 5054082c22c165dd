-- ===== src/Uploads/Attempt.antt =====
-- `_begin_attempt` of src/immich_on_demand/uploads.py: a job is admitted under the lock, its payload is
-- verified without it, and the attempt is counted under the lock again. What happens between the
-- parts is up to the other callers, so each part is an action of its own.
use immich_on_demand.Prelude.{
  ℕ, ℤ, ◌+◌, Option, none, some, Bool, false, ◌&&◌, ◌||◌, ◌==◌, if◌then◌else◌, is_some, none_or,
  length,
}
use immich_on_demand.Prelude.Text.{Text, ◌=ₜ◌}
use immich_on_demand.Prelude.Exec.{Result, ok, err, guard, lift, raise, pure, ◌>>=◌, ◌>>◌}
use immich_on_demand.Errors.{Exception, Fallible, state_error, queue_error, is_queue_error}
use immich_on_demand.Uploads.Payload.{feed}
use immich_on_demand.Uploads.Manifest.{
  UploadState, attempting, committed, blocked, payload_invalid, Manifest, Host,
}
use immich_on_demand.Uploads.Disk.{Payload, Op, load, save, open_job, open_payload}
use immich_on_demand.Uploads.Draft.{same_int}
use immich_on_demand.Uploads.Equality.{same_manifest}
use immich_on_demand.Uploads.Queue.{
  UploadStatus, write_status, require_known, is_pending, is_attempting, is_queued,
}

unfoldable pub provisional : Manifest → Manifest
provisional m = record m {
  state = attempting;
  revision = m.revision + 1;
  next_attempt_ns = none;
  error = none;
}

-- The first locked part: the manifest as written and the payload that was opened.
unfoldable pub admit : Host → Text → Option ℕ → Op (Manifest × Payload)
admit h job_id revision = do
  require_known h job_id
  m ← load h job_id
  guard (none_or (λ r. m.revision == r) revision) state_error
  guard (is_pending m.state || is_attempting m.state) state_error
  dir ← open_job h job_id
  payload ← lift (open_payload h dir)
  save h job_id (provisional m)
  pure (provisional m, payload)

same_time : Option ℤ → ℤ → Bool
same_time none t = false
same_time (some s) t = same_int s t

-- The test of `_verify_sealed_payload` on the file's status.
unfoldable pub has_sealed_status : Manifest → Payload → Bool
unfolding same_time
has_sealed_status m payload =
    (elim m.size [ none ↦ false | some size ↦ length payload.bytes == size ])
    && is_some m.sha1
    && same_time m.created_ns payload.info.ctime_ns
    && same_time m.modified_ns payload.info.mtime_ns

unfoldable pub has_sealed_hash : Host → Manifest → Payload → Fallible (Unit {0})
has_sealed_hash h m payload = elim (feed payload.bytes (length payload.bytes)) [
  | err e ↦ err e
  | ok fed ↦ elim m.sha1 [
    | none ↦ err queue_error
    | some sha1 ↦ if h.sha1_hex fed =ₜ sha1 then ok tt else err queue_error
  ]
]

-- `_verify_sealed_payload`
unfoldable pub verify_sealed_payload : Host → Manifest → Payload → Fallible (Unit {0})
unfolding has_sealed_status has_sealed_hash
verify_sealed_payload h m payload =
    if has_sealed_status m payload then has_sealed_hash h m payload else err queue_error

unfoldable pub counted : Manifest → Manifest
counted m = record m { revision = m.revision + 1; attempt_count = m.attempt_count + 1 }

-- The second locked part.
unfoldable pub confirm : Host → Text → Manifest → Op UploadStatus
confirm h job_id admitted = do
  m ← load h job_id
  guard (same_manifest m admitted) state_error
  write_status h job_id (counted m)

unfoldable pub rejected : Manifest → Manifest
rejected m = record m {
  state = blocked;
  revision = m.revision + 1;
  next_attempt_ns = none;
  error = some payload_invalid;
}

-- The handler of UploadQueueError: the job is blocked if it is still as it was admitted.
unfoldable pub reject : Host → Text → Manifest → Op (Unit {0})
reject h job_id admitted = do
  m ← load h job_id
  if same_manifest m admitted then save h job_id (rejected m) else pure tt

-- `except UploadQueueError`: any other exception passes by the handler.
on_queue_error : Op (Unit {0}) → Result Exception UploadStatus → Op UploadStatus
on_queue_error handler (ok status) = pure status
on_queue_error handler (err e) = if is_queue_error e then (do handler; raise e) else raise e

-- `_begin_attempt`, with nothing in between its parts. The handler does nothing before the admission.
unfoldable pub begin_attempt : Host → Text → Option ℕ → Op UploadStatus
unfolding on_queue_error
begin_attempt h job_id revision = do
  (admitted, payload) ← admit h job_id revision
  λ q.
      let body : Op UploadStatus = do
        lift (verify_sealed_payload h admitted payload)
        confirm h job_id admitted
      in let (result, q') = body q in on_queue_error (reject h job_id admitted) result q'

-- The states whose payload `open_local` gives.
unfoldable pub is_readable : UploadState → Bool
is_readable committed = false
is_readable s = is_queued s

-- `open_local`: the sealed payload of a job that is still to be uploaded.
unfoldable pub open_local : Host → Text → Op Payload
open_local h job_id = do
  require_known h job_id
  m ← load h job_id
  guard (is_readable m.state) state_error
  dir ← open_job h job_id
  payload ← lift (open_payload h dir)
  lift (verify_sealed_payload h m payload)
  pure payload
