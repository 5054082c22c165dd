-- ===== src/Service/Upload/Process.antt =====
-- `_process_upload` of src/immich_on_demand/service.py as a whole: the checks of the profile, and what
-- follows on each end of the `try` block.
use immich_on_demand.Prelude.{Bool, ◌||◌, if◌then◌else◌, is_none}
use immich_on_demand.Prelude.Text.{◌=ₜ◌}
use immich_on_demand.Prelude.Exec.{Result, ok, err, pure, raise, lift, ◌>>=◌, ◌>>◌}
use immich_on_demand.Errors.{
  Exception, queue_error, state_error, immich_error, immich_response, immich_unavailable,
  immich_retryable, preview_suppression,
}
use immich_on_demand.Uploads.Manifest.{
  Host, profile_mismatch, upload_unavailable, ambiguous_response, candidate_mismatch,
  upload_rejected, local_state_failed,
}
use immich_on_demand.Uploads.Validate.{is_replacing}
use immich_on_demand.Uploads.Queue.{UploadStatus}
use immich_on_demand.Library.{Library, ServerSession, mutation_enabled, mutation_access}
use immich_on_demand.Service.World.{Outside, Act, with_current}
use immich_on_demand.Service.Upload.{
  Exit, returned, completed, block_upload, retry_upload, remove_committed_upload,
}
use immich_on_demand.Service.Upload.Attempt.{process_body}

-- The `except` clauses, in their order.
unfoldable pub on_failure : Host → Outside → Exception → UploadStatus → Act (Unit {0})
on_failure h e immich_unavailable current = retry_upload h e current upload_unavailable
on_failure h e immich_retryable current = retry_upload h e current upload_unavailable
on_failure h e immich_response current =
    if is_none current.candidate_asset_id || is_replacing current.state
    then retry_upload h e current ambiguous_response
    else block_upload h e current.id candidate_mismatch
on_failure h e immich_error current = block_upload h e current.id upload_rejected
on_failure h e queue_error current = pure tt
on_failure h e state_error current = pure tt
on_failure h e preview_suppression current = do
  block_upload h e current.id local_state_failed
  raise preview_suppression
on_failure h e _ current = block_upload h e current.id local_state_failed

-- The `except` clauses and the `else` clause.
unfoldable pub settle : Host → Outside → Result Exception Exit → Act (Unit {0})
settle h e (ok returned) = pure tt
settle h e (ok completed) = with_current (λ current. remove_committed_upload h e current.id)
settle h e (err x) = with_current (on_failure h e x)

unfoldable pub run_body : Host → Outside → Bool → Act (Unit {0})
run_body h e remote_delete w = let (r, w') = process_body h e remote_delete w in settle h e r w'

unfoldable pub process_for :
    Host → Outside → Library → UploadStatus → ServerSession → Act (Unit {0})
process_for h e library job session =
    if session.owner_id =ₜ job.owner_id
    then (λ w. run_body h e library.settings.remote_delete (record w { current = job }))
    else block_upload h e job.id profile_mismatch

-- `_process_upload`
unfoldable pub process_upload : Host → Outside → Library → UploadStatus → Act (Unit {0})
process_upload h e library job =
    if job.server_origin =ₜ library.settings.server_origin
    then (if mutation_enabled library
        then (do session ← lift (mutation_access library); process_for h e library job session)
        else pure tt)
    else block_upload h e job.id profile_mismatch
