-- ===== src/Service/Upload.antt =====
-- `_process_upload` of src/immich_on_demand/service.py: one job of the queue, from the first check to
-- its removal. The parts stand in the order in which they call each other, the last one first.
pub mod Candidate
pub mod Attempt
pub mod Admission
pub mod Process
pub mod Safety
pub mod Failing
use immich_on_demand.Prelude.{ℕ, ℤ, List, Option, none, some, Bool, true, false, not, if◌then◌else◌}
use immich_on_demand.Prelude.Text.{Text}
use immich_on_demand.Prelude.Exec.{Result, ok, err, pure, raise, ◌>>=◌, ◌>>◌}
use immich_on_demand.Prelude.Dict.{contains}
use immich_on_demand.Errors.{Exception}
use immich_on_demand.Model.Asset.{Asset, CatalogAsset}
use immich_on_demand.Uploads.Manifest.{Host, UploadErrorCode, candidate_mismatch}
use immich_on_demand.Uploads.Queue.{UploadStatus, block, retry, commit}
use immich_on_demand.Uploads.Cleanup.{remove_job}
use immich_on_demand.Service.Checks.{upload_retry_at}
use immich_on_demand.Service.World.{
  Outside, World, Act, announced, commit_called, ask, note, send, queue_call, catch, with_current,
}

-- How the `try` block of `_process_upload` ends if it does not raise: by `return`, or at its end.
pub data Exit : Type 0 where
  returned completed : Exit

-- `_block_upload`
unfoldable pub block_upload : Host → Outside → Text → UploadErrorCode → Act (Unit {0})
block_upload h e job_id error =
    catch (do queue_call e (block h job_id error); pure tt) (λ x. pure tt)

-- `_retry_upload`
unfoldable pub retry_upload : Host → Outside → UploadStatus → UploadErrorCode → Act (Unit {0})
retry_upload h e job error =
    catch
      (do
        now_ns ← ask (λ t. ok (e.now_ns t))
        queue_call e (retry h job.id (upload_retry_at now_ns job.attempt_count) (some error) none)
        pure tt)
      (λ x. pure tt)

-- `_notify_upload_finished`; no callback is one that does nothing.
unfoldable pub notify_upload_finished : Outside → Text → Act (Unit {0})
notify_upload_finished e job_id = catch (ask (λ t. e.on_upload_finished t job_id)) (λ x. pure tt)

-- `_remove_committed_upload`
unfoldable pub remove_committed_upload : Host → Outside → Text → Act (Unit {0})
remove_committed_upload h e job_id = do
  catch (queue_call e (remove_job h job_id)) (λ x. pure tt)
  notify_upload_finished e job_id

-- `_transfer_replacement_pin`
unfoldable pub transfer_replacement_pin : Outside → Text → CatalogAsset → Act (Unit {0})
transfer_replacement_pin e source_asset_id entry =
    if e.has_content_cache
    then ask (λ t.
      e.transfer_pin t source_asset_id entry.asset (contains (e.pinned_ids t) entry.asset.id))
    else pure tt

-- `await on_uploaded(entry)`
unfoldable pub announce : Outside → CatalogAsset → Act (Unit {0})
announce e entry = send (announced entry) (λ t. e.on_uploaded t entry)

-- `await _queue_call(queue.commit, current.id)`
unfoldable pub commit_current : Host → Outside → Act (Unit {0})
commit_current h e =
    with_current
      (λ current. do note (commit_called current.id); queue_call e (commit h current.id); pure tt)

-- The job is blocked and `_process_upload` returns.
unfoldable pub mismatch : Host → Outside → Act Exit
mismatch h e =
    with_current (λ current. do block_upload h e current.id candidate_mismatch; pure returned)
