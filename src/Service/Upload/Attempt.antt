-- ===== src/Service/Upload/Attempt.antt =====
-- The first half of `_process_upload` in src/immich_on_demand/service.py: the source of a replacement
-- is compared with the job, and the payload is sent.
use immich_on_demand.Prelude.{
  ℕ, List, [], Option, none, some, Bool, true, false, not, ◌&&◌, ◌==◌, if◌then◌else◌, is_none,
}
use immich_on_demand.Prelude.Text.{Text, ◌=ₜ◌, same_texts}
use immich_on_demand.Prelude.Exec.{pure, raise, lift, ◌>>=◌, ◌>>◌}
use immich_on_demand.Errors.{Exception, is_queue_error}
use immich_on_demand.Model.Asset.{Asset, CatalogAsset}
use immich_on_demand.Uploads.Disk.{Payload}
use immich_on_demand.Uploads.Manifest.{Manifest, Host, upload_rejected}
use immich_on_demand.Uploads.Validate.{is_replacement, is_replacing}
use immich_on_demand.Uploads.Queue.{UploadStatus, is_pending, record_candidate}
use immich_on_demand.Uploads.Attempt.{admit, verify_sealed_payload, confirm, reject}
use immich_on_demand.Uploads.Cleanup.{cancel}
use immich_on_demand.Service.Checks.{
  Codec, upload_matches, replacement_source_matches, replacement_candidate_matches,
  same_managed_checksum,
}
use immich_on_demand.Service.World.{
  Outside, Act, upload_sent, entry_resumed, ask, note, send, queue_call, queue_status, take_status,
  catch, with_current, read_asset,
}
use immich_on_demand.Service.Upload.{
  Exit, returned, block_upload, notify_upload_finished, transfer_replacement_pin, announce,
  commit_current, remove_committed_upload, mismatch,
}
use immich_on_demand.Service.Upload.Candidate.{verify_candidate}

-- `except UploadQueueError` of `_begin_attempt`
unfoldable pub reject_attempt : Host → Outside → Text → Manifest → Exception → Act UploadStatus
reject_attempt h e job_id admitted x =
    if is_queue_error x then (do queue_call e (reject h job_id admitted); raise x) else raise x

-- The payload is verified and the attempt counted.
unfoldable pub confirm_attempt : Host → Outside → Text → Manifest × Payload → Act UploadStatus
confirm_attempt h e job_id (admitted, payload) =
    catch
      (do lift (verify_sealed_payload h admitted payload); queue_call e (confirm h job_id admitted))
      (reject_attempt h e job_id admitted)

-- `open_attempt` of the queue: what it does under the lock are calls of their own.
unfoldable pub open_attempt : Host → Outside → Text → ℕ → Act UploadStatus
open_attempt h e job_id revision =
    queue_call e (admit h job_id (some revision)) >>= confirm_attempt h e job_id

abbrev pub replaced_asset : Option CatalogAsset → Option Asset
replaced_asset none = none
replaced_asset (some source) = some source.asset

-- A payload that has no candidate yet is sent, and the candidate is recorded.
unfoldable pub send_payload : Host → Outside → Option CatalogAsset → Option Text → Act (Unit {0})
send_payload h e source (some candidate) = pure tt
send_payload h e source none = with_current (λ current. do
  candidate ←
      send (upload_sent current.id)
        (λ t. e.upload_reply t current.requested_name current.id (replaced_asset source))
  queue_status e (record_candidate h current.id candidate))

-- Unless the replacement has begun, an attempt is admitted and the payload is sent.
unfoldable pub send_upload : Host → Outside → Option CatalogAsset → Act (Unit {0})
send_upload h e source = with_current (λ current.
    if is_replacing current.state then pure tt else (do
      admitted ← open_attempt h e current.id current.revision
      take_status admitted
      send_payload h e source admitted.candidate_asset_id))

unfoldable pub attempt : Host → Outside → Option CatalogAsset → Act Exit
attempt h e source = do
  send_upload h e source
  with_current (λ current. verify_candidate h e source current.candidate_asset_id)

abbrev is_inode : ℕ → Option ℕ → Bool
is_inode inode none = false
is_inode inode (some old) = inode == old

abbrev is_name : Text → Option Text → Bool
is_name name none = false
is_name name (some old) = name =ₜ old

-- The test for a replacement that was published before the job could be committed.
unfoldable pub is_published : Codec → UploadStatus → CatalogAsset → CatalogAsset → Bool
is_published c job source published =
    is_replacing job.state
    && job.candidate_verified
    && is_inode source.inode job.old_inode
    && source.asset.is_trashed
    && replacement_source_matches job source.asset true
    && is_name published.name job.old_name
    && not (published.inode == source.inode)
    && upload_matches c job published.asset job.id
    && replacement_candidate_matches source.asset published.asset

-- Such a replacement is announced again and committed.
unfoldable pub resume : Host → Outside → CatalogAsset → CatalogAsset → Act Exit
resume h e source published = do
  note (entry_resumed published)
  announce e published
  transfer_replacement_pin e source.asset.id published
  commit_current h e
  with_current (λ current. remove_committed_upload h e current.id)
  pure returned

-- The test on the catalog's entry of the source, but for its albums.
unfoldable pub is_current_source : UploadStatus → CatalogAsset → Bool
is_current_source job source =
    is_inode source.inode job.old_inode
    && is_name source.name job.old_name
    && is_name job.requested_name job.old_name
    && replacement_source_matches job source.asset false

unfoldable pub are_source_albums : List Text → Option (List Text) → Bool
are_source_albums albums none = false
are_source_albums albums (some expected) = same_texts albums expected

-- The new content is the old one, and nothing was sent.
unfoldable pub is_unchanged : Codec → UploadStatus → Asset → Bool
is_unchanged c job source =
    is_pending job.state
    && is_none job.candidate_asset_id
    && job.attempt_count == 0
    && same_managed_checksum c job source

-- Such a job is cancelled.
unfoldable pub cancel_unchanged : Host → Outside → Act Exit
cancel_unchanged h e = with_current (λ current. do
  queue_call e (cancel h current.id current.requested_name current.revision)
  notify_upload_finished e current.id
  pure returned)

unfoldable pub compare_remote : Host → Outside → CatalogAsset → Act Exit
compare_remote h e source = do
  remote ← read_asset h e source.asset.id
  with_current (λ current.
      if replacement_source_matches current remote
        (is_replacing current.state && current.candidate_verified)
      then (if is_unchanged e.codec current source.asset
          then cancel_unchanged h e
          else attempt h e (some source))
      else mismatch h e)

unfoldable pub compare_source : Host → Outside → Option CatalogAsset → Act Exit
compare_source h e none = mismatch h e
compare_source h e (some source) = with_current (λ current.
    if is_current_source current source
    then (do
      albums ← ask (λ t. e.album_ids t source.asset.id)
      if are_source_albums albums current.source_album_ids
          then compare_remote h e source
          else mismatch h e)
    else mismatch h e)

-- The two entries of the catalog decide between `resume` and the comparison.
unfoldable pub choose : Host → Outside → Option CatalogAsset → Option CatalogAsset → Act Exit
choose h e (some source) (some published) = with_current (λ current.
    if is_published e.codec current source published
    then resume h e source published
    else compare_source h e (some source))
choose h e source published = compare_source h e source

-- `current.old_asset_id or ""`
abbrev pub or_empty : Option Text → Text
or_empty none = []
or_empty (some value) = value

unfoldable pub find_published : Outside → Option Text → Act (Option CatalogAsset)
find_published e none = pure none
find_published e (some candidate) = ask (λ t. e.by_id t candidate)

-- The `try` block.
unfoldable pub process_body : Host → Outside → Bool → Act Exit
process_body h e remote_delete = with_current (λ current.
    if is_replacement current.operation
    then (if remote_delete
        then (do
          source ← ask (λ t. e.by_id t (or_empty current.old_asset_id))
          published ← find_published e current.candidate_asset_id
          choose h e source published)
        else (do block_upload h e current.id upload_rejected; pure returned))
    else attempt h e none)
