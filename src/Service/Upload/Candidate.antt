-- ===== src/Service/Upload/Candidate.antt =====
-- The second half of `_process_upload` in src/immich_on_demand/service.py: the candidate is compared
-- with the job and made visible; for a replacement the source is moved to the trash before.
use immich_on_demand.Prelude.{List, Option, none, some, Bool, true, false, ◌&&◌, if◌then◌else◌}
use immich_on_demand.Prelude.Text.{Text}
use immich_on_demand.Prelude.Exec.{pure, raise, ◌>>=◌, ◌>>◌}
use immich_on_demand.Errors.{
  Exception, immich_response, immich_unavailable, immich_retryable, local_error,
}
use immich_on_demand.Model.Asset.{Asset, CatalogAsset}
use immich_on_demand.Uploads.Manifest.{Host}
use immich_on_demand.Uploads.Queue.{UploadStatus, begin_replacing}
use immich_on_demand.Service.Checks.{
  upload_matches, replacement_source_matches, replacement_candidate_matches,
}
use immich_on_demand.Service.World.{
  Outside, Act, marker_read, copy_sent, trash_sent, entry_added, replacement_published, send, see,
  queue_status, catch, with_current, read_asset,
}
use immich_on_demand.Service.Albums.{stable_album_ids, is_album_tuple}
use immich_on_demand.Service.Upload.{
  Exit, completed, transfer_replacement_pin, announce, commit_current, mismatch,
}

-- The candidate is read once more and takes the place of the source in the catalog.
unfoldable pub publish : Host → Outside → CatalogAsset → Asset → Text → Act Exit
publish h e source candidate marker = do
  asset ← read_asset h e candidate.id
  with_current (λ current.
      if upload_matches e.codec current asset marker
        && replacement_candidate_matches source.asset asset
      then (do
        entry ←
            send (replacement_published source.asset.id asset)
              (λ t. e.publish_replacement t source.asset.id asset)
        announce e entry
        transfer_replacement_pin e source.asset.id entry
        commit_current h e
        pure completed)
      else mismatch h e)

-- `except (ImmichUnavailableError, ImmichRetryableError, ImmichResponseError)`
unfoldable pub is_unconfirmed : Exception → Bool
is_unconfirmed immich_unavailable = true
is_unconfirmed immich_retryable = true
is_unconfirmed immich_response = true
is_unconfirmed _ = false

-- The request for the trash, with the error that leaves its success open.
unfoldable pub request_trash : Outside → Text → Act (Option Exception)
request_trash e asset_id =
    catch (do send (trash_sent asset_id) (λ t. e.trash_reply t asset_id); pure none)
      (λ x. if is_unconfirmed x then pure (some x) else raise x)

unfoldable pub raised : Option Exception → Exception
raised none = immich_retryable
raised (some x) = x

-- From the request for the trash on.
unfoldable pub trash_source : Host → Outside → CatalogAsset → Asset → Text → Asset → Act Exit
trash_source h e source candidate marker remote = do
  trash_error ← request_trash e remote.id
  trashed ← read_asset h e remote.id
  with_current (λ current.
      if replacement_source_matches current trashed true
      then (if trashed.is_trashed
          then publish h e source candidate marker
          else raise (raised trash_error))
      else mismatch h e)

-- Both assets are in the expected albums, and the source is unchanged.
unfoldable pub is_confirmed :
    List Text → Option (List Text) → Option (List Text) → UploadStatus → Asset → Bool
is_confirmed expected source_albums candidate_albums current unchanged =
    is_album_tuple source_albums expected
    && is_album_tuple candidate_albums expected
    && replacement_source_matches current unchanged false

-- The source is read once more, after the albums.
unfoldable pub confirm_albums :
    Host
    → Outside
    → CatalogAsset
    → Asset
    → Text
    → Asset
    → List Text
    → Option (List Text)
    → Option (List Text)
    → Act Exit
confirm_albums h e source candidate marker remote expected source_albums candidate_albums = do
  unchanged ← read_asset h e remote.id
  with_current (λ current.
      if is_confirmed expected source_albums candidate_albums current unchanged
      then trash_source h e source candidate marker unchanged
      else mismatch h e)

-- The albums are copied and read again.
unfoldable pub copy_albums :
    Host → Outside → CatalogAsset → Asset → Text → Asset → List Text → Act Exit
copy_albums h e source candidate marker remote expected = do
  send (copy_sent remote.id candidate.id) (λ t. e.copy_reply t remote.id candidate.id)
  source_albums ← stable_album_ids e remote.id
  candidate_albums ← stable_album_ids e candidate.id
  confirm_albums h e source candidate marker remote expected source_albums candidate_albums

-- A source that is in the trash already has had its albums copied.
unfoldable pub replace_source :
    Host → Outside → CatalogAsset → Asset → Text → Asset → List Text → Act Exit
replace_source h e source candidate marker remote expected =
    if remote.is_trashed
    then (do
      albums ← stable_album_ids e candidate.id
      if is_album_tuple albums expected then publish h e source candidate marker else mismatch h e)
    else (do
      albums ← stable_album_ids e remote.id
      if is_album_tuple albums expected
          then copy_albums h e source candidate marker remote expected
          else mismatch h e)

-- `assert expected_albums is not None`, and the first reading of the source.
unfoldable pub with_albums :
    Host → Outside → CatalogAsset → Asset → Text → Option (List Text) → Act Exit
with_albums h e source candidate marker none = raise local_error
with_albums h e source candidate marker (some expected) = do
  remote ← read_asset h e source.asset.id
  with_current (λ current.
      if replacement_source_matches current remote true
      then replace_source h e source candidate marker remote expected
      else mismatch h e)

unfoldable pub finish_replacement : Host → Outside → CatalogAsset → Asset → Text → Act Exit
finish_replacement h e source candidate marker =
    if replacement_candidate_matches source.asset candidate
    then (do
      with_current (λ current. queue_status e (begin_replacing h current.id))
      with_current (λ current. with_albums h e source candidate marker current.source_album_ids))
    else mismatch h e

unfoldable pub finish_ordinary : Host → Outside → Asset → Act Exit
finish_ordinary h e candidate = with_current (λ current. do
  entry ← send (entry_added candidate) (λ t. e.add_uploaded t candidate current.requested_name)
  announce e entry
  commit_current h e
  pure completed)

unfoldable pub finish_candidate : Host → Outside → Option CatalogAsset → Asset → Text → Act Exit
finish_candidate h e none candidate marker = finish_ordinary h e candidate
finish_candidate h e (some source) candidate marker = finish_replacement h e source candidate marker

-- `assert current.candidate_asset_id is not None`, and the comparison of the candidate.
unfoldable pub verify_candidate : Host → Outside → Option CatalogAsset → Option Text → Act Exit
verify_candidate h e source none = raise local_error
verify_candidate h e source (some candidate_id) = do
  candidate ← read_asset h e candidate_id
  marker ← see (marker_read candidate_id) (λ t. e.marker_reply t candidate_id)
  with_current (λ current.
      if upload_matches e.codec current candidate marker
      then finish_candidate h e source candidate marker
      else mismatch h e)
