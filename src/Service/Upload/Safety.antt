-- ===== src/Service/Upload/Safety.antt =====
-- What `_process_upload` of src/immich_on_demand/service.py may do at which point, told by what the
-- task has noted before.
pub mod Rules
pub mod Reading
pub mod Finishing
pub mod Trashing
pub mod Replacing
pub mod Sending
pub mod Body
pub mod Trace
use immich_on_demand.Prelude.{List, [], ◌∷◌, Option, none, some, Bool, true, false, ◌≡◌, ◌⊎◌}
use immich_on_demand.Prelude.Text.{Text}
use immich_on_demand.Model.Asset.{Asset, CatalogAsset}
use immich_on_demand.Uploads.Validate.{is_replacement}
use immich_on_demand.Uploads.Queue.{UploadStatus}
use immich_on_demand.Service.Checks.{
  Codec, upload_matches, replacement_source_matches, replacement_candidate_matches,
}
use immich_on_demand.Service.World.{
  Event, asset_read, marker_read, albums_read, status_taken, upload_sent, copy_sent, trash_sent,
  entry_added, replacement_published, entry_resumed, announced, commit_called, World,
}
use immich_on_demand.Uploads.Manifest.{Host}
use immich_on_demand.Service.Upload.Attempt.{is_published, is_current_source}
use immich_on_demand.Service.Upload.Admission.{Admission}

-- The status of the job that the queue gave last.
unfoldable pub latest : UploadStatus → List Event → UploadStatus
latest job [] = job
latest job (status_taken m ∷ log) = m
latest job (_ ∷ log) = latest job log

-- An entry has just come into the catalog, or was found there.
unfoldable pub brings_entry : List Event → Bool
brings_entry (entry_added _ ∷ log) = true
brings_entry (replacement_published _ _ ∷ log) = true
brings_entry (entry_resumed _ ∷ log) = true
brings_entry _ = false

-- The listing was told of the entry just before.
unfoldable pub is_announced : List Event → Bool
unfolding brings_entry
is_announced (announced _ ∷ log) = brings_entry log
is_announced _ = false

module _ (h : Host) (c : Codec) (remote_delete : Bool) (job : UploadStatus) where
  -- The payload is sent for a job that has no candidate, when an attempt at the latest revision was
  -- admitted, its payload verified and the attempt counted just before.
  pub record UploadAllowed (id : Text) (log : List Event) : Type 0 where
    pub admitted : UploadStatus
    pub older : List Event
    pub noted : log ≡ status_taken admitted ∷ older
    pub admission : Admission h (latest job older).id (latest job older).revision admitted
    pub no_candidate : admitted.candidate_asset_id ≡ none
    pub same_job : id ≡ admitted.id

  -- The candidate of the latest status and its marker were read, and they match the job.
  pub record Verified (candidate : Asset) (marker : Text) (log : List Event) : Type 0 where
    pub candidate_id : Text
    pub older : List Event
    pub noted : log ≡ marker_read candidate_id marker ∷ asset_read candidate ∷ older
    pub same_id : candidate.id ≡ candidate_id
    pub expected : (latest job older).candidate_asset_id ≡ some candidate_id
    pub matches : upload_matches c (latest job older) candidate marker ≡ true

  -- An uploaded file is added for an ordinary job, from its verified candidate.
  pub record AddAllowed (candidate : Asset) (log : List Event) : Type 0 where
    pub ordinary : is_replacement job.operation ≡ false
    pub marker : Text
    pub verified : Verified candidate marker log

  -- A replacement was verified and the queue has recorded so; the source is the one that the job
  -- names and describes.
  pub record Compared (candidate : Asset) (log : List Event) : Type 0 where
    pub permitted : remote_delete ≡ true
    pub replaces : is_replacement job.operation ≡ true
    pub marker : Text
    pub source : CatalogAsset
    pub begun : UploadStatus
    pub older : List Event
    pub noted : log ≡ status_taken begun ∷ older
    pub verified : Verified candidate marker older
    pub current_source : is_current_source job source ≡ true
    pub alike : replacement_candidate_matches source.asset candidate ≡ true

  -- Albums are copied when the source is as the job expects it, not in the trash, and twice read to be
  -- in the expected albums.
  pub record CopyAllowed (source_id : Text) (candidate_id : Text) (log : List Event) : Type 0 where
    pub remote : Asset
    pub candidate : Asset
    pub expected : List Text
    pub older : List Event
    pub noted :
        log
        ≡ albums_read remote.id expected
          ∷ albums_read remote.id expected
          ∷ asset_read remote
          ∷ older
    pub compared : Compared candidate older
    pub albums : (latest job older).source_album_ids ≡ some expected
    pub matches : replacement_source_matches (latest job older) remote true ≡ true
    pub alive : remote.is_trashed ≡ false
    pub same_source : source_id ≡ remote.id
    pub same_candidate : candidate_id ≡ candidate.id

  -- The trash is asked for directly after the albums were copied, both assets were read twice to be in
  -- the expected albums, and the source was read to be unchanged and not in the trash.
  pub record TrashAllowed (id : Text) (log : List Event) : Type 0 where
    pub unchanged : Asset
    pub source_id : Text
    pub candidate_id : Text
    pub expected : List Text
    pub older : List Event
    pub noted :
        log
        ≡ asset_read unchanged
          ∷ albums_read candidate_id expected
          ∷ albums_read candidate_id expected
          ∷ albums_read source_id expected
          ∷ albums_read source_id expected
          ∷ copy_sent source_id candidate_id
          ∷ older
    pub permitted : remote_delete ≡ true
    pub albums : (latest job older).source_album_ids ≡ some expected
    pub matches : replacement_source_matches (latest job older) unchanged false ≡ true
    pub same_source : unchanged.id ≡ source_id
    pub same_id : id ≡ unchanged.id

  -- The source was read to be in the trash: after the request for it, or before any, and then the
  -- candidate was twice read to be in the expected albums.
  pub data TrashSeen (trashed : Asset) (candidate_id : Text) : List Event → Type 0 where
    after_request :
        (id : Text) (log : List Event)
        → TrashSeen trashed candidate_id (asset_read trashed ∷ trash_sent id ∷ log)
    with_albums :
        (expected : List Text) (log : List Event)
        → (latest job log).source_album_ids ≡ some expected
        → TrashSeen trashed candidate_id (
            albums_read candidate_id expected
            ∷ albums_read candidate_id expected
            ∷ asset_read trashed
            ∷ log)

  -- The name is taken over from the source that the job names and describes, when that same asset was
  -- seen in the trash and the candidate read just before still matches.
  pub record PublishAllowed (old_asset_id : Text) (candidate : Asset) (log : List Event)
      : Type 0 where
    pub permitted : remote_delete ≡ true
    pub replaces : is_replacement job.operation ≡ true
    pub source : CatalogAsset
    pub trashed : Asset
    pub candidate_id : Text
    pub marker : Text
    pub older : List Event
    pub noted : log ≡ asset_read candidate ∷ older
    pub seen : TrashSeen trashed candidate_id older
    pub in_trash : trashed.is_trashed ≡ true
    pub source_matches : replacement_source_matches (latest job older) trashed true ≡ true
    pub same_id : candidate.id ≡ candidate_id
    pub matches : upload_matches c (latest job older) candidate marker ≡ true
    pub alike : replacement_candidate_matches source.asset candidate ≡ true
    pub current_source : is_current_source job source ≡ true
    pub same_source : old_asset_id ≡ source.asset.id
    pub same_trashed : old_asset_id ≡ trashed.id

  -- A replacement is resumed at once, if the catalog shows it published.
  pub record ResumeAllowed (published : CatalogAsset) (log : List Event) : Type 0 where
    pub permitted : remote_delete ≡ true
    pub replaces : is_replacement job.operation ≡ true
    pub first : log ≡ []
    pub source : CatalogAsset
    pub shown : is_published c job source published ≡ true

  -- What each event asks of the events before it.
  unfoldable pub Allowed : Event → List Event → Type 0
  Allowed (upload_sent id) log = UploadAllowed id log
  Allowed (copy_sent source_id candidate_id) log = CopyAllowed source_id candidate_id log
  Allowed (trash_sent id) log = TrashAllowed id log
  Allowed (entry_added candidate) log = AddAllowed candidate log
  Allowed (replacement_published old candidate) log = PublishAllowed old candidate log
  Allowed (entry_resumed published) log = ResumeAllowed published log
  Allowed (announced entry) log = brings_entry log ≡ true
  Allowed (commit_called id) log = (is_announced log ≡ true) × (id ≡ (latest job log).id)
  Allowed _ log = Unit

  unfoldable pub Safe : List Event → Type 0
  unfolding Allowed
  Safe [] = Unit
  Safe (event ∷ log) = Allowed event log × Safe log

  -- The state of the task between two calls.
  pub record Good (w : World) : Type 0 where
    pub safe : Safe w.log
    pub current : w.current ≡ latest job w.log
