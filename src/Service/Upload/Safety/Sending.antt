-- ===== src/Service/Upload/Safety/Sending.antt =====
-- An attempt is admitted, the payload is sent and the candidate is verified: the log stays safe.
use immich_on_demand.Prelude.{
  ℕ, List, ◌∷◌, Option, none, some, Bool, true, false, ◌≡◌, refl, sym, ap, ◌∙◌, inl, inr,
}
use immich_on_demand.Prelude.Text.{Text}
use immich_on_demand.Prelude.Exec.{pure, raise, lift, ◌>>=◌, ◌>>◌, Result-cases}
use immich_on_demand.Errors.{Exception, is_queue_error}
use immich_on_demand.Model.Asset.{Asset, CatalogAsset}
use immich_on_demand.Uploads.Manifest.{Manifest, Host}
use immich_on_demand.Uploads.Validate.{is_replacement, is_replacing}
use immich_on_demand.Uploads.Disk.{Op, Payload}
use immich_on_demand.Uploads.Queue.{UploadStatus, record_candidate}
use immich_on_demand.Uploads.Attempt.{admit, verify_sealed_payload, confirm, reject}
use immich_on_demand.Service.Checks.{upload_matches}
use immich_on_demand.Service.World.{
  Outside, World, Act, Event, asset_read, marker_read, upload_sent, status_taken, noted, queue_call,
  queue_status, take_status, with_current,
}
use immich_on_demand.Service.Upload.{mismatch}
use immich_on_demand.Service.Upload.Candidate.{verify_candidate, finish_candidate}
use immich_on_demand.Service.Upload.Attempt.{
  open_attempt, confirm_attempt, reject_attempt, send_payload, send_upload, replaced_asset, attempt,
  is_current_source,
}
use immich_on_demand.Service.Upload.Admission.{Admission, attempt_current, open_attempt-Admission}
use mathlib.Core.Path.{subst}
use immich_on_demand.Service.Upload.Safety.{latest, Allowed, Good, Verified}
use immich_on_demand.Service.Upload.Safety.Rules.{
  GoodEnd, bind-GoodEnd, Good-quiet, Good-status, if-GoodEnd, catch-GoodEnd, send-GoodEnd,
  see-GoodEnd, queue_call-GoodEnd,
}
use immich_on_demand.Service.Upload.Safety.Reading.{read_asset-GoodEnd, mismatch-GoodEnd}
use immich_on_demand.Service.Upload.Safety.Finishing.{finish_ordinary-GoodEnd}
use immich_on_demand.Service.Upload.Safety.Replacing.{finish_replacement-GoodEnd}

module _ (h : Host) (e : Outside) (remote_delete : Bool) (job : UploadStatus) where
  -- An ordinary job has no source; a replacement is permitted and has the one that the job names and
  -- describes.
  unfoldable pub Fits : Option CatalogAsset → Type 0
  Fits none = is_replacement job.operation ≡ false
  Fits (some source) =
      (remote_delete ≡ true)
      × (is_replacement job.operation ≡ true)
      × (is_current_source job source ≡ true)

  finish_candidate-GoodEnd :
      (source : Option CatalogAsset) (candidate : Asset) (marker : Text) (w : World)
      → Fits source
      → Good h e.codec remote_delete job w
      → Verified h e.codec remote_delete job candidate marker w.log
      → GoodEnd h e.codec remote_delete job (finish_candidate h e source candidate marker w)
  unfolding finish_candidate Fits Allowed
  finish_candidate-GoodEnd none candidate marker w fits g verified =
      finish_ordinary-GoodEnd h e remote_delete job w candidate g
        (record { ordinary = fits; marker = marker; verified = verified })
  finish_candidate-GoodEnd (some source) candidate marker w fits g verified =
      finish_replacement-GoodEnd h e remote_delete job source candidate marker w g fits.0 fits.1
        fits.2 verified

  pub verify_candidate-GoodEnd :
      (source : Option CatalogAsset) (candidate_id : Option Text) (w : World)
      → Fits source
      → Good h e.codec remote_delete job w
      → (latest job w.log).candidate_asset_id ≡ candidate_id
      → GoodEnd h e.codec remote_delete job (verify_candidate h e source candidate_id w)
  unfolding verify_candidate with_current latest raise Allowed
  verify_candidate-GoodEnd source none w fits g known = g
  verify_candidate-GoodEnd source (some id) w fits g known =
      read_asset-GoodEnd h e.codec remote_delete job w g _ h e id (λ candidate w1 l1 s g1.
        see-GoodEnd h e.codec remote_delete job _ w1 g1 (marker_read id) (λ t. e.marker_reply t id)
          (λ m. (refl, tt))
          (λ marker w2 l2 r g2.
            if-GoodEnd h e.codec remote_delete job
              (upload_matches e.codec w2.current candidate marker)
              (finish_candidate h e source candidate marker) (mismatch h e) w2
              (λ t.
                let l : w2.log ≡ marker_read id marker ∷ asset_read candidate ∷ w.log = cc in
                let now : w2.current ≡ latest job w.log = g2.current ∙ ap (latest job) l in
                finish_candidate-GoodEnd source candidate marker w2 fits g2 (record {
                  candidate_id = id;
                  older = w.log;
                  noted = l;
                  same_id = s;
                  expected = known;
                  matches = ap (λ n. upload_matches e.codec n candidate marker) (sym now) ∙ t;
                }))
              (λ f. mismatch-GoodEnd h e.codec remote_delete job w2 g2 h e)))

  queue_status_alone :
      (op : Op UploadStatus) (w : World)
      → Good h e.codec remote_delete job w
      → GoodEnd h e.codec remote_delete job (queue_status e op w)
  unfolding queue_status queue_call take_status ◌>>=◌
  queue_status_alone op w g = elim (Result-cases (op (e.meanwhile w.time w.queue)).0) [
    | inr (x, r) ↦ rw r (Good-quiet h e.codec remote_delete job w _ refl refl g)
    | inl (m, r) ↦ rw r (Good-status h e.codec remote_delete job w _ m refl refl g)
  ]

  send_payload-GoodEnd :
      (source : Option CatalogAsset) (m : UploadStatus) (candidate_id : Option Text)
      (older : List Event) (w : World)
      → Good h e.codec remote_delete job w
      → w.log ≡ status_taken m ∷ older
      → w.current ≡ m
      → Admission h (latest job older).id (latest job older).revision m
      → m.candidate_asset_id ≡ candidate_id
      → GoodEnd h e.codec remote_delete job (send_payload h e source candidate_id w)
  unfolding send_payload with_current pure latest Allowed
  send_payload-GoodEnd source m (some id) older w g l c a k = g
  send_payload-GoodEnd source m none older w g l c a k =
      send-GoodEnd h e.codec remote_delete job
        (λ candidate. queue_status e (record_candidate h w.current.id candidate)) w g
        (upload_sent w.current.id)
        (λ t. e.upload_reply t w.current.requested_name w.current.id (replaced_asset source)) refl
        (record {
          admitted = m;
          older = older;
          noted = l;
          admission = a;
          no_candidate = k;
          same_job = ap (λ (n : UploadStatus). n.id) c;
        })
        (λ candidate g1.
          queue_status_alone (record_candidate h w.current.id candidate)
            (noted w (upload_sent w.current.id)) g1)

  reject_attempt-GoodEnd :
      (id : Text) (admitted : Manifest) (x : Exception) (w : World)
      → Good h e.codec remote_delete job w
      → GoodEnd h e.codec remote_delete job (reject_attempt h e id admitted x w)
  unfolding reject_attempt raise
  reject_attempt-GoodEnd id admitted x w g =
      if-GoodEnd h e.codec remote_delete job (is_queue_error x)
        (do queue_call e (reject h id admitted); raise x) (raise x) w
        (λ t.
          queue_call-GoodEnd h e.codec remote_delete job (λ y. raise x) w g e (reject h id admitted)
            (λ y w1 l c g1. g1))
        (λ f. g)

  confirm_attempt-GoodEnd :
      (id : Text) (both : Manifest × Payload) (w : World)
      → Good h e.codec remote_delete job w
      → GoodEnd h e.codec remote_delete job (confirm_attempt h e id both w)
  unfolding confirm_attempt queue_call lift
  confirm_attempt-GoodEnd id (admitted, payload) w g =
      let call : Act UploadStatus = queue_call e (confirm h id admitted) in
      let good =
        bind-GoodEnd h e.codec remote_delete job (λ x. call) w
          (lift (verify_sealed_payload h admitted payload)) g
          (λ x r. Good-quiet h e.codec remote_delete job w (call w).1 refl refl g) in
      catch-GoodEnd h e.codec remote_delete job
        (do lift (verify_sealed_payload h admitted payload); call) (reject_attempt h e id admitted)
        w good (λ x. reject_attempt-GoodEnd id admitted x _ good)

  open_attempt-GoodEnd :
      (id : Text) (revision : ℕ) (w : World)
      → Good h e.codec remote_delete job w
      → GoodEnd h e.codec remote_delete job (open_attempt h e id revision w)
  unfolding open_attempt
  open_attempt-GoodEnd id revision w g =
      queue_call-GoodEnd h e.codec remote_delete job (confirm_attempt h e id) w g e
        (admit h id (some revision)) (λ both w1 l c g1. confirm_attempt-GoodEnd id both w1 g1)

  send_upload-GoodEnd :
      (source : Option CatalogAsset) (w : World)
      → Good h e.codec remote_delete job w
      → GoodEnd h e.codec remote_delete job (send_upload h e source w)
  unfolding send_upload with_current pure take_status ◌>>=◌
  send_upload-GoodEnd source w g =
      if-GoodEnd h e.codec remote_delete job (is_replacing w.current.state) (pure tt) _ w (λ t. g)
        (λ f.
          let g1 = open_attempt-GoodEnd w.current.id w.current.revision w g in
          bind-GoodEnd h e.codec remote_delete job
            (λ (admitted : UploadStatus).
              take_status admitted >>= λ x. send_payload h e source admitted.candidate_asset_id)
            w (open_attempt h e w.current.id w.current.revision) g1
            (λ m r.
              let w1 = (open_attempt h e w.current.id w.current.revision w).1 in
              let w2 = (take_status m w1).1 in
              send_payload-GoodEnd source m m.candidate_asset_id w1.log w2
                (Good-status h e.codec remote_delete job w1 w2 m refl refl g1) refl refl
                (subst (λ (n : UploadStatus). Admission h n.id n.revision m)
                  (sym (attempt_current h e w.current.id w.current.revision w) ∙ g1.current)
                  (open_attempt-Admission h e w.current.id w.current.revision w m r))
                refl))

  pub attempt-GoodEnd :
      (source : Option CatalogAsset) (w : World)
      → Fits source
      → Good h e.codec remote_delete job w
      → GoodEnd h e.codec remote_delete job (attempt h e source w)
  unfolding attempt with_current
  attempt-GoodEnd source w fits g =
      let g1 = send_upload-GoodEnd source w g in
      let w1 = (send_upload h e source w).1 in
      bind-GoodEnd h e.codec remote_delete job
        (λ x. with_current (λ current. verify_candidate h e source current.candidate_asset_id)) w
        (send_upload h e source) g1
        (λ x r.
          verify_candidate-GoodEnd source w1.current.candidate_asset_id w1 fits g1
            (ap (λ (n : UploadStatus). n.candidate_asset_id) (sym g1.current)))
