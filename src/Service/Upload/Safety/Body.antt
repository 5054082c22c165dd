-- ===== src/Service/Upload/Safety/Body.antt =====
-- The `try` block of `_process_upload` in src/immich_on_demand/service.py keeps the log safe.
use immich_on_demand.Prelude.{[], Option, none, some, Bool, true, ◌&&◌, ◌≡◌, refl, sym, ap, ◌∙◌}
use immich_on_demand.Prelude.Text.{Text}
use immich_on_demand.Prelude.Exec.{pure, ◌>>◌}
use immich_on_demand.Model.Asset.{CatalogAsset}
use immich_on_demand.Uploads.Manifest.{Host, upload_rejected}
use immich_on_demand.Uploads.Validate.{is_replacement, is_replacing}
use immich_on_demand.Uploads.Queue.{UploadStatus}
use immich_on_demand.Uploads.Cleanup.{cancel}
use immich_on_demand.Service.Checks.{replacement_source_matches}
use immich_on_demand.Service.World.{Outside, World, ticked, ask, with_current}
use immich_on_demand.Service.Upload.{returned, block_upload, mismatch, notify_upload_finished}
use immich_on_demand.Service.Upload.Attempt.{
  attempt, is_published, resume, compare_source, compare_remote, choose, find_published, or_empty,
  process_body, is_unchanged, is_current_source, are_source_albums, cancel_unchanged,
}
use immich_on_demand.Service.Upload.Safety.{latest, Allowed, Good}
use immich_on_demand.Service.Upload.Safety.Rules.{
  GoodEnd, bind-GoodEnd, Good-quiet, if-GoodEnd, ask-GoodEnd, queue_call-GoodEnd,
}
use immich_on_demand.Service.Upload.Safety.Reading.{
  read_asset-GoodEnd, mismatch-GoodEnd, block_upload-GoodEnd, notify-GoodEnd,
}
use immich_on_demand.Service.Upload.Safety.Finishing.{resume-GoodEnd}
use immich_on_demand.Service.Upload.Safety.Sending.{Fits, attempt-GoodEnd}

module _ (h : Host) (e : Outside) (remote_delete : Bool) (job : UploadStatus) where
  cancel_unchanged-GoodEnd :
      (w : World)
      → Good h e.codec remote_delete job w
      → GoodEnd h e.codec remote_delete job (cancel_unchanged h e w)
  unfolding cancel_unchanged with_current pure
  cancel_unchanged-GoodEnd w g =
      let id = w.current.id in
      queue_call-GoodEnd h e.codec remote_delete job
        (λ x. notify_upload_finished e id >> pure returned) w g e
        (cancel h id w.current.requested_name w.current.revision)
        (λ a w1 l c g1.
          let g2 = notify-GoodEnd h e.codec remote_delete job e id w1 g1 in
          bind-GoodEnd h e.codec remote_delete job (λ x. pure returned) w1
            (notify_upload_finished e id) g2 (λ x k. g2))

  compare_remote-GoodEnd :
      (source : CatalogAsset) (w : World)
      → Fits h e remote_delete job (some source)
      → Good h e.codec remote_delete job w
      → GoodEnd h e.codec remote_delete job (compare_remote h e source w)
  unfolding compare_remote with_current
  compare_remote-GoodEnd source w fits g =
      read_asset-GoodEnd h e.codec remote_delete job w g _ h e source.asset.id (λ remote w1 l s g1.
        if-GoodEnd h e.codec remote_delete job
          (replacement_source_matches w1.current remote
            (is_replacing w1.current.state && w1.current.candidate_verified))
          _ (mismatch h e) w1
          (λ t.
            if-GoodEnd h e.codec remote_delete job (is_unchanged e.codec w1.current source.asset)
              (cancel_unchanged h e) (attempt h e (some source)) w1
              (λ u. cancel_unchanged-GoodEnd w1 g1)
              (λ u. attempt-GoodEnd h e remote_delete job (some source) w1 fits g1))
          (λ f. mismatch-GoodEnd h e.codec remote_delete job w1 g1 h e))

  compare_source-GoodEnd :
      (source : Option CatalogAsset) (w : World)
      → remote_delete ≡ true
      → is_replacement job.operation ≡ true
      → w.current ≡ job
      → Good h e.codec remote_delete job w
      → GoodEnd h e.codec remote_delete job (compare_source h e source w)
  unfolding compare_source with_current Fits
  compare_source-GoodEnd none w permitted replaces now g =
      mismatch-GoodEnd h e.codec remote_delete job w g h e
  compare_source-GoodEnd (some source) w permitted replaces now g =
      if-GoodEnd h e.codec remote_delete job (is_current_source w.current source) _ (mismatch h e) w
        (λ t.
          ask-GoodEnd h e.codec remote_delete job _ w g (λ t. e.album_ids t source.asset.id)
            (λ albums.
              let g1 = Good-quiet h e.codec remote_delete job w (ticked w) refl refl g in
              if-GoodEnd h e.codec remote_delete job
                (are_source_albums albums w.current.source_album_ids) (compare_remote h e source)
                (mismatch h e) (ticked w)
                (λ u.
                  compare_remote-GoodEnd source (ticked w)
                    (permitted, replaces, ap (λ n. is_current_source n source) (sym now) ∙ t) g1)
                (λ u. mismatch-GoodEnd h e.codec remote_delete job (ticked w) g1 h e)))
        (λ f. mismatch-GoodEnd h e.codec remote_delete job w g h e)

  choose-GoodEnd :
      (source published : Option CatalogAsset) (w : World)
      → remote_delete ≡ true
      → is_replacement job.operation ≡ true
      → w.log ≡ []
      → Good h e.codec remote_delete job w
      → GoodEnd h e.codec remote_delete job (choose h e source published w)
  unfolding choose with_current Allowed latest
  choose-GoodEnd none published w p r l g =
      compare_source-GoodEnd none w p r (g.current ∙ ap (latest job) l) g
  choose-GoodEnd (some source) none w p r l g =
      compare_source-GoodEnd (some source) w p r (g.current ∙ ap (latest job) l) g
  choose-GoodEnd (some source) (some published) w p r l g =
      if-GoodEnd h e.codec remote_delete job (is_published e.codec w.current source published)
        (resume h e source published) (compare_source h e (some source)) w
        (λ t. resume-GoodEnd h e remote_delete job source published w g (record {
          permitted = p;
          replaces = r;
          first = l;
          source = source;
          shown =
              ap (λ n. is_published e.codec n source published)
                (sym (g.current ∙ ap (latest job) l))
              ∙ t;
        }))
        (λ f. compare_source-GoodEnd (some source) w p r (g.current ∙ ap (latest job) l) g)

  find_published-quiet :
      (candidate : Option Text) (w : World)
      → ((find_published e candidate w).1.log ≡ w.log)
        × ((find_published e candidate w).1.current ≡ w.current)
  unfolding find_published pure ask
  find_published-quiet none w = (refl, refl)
  find_published-quiet (some candidate) w = (refl, refl)

  pub process_body-GoodEnd :
      (w : World)
      → w.current ≡ job
      → w.log ≡ []
      → Good h e.codec remote_delete job w
      → GoodEnd h e.codec remote_delete job (process_body h e remote_delete w)
  unfolding process_body with_current Fits pure
  process_body-GoodEnd w c l g =
      if-GoodEnd h e.codec remote_delete job (is_replacement w.current.operation) _
        (attempt h e none) w
        (λ r.
          let replaces = ap (λ (n : UploadStatus). is_replacement n.operation) (sym c) ∙ r in
          if-GoodEnd h e.codec remote_delete job remote_delete _
            (do block_upload h e w.current.id upload_rejected; pure returned) w
            (λ p.
              ask-GoodEnd h e.codec remote_delete job _ w g
                (λ t. e.by_id t (or_empty w.current.old_asset_id))
                (λ source.
                  let w1 = ticked w in
                  let (l2, c2) = find_published-quiet w.current.candidate_asset_id w1 in
                  let w2 = (find_published e w.current.candidate_asset_id w1).1 in
                  let g2 = Good-quiet h e.codec remote_delete job w w2 l2 c2 g in
                  bind-GoodEnd h e.codec remote_delete job (choose h e source) w1
                    (find_published e w.current.candidate_asset_id) g2
                    (λ published k. choose-GoodEnd source published w2 p replaces (l2 ∙ l) g2)))
            (λ p.
              let g1 =
                block_upload-GoodEnd h e.codec remote_delete job w g h e w.current.id
                  upload_rejected in
              bind-GoodEnd h e.codec remote_delete job (λ x. pure returned) w
                (block_upload h e w.current.id upload_rejected) g1 (λ a k. g1)))
        (λ r.
          attempt-GoodEnd h e remote_delete job none w
            (ap (λ (n : UploadStatus). is_replacement n.operation) (sym c) ∙ r) g)
