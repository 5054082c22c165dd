-- ===== src/Service/Upload/Safety/Finishing.antt =====
-- The ends of `_process_upload`: the entry is announced and the job committed, for an ordinary upload
-- and for a replacement.
use immich_on_demand.Prelude.{Bool, true, ◌≡◌, refl, sym, ap, ◌∙◌, Bool-cases, inl, inr, &&-eq-true}
use immich_on_demand.Prelude.Text.{Text}
use immich_on_demand.Prelude.Exec.{pure, ◌>>=◌, ◌>>◌}
use immich_on_demand.Model.Asset.{Asset, CatalogAsset}
use immich_on_demand.Uploads.Manifest.{Host}
use immich_on_demand.Uploads.Validate.{is_replacement}
use immich_on_demand.Uploads.Queue.{UploadStatus, commit}
use immich_on_demand.Service.Checks.{upload_matches, replacement_source_matches}
use immich_on_demand.Service.World.{
  Outside, World, Act, entry_added, replacement_published, entry_resumed, announced, commit_called,
  noted, ask, note, with_current, queue_call,
}
use immich_on_demand.Service.Upload.{
  Exit, completed, returned, announce, transfer_replacement_pin, commit_current, mismatch,
  remove_committed_upload,
}
use immich_on_demand.Service.Upload.Candidate.{publish, finish_ordinary}
use immich_on_demand.Service.Upload.Attempt.{resume, is_current_source}
use immich_on_demand.Service.Upload.Safety.{
  latest, brings_entry, is_announced, Allowed, Good, TrashSeen,
}
use immich_on_demand.Service.Upload.Safety.Rules.{
  GoodEnd, bind-GoodEnd, Good-quiet, Good-noted, if-GoodEnd, send-GoodEnd,
}
use immich_on_demand.Service.Upload.Safety.Reading.{
  read_asset-GoodEnd, mismatch-GoodEnd, quiet_call-GoodEnd, remove_committed_upload-GoodEnd,
}

transfer_quiet :
    (e : Outside) (id : Text) (entry : CatalogAsset) (w : World)
    → ((transfer_replacement_pin e id entry w).1.log ≡ w.log)
      × ((transfer_replacement_pin e id entry w).1.current ≡ w.current)
unfolding transfer_replacement_pin ask pure
transfer_quiet e id entry w = elim (Bool-cases e.has_content_cache) [
  | inl b ↦ rw b (refl, refl)
  | inr b ↦ rw b (refl, refl)
]

module _ (h : Host) (e : Outside) (remote_delete : Bool) (job : UploadStatus) where
  commit_current-GoodEnd :
      (w : World)
      → Good h e.codec remote_delete job w
      → is_announced w.log ≡ true
      → GoodEnd h e.codec remote_delete job (commit_current h e w)
  unfolding commit_current with_current note Allowed latest
  commit_current-GoodEnd w g a =
      let event = commit_called w.current.id in
      let good =
        Good-noted h e.codec remote_delete job w (noted w event) event refl refl refl
          (a, ap (λ (m : UploadStatus). m.id) g.current) g in
      bind-GoodEnd h e.codec remote_delete job
        (λ x. do queue_call e (commit h w.current.id); pure tt) w (note event) good
        (λ x k.
          quiet_call-GoodEnd h e.codec remote_delete job (noted w event) good e
            (commit h w.current.id))

  finish-GoodEnd :
      (w : World)
      → Good h e.codec remote_delete job w
      → is_announced w.log ≡ true
      → GoodEnd h e.codec remote_delete job ((do commit_current h e; pure completed) w)
  unfolding pure
  finish-GoodEnd w g a =
      let good = commit_current-GoodEnd w g a in
      bind-GoodEnd h e.codec remote_delete job (λ x. pure completed) w (commit_current h e) good
        (λ x k. good)

  -- The entry is announced, then the job goes on.
  announce-GoodEnd :
      {B : Type 0} (f : Unit {0} → Act B) (entry : CatalogAsset) (w : World)
      → Good h e.codec remote_delete job w
      → brings_entry w.log ≡ true
      → ((w' : World)
          → is_announced w'.log ≡ true
          → Good h e.codec remote_delete job w'
          → GoodEnd h e.codec remote_delete job (f tt w'))
      → GoodEnd h e.codec remote_delete job ((announce e entry >>= f) w)
  unfolding announce Allowed latest is_announced
  announce-GoodEnd f entry w g b k =
      send-GoodEnd h e.codec remote_delete job f w g (announced entry) (λ t. e.on_uploaded t entry)
        refl b (λ a good. k (noted w (announced entry)) b good)

  transfer-GoodEnd :
      {B : Type 0} (f : Unit {0} → Act B) (id : Text) (entry : CatalogAsset) (w : World)
      → Good h e.codec remote_delete job w
      → is_announced w.log ≡ true
      → ((w' : World)
          → is_announced w'.log ≡ true
          → Good h e.codec remote_delete job w'
          → GoodEnd h e.codec remote_delete job (f tt w'))
      → GoodEnd h e.codec remote_delete job ((transfer_replacement_pin e id entry >>= f) w)
  transfer-GoodEnd f id entry w g a k =
      let (l, c) = transfer_quiet e id entry w in
      let w' = (transfer_replacement_pin e id entry w).1 in
      let good = Good-quiet h e.codec remote_delete job w w' l c g in
      bind-GoodEnd h e.codec remote_delete job f w (transfer_replacement_pin e id entry) good
        (λ x r. k w' (ap is_announced l ∙ a) good)

  -- An entry that came into the catalog is announced, its pin is transferred, the job is committed.
  settle_entry-GoodEnd :
      (id : Text) (entry : CatalogAsset) (w : World)
      → Good h e.codec remote_delete job w
      → brings_entry w.log ≡ true
      → GoodEnd h e.codec remote_delete job (
          (do
            announce e entry
            transfer_replacement_pin e id entry
            commit_current h e
            pure completed)
            w)
  settle_entry-GoodEnd id entry w g b =
      announce-GoodEnd
        (λ x. do transfer_replacement_pin e id entry; commit_current h e; pure completed) entry w g
        b
        (λ w1 a g1.
          transfer-GoodEnd (λ x. do commit_current h e; pure completed) id entry w1 g1 a
            (λ w2 a2 g2. finish-GoodEnd w2 g2 a2))

  pub finish_ordinary-GoodEnd :
      (w : World) (candidate : Asset)
      → Good h e.codec remote_delete job w
      → Allowed h e.codec remote_delete job (entry_added candidate) w.log
      → GoodEnd h e.codec remote_delete job (finish_ordinary h e candidate w)
  unfolding finish_ordinary with_current latest brings_entry
  finish_ordinary-GoodEnd w candidate g allowed =
      send-GoodEnd h e.codec remote_delete job
        (λ entry. do announce e entry; commit_current h e; pure completed) w g
        (entry_added candidate) (λ t. e.add_uploaded t candidate w.current.requested_name) refl
        allowed
        (λ entry g1.
          announce-GoodEnd (λ x. do commit_current h e; pure completed) entry
            (noted w (entry_added candidate)) g1 refl (λ w2 a g2. finish-GoodEnd w2 g2 a))

  -- What is known of the source when the replacement is published.
  pub record Ready (source : CatalogAsset) (candidate : Asset) (w : World) : Type 0 where
    pub good : Good h e.codec remote_delete job w
    pub permitted : remote_delete ≡ true
    pub replaces : is_replacement job.operation ≡ true
    pub trashed : Asset
    pub seen : TrashSeen h e.codec remote_delete job trashed candidate.id w.log
    pub in_trash : trashed.is_trashed ≡ true
    pub matches : replacement_source_matches (latest job w.log) trashed true ≡ true
    pub current_source : is_current_source job source ≡ true
    pub same_trashed : trashed.id ≡ source.asset.id

  pub publish-GoodEnd :
      (source : CatalogAsset) (candidate : Asset) (marker : Text) (w : World)
      → Ready source candidate w
      → GoodEnd h e.codec remote_delete job (publish h e source candidate marker w)
  unfolding publish with_current latest brings_entry Allowed
  publish-GoodEnd source candidate marker w r =
      read_asset-GoodEnd h e.codec remote_delete job w r.good _ h e candidate.id (λ asset w1 l s g1.
        let now : w1.current ≡ latest job w.log = g1.current ∙ ap (latest job) l in
        if-GoodEnd h e.codec remote_delete job _ _ (mismatch h e) w1
          (λ t.
            let (m, alike) = &&-eq-true _ _ t in
            send-GoodEnd h e.codec remote_delete job _ w1 g1
              (replacement_published source.asset.id asset) _ refl
              (record {
                permitted = r.permitted;
                replaces = r.replaces;
                source = source;
                trashed = r.trashed;
                candidate_id = candidate.id;
                marker = marker;
                older = w.log;
                noted = l;
                seen = r.seen;
                in_trash = r.in_trash;
                source_matches = r.matches;
                same_id = s;
                matches = ap (λ n. upload_matches e.codec n asset marker) (sym now) ∙ m;
                alike = alike;
                current_source = r.current_source;
                same_source = refl;
                same_trashed = sym r.same_trashed;
              })
              (λ entry g2. settle_entry-GoodEnd source.asset.id entry _ g2 refl))
          (λ f. mismatch-GoodEnd h e.codec remote_delete job w1 g1 h e))

  pub resume-GoodEnd :
      (source published : CatalogAsset) (w : World)
      → Good h e.codec remote_delete job w
      → Allowed h e.codec remote_delete job (entry_resumed published) w.log
      → GoodEnd h e.codec remote_delete job (resume h e source published w)
  unfolding resume note latest brings_entry with_current pure remove_committed_upload
  resume-GoodEnd source published w g allowed =
      let event = entry_resumed published in
      let good =
        Good-noted h e.codec remote_delete job w (noted w event) event refl refl refl allowed g in
      let last : Unit {0} → Act Exit =
        λ x. (do with_current (λ current. remove_committed_upload h e current.id); pure returned) in
      let after : Unit {0} → Act Exit = λ x. commit_current h e >>= last in
      let middle : Unit {0} → Act Exit =
        λ x. transfer_replacement_pin e source.asset.id published >>= after in
      bind-GoodEnd h e.codec remote_delete job (λ x. announce e published >>= middle) w (note event)
        good
        (λ x k. announce-GoodEnd middle published (noted w event) good refl (λ w1 a g1.
          transfer-GoodEnd after source.asset.id published w1 g1 a (λ w2 a2 g2.
            let g3 = commit_current-GoodEnd w2 g2 a2 in
            let w3 = (commit_current h e w2).1 in
            let g4 =
              remove_committed_upload-GoodEnd h e.codec remote_delete job h e w3.current.id w3 g3 in
            bind-GoodEnd h e.codec remote_delete job last w2 (commit_current h e) g3 (λ y r.
              bind-GoodEnd h e.codec remote_delete job (λ z. pure returned) w3
                (with_current (λ current. remove_committed_upload h e current.id)) g4
                (λ z q. g4)))))
