-- ===== src/Service/Upload/Safety/Replacing.antt =====
-- The replacement of an asset by a verified candidate keeps the log safe.
use mathlib.Core.Path.{subst}
use immich_on_demand.Prelude.{List, ◌∷◌, Option, none, some, Bool, true, ◌≡◌, refl, sym, ap, ◌∙◌}
use immich_on_demand.Prelude.Text.{Text}
use immich_on_demand.Prelude.Exec.{raise, ◌>>=◌}
use immich_on_demand.Model.Asset.{Asset, CatalogAsset}
use immich_on_demand.Uploads.Manifest.{Host}
use immich_on_demand.Uploads.Validate.{is_replacement}
use immich_on_demand.Uploads.Queue.{UploadStatus, begin_replacing}
use immich_on_demand.Service.Checks.{replacement_source_matches, replacement_candidate_matches}
use immich_on_demand.Service.World.{Outside, World, Event, asset_read, albums_read, with_current}
use immich_on_demand.Service.Albums.{is_album_tuple, if_same}
use immich_on_demand.Service.Upload.{mismatch}
use immich_on_demand.Service.Upload.Attempt.{is_current_source}
use immich_on_demand.Service.Upload.Candidate.{
  publish, copy_albums, replace_source, with_albums, finish_replacement,
}
use immich_on_demand.Service.Upload.Safety.{latest, Allowed, Good, TrashSeen, Compared, Verified}
use immich_on_demand.Service.Upload.Safety.Rules.{GoodEnd, if-GoodEnd, queue_status-GoodEnd}
use immich_on_demand.Service.Upload.Safety.Reading.{
  read_asset-GoodEnd, stable_album_ids-GoodEnd, albums_agree, mismatch-GoodEnd,
}
use immich_on_demand.Service.Upload.Safety.Finishing.{publish-GoodEnd}
use immich_on_demand.Service.Upload.Safety.Trashing.{copy_albums-GoodEnd}

module _ (h : Host) (e : Outside) (remote_delete : Bool) (job : UploadStatus) where
  replace_source-GoodEnd :
      (source : CatalogAsset) (candidate : Asset) (marker : Text) (remote : Asset)
      (expected : List Text) (older : List Event) (w : World)
      → Good h e.codec remote_delete job w
      → Compared h e.codec remote_delete job candidate older
      → w.log ≡ asset_read remote ∷ older
      → is_current_source job source ≡ true
      → remote.id ≡ source.asset.id
      → (latest job older).source_album_ids ≡ some expected
      → replacement_source_matches (latest job older) remote true ≡ true
      → GoodEnd h e.codec remote_delete job
          (replace_source h e source candidate marker remote expected w)
  unfolding replace_source latest Allowed
  replace_source-GoodEnd source candidate marker remote expected older w g compared l known same
        albums matches =
      if-GoodEnd h e.codec remote_delete job remote.is_trashed _ _ w
        (λ trashed.
          stable_album_ids-GoodEnd h e.codec remote_delete job w g _ e candidate.id (λ x y w1 l1 g1.
            if-GoodEnd h e.codec remote_delete job (is_album_tuple (if_same x y) expected)
              (publish h e source candidate marker) (mismatch h e) w1
              (λ t.
                let (p, q) = albums_agree x y expected t in
                let k : w1.log
                    ≡ albums_read candidate.id expected
                      ∷ albums_read candidate.id expected
                      ∷ asset_read remote
                      ∷ older =
                  cc in
                publish-GoodEnd h e remote_delete job source candidate marker w1 (record {
                  good = g1;
                  permitted = compared.permitted;
                  replaces = compared.replaces;
                  trashed = remote;
                  seen =
                      subst (TrashSeen h e.codec remote_delete job remote candidate.id) (sym k)
                        (TrashSeen.with_albums expected older albums);
                  in_trash = trashed;
                  current_source = known;
                  same_trashed = same;
                  matches =
                      ap (λ n. replacement_source_matches (latest job n) remote true) k ∙ matches;
                }))
              (λ f. mismatch-GoodEnd h e.codec remote_delete job w1 g1 h e)))
        (λ alive.
          stable_album_ids-GoodEnd h e.codec remote_delete job w g _ e remote.id (λ x y w1 l1 g1.
            if-GoodEnd h e.codec remote_delete job (is_album_tuple (if_same x y) expected)
              (copy_albums h e source candidate marker remote expected) (mismatch h e) w1
              (λ t.
                let (p, q) = albums_agree x y expected t in
                let k : w1.log
                    ≡ albums_read remote.id expected
                      ∷ albums_read remote.id expected
                      ∷ asset_read remote
                      ∷ older =
                  cc in
                copy_albums-GoodEnd h e remote_delete job source candidate marker remote expected w1
                  g1 compared.permitted compared.replaces known same
                  (ap (λ n. (latest job n).source_album_ids) k ∙ albums)
                  (record {
                    remote = remote;
                    candidate = candidate;
                    expected = expected;
                    older = older;
                    noted = k;
                    compared = compared;
                    albums = albums;
                    matches = matches;
                    alive = alive;
                    same_source = refl;
                    same_candidate = refl;
                  }))
              (λ f. mismatch-GoodEnd h e.codec remote_delete job w1 g1 h e)))

  with_albums-GoodEnd :
      (source : CatalogAsset) (candidate : Asset) (marker : Text) (albums : Option (List Text))
      (w : World)
      → Good h e.codec remote_delete job w
      → Compared h e.codec remote_delete job candidate w.log
      → is_current_source job source ≡ true
      → (latest job w.log).source_album_ids ≡ albums
      → GoodEnd h e.codec remote_delete job (with_albums h e source candidate marker albums w)
  unfolding with_albums with_current latest raise
  with_albums-GoodEnd source candidate marker none w g compared known albums = g
  with_albums-GoodEnd source candidate marker (some expected) w g compared known albums =
      read_asset-GoodEnd h e.codec remote_delete job w g _ h e source.asset.id (λ remote w1 l s g1.
        if-GoodEnd h e.codec remote_delete job (replacement_source_matches w1.current remote true)
          (replace_source h e source candidate marker remote expected) (mismatch h e) w1
          (λ t.
            let now : w1.current ≡ latest job w.log = g1.current ∙ ap (latest job) l in
            replace_source-GoodEnd source candidate marker remote expected w.log w1 g1 compared l
              known s albums (ap (λ n. replacement_source_matches n remote true) (sym now) ∙ t))
          (λ f. mismatch-GoodEnd h e.codec remote_delete job w1 g1 h e))

  pub finish_replacement-GoodEnd :
      (source : CatalogAsset) (candidate : Asset) (marker : Text) (w : World)
      → Good h e.codec remote_delete job w
      → remote_delete ≡ true
      → is_replacement job.operation ≡ true
      → is_current_source job source ≡ true
      → Verified h e.codec remote_delete job candidate marker w.log
      → GoodEnd h e.codec remote_delete job (finish_replacement h e source candidate marker w)
  unfolding finish_replacement with_current ◌>>=◌
  finish_replacement-GoodEnd source candidate marker w g permitted replaces known verified =
      if-GoodEnd h e.codec remote_delete job (replacement_candidate_matches source.asset candidate)
        _ (mismatch h e) w
        (λ alike.
          queue_status-GoodEnd h e.codec remote_delete job
            (λ x.
              with_current
                (λ current. with_albums h e source candidate marker current.source_album_ids))
            w g e (begin_replacing h w.current.id)
            (λ m w1 l k g1.
              with_albums-GoodEnd source candidate marker w1.current.source_album_ids w1 g1
                (record {
                  permitted = permitted;
                  replaces = replaces;
                  marker = marker;
                  source = source;
                  begun = m;
                  older = w.log;
                  noted = l;
                  verified = verified;
                  current_source = known;
                  alike = alike;
                })
                known (ap (λ (n : UploadStatus). n.source_album_ids) (sym g1.current))))
        (λ f. mismatch-GoodEnd h e.codec remote_delete job w g h e)
