-- ===== src/Service/Upload/Safety/Trashing.antt =====
-- The albums of a source are copied and the source is moved to the trash: the log stays safe.
use mathlib.Core.Path.{subst}
use immich_on_demand.Prelude.{
  List, ◌∷◌, Option, some, Bool, true, false, ◌≡◌, refl, sym, ap, ◌∙◌, arith, Bool-cases, inl, inr,
}
use immich_on_demand.Prelude.Text.{Text}
use immich_on_demand.Prelude.Exec.{pure, raise, ◌>>=◌, Result-cases}
use immich_on_demand.Errors.{Exception}
use immich_on_demand.Model.Asset.{Asset, CatalogAsset}
use immich_on_demand.Uploads.Manifest.{Host}
use immich_on_demand.Uploads.Validate.{is_replacement}
use immich_on_demand.Uploads.Queue.{UploadStatus}
use immich_on_demand.Service.Checks.{replacement_source_matches}
use immich_on_demand.Service.World.{
  Outside, World, Act, Event, asset_read, albums_read, copy_sent, trash_sent, noted, send, catch,
  with_current,
}
use immich_on_demand.Service.Albums.{is_album_tuple, if_same}
use immich_on_demand.Service.Upload.{mismatch}
use immich_on_demand.Service.Upload.Attempt.{is_current_source}
use immich_on_demand.Service.Upload.Candidate.{
  publish, request_trash, is_unconfirmed, raised, trash_source, is_confirmed, copy_albums,
  confirm_albums,
}
use immich_on_demand.Service.Upload.Safety.{latest, Allowed, Good, TrashSeen}
use immich_on_demand.Service.Upload.Safety.Rules.{
  GoodEnd, bind-GoodEnd, Good-noted, if-GoodEnd, send-GoodEnd,
}
use immich_on_demand.Service.Upload.Safety.Reading.{
  read_asset-GoodEnd, stable_album_ids-GoodEnd, albums_agree, mismatch-GoodEnd,
}
use immich_on_demand.Service.Upload.Safety.Finishing.{publish-GoodEnd}

-- Whatever the answer is, the request was sent and nothing else was noted.
request_noted :
    (e : Outside) (id : Text) (w : World) → (request_trash e id w).1 ≡ noted w (trash_sent id)
unfolding request_trash send catch pure raise ◌>>=◌
request_noted e id w = elim (Result-cases (e.trash_reply w.time id)) [
  | inl (a, r) ↦ rw r refl
  | inr (x, r) ↦ elim (Bool-cases (is_unconfirmed x)) [
    | inl b ↦ rw (r, b) refl
    | inr b ↦ rw (r, b) refl
  ]
]

is_confirmed_parts :
    (expected x1 y1 x2 y2 : List Text) (current : UploadStatus) (unchanged : Asset)
    → is_confirmed expected (if_same x1 y1) (if_same x2 y2) current unchanged ≡ true
    → (is_album_tuple (if_same x1 y1) expected ≡ true)
      × (is_album_tuple (if_same x2 y2) expected ≡ true)
      × (replacement_source_matches current unchanged false ≡ true)
unfolding is_confirmed
is_confirmed_parts expected x1 y1 x2 y2 current unchanged t = ground arith

module _ (h : Host) (e : Outside) (remote_delete : Bool) (job : UploadStatus) where
  request_trash-GoodEnd :
      {B : Type 0} (f : Option Exception → Act B) (id : Text) (w : World)
      → Good h e.codec remote_delete job w
      → Allowed h e.codec remote_delete job (trash_sent id) w.log
      → ((o : Option Exception)
          → Good h e.codec remote_delete job (noted w (trash_sent id))
          → GoodEnd h e.codec remote_delete job (f o (noted w (trash_sent id))))
      → GoodEnd h e.codec remote_delete job ((request_trash e id >>= f) w)
  unfolding latest
  request_trash-GoodEnd f id w g allowed k =
      let w' = noted w (trash_sent id) in
      let good =
        Good-noted h e.codec remote_delete job w w' (trash_sent id) refl refl refl allowed g in
      let same = sym (request_noted e id w) in
      bind-GoodEnd h e.codec remote_delete job f w (request_trash e id)
        (subst (Good h e.codec remote_delete job) same good)
        (λ o r. subst (λ v. GoodEnd h e.codec remote_delete job (f o v)) same (k o good))

  trash_source-GoodEnd :
      (source : CatalogAsset) (candidate : Asset) (marker : Text) (remote : Asset) (w : World)
      → Good h e.codec remote_delete job w
      → remote_delete ≡ true
      → is_replacement job.operation ≡ true
      → is_current_source job source ≡ true
      → remote.id ≡ source.asset.id
      → Allowed h e.codec remote_delete job (trash_sent remote.id) w.log
      → GoodEnd h e.codec remote_delete job (trash_source h e source candidate marker remote w)
  unfolding trash_source with_current latest raise
  trash_source-GoodEnd source candidate marker remote w g permitted replaces known same allowed =
      request_trash-GoodEnd _ remote.id w g allowed (λ trash_error g1.
        read_asset-GoodEnd h e.codec remote_delete job (noted w (trash_sent remote.id)) g1 _ h e
          remote.id
          (λ trashed w2 l s g2.
            if-GoodEnd h e.codec remote_delete job _ _ (mismatch h e) w2
              (λ m.
                if-GoodEnd h e.codec remote_delete job _ (publish h e source candidate marker)
                  (raise (raised trash_error)) w2
                  (λ t. publish-GoodEnd h e remote_delete job source candidate marker w2 (record {
                    good = g2;
                    permitted = permitted;
                    replaces = replaces;
                    trashed = trashed;
                    seen =
                        subst (TrashSeen h e.codec remote_delete job trashed candidate.id) (sym l)
                          (TrashSeen.after_request remote.id w.log);
                    in_trash = t;
                    current_source = known;
                    same_trashed = s ∙ same;
                    matches =
                        ap (λ n. replacement_source_matches n trashed true) (sym g2.current) ∙ m;
                  }))
                  (λ f. g2))
              (λ f. mismatch-GoodEnd h e.codec remote_delete job w2 g2 h e)))

  confirm_albums-GoodEnd :
      (source : CatalogAsset) (candidate : Asset) (marker : Text) (remote : Asset)
      (expected x1 y1 x2 y2 : List Text) (older : List Event) (w : World)
      → Good h e.codec remote_delete job w
      → remote_delete ≡ true
      → is_replacement job.operation ≡ true
      → is_current_source job source ≡ true
      → remote.id ≡ source.asset.id
      → (latest job older).source_album_ids ≡ some expected
      → w.log
        ≡ albums_read candidate.id y2
          ∷ albums_read candidate.id x2
          ∷ albums_read remote.id y1
          ∷ albums_read remote.id x1
          ∷ copy_sent remote.id candidate.id
          ∷ older
      → GoodEnd h e.codec remote_delete job (
          confirm_albums h e source candidate marker remote expected
            (if_same x1 y1)
            (if_same x2 y2)
            w)
  unfolding confirm_albums with_current latest Allowed
  confirm_albums-GoodEnd source candidate marker remote expected x1 y1 x2 y2 older w g permitted
        replaces known same albums read =
      read_asset-GoodEnd h e.codec remote_delete job w g _ h e remote.id (λ unchanged w4 l4 s g4.
        if-GoodEnd h e.codec remote_delete job _
          (trash_source h e source candidate marker unchanged) (mismatch h e) w4
          (λ t.
            let (t1, t2, m) = is_confirmed_parts expected x1 y1 x2 y2 w4.current unchanged t in
            let (p1, q1) = albums_agree x1 y1 expected t1 in
            let (p2, q2) = albums_agree x2 y2 expected t2 in
            let l : w4.log
                ≡ asset_read unchanged
                  ∷ albums_read candidate.id expected
                  ∷ albums_read candidate.id expected
                  ∷ albums_read remote.id expected
                  ∷ albums_read remote.id expected
                  ∷ copy_sent remote.id candidate.id
                  ∷ older =
              cc in
            trash_source-GoodEnd source candidate marker unchanged w4 g4 permitted replaces known
              (s ∙ same)
              (record {
                unchanged = unchanged;
                source_id = remote.id;
                candidate_id = candidate.id;
                expected = expected;
                older = older;
                noted = l;
                permitted = permitted;
                albums = albums;
                matches =
                    ap (λ n. replacement_source_matches n unchanged false)
                      (sym (g4.current ∙ ap (latest job) l))
                    ∙ m;
                same_source = s;
                same_id = refl;
              }))
          (λ f. mismatch-GoodEnd h e.codec remote_delete job w4 g4 h e))

  pub copy_albums-GoodEnd :
      (source : CatalogAsset) (candidate : Asset) (marker : Text) (remote : Asset)
      (expected : List Text) (w : World)
      → Good h e.codec remote_delete job w
      → remote_delete ≡ true
      → is_replacement job.operation ≡ true
      → is_current_source job source ≡ true
      → remote.id ≡ source.asset.id
      → (latest job w.log).source_album_ids ≡ some expected
      → Allowed h e.codec remote_delete job (copy_sent remote.id candidate.id) w.log
      → GoodEnd h e.codec remote_delete job
          (copy_albums h e source candidate marker remote expected w)
  unfolding copy_albums latest
  copy_albums-GoodEnd source candidate marker remote expected w g permitted replaces known same
        albums allowed =
      let w1 = noted w (copy_sent remote.id candidate.id) in
      send-GoodEnd h e.codec remote_delete job _ w g (copy_sent remote.id candidate.id)
        (λ t. e.copy_reply t remote.id candidate.id) refl allowed
        (λ a g1.
          stable_album_ids-GoodEnd h e.codec remote_delete job w1 g1 _ e remote.id
            (λ x1 y1 w2 l2 g2.
              stable_album_ids-GoodEnd h e.codec remote_delete job w2 g2 _ e candidate.id
                (λ x2 y2 w3 l3 g3.
                  confirm_albums-GoodEnd source candidate marker remote expected x1 y1 x2 y2 w.log
                    w3 g3 permitted replaces known same albums cc)))
