-- ===== src/Service/Upload/Safety/Reading.antt =====
-- Rules for what the task reads: assets, albums, and the answer to the request for the trash.
use mathlib.Core.Path.{subst}
use immich_on_demand.Prelude.{
  ℕ, List, ◌∷◌, Option, none, some, Bool, true, ◌≡◌, refl, sym, ap, ◌∙◌, arith, if◌then◌else◌,
  is_some, Bool-cases, inl, inr,
}
use immich_on_demand.Prelude.Text.{Text, =ₜ_iff, same_texts, same_texts→eq}
use immich_on_demand.Prelude.Exec.{ok, err, pure, guard, ◌>>=◌, ◌>>◌, bind_assoc}
use immich_on_demand.Errors.{Fallible}
use immich_on_demand.Model.Asset.{Asset}
use immich_on_demand.Uploads.Manifest.{Host, candidate_mismatch, UploadErrorCode}
use immich_on_demand.Uploads.Disk.{Op}
use immich_on_demand.Uploads.Queue.{UploadStatus, block}
use immich_on_demand.Uploads.Cleanup.{remove_job}
use immich_on_demand.Service.Checks.{Codec}
use immich_on_demand.Service.World.{
  Outside, World, Act, Event, asset_read, albums_read, queue_call, with_current, same_id,
  read_asset, ask, catch, ticked,
}
use immich_on_demand.Service.Albums.{
  read_albums, sorted_reply, stable_album_ids, if_same, is_album_tuple,
}
use immich_on_demand.Service.Upload.{
  Exit, block_upload, remove_committed_upload, notify_upload_finished, mismatch,
}
use immich_on_demand.Service.Upload.Safety.{latest, Allowed, Good}
use immich_on_demand.Service.Upload.Safety.Rules.{
  GoodEnd, bind-GoodEnd, Good-quiet, catch-GoodEnd, queue_call-GoodEnd, see-GoodEnd,
}

same_id_is : (id : Text) (r : Fallible Asset) (a : Asset) → same_id id r ≡ ok a → a.id ≡ id
unfolding same_id
same_id_is id (ok b) a h = ground (arith, =ₜ_iff b.id id)
same_id_is id (err x) a h = absurd cc

-- Two readings that agree with the expectation.
pub albums_agree :
    (first second expected : List Text)
    → is_album_tuple (if_same first second) expected ≡ true
    → (first ≡ expected) × (second ≡ expected)
unfolding is_album_tuple if_same
albums_agree first second expected h = elim (Bool-cases (same_texts first second)) [
  | inl s ↦
      let e =
        same_texts→eq first expected
          (ap (λ b. is_album_tuple (if b then some first else none) expected) (sym s) ∙ h) in
      (e, sym (same_texts→eq first second s) ∙ e)
  | inr d ↦ absurd (ground arith)
]

module _ (host : Host) (c : Codec) (remote_delete : Bool) (job : UploadStatus) where
  module _ {B : Type 0} (w : World) (g : Good host c remote_delete job w) where
    pub read_asset-GoodEnd :
        (f : Asset → Act B) (h : Host) (e : Outside) (id : Text)
        → ((a : Asset) (w' : World)
            → w'.log ≡ asset_read a ∷ w.log
            → a.id ≡ id
            → Good host c remote_delete job w'
            → GoodEnd host c remote_delete job (f a w'))
        → GoodEnd host c remote_delete job ((read_asset h e id >>= f) w)
    unfolding read_asset guard ◌>>=◌ Allowed latest
    read_asset-GoodEnd f h e id k = elim (Bool-cases (is_some (h.uuid id))) [
      | inr b ↦ rw b g
      | inl b ↦
          let reply : ℕ → Fallible Asset = λ t. same_id id (e.asset_reply t id) in
          rw b (
            see-GoodEnd host c remote_delete job f w g asset_read reply (λ a. (refl, tt))
              (λ a w' l r good. k a w' l (same_id_is id (e.asset_reply w.time id) a r) good))
    ]

    read_albums-GoodEnd :
        (f : List Text → Act B) (e : Outside) (id : Text)
        → ((albums : List Text) (w' : World)
            → w'.log ≡ albums_read id albums ∷ w.log
            → Good host c remote_delete job w'
            → GoodEnd host c remote_delete job (f albums w'))
        → GoodEnd host c remote_delete job ((read_albums e id >>= f) w)
    unfolding read_albums Allowed latest
    read_albums-GoodEnd f e id k =
        let reply : ℕ → Fallible (List Text) = λ t. sorted_reply (e.albums_reply t id) in
        see-GoodEnd host c remote_delete job f w g (albums_read id) reply (λ a. (refl, tt))
          (λ a w' l r good. k a w' l good)

  module _ {B : Type 0} (w : World) (g : Good host c remote_delete job w) where
    pub stable_album_ids-GoodEnd :
        (f : Option (List Text) → Act B) (e : Outside) (id : Text)
        → ((first second : List Text) (w' : World)
            → w'.log ≡ albums_read id second ∷ albums_read id first ∷ w.log
            → Good host c remote_delete job w'
            → GoodEnd host c remote_delete job (f (if_same first second) w'))
        → GoodEnd host c remote_delete job ((stable_album_ids e id >>= f) w)
    unfolding stable_album_ids ◌>>=◌
    stable_album_ids-GoodEnd f e id k =
        let last : List Text → List Text → Act (Option (List Text)) =
          λ first second. pure (if_same first second) in
        let rest : List Text → Act (Option (List Text)) =
          λ first. read_albums e id >>= last first in
        subst (GoodEnd host c remote_delete job) (sym (bind_assoc (read_albums e id) rest f w)) (
          read_albums-GoodEnd w g (λ first. rest first >>= f) e id
            (λ first w1 l1 g1.
              subst (GoodEnd host c remote_delete job)
                (sym (bind_assoc (read_albums e id) (last first) f w1))
                (read_albums-GoodEnd w1 g1 (λ second. last first second >>= f) e id
                  (λ second w2 l2 g2.
                    k first second w2 (l2 ∙ ap (λ (l : List Event). albums_read id second ∷ l) l1)
                      g2))))

  module _ (w : World) (g : Good host c remote_delete job w) where
    pub quiet_call-GoodEnd :
        {A : Type 0} (e : Outside) (op : Op A)
        → GoodEnd host c remote_delete job ((do queue_call e op; pure tt) w)
    unfolding pure
    quiet_call-GoodEnd e op =
        queue_call-GoodEnd host c remote_delete job (λ a. pure tt) w g e op (λ a w' l k good. good)

    pub block_upload-GoodEnd :
        (h : Host) (e : Outside) (id : Text) (error : UploadErrorCode)
        → GoodEnd host c remote_delete job (block_upload h e id error w)
    unfolding block_upload pure
    block_upload-GoodEnd h e id error =
        let good = quiet_call-GoodEnd e (block h id error) in
        catch-GoodEnd host c remote_delete job (do queue_call e (block h id error); pure tt)
          (λ x. pure tt) w good (λ x. good)

    pub mismatch-GoodEnd :
        (h : Host) (e : Outside) → GoodEnd host c remote_delete job (mismatch h e w)
    unfolding mismatch with_current pure
    mismatch-GoodEnd h e =
        let good = block_upload-GoodEnd h e w.current.id candidate_mismatch in
        bind-GoodEnd host c remote_delete job (λ x. pure Exit.returned) w
          (block_upload h e w.current.id candidate_mismatch) good (λ a k. good)

  pub notify-GoodEnd :
      (e : Outside) (id : Text) (w : World)
      → Good host c remote_delete job w
      → GoodEnd host c remote_delete job (notify_upload_finished e id w)
  unfolding notify_upload_finished ask pure
  notify-GoodEnd e id w g =
      let good = Good-quiet host c remote_delete job w (ticked w) refl refl g in
      catch-GoodEnd host c remote_delete job (ask (λ t. e.on_upload_finished t id)) (λ x. pure tt) w
        good (λ x. good)

  pub remove_committed_upload-GoodEnd :
      (h : Host) (e : Outside) (id : Text) (w : World)
      → Good host c remote_delete job w
      → GoodEnd host c remote_delete job (remove_committed_upload h e id w)
  unfolding remove_committed_upload queue_call pure
  remove_committed_upload-GoodEnd h e id w g =
      let removal : Act (Unit {0}) = catch (queue_call e (remove_job h id)) (λ x. pure tt) in
      let good =
        Good-quiet host c remote_delete job w (queue_call e (remove_job h id) w).1 refl refl g in
      let removed =
        catch-GoodEnd host c remote_delete job (queue_call e (remove_job h id)) (λ x. pure tt) w
          good (λ x. good) in
      bind-GoodEnd host c remote_delete job (λ x. notify_upload_finished e id) w removal removed
        (λ a k. notify-GoodEnd e id (removal w).1 removed)
