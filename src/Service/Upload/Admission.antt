-- ===== src/Service/Upload/Admission.antt =====
-- What the result of `open_attempt`, as `_process_upload` of src/immich_on_demand/service.py calls it,
-- says of the queue.
use immich_on_demand.Prelude.{ℕ, some, ◌≡◌, refl, ◌∙◌, inl, inr, Bool-cases}
use immich_on_demand.Prelude.Text.{Text}
use immich_on_demand.Prelude.Exec.{
  ok, err, lift, raise, ◌>>=◌, Result-cases, bind_split, err_not_ok,
}
use immich_on_demand.Errors.{Exception, is_queue_error}
use immich_on_demand.Uploads.Manifest.{Manifest, Host}
use immich_on_demand.Uploads.Disk.{Payload, Queue}
use immich_on_demand.Uploads.Queue.{UploadStatus}
use immich_on_demand.Uploads.Attempt.{admit, verify_sealed_payload, confirm, reject}
use immich_on_demand.Service.World.{Outside, World, queue_call, catch}
use immich_on_demand.Service.Upload.Attempt.{open_attempt, confirm_attempt, reject_attempt}

-- The queue has admitted the job at this revision, its payload was verified, and the attempt was then
-- counted, with `status` as the result.
pub record Admission (h : Host) (job_id : Text) (revision : ℕ) (status : UploadStatus)
    : Type 0 where
  pub before : Queue
  pub admitted : Manifest
  pub payload : Payload
  pub admits : (admit h job_id (some revision) before).0 ≡ ok (admitted, payload)
  pub verified : verify_sealed_payload h admitted payload ≡ ok tt
  pub between : Queue
  pub counts : (confirm h job_id admitted between).0 ≡ ok status

module _ (h : Host) (e : Outside) (job_id : Text) where
  reject_raises :
      (admitted : Manifest) (x : Exception) (w : World)
      → ((reject_attempt h e job_id admitted x w).1.current ≡ w.current)
        × ((y : Exception) × ((reject_attempt h e job_id admitted x w).0 ≡ err y))
  unfolding reject_attempt queue_call raise ◌>>=◌
  reject_raises admitted x w = elim (Bool-cases (is_queue_error x)) [
    | inr b ↦ rw b (refl, (x, refl))
    | inl b ↦ elim (Result-cases (reject h job_id admitted (e.meanwhile w.time w.queue)).0) [
      | inl (a, r) ↦ rw (b, r) (refl, (x, refl))
      | inr (y, r) ↦ rw (b, r) (refl, (y, refl))
    ]
  ]

  -- The parts of an attempt that is confirmed.
  Confirmed : Manifest × Payload → UploadStatus → Type 0
  Confirmed (admitted, payload) status =
      (verify_sealed_payload h admitted payload ≡ ok tt)
      × ((between : Queue) × ((confirm h job_id admitted between).0 ≡ ok status))

  confirm_attempt_lem :
      (both : Manifest × Payload) (w : World)
      → ((confirm_attempt h e job_id both w).1.current ≡ w.current)
        × ((status : UploadStatus)
            → (confirm_attempt h e job_id both w).0 ≡ ok status
            → Confirmed both status)
  unfolding confirm_attempt queue_call catch lift ◌>>=◌ Confirmed
  confirm_attempt_lem (admitted, payload) w =
      elim (Result-cases (verify_sealed_payload h admitted payload)) [
        | inr (x, v) ↦
            let (c, (y, r)) = reject_raises admitted x w in
            rw v (c, λ status k. absurd (err_not_ok _ y status r k))
        | inl (u, v) ↦
            elim (Result-cases (confirm h job_id admitted (e.meanwhile w.time w.queue)).0) [
              | inl (m, r) ↦
                  rw (v, r) (refl, λ status k. (refl, (e.meanwhile w.time w.queue, r ∙ k)))
              | inr (x, r) ↦
                  let w1 = (queue_call e (confirm h job_id admitted) w).1 in
                  let (c, (y, raised)) = reject_raises admitted x w1 in
                  rw (v, r) (c, λ status k. absurd (err_not_ok _ y status raised k))
            ]
      ]

  pub attempt_current :
      (revision : ℕ) (w : World) → (open_attempt h e job_id revision w).1.current ≡ w.current
  unfolding open_attempt queue_call ◌>>=◌
  attempt_current revision w =
      elim (Result-cases (admit h job_id (some revision) (e.meanwhile w.time w.queue)).0) [
        | inr (x, r) ↦ rw r refl
        | inl (both, r) ↦
            rw r (confirm_attempt_lem both (queue_call e (admit h job_id (some revision)) w).1).0
      ]

  pub open_attempt-Admission :
      (revision : ℕ) (w : World) (status : UploadStatus)
      → (open_attempt h e job_id revision w).0 ≡ ok status
      → Admission h job_id revision status
  unfolding open_attempt queue_call Confirmed
  open_attempt-Admission revision w status k =
      let (both, first, last, whole) =
        bind_split (queue_call e (admit h job_id (some revision))) (confirm_attempt h e job_id) w
          status k in
      let w1 = (queue_call e (admit h job_id (some revision)) w).1 in
      let (verified, (between, counts)) = (confirm_attempt_lem both w1).1 status last in
      record {
        before = e.meanwhile w.time w.queue;
        admitted = both.0;
        payload = both.1;
        admits = first;
        verified = verified;
        between = between;
        counts = counts;
      }
