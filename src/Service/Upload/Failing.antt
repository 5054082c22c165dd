-- ===== src/Service/Upload/Failing.antt =====
-- What `_process_upload` of src/immich_on_demand/service.py raises.
use immich_on_demand.Prelude.{
  suc, none, some, Bool, false, ◌≡◌, refl, arith, inl, inr, if◌then◌else◌, Bool-cases, Option-cases,
  ◌&&◌,
}
use immich_on_demand.Prelude.Text.{◌=ₜ◌, Text}
use immich_on_demand.Prelude.Exec.{ok, err, pure, raise, lift, ◌>>=◌, Result-cases}
use immich_on_demand.Errors.{Exception, Fallible, preview_suppression}
use immich_on_demand.Uploads.Manifest.{
  Host, UploadErrorCode, upload_unavailable, ambiguous_response, candidate_mismatch,
  upload_rejected, local_state_failed, profile_mismatch,
}
use immich_on_demand.Uploads.Queue.{UploadStatus, block, retry}
use immich_on_demand.Uploads.Cleanup.{remove_job}
use immich_on_demand.Library.{Library, mutation_enabled, mutation_access}
use immich_on_demand.Service.Checks.{upload_retry_at}
use immich_on_demand.Service.World.{Outside, World, Act, ask, queue_call, catch, with_current}
use immich_on_demand.Service.Upload.{
  Exit, block_upload, retry_upload, remove_committed_upload, notify_upload_finished,
}
use immich_on_demand.Service.Upload.Attempt.{process_body}
use immich_on_demand.Service.Upload.Process.{
  on_failure, settle, run_body, process_for, process_upload,
}

-- A step whose errors are swallowed returns.
caught_returns : (m : Act (Unit {0})) (w : World) → (catch m (λ x. pure tt) w).0 ≡ ok tt
unfolding catch pure
caught_returns m w = elim (Result-cases (m w).0) [ inl (a, r) ↦ rw r refl | inr (x, r) ↦ rw r refl ]

block_upload_returns :
    (h : Host) (e : Outside) (id : Text) (error : UploadErrorCode) (w : World)
    → (block_upload h e id error w).0 ≡ ok tt
unfolding block_upload catch queue_call pure ◌>>=◌
block_upload_returns h e id error w =
    elim (Result-cases (block h id error (e.meanwhile w.time w.queue)).0) [
      | inl (a, r) ↦ rw r refl
      | inr (x, r) ↦ rw r refl
    ]

retry_upload_returns :
    (h : Host) (e : Outside) (m : UploadStatus) (error : UploadErrorCode) (w : World)
    → (retry_upload h e m error w).0 ≡ ok tt
unfolding retry_upload catch ask queue_call pure ◌>>=◌
retry_upload_returns h e m error w =
    elim (Result-cases
      (retry h m.id (upload_retry_at (e.now_ns w.time) m.attempt_count) (some error) none
        (e.meanwhile (suc w.time) w.queue)).0) [ inl (a, r) ↦ rw r refl | inr (x, r) ↦ rw r refl ]

remove_returns :
    (h : Host) (e : Outside) (id : Text) (w : World) → (remove_committed_upload h e id w).0 ≡ ok tt
unfolding remove_committed_upload notify_upload_finished ◌>>=◌
remove_returns h e id w =
    let w' = (catch (queue_call e (remove_job h id)) (λ x. pure tt) w).1 in
    rw (caught_returns (queue_call e (remove_job h id)) w)
      (caught_returns (ask (λ t. e.on_upload_finished t id)) w')

-- An error that hides nothing from the previews stays inside; the one that does is raised again.
unfoldable pub propagated : {A : Type 0} → Fallible A → Fallible (Unit {0})
propagated (ok a) = ok tt
propagated (err preview_suppression) = err preview_suppression
propagated (err _) = ok tt

settle_result :
    (h : Host) (e : Outside) (r : Fallible Exit) (w : World) → (settle h e r w).0 ≡ propagated r
unfolding settle on_failure propagated with_current pure raise ◌>>=◌
settle_result h e (ok Exit.returned) w = refl
settle_result h e (ok Exit.completed) w = remove_returns h e w.current.id w
settle_result h e (err Exception.immich_unavailable) w =
    retry_upload_returns h e w.current upload_unavailable w
settle_result h e (err Exception.immich_retryable) w =
    retry_upload_returns h e w.current upload_unavailable w
settle_result h e (err Exception.immich_response) w = ground (
  arith,
  retry_upload_returns h e w.current ambiguous_response w,
  block_upload_returns h e w.current.id candidate_mismatch w,
)
settle_result h e (err Exception.immich_error) w =
    block_upload_returns h e w.current.id upload_rejected w
settle_result h e (err Exception.queue_error) w = refl
settle_result h e (err Exception.state_error) w = refl
settle_result h e (err preview_suppression) w =
    rw (block_upload_returns h e w.current.id local_state_failed w) refl
settle_result h e (err _) w = block_upload_returns h e w.current.id local_state_failed w

-- The job is of the library's server and owner, and changes are enabled.
unfoldable pub is_served : Library → UploadStatus → Bool
is_served library job =
    (job.server_origin =ₜ library.settings.server_origin)
    && library.has_client
    && elim library.session [ none ↦ false | some session ↦ session.owner_id =ₜ job.owner_id ]

-- `_process_upload` raises nothing but the failure to suppress a preview, and this exactly when the job
-- is served and the `try` block raises it; in all other cases it returns.
pub process_upload_result :
    (h : Host) (e : Outside) (library : Library) (job : UploadStatus) (w : World)
    → (process_upload h e library job w).0 ≡ (
        if is_served library job
        then propagated
            (process_body h e library.settings.remote_delete (record w { current = job })).0
        else ok tt)
unfolding process_upload process_for run_body mutation_enabled mutation_access is_served pure lift
    ◌>>=◌
process_upload_result h e library job w =
    let w0 : World = record w { current = job } in
    let body = process_body h e library.settings.remote_delete w0 in
    let settled = settle_result h e body.0 body.1 in
    let blocked = block_upload_returns h e job.id profile_mismatch w in
    elim (Bool-cases (job.server_origin =ₜ library.settings.server_origin)) [
      | inr o ↦ rw o blocked
      | inl o ↦ elim (Bool-cases library.has_client) [
        | inr c ↦ rw (o, c) refl
        | inl c ↦ elim (Option-cases library.session) [
          | inl k ↦ rw (o, c, k) refl
          | inr (session, k) ↦ elim (Bool-cases (session.owner_id =ₜ job.owner_id)) [
            | inr n ↦ rw (o, c, k, n) blocked
            | inl n ↦ rw (o, c, k, n) settled
          ]
        ]
      ]
    ]
