-- ===== src/Service/Upload/Safety/Trace.antt =====
-- `_process_upload` of src/immich_on_demand/service.py as a whole keeps the log of the task safe.
use mathlib.Core.Path.{subst}
use immich_on_demand.Prelude.{
  ℤ, is_none, ◌||◌, [], none, some, Bool, true, false, ◌≡◌, refl, sym, ap, ◌∙◌, arith, ◌⊎◌,
  Bool-cases, Option-cases, inl, inr,
}
use immich_on_demand.Prelude.Text.{Text, ◌=ₜ◌, =ₜ_iff}
use immich_on_demand.Prelude.Exec.{Result, ok, err, pure, raise, lift, ◌>>=◌, ◌>>◌, Result-cases}
use immich_on_demand.Errors.{Exception}
use immich_on_demand.Uploads.Manifest.{
  Host, UploadErrorCode, upload_rejected, profile_mismatch, candidate_mismatch, local_state_failed,
  upload_unavailable, ambiguous_response,
}
use immich_on_demand.Uploads.Validate.{is_replacing}
use immich_on_demand.Uploads.Queue.{UploadStatus, block, retry}
use immich_on_demand.Library.{Library, ServerSession, mutation_enabled, mutation_access}
use immich_on_demand.Service.Checks.{upload_retry_at}
use immich_on_demand.Service.World.{
  Outside, World, Act, ticked, ask, queue_call, catch, with_current,
}
use immich_on_demand.Service.Upload.{Exit, block_upload, retry_upload}
use immich_on_demand.Service.Upload.Attempt.{process_body}
use immich_on_demand.Service.Upload.Process.{
  on_failure, settle, run_body, process_for, process_upload,
}
use immich_on_demand.Service.Upload.Safety.{latest, Safe, Good}
use immich_on_demand.Service.Upload.Safety.Rules.{
  GoodEnd, bind-GoodEnd, Good-quiet, if-GoodEnd, catch-GoodEnd, ask-GoodEnd,
}
use immich_on_demand.Service.Upload.Safety.Reading.{
  block_upload-GoodEnd, quiet_call-GoodEnd, remove_committed_upload-GoodEnd,
}
use immich_on_demand.Service.Upload.Safety.Body.{process_body-GoodEnd}

module _ (h : Host) (e : Outside) (remote_delete : Bool) (job : UploadStatus) where
  retry_upload-GoodEnd :
      (m : UploadStatus) (error : UploadErrorCode) (w : World)
      → Good h e.codec remote_delete job w
      → GoodEnd h e.codec remote_delete job (retry_upload h e m error w)
  unfolding retry_upload pure
  retry_upload-GoodEnd m error w g =
      let call : ℤ → Act (Unit {0}) = λ now_ns. (do
        queue_call e (retry h m.id (upload_retry_at now_ns m.attempt_count) (some error) none)
        pure tt) in
      let good =
        ask-GoodEnd h e.codec remote_delete job call w g (λ t. ok (e.now_ns t))
          (λ now_ns.
            quiet_call-GoodEnd h e.codec remote_delete job (ticked w)
              (Good-quiet h e.codec remote_delete job w (ticked w) refl refl g) e
              (retry h m.id (upload_retry_at now_ns m.attempt_count) (some error) none)) in
      catch-GoodEnd h e.codec remote_delete job (ask (λ t. ok (e.now_ns t)) >>= call) (λ x. pure tt)
        w good (λ x. good)

  on_failure-GoodEnd :
      (x : Exception) (m : UploadStatus) (w : World)
      → Good h e.codec remote_delete job w
      → GoodEnd h e.codec remote_delete job (on_failure h e x m w)
  unfolding on_failure pure raise
  on_failure-GoodEnd Exception.immich_unavailable m w g =
      retry_upload-GoodEnd m upload_unavailable w g
  on_failure-GoodEnd Exception.immich_retryable m w g =
      retry_upload-GoodEnd m upload_unavailable w g
  on_failure-GoodEnd Exception.immich_response m w g =
      if-GoodEnd h e.codec remote_delete job (is_none m.candidate_asset_id || is_replacing m.state)
        (retry_upload h e m ambiguous_response) (block_upload h e m.id candidate_mismatch) w
        (λ t. retry_upload-GoodEnd m ambiguous_response w g)
        (λ f. block_upload-GoodEnd h e.codec remote_delete job w g h e m.id candidate_mismatch)
  on_failure-GoodEnd Exception.immich_error m w g =
      block_upload-GoodEnd h e.codec remote_delete job w g h e m.id upload_rejected
  on_failure-GoodEnd Exception.queue_error m w g = g
  on_failure-GoodEnd Exception.state_error m w g = g
  on_failure-GoodEnd Exception.preview_suppression m w g =
      let g1 = block_upload-GoodEnd h e.codec remote_delete job w g h e m.id local_state_failed in
      bind-GoodEnd h e.codec remote_delete job (λ x. raise Exception.preview_suppression) w
        (block_upload h e m.id local_state_failed) g1 (λ a k. g1)
  on_failure-GoodEnd _ m w g =
      block_upload-GoodEnd h e.codec remote_delete job w g h e m.id local_state_failed

  settle-GoodEnd :
      (r : Result Exception Exit) (w : World)
      → Good h e.codec remote_delete job w
      → GoodEnd h e.codec remote_delete job (settle h e r w)
  unfolding settle with_current pure
  settle-GoodEnd (ok Exit.returned) w g = g
  settle-GoodEnd (ok Exit.completed) w g =
      remove_committed_upload-GoodEnd h e.codec remote_delete job h e w.current.id w g
  settle-GoodEnd (err x) w g = on_failure-GoodEnd x w.current w g

  run_body-Safe :
      (w : World)
      → w.log ≡ []
      → Safe h e.codec remote_delete job
          (run_body h e remote_delete (record w { current = job })).1.log
  unfolding run_body Safe latest
  run_body-Safe w l =
      let w0 : World = record w { current = job } in
      let good : Good h e.codec remote_delete job w0 = record {
        safe = subst (Safe h e.codec remote_delete job) (sym l) tt;
        current = ap (latest job) (sym l);
      } in
      let done = process_body-GoodEnd h e remote_delete job w0 refl l good in
      (settle-GoodEnd (process_body h e remote_delete w0).0 (process_body h e remote_delete w0).1
        done).safe

block_upload_quiet :
    (h : Host) (e : Outside) (id : Text) (error : UploadErrorCode) (w : World)
    → (block_upload h e id error w).1.log ≡ w.log
unfolding block_upload catch queue_call pure ◌>>=◌
block_upload_quiet h e id error w =
    elim (Result-cases (block h id error (e.meanwhile w.time w.queue)).0) [
      | inl (a, r) ↦ rw r refl
      | inr (x, r) ↦ rw r refl
    ]

-- The job is of the profile that the library was opened for, and changes are enabled.
pub record Permitted (library : Library) (job : UploadStatus) : Type 0 where
  pub same_origin : job.server_origin ≡ library.settings.server_origin
  pub has_client : library.has_client ≡ true
  pub session : ServerSession
  pub opened : library.session ≡ some session
  pub same_owner : session.owner_id ≡ job.owner_id

pub record SafeRun (h : Host) (e : Outside) (library : Library) (job : UploadStatus) (w : World)
    : Type 0 where
  pub safe :
      Safe h e.codec library.settings.remote_delete job (process_upload h e library job w).1.log
  pub permitted : ((process_upload h e library job w).1.log ≡ []) ⊎ Permitted library job

module _ (h : Host) (e : Outside) (library : Library) (job : UploadStatus) (w : World)
    (fresh : w.log ≡ []) where
  quiet_run : (process_upload h e library job w).1.log ≡ [] → SafeRun h e library job w
  unfolding Safe
  quiet_run l = record {
    safe = subst (Safe h e.codec library.settings.remote_delete job) (sym l) tt;
    permitted = inl l;
  }

  served_run : Permitted library job → SafeRun h e library job w
  unfolding process_upload process_for mutation_enabled mutation_access lift ◌>>=◌
  served_run p =
      let l : (process_upload h e library job w)
          ≡ run_body h e library.settings.remote_delete (record w { current = job }) =
        ground (
          arith,
          p.same_origin,
          p.has_client,
          p.opened,
          p.same_owner,
          =ₜ_iff job.server_origin library.settings.server_origin,
          =ₜ_iff p.session.owner_id job.owner_id,
        ) in
      record {
        safe =
            subst (λ r. Safe h e.codec library.settings.remote_delete job r.1.log) (sym l)
              (run_body-Safe h e library.settings.remote_delete job w fresh);
        permitted = inr p;
      }

  refused_run :
      (job.server_origin =ₜ library.settings.server_origin) ≡ false → SafeRun h e library job w
  unfolding process_upload
  refused_run o = quiet_run (rw o (block_upload_quiet h e job.id profile_mismatch w ∙ fresh))

  disabled_run : mutation_enabled library ≡ false → SafeRun h e library job w
  unfolding process_upload pure
  disabled_run m = elim (Bool-cases (job.server_origin =ₜ library.settings.server_origin)) [
    | inr o ↦ refused_run o
    | inl o ↦ quiet_run (rw (o, m) fresh)
  ]

  foreign_run :
      (session : ServerSession)
      → library.has_client ≡ true
      → library.session ≡ some session
      → (job.server_origin =ₜ library.settings.server_origin) ≡ true
      → (session.owner_id =ₜ job.owner_id) ≡ false
      → SafeRun h e library job w
  unfolding process_upload process_for mutation_enabled mutation_access lift ◌>>=◌
  foreign_run session c k o n =
      quiet_run (rw (o, c, k, n) (block_upload_quiet h e job.id profile_mismatch w ∙ fresh))

  with_session :
      library.has_client ≡ true
      → (session : ServerSession) → library.session ≡ some session
      → SafeRun h e library job w
  with_session c session k =
      elim (Bool-cases (job.server_origin =ₜ library.settings.server_origin)) [
        | inr o ↦ refused_run o
        | inl o ↦ elim (Bool-cases (session.owner_id =ₜ job.owner_id)) [
          | inr n ↦ foreign_run session c k o n
          | inl n ↦ served_run (record {
            same_origin = (=ₜ_iff job.server_origin library.settings.server_origin).0 o;
            has_client = c;
            session = session;
            opened = k;
            same_owner = (=ₜ_iff session.owner_id job.owner_id).0 n;
          })
        ]
      ]

  -- Whatever the server, the catalog and the other tasks do, and however `_process_upload` ends: if
  -- nothing was noted before, everything that it has noted is allowed by what it noted before, and it
  -- has noted nothing unless the job is of the library's server and owner and changes are enabled.
  pub process_upload-SafeRun : SafeRun h e library job w
  unfolding mutation_enabled
  process_upload-SafeRun = elim (Bool-cases library.has_client) [
    | inr c ↦ disabled_run (ground arith)
    | inl c ↦ elim (Option-cases library.session) [
      | inl k ↦ disabled_run (ground arith)
      | inr (session, k) ↦ with_session c session k
    ]
  ]
