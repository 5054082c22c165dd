-- ===== src/Uploads/Machine/Begin.antt =====
-- `begin` makes a job that was not there, or changes no manifest.
use immich_on_demand.Errors.{Exception, file_exists}
use immich_on_demand.Prelude.{
  Option, none, some, ◌≡◌, refl, ◌∙◌, ap, if◌then◌else◌, inl, inr, Option-cases,
}
use immich_on_demand.Prelude.Text.{Text, ◌=ₜ◌}
use immich_on_demand.Prelude.Dict.{get}
use immich_on_demand.Prelude.Exec.{
  Result, err, lift, pure, ◌>>=◌, Result-cases, bind_after_ok, bind_after_err, bind-pure_state,
}
use immich_on_demand.Uploads.Manifest.{Manifest, Host}
use immich_on_demand.Uploads.Disk.{Queue, FileInfo, JobDir, save, store, open_job, open_payload}
use immich_on_demand.Uploads.Disk.View.{
  manifest_of, save-eq-ok, save-eq-err, store-views_new, manifest_of_jobs, manifest_of_absent,
}
use immich_on_demand.Uploads.Draft.{
  WritableUpload, begin, make_job, list_job, new_manifest, new_dir,
}
use immich_on_demand.Uploads.Machine.{Outcome, unchanged, created, Touches}
use immich_on_demand.Uploads.Machine.Attempts.{Reads-open_job}
use immich_on_demand.Uploads.Machine.Rules.{
  Reads-lift, Reads-guard, Touches-bind, bind_state, Outcome-refl,
}

module _ (h : Host) (job_id : Text) (dir_info payload_info : FileInfo)
    (requested_name owner_id : Text) where
  list_views :
      (s : Queue) (draft : WritableUpload) (j : Text)
      → manifest_of ((list_job job_id >>= λ _. pure draft) s).1 j ≡ manifest_of s j
  list_views s draft j =
      rw (bind-pure_state (list_job job_id) draft s)
        (manifest_of_jobs s (list_job job_id s).1 (unfold list_job in refl) j)

  -- The manifest of a job that `begin` has just made a directory for.
  save_new :
      (q s : Queue) (origin : Text) (draft : WritableUpload)
      → manifest_of q job_id ≡ none
      → ((j : Text) → manifest_of s j ≡ manifest_of q j)
      → Outcome h q job_id
          ((save h job_id (new_manifest job_id origin owner_id requested_name) >>= λ _.
              list_job job_id >>= λ _. pure draft)
            s).1
  save_new q s origin draft absent same =
      let m = new_manifest job_id origin owner_id requested_name in
      elim (Result-cases (save h job_id m s).0) [
        | inl (u, e) ↦
            let saved = save-eq-ok h job_id s m e in
            rw (bind_after_ok (save h job_id m) (λ _. list_job job_id >>= λ _. pure draft) s u e) (
              created origin owner_id requested_name absent (record {
                views = λ j.
                    list_views (save h job_id m s).1 draft j
                    ∙ saved.views j
                    ∙ ap (λ (o : Option Manifest). if job_id =ₜ j then some m else o) (same j);
                valid = saved.valid;
                small = saved.small;
              }))
        | inr (x, e) ↦
            rw (bind_after_err (save h job_id m) (λ _. list_job job_id >>= λ _. pure draft) s x e)
              (rw (save-eq-err h job_id s m x e) (unchanged same))
      ]

  make_job_absent :
      (q : Queue)
      → get q.jobs job_id ≡ none
      → make_job job_id dir_info payload_info q ≡ store job_id (new_dir dir_info payload_info) q
  unfolding make_job
  make_job_absent q absent = rw absent

  make_job_present :
      (q : Queue) (dir : JobDir)
      → get q.jobs job_id ≡ some dir
      → make_job job_id dir_info payload_info q ≡ (err file_exists, q)
  unfolding make_job
  make_job_present q dir found = rw found

  -- `begin` from the creation of the directory on.
  make-Outcome :
      (q : Queue) (origin : Text) (draft : WritableUpload)
      → Outcome h q job_id
          ((make_job job_id dir_info payload_info >>= λ _. open_job h job_id >>= λ dir.
              lift (open_payload h dir) >>= λ _.
              save h job_id (new_manifest job_id origin owner_id requested_name) >>= λ _.
              list_job job_id >>= λ _. pure draft)
            q).1
  make-Outcome q origin draft = elim (Option-cases (get q.jobs job_id)) [
    | inr (dir, found) ↦ Outcome-refl h q job_id (
        bind_after_err (make_job job_id dir_info payload_info) _ q file_exists
          (ap (λ (r : Result Exception (Unit {0}) × Queue). r.0) (make_job_present q dir found))
        ∙ ap (λ (r : Result Exception (Unit {0}) × Queue). r.1) (make_job_present q dir found))
    | inl absent ↦
        let s = (store job_id (new_dir dir_info payload_info) q).1 in
        let same : (j : Text) → manifest_of s j ≡ manifest_of q j =
          store-views_new q job_id (new_dir dir_info payload_info) absent
            (unfold new_dir in refl) in
        rw
          (bind_after_ok (make_job job_id dir_info payload_info) _ q tt (
            ap (λ (r : Result Exception (Unit {0}) × Queue). r.0) (make_job_absent q absent)
            ∙ (unfold store in refl)))
          (rw (make_job_absent q absent) (
            bind_state (Outcome h q job_id) (open_job h job_id) _ s (Reads-open_job h job_id)
              (unchanged same)
              (λ dir _.
                bind_state (Outcome h q job_id) (lift (open_payload h dir)) _ s (Reads-lift _)
                  (unchanged same)
                  (λ _ _. save_new q s origin draft (manifest_of_absent q job_id absent) same))))
  ]

  pub begin-Touches :
      (server_origin : Text)
      → Touches h job_id
          (begin h job_id dir_info payload_info requested_name server_origin owner_id)
  unfolding begin
  begin-Touches server_origin = Touches-bind h job_id _ _ (Reads-guard _ _) (λ _.
      Touches-bind h job_id _ _ (Reads-lift _) (λ origin.
        Touches-bind h job_id _ _ (Reads-guard _ _)
          (λ _. record { at = λ q. make-Outcome q origin _ })))
