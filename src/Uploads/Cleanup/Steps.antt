-- ===== src/Uploads/Cleanup/Steps.antt =====
-- The changes of the disk that a removal makes in src/immich_on_demand/uploads.py, one by one.
use immich_on_demand.Prelude.{List, [], ◌∷◌, Option, none, some, true, false, ◌≡◌, refl, arith, ◌∙◌}
use immich_on_demand.Prelude.Text.{Text, ◌=ₜ◌}
use immich_on_demand.Prelude.Exec.{ok}
use immich_on_demand.Prelude.Dict.{get, put, get-put, get-remove}
use immich_on_demand.Uploads.Manifest.{Manifest, Host}
use immich_on_demand.Uploads.Disk.{
  Payload, ManifestFile, JobDir, Queue, read_manifest_file, is_private_directory, is_private_file,
}
use immich_on_demand.Uploads.Cleanup.{
  either, allows, CleanupStep, move_manifest, unlink_payload, remove_directory, unlink_marker,
  change_dir, move_file, dir_file, cleanup_step, has_both_files,
}

-- A job as `_cleanup_job` finds it once its checks have passed.
pub record IsRemovable (h : Host) (q : Queue) (id : Text) : Type 0 where
  pub dir : JobDir
  pub found : get q.jobs id ≡ some dir
  pub private : is_private_directory h dir.info ≡ true
  pub file : ManifestFile
  pub manifest : dir.manifest ≡ some file
  pub payload : Payload
  pub sealed : dir.payload ≡ some payload
  pub private_payload : is_private_file h payload.info ≡ true
  pub alone : has_both_files dir ≡ true
  pub m : Manifest
  pub readable : read_manifest_file h (some file) id ≡ ok m
  pub ended : allows either m.state ≡ true

-- The changes of a removal in their order, and what a crash after the first `k` leaves.
abbrev pub cleanup_order : List CleanupStep
cleanup_order = move_manifest ∷ unlink_payload ∷ remove_directory ∷ unlink_marker ∷ []

unfoldable pub run_steps : Text → List CleanupStep → Queue → Queue
run_steps id [] q = q
run_steps id (s ∷ steps) q = run_steps id steps (cleanup_step id s q)

module _ (id : Text) (q : Queue) where
  pub jobs-move :
      (dir : JobDir) (file : ManifestFile)
      → get q.jobs id ≡ some dir
      → dir.manifest ≡ some file
      → cleanup_step id move_manifest q ≡ record q {
        jobs = put q.jobs id (record dir { manifest = none });
        markers = put q.markers id file;
      }
  unfolding cleanup_step
  jobs-move dir file found stored = rw (found, stored)

  pub jobs-unlink :
      (dir : JobDir)
      → get q.jobs id ≡ some dir
      → cleanup_step id unlink_payload q
        ≡ record q { jobs = put q.jobs id (record dir { payload = none }) }
  unfolding cleanup_step
  jobs-unlink dir found = rw found

-- A change of one job's directory or marker is no change of another's.
abbrev pub SameJob : Text → Queue → Queue → Type 0
SameJob j q' q = (get q'.jobs j ≡ get q.jobs j) × (get q'.markers j ≡ get q.markers j)

module _ (id j : Text) (ne : (id =ₜ j) ≡ false) where
  move_frame :
      (q : Queue) (dir : Option JobDir) (file : Option ManifestFile)
      → SameJob j (move_file id q dir file) q
  unfolding move_file
  move_frame q (some dir) (some file) = (
    ground (arith, get-put q.jobs id j (record dir { manifest = none })),
    ground (arith, get-put q.markers id j file),
  )
  move_frame q (some dir) none = (refl, refl)
  move_frame q none file = (refl, refl)

  change_frame :
      (f : JobDir → JobDir) (q : Queue) (dir : Option JobDir) → SameJob j (change_dir f id q dir) q
  unfolding change_dir
  change_frame f q none = (refl, refl)
  change_frame f q (some dir) = (ground (arith, get-put q.jobs id j (f dir)), refl)

  step_frame : (s : CleanupStep) (q : Queue) → SameJob j (cleanup_step id s q) q
  unfolding cleanup_step
  step_frame move_manifest q = move_frame q (get q.jobs id) (dir_file (get q.jobs id))
  step_frame unlink_payload q =
      change_frame (λ dir. record dir { payload = none }) q (get q.jobs id)
  step_frame remove_directory q = (ground (arith, get-remove q.jobs id j), refl)
  step_frame unlink_marker q = (refl, ground (arith, get-remove q.markers id j))

  pub run_steps_frame : (steps : List CleanupStep) (q : Queue) → SameJob j (run_steps id steps q) q
  unfolding run_steps
  run_steps_frame [] q = (refl, refl)
  run_steps_frame (s ∷ steps) q =
      let (dirs, marks) = run_steps_frame steps (cleanup_step id s q) in
      let (dir, mark) = step_frame s q in (dirs ∙ dir, marks ∙ mark)
