-- ===== src/Uploads/Cleanup/Removal.antt =====
-- `_cleanup_job` of src/immich_on_demand/uploads.py without a crash.
use immich_on_demand.Prelude.{
  List, [], ◌∷◌, Option, none, some, true, false, ◌≡◌, refl, arith, ◌&&◌, not, ◌∙◌, ap,
}
use immich_on_demand.Prelude.Text.{Text, ◌=ₜ◌, =ₜ-refl}
use immich_on_demand.Prelude.Exec.{ok, pure, ◌>>=◌}
use immich_on_demand.Prelude.Dict.{get, contains, discard, contains-discard}
use immich_on_demand.Uploads.Manifest.{Host, is_canonical_uuid}
use immich_on_demand.Uploads.Disk.{ManifestFile, JobDir, Queue, open_job, open_payload}
use immich_on_demand.Uploads.Cleanup.{
  Allowed, allows, CleanupStep, move_manifest, unlink_payload, remove_directory, unlink_marker,
  change_dir, move_file, dir_file, cleanup_step, act, require_marker, delist, cleanup_job,
  require_unmarked, erase, erase_all, erase_actions, erase_action,
}
use immich_on_demand.Uploads.Cleanup.Steps.{IsRemovable, cleanup_order, run_steps, run_steps_frame}
use immich_on_demand.Uploads.Cleanup.Crash.{run_steps_gone, stage, three_marker, readable_at}

-- The job is neither on the disk nor listed, and nothing of another job has changed.
pub record Removed (id : Text) (q q' : Queue) : Type 0 where
  pub no_directory : get q'.jobs id ≡ none
  pub no_marker : get q'.markers id ≡ none
  pub unlisted : contains q'.valid_ids id ≡ false
  pub others :
      (j : Text)
      → (id =ₜ j) ≡ false
      → (get q'.jobs j ≡ get q.jobs j) × (contains q'.valid_ids j ≡ contains q.valid_ids j)

-- A change of the list of jobs and one of the disk do not meet.
abbrev pub delisted : Text → Queue → Queue
delisted id q = record q { valid_ids = discard q.valid_ids id }

module _ (id : Text) where
  move_valid_ids :
      (q : Queue) (dir : Option JobDir) (file : Option ManifestFile)
      → (move_file id q dir file).valid_ids ≡ q.valid_ids
  unfolding move_file
  move_valid_ids q (some dir) (some file) = refl
  move_valid_ids q (some dir) none = refl
  move_valid_ids q none file = refl

  change_delisted :
      (f : JobDir → JobDir) (q : Queue) (dir : Option JobDir)
      → change_dir f id (delisted id q) dir ≡ delisted id (change_dir f id q dir)
  unfolding change_dir
  change_delisted f q none = refl
  change_delisted f q (some dir) = refl

  change_valid_ids :
      (f : JobDir → JobDir) (q : Queue) (dir : Option JobDir)
      → (change_dir f id q dir).valid_ids ≡ q.valid_ids
  unfolding change_dir
  change_valid_ids f q none = refl
  change_valid_ids f q (some dir) = refl

  step_valid_ids : (s : CleanupStep) (q : Queue) → (cleanup_step id s q).valid_ids ≡ q.valid_ids
  unfolding cleanup_step
  step_valid_ids move_manifest q = move_valid_ids q (get q.jobs id) (dir_file (get q.jobs id))
  step_valid_ids unlink_payload q = change_valid_ids _ q (get q.jobs id)
  step_valid_ids remove_directory q = refl
  step_valid_ids unlink_marker q = refl

  run_steps_valid_ids :
      (steps : List CleanupStep) (q : Queue) → (run_steps id steps q).valid_ids ≡ q.valid_ids
  unfolding run_steps
  run_steps_valid_ids [] q = refl
  run_steps_valid_ids (s ∷ steps) q =
      run_steps_valid_ids steps (cleanup_step id s q) ∙ step_valid_ids s q

module _ (h : Host) (q : Queue) (id : Text) (r : IsRemovable h q id) where
  pub unlink_delisted :
      (s : Queue)
      → cleanup_step id unlink_payload (delisted id s)
        ≡ delisted id (cleanup_step id unlink_payload s)
  unfolding cleanup_step
  unlink_delisted s = change_delisted id (λ dir. record dir { payload = none }) s (get s.jobs id)

  pub marker_returns :
      (allowed : Allowed)
      → allows allowed r.m.state ≡ true
      → require_marker h id allowed (delisted id (stage h q id r 3))
        ≡ (ok r.m, delisted id (stage h q id r 3))
  unfolding require_marker ◌>>=◌
  marker_returns allowed accepted = rw (readable_at h q id r 3 (three_marker h q id r), accepted)

  pub erase_returns :
      (allowed : Allowed)
      → allows allowed r.m.state ≡ true
      → erase h id allowed q ≡ (ok tt, delisted id (run_steps id cleanup_order q))
  unfolding erase erase_all erase_actions erase_action delist act run_steps pure cleanup_step ◌>>=◌
  erase_returns allowed accepted =
      rw (unlink_delisted (stage h q id r 1), marker_returns allowed accepted)

  cleanup_job_returns :
      (allowed : Allowed)
      → allows allowed r.m.state ≡ true
      → is_canonical_uuid h id ≡ true
      → get q.markers id ≡ none
      → cleanup_job h id allowed q ≡ (ok tt, delisted id (run_steps id cleanup_order q))
  unfolding cleanup_job require_unmarked open_job open_payload ◌>>=◌
  cleanup_job_returns allowed accepted canonical unmarked = ground (
    arith,
    erase_returns allowed,
    r.found,
    r.private,
    r.manifest,
    r.sealed,
    r.private_payload,
    r.alone,
    r.readable,
  )

  listed_after :
      (j : Text)
      → contains (delisted id (run_steps id cleanup_order q)).valid_ids j
        ≡ (not (id =ₜ j) && contains q.valid_ids j)
  listed_after j =
      contains-discard (run_steps id cleanup_order q).valid_ids id j
      ∙ ap (λ (ids : List Text). not (id =ₜ j) && contains ids j)
          (run_steps_valid_ids id cleanup_order q)

  -- A job whose directory passes the checks, in a state that the caller allows, with no marker of an
  -- earlier removal, is removed by `_cleanup_job`: it returns, the directory and the marker are gone,
  -- the job is no longer listed, and no other job's directory or listing has changed.
  pub cleanup_job-Removed :
      (allowed : Allowed)
      → allows allowed r.m.state ≡ true
      → is_canonical_uuid h id ≡ true
      → get q.markers id ≡ none
      → (q' : Queue) × (cleanup_job h id allowed q ≡ (ok tt, q')) × Removed id q q'
  cleanup_job-Removed allowed accepted canonical unmarked = (
    delisted id (run_steps id cleanup_order q),
    cleanup_job_returns allowed accepted canonical unmarked,
    record {
      no_directory = (run_steps_gone h q id r).0;
      no_marker = (run_steps_gone h q id r).1;
      unlisted = ground (arith, listed_after id, =ₜ-refl id);
      others =
          λ j ne. ((run_steps_frame id j ne cleanup_order q).0, ground (arith, listed_after j));
    },
  )
