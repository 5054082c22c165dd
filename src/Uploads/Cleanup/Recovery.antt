-- ===== src/Uploads/Cleanup/Recovery.antt =====
-- A removal that a crash interrupts is finished at the next start (`_cleanup_job` and
-- `_finish_cleanup_marker` of src/immich_on_demand/uploads.py).
use immich_on_demand.Prelude.{
  ℕ, zero, suc, ◌<◌, List, [], ◌∷◌, Option, none, some, true, ◌≡◌, refl, sym, ap, ◌∙◌, arith, take,
}
use immich_on_demand.Prelude.Text.{Text}
use immich_on_demand.Prelude.Exec.{ok, pure, ◌>>=◌}
use immich_on_demand.Prelude.Dict.{get}
use immich_on_demand.Uploads.Manifest.{Host}
use immich_on_demand.Uploads.Disk.{ManifestFile, JobDir, Queue}
use immich_on_demand.Uploads.Cleanup.{
  Allowed, allows, CleanupStep, move_manifest, unlink_payload, remove_directory, unlink_marker,
  change_dir, move_file, dir_file, cleanup_step, act, delist, erase, erase_all, erase_actions,
  erase_action, restarted, finish_marker,
}
use immich_on_demand.Uploads.Cleanup.Steps.{IsRemovable, cleanup_order, run_steps}
use immich_on_demand.Uploads.Cleanup.Crash.{stage, finish_stage}
use immich_on_demand.Uploads.Cleanup.Removal.{
  delisted, unlink_delisted, marker_returns, erase_returns,
}

module _ (id : Text) where
  move_file-restarted :
      (q : Queue) (dir : Option JobDir) (file : Option ManifestFile)
      → move_file id (restarted q) dir file ≡ restarted (move_file id q dir file)
  unfolding move_file restarted
  move_file-restarted q (some dir) (some file) = refl
  move_file-restarted q (some dir) none = refl
  move_file-restarted q none file = refl

  change_dir-restarted :
      (f : JobDir → JobDir) (q : Queue) (dir : Option JobDir)
      → change_dir f id (restarted q) dir ≡ restarted (change_dir f id q dir)
  unfolding change_dir restarted
  change_dir-restarted f q none = refl
  change_dir-restarted f q (some dir) = refl

  cleanup_step-restarted :
      (s : CleanupStep) (q : Queue)
      → cleanup_step id s (restarted q) ≡ restarted (cleanup_step id s q)
  unfolding cleanup_step
  cleanup_step-restarted move_manifest q =
      unfold restarted in move_file-restarted q (get q.jobs id) (dir_file (get q.jobs id))
  cleanup_step-restarted unlink_payload q =
      unfold restarted in
      change_dir-restarted (λ dir. record dir { payload = none }) q (get q.jobs id)
  cleanup_step-restarted remove_directory q = unfold restarted in refl
  cleanup_step-restarted unlink_marker q = unfold restarted in refl

  run_steps-restarted :
      (steps : List CleanupStep) (q : Queue)
      → run_steps id steps (restarted q) ≡ restarted (run_steps id steps q)
  unfolding run_steps
  run_steps-restarted [] q = refl
  run_steps-restarted (s ∷ steps) q =
      ap (run_steps id steps) (cleanup_step-restarted s q)
      ∙ run_steps-restarted steps (cleanup_step id s q)

module _ (h : Host) (q : Queue) (id : Text) (r : IsRemovable h q id) where
  restarted-IsRemovable : IsRemovable h (restarted q) id
  unfolding restarted
  restarted-IsRemovable = record {
    dir = r.dir;
    found = r.found;
    private = r.private;
    file = r.file;
    manifest = r.manifest;
    payload = r.payload;
    sealed = r.sealed;
    private_payload = r.private_payload;
    alone = r.alone;
    m = r.m;
    readable = r.readable;
    ended = r.ended;
  }

  finish_restarted :
      (k : ℕ)
      → 0 < k
      → k < 4
      → finish_marker h id (restarted (run_steps id (take k cleanup_order) q))
        ≡ (ok tt, restarted (run_steps id cleanup_order q))
  finish_restarted k positive early =
      ap (finish_marker h id) (sym (run_steps-restarted id (take k cleanup_order) q))
      ∙ finish_stage h (restarted q) id restarted-IsRemovable k positive early
      ∙ ap (λ s. (ok tt, s)) (run_steps-restarted id cleanup_order q)

  module _ (allowed : Allowed) (accepted : allows allowed r.m.state ≡ true) where
    abbrev crashed : ℕ → Queue
    crashed k = (erase_all h id allowed (take k erase_actions) q).1

    whole : restarted (erase h id allowed q).1 ≡ restarted (run_steps id cleanup_order q)
    unfolding restarted
    whole = ap (λ p. restarted p.1) (erase_returns h q id r allowed accepted)

    finish_after :
        (k n : ℕ)
        → restarted (crashed k) ≡ restarted (run_steps id (take n cleanup_order) q)
        → 0 < n
        → n < 4
        → finish_marker h id (restarted (crashed k)) ≡ (ok tt, restarted (erase h id allowed q).1)
    finish_after k n same positive early =
        ap (finish_marker h id) same
        ∙ finish_restarted n positive early
        ∙ ap (λ s. (ok tt, s)) (sym whole)

    crash_one : restarted (crashed 1) ≡ restarted (run_steps id (take 1 cleanup_order) q)
    unfolding erase_all erase_actions erase_action act run_steps pure ◌>>=◌
    crash_one = refl

    crash_two : restarted (crashed 2) ≡ restarted (run_steps id (take 1 cleanup_order) q)
    unfolding erase_all erase_actions erase_action act delist run_steps pure restarted ◌>>=◌
    crash_two = refl

    crash_three : restarted (crashed 3) ≡ restarted (run_steps id (take 2 cleanup_order) q)
    unfolding erase_all erase_actions erase_action act delist run_steps pure restarted ◌>>=◌
    crash_three = ap restarted (unlink_delisted h q id r (stage h q id r 1))

    crash_four : restarted (crashed 4) ≡ restarted (run_steps id (take 3 cleanup_order) q)
    unfolding erase_all erase_actions erase_action act delist run_steps pure restarted cleanup_step
        ◌>>=◌
    crash_four = rw (unlink_delisted h q id r (stage h q id r 1)) refl

    erase_five :
        erase_all h id allowed (take 5 erase_actions) q ≡ (ok tt, delisted id (stage h q id r 3))
    unfolding erase_all erase_actions erase_action delist act run_steps cleanup_step pure ◌>>=◌
    erase_five =
        rw (unlink_delisted h q id r (stage h q id r 1), marker_returns h q id r allowed accepted)

    crash_five : restarted (crashed 5) ≡ restarted (run_steps id (take 3 cleanup_order) q)
    unfolding restarted
    crash_five = ap (λ p. restarted p.1) erase_five

    -- For a job whose directory passes the checks, in a state that the caller allows: if the process
    -- ends after any number of the actions of its removal that has begun and is not complete,
    -- `_finish_cleanup_marker` of the next start returns, and leaves exactly what the next start would
    -- find after the whole removal.
    pub finish_marker-completes :
        (k : ℕ)
        → 0 < k
        → k < 6
        → finish_marker h id (restarted (erase_all h id allowed (take k erase_actions) q).1)
          ≡ (ok tt, restarted (erase h id allowed q).1)
    finish_marker-completes zero positive early = absurd (omega arith)
    finish_marker-completes (suc zero) positive early =
        finish_after 1 1 crash_one (omega arith) (omega arith)
    finish_marker-completes (suc (suc zero)) positive early =
        finish_after 2 1 crash_two (omega arith) (omega arith)
    finish_marker-completes (suc (suc (suc zero))) positive early =
        finish_after 3 2 crash_three (omega arith) (omega arith)
    finish_marker-completes (suc (suc (suc (suc zero)))) positive early =
        finish_after 4 3 crash_four (omega arith) (omega arith)
    finish_marker-completes (suc (suc (suc (suc (suc zero))))) positive early =
        finish_after 5 3 crash_five (omega arith) (omega arith)
    finish_marker-completes (suc (suc (suc (suc (suc (suc k)))))) positive early =
        absurd (omega arith)
