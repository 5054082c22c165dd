-- ===== src/Uploads/Cleanup/Crash.antt =====
-- What `_finish_cleanup_marker` of src/immich_on_demand/uploads.py does of a removal whose changes of
-- the disk were made in part.
use immich_on_demand.Prelude.{ℕ, zero, suc, ◌<◌, [], ◌∷◌, none, some, true, ◌≡◌, refl, arith, take}
use immich_on_demand.Prelude.Text.{Text, =ₜ-refl}
use immich_on_demand.Prelude.Exec.{ok, ◌>>=◌}
use immich_on_demand.Prelude.Dict.{get, put, get-put, get-remove}
use immich_on_demand.Uploads.Manifest.{Manifest, Host}
use immich_on_demand.Uploads.Disk.{
  Payload, JobDir, Queue, open_job, open_payload, read_manifest_file, is_private_directory,
  is_private_file,
}
use immich_on_demand.Uploads.Cleanup.{
  either, allows, unlink_payload, remove_directory, unlink_marker, cleanup_step, act,
  require_marker, has_both_files, has_payload_only, finish_marker,
}
use immich_on_demand.Uploads.Cleanup.Steps.{
  IsRemovable, cleanup_order, run_steps, jobs-move, jobs-unlink,
}

module _ (h : Host) (q : Queue) (id : Text) (m : Manifest)
    (marked : read_manifest_file h (get q.markers id) id ≡ ok m)
    (ended : allows either m.state ≡ true) where
  require_marker_returns : require_marker h id either q ≡ (ok m, q)
  unfolding require_marker ◌>>=◌
  require_marker_returns = rw (marked, ended)

  finish_gone :
      get q.jobs id ≡ none → finish_marker h id q ≡ (ok tt, run_steps id (unlink_marker ∷ []) q)
  unfolding finish_marker run_steps act ◌>>=◌
  finish_gone gone = rw (require_marker_returns, gone)

  module _ (dir : JobDir) (found : get q.jobs id ≡ some dir)
      (private : is_private_directory h dir.info ≡ true) (alone : has_payload_only dir ≡ true) where
    finish_empty :
        dir.payload ≡ none
        → finish_marker h id q ≡ (ok tt, run_steps id (remove_directory ∷ unlink_marker ∷ []) q)
    unfolding finish_marker run_steps act open_job ◌>>=◌
    finish_empty empty = ground (arith, require_marker_returns)

    finish_payload :
        (payload : Payload)
        → dir.payload ≡ some payload
        → is_private_file h payload.info ≡ true
        → finish_marker h id q
          ≡ (ok tt, run_steps id (unlink_payload ∷ remove_directory ∷ unlink_marker ∷ []) q)
    unfolding finish_marker run_steps act open_job open_payload ◌>>=◌
    finish_payload payload stored owned = ground (arith, require_marker_returns)

module _ (h : Host) (q : Queue) (id : Text) (r : IsRemovable h q id) where
  abbrev pub emptied : JobDir
  emptied = record r.dir { manifest = none }

  abbrev pub stage : ℕ → Queue
  stage k = run_steps id (take k cleanup_order) q

  pub stage_one :
      stage 1 ≡ record q { jobs = put q.jobs id emptied; markers = put q.markers id r.file }
  unfolding run_steps
  stage_one = jobs-move id q r.dir r.file r.found r.manifest

  one_dir : get (stage 1).jobs id ≡ some emptied
  one_dir = rw stage_one (ground (arith, get-put q.jobs id id emptied, =ₜ-refl id))

  one_marker : get (stage 1).markers id ≡ some r.file
  one_marker = rw stage_one (ground (arith, get-put q.markers id id r.file, =ₜ-refl id))

  stage_two :
      stage 2
      ≡ record (stage 1) { jobs = put (stage 1).jobs id (record emptied { payload = none }) }
  unfolding run_steps
  stage_two = jobs-unlink id (stage 1) emptied one_dir

  two_dir : get (stage 2).jobs id ≡ some (record emptied { payload = none })
  two_dir =
      rw stage_two (
        ground
          (arith, get-put (stage 1).jobs id id (record emptied { payload = none }), =ₜ-refl id))

  two_marker : get (stage 2).markers id ≡ some r.file
  two_marker = rw stage_two one_marker

  three_dir : get (stage 3).jobs id ≡ none
  unfolding run_steps cleanup_step
  three_dir = ground (arith, get-remove (stage 2).jobs id id, =ₜ-refl id)

  pub three_marker : get (stage 3).markers id ≡ some r.file
  unfolding run_steps cleanup_step
  three_marker = two_marker

  pub readable_at :
      (k : ℕ)
      → get (stage k).markers id ≡ some r.file
      → read_manifest_file h (get (stage k).markers id) id ≡ ok r.m
  readable_at k e = rw (e, r.readable)

  payload_alone : has_payload_only emptied ≡ true
  unfolding has_payload_only
  payload_alone = unfold has_both_files in ground (arith, r.alone)

  pub finish_stage :
      (k : ℕ)
      → 0 < k
      → k < 4
      → finish_marker h id (run_steps id (take k cleanup_order) q)
        ≡ (ok tt, run_steps id cleanup_order q)
  unfolding run_steps
  finish_stage zero positive early = absurd (omega arith)
  finish_stage (suc zero) positive early =
      finish_payload h (stage 1) id r.m (readable_at 1 one_marker) r.ended emptied one_dir r.private
        payload_alone r.payload r.sealed r.private_payload
  finish_stage (suc (suc zero)) positive early =
      finish_empty h (stage 2) id r.m (readable_at 2 two_marker) r.ended
        (record emptied { payload = none }) two_dir r.private
        (unfold has_payload_only in (unfold has_payload_only in payload_alone)) refl
  finish_stage (suc (suc (suc zero))) positive early =
      finish_gone h (stage 3) id r.m (readable_at 3 three_marker) r.ended three_dir
  finish_stage (suc (suc (suc (suc k)))) positive early = absurd (omega arith)

  -- Nothing of the job is left by the whole removal, and nothing of another job has changed.
  pub run_steps_gone :
      (get (run_steps id cleanup_order q).jobs id ≡ none)
      × (get (run_steps id cleanup_order q).markers id ≡ none)
  unfolding run_steps cleanup_step
  run_steps_gone = (three_dir, ground (arith, get-remove (stage 3).markers id id, =ₜ-refl id))
