-- ===== src/Tests/Uploads.antt =====
-- The upload queue at concrete inputs.
use immich_on_demand.Uploads.Cleanup.Removal.{Removed, cleanup_job-Removed}
use immich_on_demand.Uploads.Cleanup.Recovery.{finish_marker-completes}
use immich_on_demand.Uploads.Cleanup.Steps.{IsRemovable}
use immich_on_demand.Uploads.Cleanup.{
  allows, only_cancelled, has_both_files, finish_marker, cleanup_job, erase, erase_all,
  erase_actions, restarted,
}
use immich_on_demand.Uploads.Machine.Soundness.{IsSound, run-IsSound}
use immich_on_demand.Uploads.Machine.History.{Follows, run-Follows}
use immich_on_demand.Uploads.Machine.Calls.{
  Call, begin, admit, confirm, record_candidate, cancel, job_of, perform, run, perform-Outcome,
}
use immich_on_demand.Uploads.Machine.{Outcome}
use immich_on_demand.Uploads.Queue.Returns.{
  Holds, retry_result, block_result, commit_result, cancel_result,
}
use immich_on_demand.Uploads.Queue.{retry, retried, block, stopped, mark_cancelled, dropped, commit}
use immich_on_demand.Uploads.Disk.View.{manifest_of}
use immich_on_demand.Uploads.Disk.{Queue, is_private_directory, is_private_file, read_manifest_file}
use immich_on_demand.Errors.{state_error}
use immich_on_demand.Prelude.{take, ℤ, ◌≡◌, refl, arith, List, [], ◌∷◌, none, some}
use immich_on_demand.Prelude.Text.{codes, ◌=ₜ◌}
use immich_on_demand.Prelude.Exec.{ok, err}
use immich_on_demand.Prelude.Dict.{get, contains}
use immich_on_demand.Uploads.Manifest.{
  Manifest, is_canonical_uuid, canonical_origin, cancelled, upload_rejected,
}
use immich_on_demand.Uploads.Validate.{
  IsValid, is_identified, is_operation_valid, are_values_valid, fits_state, is_safe_name,
  is_sha1_hex, source_matches_operation, has_no_source, same_option, is_valid,
}
use immich_on_demand.Uploads.Payload.{feed, pwrite}
use immich_on_demand.Uploads.Payload.Reading.{feed-eq-ok}
use immich_on_demand.Tests.Jobs.{
  waiting, private_dir, private_file, file_of, dir_of, queue_of, empty_queue,
}
use immich_on_demand.Tests.Host.{host, job_id, owner_id, asset_id, origin}

gap_is_filled : pwrite (1 ∷ []) 3 (7 ∷ 8 ∷ []) ≡ 1 ∷ 0 ∷ 0 ∷ 7 ∷ 8 ∷ []
unfolding pwrite
gap_is_filled = refl

feed-eq-ok_example : feed (4 ∷ 5 ∷ 6 ∷ []) 3 ≡ ok (4 ∷ 5 ∷ 6 ∷ [])
feed-eq-ok_example = feed-eq-ok (4 ∷ 5 ∷ 6 ∷ [])

waiting-IsValid : IsValid host waiting job_id
unfolding is_identified are_values_valid fits_state source_matches_operation has_no_source
    is_canonical_uuid is_safe_name canonical_origin same_option is_sha1_hex
waiting-IsValid = record {
  identified = refl;
  verification = refl;
  source = refl;
  replaces = refl;
  values = refl;
  state = refl;
}

waiting-Holds : Holds host (queue_of waiting) job_id waiting
unfolding is_canonical_uuid contains get is_private_directory is_private_file ◌=ₜ◌
waiting-Holds = record {
  canonical = refl;
  listed = refl;
  dir = dir_of waiting;
  found = refl;
  private = refl;
  clean = refl;
  file = file_of waiting;
  stored = refl;
  private_file = refl;
  small = refl;
  content = refl;
  valid = waiting-IsValid;
}

-- A user's retry of a job that waits sets its time.
retry_result_example :
    (retry host job_id (ℤ.pos 9) none (some 2) (queue_of waiting)).0
    ≡ ok (retried waiting (ℤ.pos 9) none)
retry_result_example =
    retry_result host (queue_of waiting) job_id waiting waiting-Holds (ℤ.pos 9) none (some 2) refl
      refl

block_result_example :
    (block host job_id upload_rejected (queue_of waiting)).0 ≡ ok (stopped waiting upload_rejected)
block_result_example =
    block_result host (queue_of waiting) job_id waiting waiting-Holds upload_rejected refl

-- A job that waits has no candidate to commit.
commit_result_example : (commit host job_id (queue_of waiting)).0 ≡ err state_error
commit_result_example = commit_result host (queue_of waiting) job_id waiting waiting-Holds refl

cancel_result_example :
    (mark_cancelled host job_id (codes "photo.jpg") 2 (queue_of waiting)).0 ≡ ok (dropped waiting)
unfolding ◌=ₜ◌
cancel_result_example =
    cancel_result host (queue_of waiting) job_id waiting waiting-Holds (codes "photo.jpg") 2 refl

-- A whole upload of one job, and a cancellation that comes too late.
abbrev upload_calls : List Call
upload_calls =
    admit job_id none
    ∷ confirm job_id waiting
    ∷ record_candidate job_id asset_id
    ∷ cancel job_id (codes "photo.jpg") 5
    ∷ Call.commit job_id
    ∷ []

waiting_stored : manifest_of (queue_of waiting) job_id ≡ some waiting
unfolding manifest_of get ◌=ₜ◌
waiting_stored = refl

perform-Outcome_example :
    Outcome host (queue_of waiting) job_id (perform host (admit job_id none) (queue_of waiting))
unfolding job_of
perform-Outcome_example = perform-Outcome host (admit job_id none) (queue_of waiting)

run-Follows_example :
    (m' : Manifest) × (manifest_of (run host upload_calls (queue_of waiting)) job_id ≡ some m')
    × Follows waiting m'
run-Follows_example = run-Follows host upload_calls (queue_of waiting) job_id waiting waiting_stored

empty-IsSound : IsSound host empty_queue
unfolding manifest_of get
empty-IsSound = record { valid = λ id m found. cc; counts = λ id m found. cc }

run-IsSound_example : IsSound host (
    run host
      (begin job_id private_dir private_file (codes "photo.jpg") origin owner_id ∷ [])
      empty_queue)
run-IsSound_example =
    run-IsSound host
      (begin job_id private_dir private_file (codes "photo.jpg") origin owner_id ∷ []) empty_queue
      empty-IsSound

abbrev ended : Manifest
ended = record waiting { state = cancelled; next_attempt_ns = none }

ended-IsRemovable : IsRemovable host (queue_of ended) job_id
unfolding get is_private_directory is_private_file has_both_files read_manifest_file allows is_valid
    is_identified is_operation_valid are_values_valid fits_state source_matches_operation
    has_no_source is_canonical_uuid is_safe_name canonical_origin same_option is_sha1_hex ◌=ₜ◌
ended-IsRemovable = record {
  dir = dir_of ended;
  found = refl;
  private = refl;
  file = file_of ended;
  manifest = refl;
  payload = record { info = private_file; bytes = 7 ∷ 8 ∷ 9 ∷ [] };
  sealed = refl;
  private_payload = refl;
  alone = refl;
  m = ended;
  readable = refl;
  ended = refl;
}

finish_marker-completes_example :
    finish_marker host job_id
      (restarted (erase_all host job_id only_cancelled (take 3 erase_actions) (queue_of ended)).1)
    ≡ (ok tt, restarted (erase host job_id only_cancelled (queue_of ended)).1)
unfolding allows ended-IsRemovable
finish_marker-completes_example =
    finish_marker-completes host (queue_of ended) job_id ended-IsRemovable only_cancelled refl 3
      (omega arith) (omega arith)

cleanup_job-Removed_example :
    (q' : Queue) × (cleanup_job host job_id only_cancelled (queue_of ended) ≡ (ok tt, q'))
    × Removed job_id (queue_of ended) q'
unfolding allows is_canonical_uuid get ◌=ₜ◌ ended-IsRemovable
cleanup_job-Removed_example =
    cleanup_job-Removed host (queue_of ended) job_id ended-IsRemovable only_cancelled refl refl refl
