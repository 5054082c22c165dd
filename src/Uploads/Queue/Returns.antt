-- ===== src/Uploads/Queue/Returns.antt =====
-- When the methods of the queue return, and what they raise: on a job that is stored as the queue
-- stores it, the checks of `_validate_manifest` never stand in the way of a change.
use mathlib.Core.Path.{subst}
use immich_on_demand.Prelude.{
  ℕ, ℤ, Option, none, some, true, false, ◌≡◌, arith, ◌&&◌, ◌||◌, not, leb, ◌==◌, is_none, is_some,
  none_or, is_nonneg, if◌then◌else◌, ltb, sym,
}
use immich_on_demand.Prelude.Text.{Text, ◌=ₜ◌, =ₜ_iff}
use immich_on_demand.Prelude.Exec.{ok, err, ◌>>=◌}
use immich_on_demand.Prelude.Dict.{get, contains}
use immich_on_demand.Errors.{state_error, value_error}
use immich_on_demand.Uploads.Manifest.{Manifest, Host, UploadErrorCode, is_canonical_uuid}
use immich_on_demand.Uploads.Validate.{
  IsValid, is_valid, is_valid_iff, is_replacement, is_replacing, is_identified,
}
use immich_on_demand.Uploads.Disk.{
  Queue, JobDir, ManifestFile, current, is_private_directory, is_private_file, manifest_limit,
  open_job, read_manifest_file, decode, load, save, store,
}
use immich_on_demand.Uploads.Queue.{
  write_status, require_known, require_listed, is_attempting, is_queued, is_idle, is_rejected,
  retry, block, commit, mark_cancelled, retried, stopped, finished, dropped,
}
use immich_on_demand.Uploads.Queue.Transitions.{
  is_counted, retried-IsValid, stopped-IsValid, finished-IsValid, dropped-IsValid,
}

-- The job is listed, and its directory holds the manifest as the queue writes it.
pub record Holds (h : Host) (q : Queue) (id : Text) (m : Manifest) : Type 0 where
  pub canonical : is_canonical_uuid h id ≡ true
  pub listed : contains q.valid_ids id ≡ true
  pub dir : JobDir
  pub found : get q.jobs id ≡ some dir
  pub private : is_private_directory h dir.info ≡ true
  pub clean : dir.temporary ≡ none
  pub file : ManifestFile
  pub stored : dir.manifest ≡ some file
  pub private_file : is_private_file h file.info ≡ true
  pub small : ltb manifest_limit file.size ≡ false
  pub content : file.content ≡ current m
  pub valid : IsValid h m id

module _ (h : Host) (q : Queue) (id : Text) (m : Manifest) (held : Holds h q id m) where
  is_held_valid : is_valid h m id ≡ true
  is_held_valid = (is_valid_iff h m id).1 held.valid

  read_returns : read_manifest_file h held.dir.manifest id ≡ ok m
  unfolding read_manifest_file decode
  read_returns =
      ground (arith, held.stored, held.private_file, held.small, held.content, is_held_valid)

  load_returns : load h id q ≡ (ok m, q)
  unfolding load open_job ◌>>=◌
  load_returns = ground (arith, held.found, held.private, read_returns)

  save_returns :
      (m' : Manifest)
      → is_valid h m' m'.id ≡ true
      → leb (h.json_size m') manifest_limit ≡ true
      → (save h id m' q).0 ≡ ok tt
  unfolding save open_job store ◌>>=◌
  save_returns m' valid fits = ground (arith, held.found, held.private, held.clean)

own_valid : (h : Host) (n : Manifest) (id : Text) → IsValid h n id → is_valid h n n.id ≡ true
unfolding is_identified
own_valid h n id v =
    let e : n.id ≡ id = (=ₜ_iff n.id id).0 (ground (arith, v.identified)) in
    subst (λ i. is_valid h n i ≡ true) (sym e) ((is_valid_iff h n id).1 v)

module _ (h : Host) (q : Queue) (id : Text) (m : Manifest) (held : Holds h q id m) where
  require_known_returns : require_known h id q ≡ (ok tt, q)
  unfolding require_known require_listed ◌>>=◌
  require_known_returns = ground (arith, held.canonical, held.listed)

  write_status_returns :
      (n : Manifest)
      → IsValid h n id
      → leb (h.json_size n) manifest_limit ≡ true
      → (write_status h id n q).0 ≡ ok n
  unfolding write_status ◌>>=◌
  write_status_returns n v fits = ground (arith, save_returns h q id m held n (own_valid h n id v))

  -- On a stored job that has a candidate only if it was attempted, and whose new manifest fits into
  -- the limit, `retry` returns the retried manifest exactly if the revision is the expected one, a user's retry meets no running attempt, the job is
  -- queued and its payload is sealed. It raises ValueError for a negative time and UploadStateError
  -- otherwise.
  pub retry_result :
      (at_ns : ℤ) (error : Option UploadErrorCode) (revision : Option ℕ)
      → is_counted m ≡ true
      → leb (h.json_size (retried m at_ns error)) manifest_limit ≡ true
      → (retry h id at_ns error revision q).0 ≡ (
          if is_nonneg at_ns
          then (if none_or (λ r. m.revision == r) revision
                && (is_none revision || is_idle m.state)
                && is_queued m.state
                && is_some m.sha1
              then ok (retried m at_ns error)
              else err state_error)
          else err value_error)
  unfolding retry ◌>>=◌
  retry_result at_ns error revision counts fits = ground (
    arith,
    require_known_returns,
    load_returns h q id m held,
    write_status_returns (retried m at_ns error),
    retried-IsValid h m id held.valid at_ns error,
  )

  -- On a stored job whose new manifest fits into the limit, `block` returns the blocked manifest in
  -- every state but WRITING and CANCELLED, where it raises UploadStateError.
  pub block_result :
      (error : UploadErrorCode)
      → leb (h.json_size (stopped m error)) manifest_limit ≡ true
      → (block h id error q).0
        ≡ (if is_queued m.state then ok (stopped m error) else err state_error)
  unfolding block ◌>>=◌
  block_result error fits = ground (
    arith,
    require_known_returns,
    load_returns h q id m held,
    write_status_returns (stopped m error),
    stopped-IsValid h m id held.valid error,
  )

  -- On a stored job whose new manifest fits into the limit, `commit` returns the committed manifest
  -- exactly if it has a candidate and is REPLACING, or ATTEMPTING and no replacement. It raises
  -- UploadStateError otherwise.
  pub commit_result :
      leb (h.json_size (finished m)) manifest_limit ≡ true
      → (commit h id q).0 ≡ (
          if is_some m.candidate_asset_id
            && (is_replacing m.state || not (is_replacement m.operation) && is_attempting m.state)
          then ok (finished m)
          else err state_error)
  unfolding commit ◌>>=◌
  commit_result fits = ground (
    arith,
    require_known_returns,
    load_returns h q id m held,
    write_status_returns (finished m),
    finished-IsValid h m id held.valid,
  )

  -- On a stored job whose new manifest fits into the limit, the cancellation is recorded exactly if
  -- the name and the revision are confirmed, the job is PENDING or BLOCKED, it has no candidate, and
  -- it was never attempted or the server rejected it. A wrong confirmation is a ValueError, and all
  -- else an UploadStateError.
  pub cancel_result :
      (requested_name : Text) (revision : ℕ)
      → leb (h.json_size (dropped m)) manifest_limit ≡ true
      → (mark_cancelled h id requested_name revision q).0 ≡ (
          if m.requested_name =ₜ requested_name && m.revision == revision
          then (if is_idle m.state
                && is_none m.candidate_asset_id
                && (m.attempt_count == 0 || is_rejected m.error)
              then ok (dropped m)
              else err state_error)
          else err value_error)
  unfolding mark_cancelled ◌>>=◌
  cancel_result requested_name revision fits = ground (
    arith,
    require_known_returns,
    load_returns h q id m held,
    write_status_returns (dropped m),
    dropped-IsValid h m id held.valid,
  )
