-- ===== src/Uploads/Queue/Transitions.antt =====
-- Each manifest that a method of the queue makes from a valid one is valid.
use immich_on_demand.Prelude.{
  ℤ, Option, Bool, true, ◌≡◌, ◌≤◌, arith, is_nonneg, is_some, ◌&&◌, is_none, leb, ◌||◌, not,
}
use immich_on_demand.Prelude.Text.{Text}
use immich_on_demand.Uploads.Manifest.{UploadErrorCode, Manifest, Host, is_canonical_uuid}
use immich_on_demand.Uploads.Validate.{
  IsValid, is_identified, are_values_valid, fits_state, is_replacement,
}
use immich_on_demand.Uploads.Queue.{
  is_queued, retried, stopped, finished, dropped, verified, with_candidate, is_attempting, is_idle,
  is_replacing,
}

-- A recorded candidate was attempted. `_validate_manifest` asks it of all states but BLOCKED.
abbrev pub is_counted : Manifest → Bool
is_counted m = is_none m.candidate_asset_id || leb 1 m.attempt_count

module _ (h : Host) (m : Manifest) (job_id : Text) (valid : IsValid h m job_id) where
  pub stopped-IsValid :
      (error : UploadErrorCode) → is_queued m.state ≡ true → IsValid h (stopped m error) job_id
  unfolding stopped
  stopped-IsValid error queued = record {
    identified = unfold is_identified in valid.identified;
    verification =
        unfold fits_state in ground (arith, valid.verification, valid.replaces, valid.state);
    source = valid.source;
    replaces = ground (arith, valid.verification, valid.replaces);
    values = unfold are_values_valid in ground (arith, valid.values);
    state = unfold fits_state in ground (arith, valid.state, valid.verification);
  }

  pub retried-IsValid :
      (at_ns : ℤ) (error : Option UploadErrorCode)
      → is_nonneg at_ns ≡ true
      → is_queued m.state ≡ true
      → is_some m.sha1 ≡ true
      → is_counted m ≡ true
      → IsValid h (retried m at_ns error) job_id
  unfolding retried
  retried-IsValid at_ns error nonneg queued sealed counted = record {
    identified = unfold is_identified in ground (arith, valid.identified);
    verification =
        unfold fits_state in ground (arith, valid.verification, valid.replaces, valid.state);
    source = valid.source;
    replaces = ground (arith, valid.verification, valid.replaces);
    values = unfold are_values_valid in ground (arith, valid.values);
    state = unfold fits_state in ground (arith, valid.state, valid.verification);
  }

  pub finished-IsValid :
      (not (is_replacement m.operation) || is_replacing m.state) ≡ true
      → (is_some m.candidate_asset_id && (is_attempting m.state || is_replacing m.state)) ≡ true
      → IsValid h (finished m) job_id
  unfolding finished
  finished-IsValid ready candidate = record {
    identified = unfold is_identified in ground (arith, valid.identified);
    verification =
        unfold fits_state in ground (arith, valid.verification, valid.replaces, valid.state);
    source = valid.source;
    replaces = ground (arith, valid.verification, valid.replaces);
    values = unfold are_values_valid in ground (arith, valid.values);
    state = unfold fits_state in ground (arith, valid.state, valid.verification);
  }

  pub dropped-IsValid :
      is_idle m.state ≡ true → is_none m.candidate_asset_id ≡ true → IsValid h (dropped m) job_id
  unfolding dropped
  dropped-IsValid idle absent = record {
    identified = unfold is_identified in ground (arith, valid.identified);
    verification =
        unfold fits_state in ground (arith, valid.verification, valid.replaces, valid.state);
    source = valid.source;
    replaces = ground (arith, valid.verification, valid.replaces);
    values = unfold are_values_valid in ground (arith, valid.values);
    state = unfold fits_state in ground (arith, valid.state, valid.verification);
  }

  pub verified-IsValid :
      is_replacement m.operation ≡ true
      → (is_attempting m.state && is_some m.candidate_asset_id) ≡ true
      → IsValid h (verified m) job_id
  unfolding verified
  verified-IsValid replaces candidate = record {
    identified = unfold is_identified in ground (arith, valid.identified);
    verification =
        unfold fits_state in ground (arith, valid.verification, valid.replaces, valid.state);
    source = valid.source;
    replaces = ground (arith, valid.verification, valid.replaces);
    values = unfold are_values_valid in ground (arith, valid.values);
    state = unfold fits_state in ground (arith, valid.state, valid.verification);
  }

  pub with_candidate-IsValid :
      (candidate : Text)
      → is_canonical_uuid h candidate ≡ true
      → is_attempting m.state ≡ true
      → 1 ≤ m.attempt_count
      → IsValid h (with_candidate m candidate) job_id
  unfolding with_candidate
  with_candidate-IsValid candidate canonical running counted = record {
    identified = unfold is_identified in ground (arith, valid.identified);
    verification =
        unfold fits_state in ground (arith, valid.verification, valid.replaces, valid.state);
    source = valid.source;
    replaces = ground (arith, valid.verification, valid.replaces);
    values = unfold are_values_valid in ground (arith, valid.values);
    state = unfold fits_state in ground (arith, valid.state, valid.verification);
  }
