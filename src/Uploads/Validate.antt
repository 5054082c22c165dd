-- ===== src/Uploads/Validate.antt =====
-- `_validate_manifest` of src/immich_on_demand/uploads.py, one Boolean function for each of its
-- parts. Every failure there is a ValueError, so a conjunction says as much as the chain of `raise`s.
use immich_on_demand.Prelude.{
  ℕ, ℤ, List, Option, none, some, Bool, true, false, ◌&&◌, ◌||◌, not, ltb, leb, ◌==◌, is_some,
  is_none, is_nonneg, none_or, ◌≡◌, ◌↔◌, arith, all_of, length,
}
use immich_on_demand.Prelude.Text.{Text, codes, ◌=ₜ◌, same_texts, sorted_set}
use immich_on_demand.Prelude.Exec.{ok, err}
use immich_on_demand.Errors.{Fallible}
use immich_on_demand.Model.Names.{safe_filename}
use immich_on_demand.Model.Names.Utf8.{utf8_size, encodes}
use immich_on_demand.Uploads.Manifest.{
  UploadState, writing, pending, attempting, replacing, committed, blocked, cancelled,
  UploadOperation, ordinary, replacement, Manifest, Host, is_canonical_uuid, canonical_origin,
}

-- `_ZERO_UUID`
abbrev pub zero_uuid : Text
zero_uuid = codes "00000000-0000-0000-0000-000000000000"

returns_same : Text → Fallible Text → Bool
returns_same value (ok result) = result =ₜ value
returns_same value (err e) = false

-- A name that `safe_filename` leaves as it is, of 255 bytes at most.
unfoldable pub is_safe_name : Host → Text → Bool
unfolding returns_same safe_filename utf8_size
is_safe_name h name =
    returns_same name (safe_filename h.unicode name zero_uuid 255) && leb (utf8_size name) 255

unfoldable pub same_option : Text → Option Text → Bool
same_option value none = false
same_option value (some other) = other =ₜ value

-- `some` of a value that passes the test
abbrev pub some_and {ℓ} : {A : Type ℓ} → (A → Bool) → Option A → Bool
some_and test none = false
some_and test (some a) = test a

-- The format, the job, the origin, the owner and the requested name.
unfoldable pub is_identified : Host → Manifest → Text → Bool
is_identified h m job_id =
    m.format_version == 2
    && is_canonical_uuid h m.id
    && m.id =ₜ job_id
    && same_option m.server_origin (canonical_origin h m.server_origin)
    && is_canonical_uuid h m.owner_id
    && is_safe_name h m.requested_name

-- `_replacement_text`
pub is_replacement_text : ℕ → Option Text → Bool
is_replacement_text maximum value =
    some_and
      (λ text.
        ltb 0 (length text)
        && encodes text
        && leb (utf8_size text) maximum
        && all_of (λ c. leb 32 c && not (c == 127)) text)
      value

-- Canonical identifiers, sorted and unique.
pub is_album_list : Host → List Text → Bool
unfolding same_texts
is_album_list h albums =
    all_of (is_canonical_uuid h) albums && same_texts albums (sorted_set albums)

-- The tuple `source_fields`.
pub record SourceFields : Type 0 where
  pub old_asset_id : Option Text
  pub old_inode : Option ℕ
  pub old_name : Option Text
  pub source_owner_id : Option Text
  pub source_library_id : Option Text
  pub source_checksum : Option Text
  pub source_updated_at : Option Text
  pub source_created_ns : Option ℤ
  pub source_is_favorite : Option Bool
  pub source_visibility : Option Text
  pub source_album_ids : Option (List Text)

abbrev pub source_fields : Manifest → SourceFields
source_fields m = record {
  old_asset_id = m.old_asset_id;
  old_inode = m.old_inode;
  old_name = m.old_name;
  source_owner_id = m.source_owner_id;
  source_library_id = m.source_library_id;
  source_checksum = m.source_checksum;
  source_updated_at = m.source_updated_at;
  source_created_ns = m.source_created_ns;
  source_is_favorite = m.source_is_favorite;
  source_visibility = m.source_visibility;
  source_album_ids = m.source_album_ids;
}

-- No field of a replacement's source is set.
unfoldable pub has_no_source : SourceFields → Bool
has_no_source s =
    is_none s.old_asset_id
    && is_none s.old_inode
    && is_none s.old_name
    && is_none s.source_owner_id
    && is_none s.source_library_id
    && is_none s.source_checksum
    && is_none s.source_updated_at
    && is_none s.source_created_ns
    && is_none s.source_is_favorite
    && is_none s.source_visibility
    && is_none s.source_album_ids

-- The source of a replacement is complete and well formed.
unfoldable pub has_source : Host → Text → SourceFields → Bool
has_source h owner_id s =
    some_and (is_canonical_uuid h) s.old_asset_id
    && some_and (λ inode. leb 1 inode) s.old_inode
    && some_and (is_safe_name h) s.old_name
    && some_and (λ owner. is_canonical_uuid h owner && owner =ₜ owner_id) s.source_owner_id
    && none_or (is_canonical_uuid h) s.source_library_id
    && is_replacement_text 1024 s.source_checksum
    && is_replacement_text 128 s.source_updated_at
    && some_and is_nonneg s.source_created_ns
    && is_some s.source_is_favorite
    && is_replacement_text 128 s.source_visibility
    && some_and (is_album_list h) s.source_album_ids

unfoldable pub source_matches_operation : UploadOperation → Host → Text → SourceFields → Bool
source_matches_operation ordinary h owner_id s = has_no_source s
source_matches_operation replacement h owner_id s = has_source h owner_id s

abbrev pub is_replacement : UploadOperation → Bool
is_replacement ordinary = false
is_replacement replacement = true

abbrev pub is_replacing : UploadState → Bool
is_replacing replacing = true
is_replacing _ = false

-- A verified candidate is there, and is a replacement's.
abbrev pub is_verification_valid : Manifest → Bool
is_verification_valid m =
    not m.candidate_verified || is_replacement m.operation && is_some m.candidate_asset_id

-- Verification of the candidate, the source, and that only a replacement is replacing.
unfoldable pub is_operation_valid : Host → Manifest → Bool
is_operation_valid h m =
    is_verification_valid m
    && source_matches_operation m.operation h m.owner_id (source_fields m)
    && (not (is_replacing m.state) || is_replacement m.operation)

abbrev is_hex : ℕ → Bool
is_hex c = leb b'0' c && leb c b'9' || leb b'a' c && leb c b'f'

-- `_SHA1_HEX.fullmatch(value)`
unfoldable pub is_sha1_hex : Text → Bool
is_sha1_hex value = length value == 40 && all_of is_hex value

-- The revision, the times, the hash and the candidate.
unfoldable pub are_values_valid : Host → Manifest → Bool
are_values_valid h m =
    leb 1 m.revision
    && none_or is_nonneg m.created_ns
    && none_or is_nonneg m.modified_ns
    && none_or is_nonneg m.sealed_ns
    && none_or is_nonneg m.next_attempt_ns
    && none_or is_sha1_hex m.sha1
    && none_or (is_canonical_uuid h) m.candidate_asset_id

-- `all(value is not None for value in sealed)`
abbrev pub is_sealed : Manifest → Bool
is_sealed m =
    is_some m.size
    && is_some m.sha1
    && is_some m.created_ns
    && is_some m.modified_ns
    && is_some m.sealed_ns

-- `all(value is None for value in sealed)`
abbrev pub is_unsealed : Manifest → Bool
is_unsealed m =
    is_none m.size
    && is_none m.sha1
    && is_none m.created_ns
    && is_none m.modified_ns
    && is_none m.sealed_ns

-- What each state asks of the other fields.
unfoldable pub fits_state : UploadState → Manifest → Bool
fits_state writing m =
    is_unsealed m
    && m.attempt_count == 0
    && is_none m.next_attempt_ns
    && is_none m.error
    && is_none m.candidate_asset_id
    && not m.candidate_verified
fits_state pending m =
    is_sealed m
    && is_some m.next_attempt_ns
    && is_none m.candidate_asset_id
    && not m.candidate_verified
fits_state attempting m =
    is_sealed m
    && (is_none m.candidate_asset_id || leb 1 m.attempt_count)
    && not m.candidate_verified
fits_state replacing m =
    is_sealed m && leb 1 m.attempt_count && is_some m.candidate_asset_id && m.candidate_verified
fits_state committed m =
    is_sealed m
    && leb 1 m.attempt_count
    && is_none m.next_attempt_ns
    && is_none m.error
    && is_some m.candidate_asset_id
    && (not (is_replacement m.operation) || m.candidate_verified)
fits_state blocked m =
    is_some m.error
    && is_none m.next_attempt_ns
    && (is_unsealed m || is_sealed m)
    && (not (is_unsealed m) || m.attempt_count == 0 && is_none m.candidate_asset_id)
fits_state cancelled m =
    is_none m.error
    && is_none m.next_attempt_ns
    && is_none m.candidate_asset_id
    && not m.candidate_verified
    && (is_unsealed m || is_sealed m)

-- `_validate_manifest(manifest, job_id)` returns rather than raises.
unfoldable pub is_valid : Host → Manifest → Text → Bool
is_valid h m job_id =
    is_identified h m job_id
    && is_operation_valid h m
    && are_values_valid h m
    && fits_state m.state m

-- The parts at once.
pub record IsValid (h : Host) (m : Manifest) (job_id : Text) : Type 0 where
  pub identified : is_identified h m job_id ≡ true
  pub verification : is_verification_valid m ≡ true
  pub source : source_matches_operation m.operation h m.owner_id (source_fields m) ≡ true
  pub replaces : (not (is_replacing m.state) || is_replacement m.operation) ≡ true
  pub values : are_values_valid h m ≡ true
  pub state : fits_state m.state m ≡ true

pub is_valid_iff :
    (h : Host) (m : Manifest) (job_id : Text) → (is_valid h m job_id ≡ true) ↔ IsValid h m job_id
unfolding is_valid is_operation_valid
is_valid_iff h m job_id = (λ p. ground arith, λ v. ground arith)
