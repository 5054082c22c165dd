-- ===== src/Uploads/Manifest.antt =====
-- The data of src/immich_on_demand/uploads.py: states, error codes, operations, the manifest of a
-- job, and what the queue takes from the standard library.
use immich_on_demand.Prelude.{
  ℕ, ℤ, List, [], ◌++◌, Option, none, some, Bool, true, false, ◌&&◌, ◌||◌, not, is_some,
  if◌then◌else◌, all_of, ltb, ◌==◌,
}
use immich_on_demand.Prelude.Text.{Text, codes, ◌=ₜ◌}
use immich_on_demand.Model.Names.{Unicode, decimal}

pub data UploadState : Type 0 where
  writing pending attempting replacing committed blocked cancelled : UploadState

pub data UploadErrorCode : Type 0 where
  interrupted_write local_write_failed upload_unavailable upload_rejected : UploadErrorCode
  ambiguous_response candidate_mismatch profile_mismatch payload_invalid : UploadErrorCode
  local_state_failed : UploadErrorCode

pub data UploadOperation : Type 0 where
  ordinary replacement : UploadOperation

-- `_Manifest`. What JSON could hold beside these types is refused by the checks that the types make
-- needless. Times may be negative, as `stat` gives them; sizes and counters may not.
pub record Manifest : Type 0 where
  pub format_version : ℕ
  pub id : Text
  pub server_origin : Text
  pub owner_id : Text
  pub requested_name : Text
  pub state : UploadState
  pub revision : ℕ
  pub size : Option ℕ
  pub sha1 : Option Text
  pub created_ns : Option ℤ
  pub modified_ns : Option ℤ
  pub sealed_ns : Option ℤ
  pub attempt_count : ℕ
  pub next_attempt_ns : Option ℤ
  pub error : Option UploadErrorCode
  pub candidate_asset_id : Option Text
  pub candidate_verified : Bool
  pub operation : UploadOperation
  pub old_asset_id : Option Text
  pub old_inode : Option ℕ
  pub old_name : Option Text
  pub source_owner_id : Option Text
  pub source_library_id : Option Text
  pub source_checksum : Option Text
  pub source_updated_at : Option Text
  pub source_created_ns : Option ℤ
  pub source_is_favorite : Option Bool
  pub source_visibility : Option Text
  pub source_album_ids : Option (List Text)

-- The port of a split URL; reading a malformed one raises ValueError.
pub data Port : Type 0 where
  bad_port no_port : Port
  port : ℕ → Port

-- The parts that `urlsplit` gives.
pub record SplitUrl : Type 0 where
  pub scheme : Text
  pub netloc : Text
  pub path : Text
  pub query : Text
  pub fragment : Text
  pub username : Option Text
  pub password : Option Text
  pub hostname : Option Text
  pub port : Port

-- The standard library, as far as the queue uses it: Unicode tables and `uuid.UUID`, `urlsplit`,
-- `str.lower`, the SHA-1 of a byte string in hexadecimal, and the length of a manifest as JSON.
pub record Host : Type 0 where
  pub unicode : Unicode
  pub open unicode use *
  pub urlsplit : Text → SplitUrl
  pub lower : Text → Text
  pub sha1_hex : List ℕ → Text
  pub json_size : Manifest → ℕ
  pub uid : ℕ

-- `_canonical_uuid(value)` returns rather than raises.
unfoldable pub is_canonical_uuid : Host → Text → Bool
is_canonical_uuid h value = elim (h.uuid value) [
  | none ↦ false
  | some canonical ↦ canonical =ₜ value
]

port_part : Port → Text
port_part (port n) = if n == 443 then [] else codes ":" ++ decimal n
port_part _ = []

has_colon : Text → Bool
has_colon host = not (all_of (λ c. not (c == b':')) host)

origin_of : Text → Port → Text
unfolding port_part has_colon
origin_of host p =
    codes "https://"
    ++ ((if has_colon host then codes "[" ++ (host ++ codes "]") else host) ++ port_part p)

is_port : Port → Bool
is_port bad_port = false
is_port _ = true

-- The test of `_canonical_origin` on all parts but the host.
is_plain_https : Host → SplitUrl → Bool
unfolding is_port ◌=ₜ◌
is_plain_https h u =
    is_port u.port
    && h.lower u.scheme =ₜ codes "https"
    && not (is_some u.username)
    && not (is_some u.password)
    && (u.path =ₜ [] || u.path =ₜ codes "/")
    && u.query =ₜ []
    && u.fragment =ₜ []
    && all_of (λ c. ltb 32 c && not (c == 127)) u.netloc

origin_from : Host → SplitUrl → Option Text → Option Text
unfolding origin_of is_plain_https
origin_from h u none = none
origin_from h u (some hostname) =
    if is_plain_https h u then some (origin_of (h.lower hostname) u.port) else none

-- `_canonical_origin(value)`, with `none` for ValueError.
unfoldable pub canonical_origin : Host → Text → Option Text
unfolding origin_from
canonical_origin h value = origin_from h (h.urlsplit value) (h.urlsplit value).hostname
