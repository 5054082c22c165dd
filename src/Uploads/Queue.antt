-- ===== src/Uploads/Queue.antt =====
-- The methods of `UploadQueue` in src/immich_on_demand/uploads.py that change a job's manifest, but
-- for admission (`Attempt`), local writes (`Draft`) and removal (`Cleanup`). `at_ns` and the like are
-- what `time.time_ns` gave.
pub mod Transitions
pub mod Returns
use immich_on_demand.Prelude.{
  ℕ, suc, ℤ, List, [], Option, none, some, Bool, true, false, ◌&&◌, ◌||◌, not, ltb, leb, ◌==◌, ◌+◌,
  if◌then◌else◌, is_some, is_none, none_or, is_nonneg,
}
use immich_on_demand.Prelude.Text.{Text, ◌=ₜ◌}
use immich_on_demand.Prelude.Exec.{Result, ok, err, Exec, guard, lift, raise, pure, ◌>>=◌, ◌>>◌}
use immich_on_demand.Prelude.Dict.{contains}
use immich_on_demand.Errors.{Exception, value_error, state_error}
use immich_on_demand.Uploads.Manifest.{
  UploadState, writing, pending, attempting, replacing, committed, blocked, cancelled,
  UploadErrorCode, upload_rejected, UploadOperation, ordinary, replacement, Manifest, Host,
  is_canonical_uuid,
}
use immich_on_demand.Uploads.Validate.{is_replacement, is_replacing}
use immich_on_demand.Uploads.Disk.{Queue, Op, load, save}

-- `UploadStatus`: the manifest's fields and the path of the payload, which its id determines.
abbrev pub UploadStatus : Type 0
UploadStatus = Manifest

-- `job_id in self._valid_ids`, or UploadStateError
unfoldable pub require_listed : Text → Op (Unit {0})
require_listed job_id q = guard (contains q.valid_ids job_id) state_error q

-- `_require_known`
unfoldable pub require_known : Host → Text → Op (Unit {0})
require_known h job_id = do guard (is_canonical_uuid h job_id) value_error; require_listed job_id

-- The manifest is written and its status returned.
unfoldable pub write_status : Host → Text → Manifest → Op UploadStatus
write_status h job_id m = do save h job_id m; pure m

-- The arguments of `mark_replacement` that describe the asset to be replaced.
pub record Source : Type 0 where
  pub old_asset_id : Text
  pub old_inode : ℕ
  pub old_name : Text
  pub source_owner_id : Text
  pub source_library_id : Option Text
  pub source_checksum : Text
  pub source_updated_at : Text
  pub source_created_ns : ℤ
  pub source_is_favorite : Bool
  pub source_visibility : Text
  pub source_album_ids : List Text

abbrev pub is_writing : UploadState → Bool
is_writing writing = true
is_writing _ = false

abbrev pub is_pending : UploadState → Bool
is_pending pending = true
is_pending _ = false

abbrev pub is_attempting : UploadState → Bool
is_attempting attempting = true
is_attempting _ = false

unfoldable pub marked : Manifest → Source → Manifest
marked m s = record m {
  revision = if is_writing m.state then m.revision else m.revision + 1;
  requested_name = s.old_name;
  operation = replacement;
  old_asset_id = some s.old_asset_id;
  old_inode = some s.old_inode;
  old_name = some s.old_name;
  source_owner_id = some s.source_owner_id;
  source_library_id = s.source_library_id;
  source_checksum = some s.source_checksum;
  source_updated_at = some s.source_updated_at;
  source_created_ns = some s.source_created_ns;
  source_is_favorite = some s.source_is_favorite;
  source_visibility = some s.source_visibility;
  source_album_ids = some s.source_album_ids;
}

unfoldable pub mark_replacement : Host → Text → ℕ → Source → Op UploadStatus
mark_replacement h job_id revision s = do
  require_known h job_id
  guard (leb 1 revision) value_error
  m ← load h job_id
  guard (m.revision == revision) state_error
  guard (not (is_replacement m.operation) && (is_writing m.state || is_pending m.state)) state_error
  write_status h job_id (marked m s)

unfoldable pub with_candidate : Manifest → Text → Manifest
with_candidate m candidate = record m {
  revision = m.revision + 1;
  candidate_asset_id = some candidate;
}

-- A candidate that is there already is kept, and only the same one may be recorded again.
unfoldable pub record_new : Host → Text → Manifest → Text → Option Text → Op UploadStatus
record_new h job_id m candidate none = write_status h job_id (with_candidate m candidate)
record_new h job_id m candidate (some known) =
    if known =ₜ candidate then pure m else raise state_error

unfoldable pub record_candidate : Host → Text → Text → Op UploadStatus
record_candidate h job_id candidate = do
  require_known h job_id
  guard (is_canonical_uuid h candidate) value_error
  m ← load h job_id
  guard (is_attempting m.state) state_error
  record_new h job_id m candidate m.candidate_asset_id

unfoldable pub verified : Manifest → Manifest
verified m = record m {
  state = replacing;
  revision = m.revision + 1;
  next_attempt_ns = none;
  error = none;
  candidate_verified = true;
}

unfoldable pub begin_replacing : Host → Text → Op UploadStatus
begin_replacing h job_id = do
  require_known h job_id
  m ← load h job_id
  guard (is_replacement m.operation) state_error
  if is_replacing m.state then pure m else do
    guard (is_attempting m.state && is_some m.candidate_asset_id) state_error
    write_status h job_id (verified m)

-- The states that `retry` and `block` accept.
abbrev pub is_queued : UploadState → Bool
is_queued writing = false
is_queued cancelled = false
is_queued _ = true

abbrev pub is_idle : UploadState → Bool
is_idle pending = true
is_idle blocked = true
is_idle _ = false

-- The state that a retried job goes on from: as far as its candidate has come.
unfoldable pub retry_state : Manifest → UploadState
retry_state m =
    if is_replacement m.operation && m.candidate_verified
    then replacing
    else if is_some m.candidate_asset_id
    then attempting
    else pending

unfoldable pub retried : Manifest → ℤ → Option UploadErrorCode → Manifest
unfolding retry_state
retried m at_ns error = record m {
  state = retry_state m;
  revision = m.revision + 1;
  next_attempt_ns = some at_ns;
  error = error;
}

-- `revision` is given by a user's retry, which must not meet a running attempt.
unfoldable pub retry : Host → Text → ℤ → Option UploadErrorCode → Option ℕ → Op UploadStatus
retry h job_id at_ns error revision = do
  require_known h job_id
  guard (is_nonneg at_ns) value_error
  m ← load h job_id
  guard (none_or (λ r. m.revision == r) revision) state_error
  guard (is_none revision || is_idle m.state) state_error
  guard (is_queued m.state) state_error
  guard (is_some m.sha1) state_error
  write_status h job_id (retried m at_ns error)

unfoldable pub stopped : Manifest → UploadErrorCode → Manifest
stopped m error = record m {
  state = blocked;
  revision = m.revision + 1;
  next_attempt_ns = none;
  error = some error;
}

unfoldable pub block : Host → Text → UploadErrorCode → Op UploadStatus
block h job_id error = do
  require_known h job_id
  m ← load h job_id
  guard (is_queued m.state) state_error
  write_status h job_id (stopped m error)

unfoldable pub finished : Manifest → Manifest
finished m = record m {
  state = committed;
  revision = m.revision + 1;
  next_attempt_ns = none;
  error = none;
}

unfoldable pub commit : Host → Text → Op UploadStatus
commit h job_id = do
  require_known h job_id
  m ← load h job_id
  guard (not (is_replacement m.operation) || is_replacing m.state) state_error
  guard (is_some m.candidate_asset_id && (is_attempting m.state || is_replacing m.state))
      state_error
  write_status h job_id (finished m)

abbrev pub is_rejected : Option UploadErrorCode → Bool
is_rejected (some upload_rejected) = true
is_rejected _ = false

unfoldable pub dropped : Manifest → Manifest
dropped m = record m {
  state = cancelled;
  revision = m.revision + 1;
  next_attempt_ns = none;
  error = none;
}

-- The first half of `cancel`: the manifest is marked; the cleanup follows.
unfoldable pub mark_cancelled : Host → Text → Text → ℕ → Op UploadStatus
mark_cancelled h job_id requested_name revision = do
  require_known h job_id
  m ← load h job_id
  guard (m.requested_name =ₜ requested_name && m.revision == revision) value_error
  guard (is_idle m.state) state_error
  guard (is_none m.candidate_asset_id && (m.attempt_count == 0 || is_rejected m.error)) state_error
  write_status h job_id (dropped m)
