-- ===== src/Uploads/Draft.antt =====
-- Local writing in src/immich_on_demand/uploads.py: `begin`, `_require_draft`, `write`, `truncate`,
-- `seal` and `block_writing`. New identifiers, times and the free space are arguments, and so is the
-- file that a creation makes.
use immich_on_demand.Prelude.{
  ℕ, ℤ, ◌+◌, ◌-◌, [], Option, none, some, Bool, false, ◌&&◌, ◌||◌, leb, ◌==◌, length,
}
use immich_on_demand.Prelude.Text.{Text, ◌=ₜ◌}
use immich_on_demand.Prelude.Exec.{Result, ok, err, guard, lift, pure, ◌>>=◌, ◌>>◌}
use immich_on_demand.Prelude.Dict.{get, add}
use immich_on_demand.Errors.{
  Exception, value_error, state_error, queue_error, no_space, file_exists,
}
use immich_on_demand.Uploads.Payload.{Bytes, resize, pwrite, feed}
use immich_on_demand.Uploads.Manifest.{
  writing, pending, blocked, UploadErrorCode, ordinary, Manifest, Host, is_canonical_uuid,
  canonical_origin,
}
use immich_on_demand.Uploads.Validate.{is_replacement, is_safe_name}
use immich_on_demand.Uploads.Disk.{
  FileInfo, Payload, JobDir, Op, load, save, store, open_job, open_payload,
}
use immich_on_demand.Uploads.Equality.{same_manifest}
use immich_on_demand.Uploads.Queue.{UploadStatus, write_status, is_writing}

-- `WritableUpload`. The descriptor is known by the file that it refers to.
pub record WritableUpload : Type 0 where
  pub id : Text
  pub requested_name : Text
  pub dev : ℕ
  pub ino : ℕ
  pub revision : ℕ

unfoldable pub new_manifest : Text → Text → Text → Text → Manifest
new_manifest job_id origin owner requested_name = record {
  format_version = 2;
  id = job_id;
  server_origin = origin;
  owner_id = owner;
  requested_name = requested_name;
  state = writing;
  revision = 1;
  size = none;
  sha1 = none;
  created_ns = none;
  modified_ns = none;
  sealed_ns = none;
  attempt_count = 0;
  next_attempt_ns = none;
  error = none;
  candidate_asset_id = none;
  candidate_verified = false;
  operation = ordinary;
  old_asset_id = none;
  old_inode = none;
  old_name = none;
  source_owner_id = none;
  source_library_id = none;
  source_checksum = none;
  source_updated_at = none;
  source_created_ns = none;
  source_is_favorite = none;
  source_visibility = none;
  source_album_ids = none;
}

-- A job's directory with an empty payload.
unfoldable pub new_dir : FileInfo → FileInfo → JobDir
new_dir dir_info payload_info = record {
  info = dir_info;
  manifest = none;
  temporary = none;
  payload = some (record { info = payload_info; bytes = [] });
  has_others = false;
}

make_absent : Text → JobDir → Option JobDir → Op (Unit {0})
make_absent job_id dir (some _) q = (err file_exists, q)
make_absent job_id dir none q = store job_id dir q

-- `os.mkdir(job_id)`, and the empty payload in it.
unfoldable pub make_job : Text → FileInfo → FileInfo → Op (Unit {0})
unfolding make_absent
make_job job_id dir_info payload_info q =
    make_absent job_id (new_dir dir_info payload_info) (get q.jobs job_id) q

-- `self._valid_ids.add(job_id)`
unfoldable pub list_job : Text → Op (Unit {0})
list_job job_id q = (ok tt, record q { valid_ids = add q.valid_ids job_id })

unfoldable pub or_value_error : Option Text → Result Exception Text
or_value_error none = err value_error
or_value_error (some value) = ok value

-- `begin`, with the identifier that `uuid4` gave and the two files created.
unfoldable pub begin : Host → Text → FileInfo → FileInfo → Text → Text → Text → Op WritableUpload
begin h job_id dir_info payload_info requested_name server_origin owner_id = do
  guard (is_safe_name h requested_name) value_error
  origin ← lift (or_value_error (canonical_origin h server_origin))
  guard (is_canonical_uuid h owner_id) value_error
  make_job job_id dir_info payload_info
  dir ← open_job h job_id
  lift (open_payload h dir)
  save h job_id (new_manifest job_id origin owner_id requested_name)
  list_job job_id
  pure (record {
    id = job_id;
    requested_name = requested_name;
    dev = payload_info.dev;
    ino = payload_info.ino;
    revision = 1;
  })

same_name : Manifest → WritableUpload → Bool
same_name m draft =
    m.requested_name =ₜ draft.requested_name
    || is_replacement m.operation
      && (elim m.old_name [ none ↦ false | some name ↦ m.requested_name =ₜ name ])

-- The test of `_require_draft`, in the positive.
unfoldable pub is_open_draft : Manifest → Payload → WritableUpload → Bool
unfolding same_name
is_open_draft m payload draft =
    is_writing m.state
    && m.revision == draft.revision
    && same_name m draft
    && draft.dev == payload.info.dev
    && draft.ino == payload.info.ino

-- `_require_draft`. The descriptor's file is then the stored payload, which was found private.
unfoldable pub require_draft : Host → WritableUpload → Op Manifest
require_draft h draft = do
  m ← load h draft.id
  dir ← open_job h draft.id
  payload ← lift (open_payload h dir)
  guard (is_open_draft m payload draft) state_error
  pure m

-- `_require_space`: growth must leave the floor free. Adding the floor on the right keeps the
-- difference of the source from being cut off at 0.
unfoldable pub has_space : ℕ → ℕ → ℕ → ℕ → Bool
has_space free minimum current_size new_end =
    let growth = new_end - current_size in growth == 0 || leb (minimum + growth) free

-- The payload of a job after its bytes have been changed at a time.
unfoldable pub with_bytes : Bytes → ℤ → Payload → JobDir → JobDir
with_bytes bytes now payload dir = record dir {
  payload =
      some
        (record { info = record payload.info { ctime_ns = now; mtime_ns = now }; bytes = bytes });
}

-- The draft's file is measured, the space for its growth is checked, and its bytes are changed.
unfoldable pub change_payload : Host → (ℕ → Bool) → (Bytes → Bytes) → ℤ → Text → Op (Unit {0})
change_payload h fits change now job_id = do
  dir ← open_job h job_id
  payload ← lift (open_payload h dir)
  guard (fits (length payload.bytes)) no_space
  store job_id (with_bytes (change payload.bytes) now payload dir)

-- `write`: returns the number of bytes written.
unfoldable pub write : Host → ℕ → ℕ → ℤ → WritableUpload → ℕ → Bytes → Op ℕ
write h free minimum now draft offset content = do
  require_draft h draft
  change_payload h (λ size. has_space free minimum size (offset + length content))
      (λ bytes. pwrite bytes offset content) now draft.id
  pure (length content)

unfoldable pub truncate : Host → ℕ → ℕ → ℤ → WritableUpload → ℕ → Op (Unit {0})
truncate h free minimum now draft size = do
  require_draft h draft
  change_payload h (λ current_size. has_space free minimum current_size size)
      (λ bytes. resize bytes size) now draft.id

-- What `seal` has read before it takes the lock again.
pub record Reading : Type 0 where
  pub manifest : Manifest
  pub size : ℕ
  pub ctime_ns : ℤ
  pub mtime_ns : ℤ
  pub sha1 : Text

-- The first half of `seal`: the draft, its `fstat`, and the hash of its bytes.
unfoldable pub read_draft : Host → WritableUpload → Op Reading
read_draft h draft = do
  m ← require_draft h draft
  dir ← open_job h draft.id
  payload ← lift (open_payload h dir)
  fed ← lift (feed payload.bytes (length payload.bytes))
  pure (record {
    manifest = m;
    size = length payload.bytes;
    ctime_ns = payload.info.ctime_ns;
    mtime_ns = payload.info.mtime_ns;
    sha1 = h.sha1_hex fed;
  })

unfoldable pub sealed_manifest : Manifest → Reading → ℤ → Manifest
sealed_manifest m r sealed_ns = record m {
  state = pending;
  revision = m.revision + 1;
  size = some r.size;
  sha1 = some r.sha1;
  created_ns = some r.ctime_ns;
  modified_ns = some r.mtime_ns;
  sealed_ns = some sealed_ns;
  next_attempt_ns = some sealed_ns;
}

unfoldable pub same_int : ℤ → ℤ → Bool
same_int (ℤ.pos a) (ℤ.pos b) = a == b
same_int (ℤ.negsuc a) (ℤ.negsuc b) = a == b
same_int _ _ = false

-- The file has not been touched since it was read.
unfoldable pub is_unchanged : Payload → Reading → Bool
unfolding same_int
is_unchanged payload r =
    length payload.bytes == r.size
    && same_int payload.info.ctime_ns r.ctime_ns
    && same_int payload.info.mtime_ns r.mtime_ns

-- The second half of `seal`, under the lock: nothing may have changed since the first.
unfoldable pub seal_draft : Host → WritableUpload → Reading → ℤ → Op UploadStatus
seal_draft h draft r now = do
  m ← require_draft h draft
  guard (same_manifest m r.manifest) queue_error
  dir ← open_job h draft.id
  payload ← lift (open_payload h dir)
  guard (is_unchanged payload r) queue_error
  write_status h draft.id (sealed_manifest m r now)

-- `seal`, with nothing in between its halves.
unfoldable pub seal : Host → WritableUpload → ℤ → Op UploadStatus
seal h draft now = do r ← read_draft h draft; seal_draft h draft r now

unfoldable pub abandoned : Manifest → UploadErrorCode → Manifest
abandoned m error = record m { state = blocked; revision = m.revision + 1; error = some error }

unfoldable pub block_writing : Host → WritableUpload → UploadErrorCode → Op UploadStatus
block_writing h draft error = do
  m ← require_draft h draft
  write_status h draft.id (abandoned m error)
