-- ===== src/Uploads/Disk.antt =====
-- The queue's directory as src/immich_on_demand/uploads.py sees it, and the checks on what it opens:
-- `_require_directory`, `_require_file`, `_open_job`, `_open_payload`, `_read_manifest_file` and
-- `_write_manifest`. A method is an action on the queue's state.
pub mod View
use immich_on_demand.Prelude.{
  ℕ, ℤ, List, [], Option, none, some, Bool, true, false, ◌&&◌, ltb, leb, is_none, ◌==◌,
  if◌then◌else◌, is_some,
}
use immich_on_demand.Prelude.Text.{Text}
use immich_on_demand.Prelude.Exec.{Result, ok, err, Exec, guard, lift, ◌>>=◌, ◌>>◌}
use immich_on_demand.Prelude.Dict.{Dict, get, put}
use immich_on_demand.Errors.{
  Exception, Fallible, value_error, permission_error, file_not_found, file_exists, queue_error,
}
use immich_on_demand.Uploads.Manifest.{Manifest, Host, ordinary}
use immich_on_demand.Uploads.Validate.{is_valid}

pub data FileKind : Type 0 where
  regular directory other : FileKind

-- `os.stat_result`; `mode` holds the permission bits.
pub record FileInfo : Type 0 where
  pub kind : FileKind
  pub uid : ℕ
  pub nlink : ℕ
  pub mode : ℕ
  pub dev : ℕ
  pub ino : ℕ
  pub ctime_ns : ℤ
  pub mtime_ns : ℤ

abbrev is_directory : FileKind → Bool
is_directory directory = true
is_directory _ = false

abbrev is_regular : FileKind → Bool
is_regular regular = true
is_regular _ = false

-- `_require_directory` returns
unfoldable pub is_private_directory : Host → FileInfo → Bool
is_private_directory h info = is_directory info.kind && info.uid == h.uid && info.mode == 0o700

-- `_require_file` returns
unfoldable pub is_private_file : Host → FileInfo → Bool
is_private_file h info =
    is_regular info.kind && info.uid == h.uid && info.nlink == 1 && info.mode == 0o600

pub record Payload : Type 0 where
  pub info : FileInfo
  pub bytes : List ℕ

-- What a manifest file decodes to: the fields of this format, those of format 1, or neither.
pub data Content : Type 0 where
  current : Manifest → Content
  version_1 : Manifest → Content
  malformed : Content

pub record ManifestFile : Type 0 where
  pub info : FileInfo
  pub size : ℕ
  pub content : Content

-- A job's directory: its two files, the temporary manifest, and whether anything else is there.
pub record JobDir : Type 0 where
  pub info : FileInfo
  pub manifest : Option ManifestFile
  pub temporary : Option FileInfo
  pub payload : Option Payload
  pub has_others : Bool

-- `UploadQueue` with its root directory: job directories by name, cleanup markers by the text that
-- follows their prefix, and the two sets of names.
pub record Queue : Type 0 where
  pub jobs : Dict JobDir
  pub markers : Dict ManifestFile
  pub valid_ids : List Text
  pub quarantined_names : List Text

abbrev pub Op : Type 0 → Type 0
Op A = Exec Exception Queue A

abbrev pub manifest_limit : ℕ
manifest_limit = 4096

-- A file that the queue itself has just created with mode 0600.
unfoldable pub created_info : Host → FileInfo
created_info h = record {
  kind = regular;
  uid = h.uid;
  nlink = 1;
  mode = 0o600;
  dev = 0;
  ino = 0;
  ctime_ns = ℤ.pos 0;
  mtime_ns = ℤ.pos 0;
}

abbrev pub or_missing {ℓ} : {A : Type ℓ} → Option A → Result Exception A
or_missing none = err file_not_found
or_missing (some a) = ok a

abbrev pub require {ℓ} : {A : Type ℓ} → Bool → Exception → A → Result Exception A
require true e a = ok a
require false e a = err e

-- `_open_job`
unfoldable pub open_job : Host → Text → Op JobDir
open_job h job_id q = elim (get q.jobs job_id) [
  | none ↦ (err file_not_found, q)
  | some dir ↦ (require (is_private_directory h dir.info) permission_error dir, q)
]

-- `_open_payload`
unfoldable pub open_payload : Host → JobDir → Fallible Payload
open_payload h dir = elim dir.payload [
  | none ↦ err file_not_found
  | some payload ↦ require (is_private_file h payload.info) permission_error payload
]

-- The upgrade of a manifest of format 1: it says nothing of replacements.
unfoldable pub upgrade : Manifest → Manifest
upgrade m = record m {
  format_version = 2;
  candidate_verified = false;
  operation = ordinary;
  old_asset_id = none;
  old_inode = none;
  old_name = none;
  source_owner_id = none;
  source_library_id = none;
  source_checksum = none;
  source_updated_at = none;
  source_created_ns = none;
  source_is_favorite = none;
  source_visibility = none;
  source_album_ids = none;
}

unfoldable pub decode : Host → Content → Text → Fallible Manifest
unfolding upgrade
decode h (current m) job_id = require (is_valid h m job_id) queue_error m
decode h (version_1 m) job_id = require (is_valid h (upgrade m) job_id) queue_error (upgrade m)
decode h malformed job_id = err queue_error

-- `_read_manifest_file`
unfoldable pub read_manifest_file : Host → Option ManifestFile → Text → Fallible Manifest
unfolding decode
read_manifest_file h none job_id = err file_not_found
read_manifest_file h (some file) job_id =
    if is_private_file h file.info
    then if ltb manifest_limit file.size then err queue_error else decode h file.content job_id
    else err permission_error

-- `with self._job(job_id) as job_descriptor: self._read_manifest(job_descriptor, job_id)`
unfoldable pub load : Host → Text → Op Manifest
load h job_id = do dir ← open_job h job_id; lift (read_manifest_file h dir.manifest job_id)

-- The directory after the new manifest has replaced the old one.
unfoldable pub with_manifest : Host → Manifest → JobDir → JobDir
with_manifest h m dir = record dir {
  manifest = some (record { info = created_info h; size = h.json_size m; content = current m });
}

-- A job's directory is put in place.
unfoldable pub store : Text → JobDir → Op (Unit {0})
store job_id dir q = (ok tt, record q { jobs = put q.jobs job_id dir })

-- `_write_manifest`: validate, measure, create the temporary file, replace. A temporary file that is
-- there already makes the exclusive creation fail.
unfoldable pub save : Host → Text → Manifest → Op (Unit {0})
save h job_id m = do
  guard (is_valid h m m.id) value_error
  guard (leb (h.json_size m) manifest_limit) queue_error
  dir ← open_job h job_id
  guard (is_none dir.temporary) file_exists
  store job_id (with_manifest h m dir)
