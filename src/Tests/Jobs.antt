-- ===== src/Tests/Jobs.antt =====
-- A stored job and a queue that holds it, for the tests.
use immich_on_demand.Prelude.{ℤ, [], ◌∷◌, none, some, false}
use immich_on_demand.Prelude.Text.{codes}
use immich_on_demand.Uploads.Manifest.{Manifest, pending, ordinary}
use immich_on_demand.Uploads.Disk.{
  FileInfo, directory, regular, ManifestFile, current, JobDir, Queue,
}
use immich_on_demand.Tests.Host.{job_id, owner_id, origin}

-- A sealed job that waits for its first attempt.
abbrev pub waiting : Manifest
waiting = record {
  format_version = 2;
  id = job_id;
  server_origin = origin;
  owner_id = owner_id;
  requested_name = codes "photo.jpg";
  state = pending;
  revision = 2;
  size = some 3;
  sha1 = some (codes "da39a3ee5e6b4b0d3255bfef95601890afd80709");
  created_ns = some (ℤ.pos 5);
  modified_ns = some (ℤ.pos 5);
  sealed_ns = some (ℤ.pos 6);
  attempt_count = 0;
  next_attempt_ns = some (ℤ.pos 6);
  error = none;
  candidate_asset_id = none;
  candidate_verified = false;
  operation = ordinary;
  old_asset_id = none;
  old_inode = none;
  old_name = none;
  source_owner_id = none;
  source_library_id = none;
  source_checksum = none;
  source_updated_at = none;
  source_created_ns = none;
  source_is_favorite = none;
  source_visibility = none;
  source_album_ids = none;
}

abbrev pub private_dir : FileInfo
private_dir = record {
  kind = directory;
  uid = 1000;
  nlink = 2;
  mode = 0o700;
  dev = 1;
  ino = 10;
  ctime_ns = ℤ.pos 5;
  mtime_ns = ℤ.pos 5;
}

abbrev pub private_file : FileInfo
private_file = record {
  kind = regular;
  uid = 1000;
  nlink = 1;
  mode = 0o600;
  dev = 1;
  ino = 11;
  ctime_ns = ℤ.pos 5;
  mtime_ns = ℤ.pos 5;
}

abbrev pub file_of : Manifest → ManifestFile
file_of m = record { info = private_file; size = 900; content = current m }

abbrev pub dir_of : Manifest → JobDir
dir_of m = record {
  info = private_dir;
  manifest = some (file_of m);
  temporary = none;
  payload = some (record { info = private_file; bytes = 7 ∷ 8 ∷ 9 ∷ [] });
  has_others = false;
}

abbrev pub queue_of : Manifest → Queue
queue_of m = record {
  jobs = (job_id, dir_of m) ∷ [];
  markers = [];
  valid_ids = job_id ∷ [];
  quarantined_names = [];
}

abbrev pub empty_queue : Queue
empty_queue = record { jobs = []; markers = []; valid_ids = []; quarantined_names = [] }
