-- ===== src/Uploads/Cleanup.antt =====
-- Removal in src/immich_on_demand/uploads.py: `_cleanup_job`, which `cancel` and `remove` end in, the
-- cleanup markers that survive a crash, and `_recover_startup`.
pub mod Steps
pub mod Crash
pub mod Removal
pub mod Recovery
use immich_on_demand.Prelude.{
  ℕ, zero, suc, ℤ, ◌+◌, List, [], ◌∷◌, ◌++◌, Option, none, some, Bool, true, false, ◌&&◌, ◌||◌, not,
  ltb, leb, ◌==◌, if◌then◌else◌, is_some, is_none,
}
use immich_on_demand.Prelude.Text.{Text, ◌=ₜ◌}
use immich_on_demand.Prelude.Exec.{Result, ok, err, guard, lift, raise, pure, ◌>>=◌, ◌>>◌}
use immich_on_demand.Prelude.Dict.{Dict, get, put, remove, add, discard}
use immich_on_demand.Errors.{Exception, value_error, state_error, queue_error}
use immich_on_demand.Uploads.Manifest.{
  UploadState, writing, committed, cancelled, blocked, interrupted_write, Manifest, Host,
  is_canonical_uuid,
}
use immich_on_demand.Uploads.Disk.{
  FileInfo, Payload, ManifestFile, JobDir, Queue, Op, open_job, open_payload, read_manifest_file,
  save, is_private_file, is_private_directory,
}
use immich_on_demand.Uploads.Queue.{require_known, is_writing, mark_cancelled}
use immich_on_demand.Uploads.Draft.{abandoned}

-- The states that a cleanup accepts.
pub data Allowed : Type 0 where
  only_cancelled only_committed either : Allowed

unfoldable pub allows : Allowed → UploadState → Bool
allows only_cancelled cancelled = true
allows only_committed committed = true
allows either cancelled = true
allows either committed = true
allows _ _ = false

-- The four changes of the disk that remove a job, in their order; the directory is synchronised after
-- each, so that a crash leaves a prefix of them.
pub data CleanupStep : Type 0 where
  move_manifest unlink_payload remove_directory unlink_marker : CleanupStep

change_dir : (JobDir → JobDir) → Text → Queue → Option JobDir → Queue
change_dir f id q none = q
change_dir f id q (some dir) = record q { jobs = put q.jobs id (f dir) }

move_file : Text → Queue → Option JobDir → Option ManifestFile → Queue
move_file id q (some dir) (some file) = record q {
  jobs = put q.jobs id (record dir { manifest = none });
  markers = put q.markers id file;
}
move_file id q _ _ = q

dir_file : Option JobDir → Option ManifestFile
dir_file none = none
dir_file (some dir) = dir.manifest

unfoldable pub cleanup_step : Text → CleanupStep → Queue → Queue
unfolding change_dir move_file dir_file
cleanup_step id move_manifest q = move_file id q (get q.jobs id) (dir_file (get q.jobs id))
cleanup_step id unlink_payload q =
    change_dir (λ dir. record dir { payload = none }) id q (get q.jobs id)
cleanup_step id remove_directory q = record q { jobs = remove q.jobs id }
cleanup_step id unlink_marker q = record q { markers = remove q.markers id }

-- A step as an action that does not fail.
unfoldable pub act : Text → CleanupStep → Op (Unit {0})
act id s q = (ok tt, cleanup_step id s q)

-- `self._valid_ids.discard(job_id)`
unfoldable pub delist : Text → Op (Unit {0})
delist id q = (ok tt, record q { valid_ids = discard q.valid_ids id })

-- No marker has the job's name.
unfoldable pub require_unmarked : Text → Op (Unit {0})
require_unmarked id q = guard (is_none (get q.markers id)) queue_error q

-- The directory holds the payload, the manifest, and nothing else.
unfoldable pub has_both_files : JobDir → Bool
has_both_files dir =
    is_some dir.payload && is_some dir.manifest && is_none dir.temporary && not dir.has_others

-- `_require_cleanup_marker`
unfoldable pub require_marker : Host → Text → Allowed → Op Manifest
require_marker h id allowed = do
  m ← λ q. (read_manifest_file h (get q.markers id) id, q)
  guard (allows allowed m.state) queue_error
  pure m

-- What `_cleanup_job` does once its checks have passed.
pub data EraseAction : Type 0 where
  disk : CleanupStep → EraseAction
  delist_job check_marker : EraseAction

-- Its actions in their order, with the second look at the marker before the last.
unfoldable pub erase_actions : List EraseAction
erase_actions =
    disk move_manifest
    ∷ delist_job
    ∷ disk unlink_payload
    ∷ disk remove_directory
    ∷ check_marker
    ∷ disk unlink_marker
    ∷ []

unfoldable pub erase_action : Host → Text → Allowed → EraseAction → Op (Unit {0})
erase_action h id allowed (disk s) = act id s
erase_action h id allowed delist_job = delist id
erase_action h id allowed check_marker = do require_marker h id allowed; pure tt

unfoldable pub erase_all : Host → Text → Allowed → List EraseAction → Op (Unit {0})
erase_all h id allowed [] = pure tt
erase_all h id allowed (a ∷ actions) = do
  erase_action h id allowed a
  erase_all h id allowed actions

unfoldable pub erase : Host → Text → Allowed → Op (Unit {0})
unfolding erase_actions erase_action erase_all
erase h id allowed = erase_all h id allowed erase_actions

-- What a new process finds: the disk as it is, and nothing listed or quarantined yet.
unfoldable pub restarted : Queue → Queue
restarted q = record q { valid_ids = []; quarantined_names = [] }

-- `_cleanup_job`
unfoldable pub cleanup_job : Host → Text → Allowed → Op (Unit {0})
cleanup_job h id allowed = do
  guard (is_canonical_uuid h id) value_error
  require_unmarked id
  dir ← open_job h id
  m ← lift (read_manifest_file h dir.manifest id)
  guard (allows allowed m.state) state_error
  guard (has_both_files dir) queue_error
  payload ← lift (open_payload h dir)
  erase h id allowed

-- `remove`
pub remove_job : Host → Text → Op (Unit {0})
remove_job h id = do require_known h id; cleanup_job h id only_committed

-- `cancel`
pub cancel : Host → Text → Text → ℕ → Op (Unit {0})
cancel h id requested_name revision = do
  mark_cancelled h id requested_name revision
  cleanup_job h id only_cancelled

-- What may be left of a directory whose manifest was moved away.
unfoldable pub has_payload_only : JobDir → Bool
has_payload_only dir = is_none dir.manifest && is_none dir.temporary && not dir.has_others

drop_payload : Host → Text → JobDir → Option Payload → Op (Unit {0})
drop_payload h id dir none = pure tt
drop_payload h id dir (some payload) = do lift (open_payload h dir); act id unlink_payload

drop_directory : Host → Text → Option JobDir → Op (Unit {0})
unfolding drop_payload
drop_directory h id none = pure tt
drop_directory h id (some _) = do
  dir ← open_job h id
  guard (has_payload_only dir) queue_error
  drop_payload h id dir dir.payload
  act id remove_directory

-- `_finish_cleanup_marker`: what a crash left of a cleanup is done.
unfoldable pub finish_marker : Host → Text → Op (Unit {0})
unfolding drop_directory
finish_marker h id = do
  require_marker h id either
  λ q. drop_directory h id (get q.jobs id) q
  act id unlink_marker

-- `self._quarantined_names.add(name)`; every exception of the model is one that
-- `_is_quarantinable` accepts.
or_quarantine : Text → Result Exception (Unit {0}) → Queue → Queue
or_quarantine name (ok _) q = q
or_quarantine name (err _) q = record q { quarantined_names = add q.quarantined_names name }

finish_named : Host → Text → Op (Unit {0})
finish_named h name = do guard (is_canonical_uuid h name) value_error; finish_marker h name

recover_marker : Host → Text → Queue → Queue
unfolding or_quarantine finish_named
recover_marker h name q = let (r, q') = finish_named h name q in or_quarantine name r q'

recover_markers : Host → List Text → Queue → Queue
recover_markers h [] q = q
recover_markers h (name ∷ names) q = recover_markers h names (recover_marker h name q)

-- What the scan of the job directories decides of one of them.
pub data Scan : Type 0 where
  keep : Scan
  clean : UploadState → Scan

scan_state : Host → Text → Manifest → UploadState → Op Scan
scan_state h name m writing = do save h name (abandoned m interrupted_write); pure keep
scan_state h name m cancelled = pure (clean cancelled)
scan_state h name m committed = pure (clean committed)
scan_state h name m _ = pure keep

-- The checks on a job's directory at startup; a job that was being written becomes BLOCKED.
unfoldable pub scan_job : Host → Text → Op Scan
unfolding scan_state
scan_job h name = do
  guard (is_canonical_uuid h name) value_error
  dir ← open_job h name
  guard (not dir.has_others) queue_error
  guard (is_none dir.temporary) queue_error
  m ← lift (read_manifest_file h dir.manifest name)
  lift (open_payload h dir)
  scan_state h name m m.state

-- `self._valid_ids.add(name)`
list_name : Text → Queue → Queue
list_name name q = record q { valid_ids = add q.valid_ids name }

settle_scan : Text → Result Exception Scan → Queue → Queue × List (Text × UploadState)
unfolding list_name or_quarantine
settle_scan name (ok keep) q = (list_name name q, [])
settle_scan name (ok (clean state)) q = (q, (name, state) ∷ [])
settle_scan name (err e) q = (or_quarantine name (err e) q, [])

-- The second loop: the jobs that are kept are listed, and those to be cleaned are collected.
scan_jobs : Host → List Text → Queue → Queue × List (Text × UploadState)
unfolding settle_scan
scan_jobs h [] q = (q, [])
scan_jobs h (name ∷ names) q =
    let (r, q') = scan_job h name q in
    let (q'', found) = settle_scan name r q' in
    let (last, more) = scan_jobs h names q'' in (last, found ++ more)

allowed_for : UploadState → Allowed
allowed_for committed = only_committed
allowed_for _ = only_cancelled

settle_cleanup : Text → Result Exception (Unit {0}) → Queue → Queue
settle_cleanup name (ok _) q = q
settle_cleanup name (err _) q = record q {
  valid_ids = discard q.valid_ids name;
  quarantined_names = add q.quarantined_names name;
}

-- The third loop.
clean_jobs : Host → List (Text × UploadState) → Queue → Queue
unfolding allowed_for settle_cleanup list_name
clean_jobs h [] q = q
clean_jobs h ((name, state) ∷ more) q =
    let (r, q') = cleanup_job h name (allowed_for state) (list_name name q) in
    clean_jobs h more (settle_cleanup name r q')

keys : {V : Type 0} → Dict V → List Text
keys [] = []
keys ((k, v) ∷ d) = k ∷ keys d

-- `_recover_startup`, from a directory with nothing listed yet.
pub recover_startup : Host → Queue → Queue
unfolding keys recover_markers scan_jobs clean_jobs
recover_startup h q =
    let marked = recover_markers h (keys q.markers) q in
    let (scanned, cleanup) = scan_jobs h (keys marked.jobs) marked in clean_jobs h cleanup scanned
