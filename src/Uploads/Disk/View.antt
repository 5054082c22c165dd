-- ===== src/Uploads/Disk/View.antt =====
-- What the queue's directory says of a job, and how loading and saving a manifest relate to it.
use immich_on_demand.Prelude.{
  Option, none, some, true, ◌≡◌, arith, leb, if◌then◌else◌, Option-cases, inl, inr,
}
use immich_on_demand.Prelude.Text.{Text, ◌=ₜ◌, =ₜ_iff}
use immich_on_demand.Prelude.Exec.{ok, err, ◌>>=◌}
use immich_on_demand.Prelude.Dict.{get, put, get-put}
use immich_on_demand.Errors.{Exception}
use immich_on_demand.Uploads.Manifest.{Manifest, Host}
use immich_on_demand.Uploads.Validate.{is_valid}
use immich_on_demand.Uploads.Disk.{
  Content, Queue, JobDir, ManifestFile, current, version_1, malformed, upgrade, decode,
  read_manifest_file, open_job, load, save, store, with_manifest, manifest_limit,
}

content_manifest : Content → Option Manifest
content_manifest (current m) = some m
content_manifest (version_1 m) = some (upgrade m)
content_manifest malformed = none

file_manifest : Option ManifestFile → Option Manifest
unfolding content_manifest
file_manifest none = none
file_manifest (some file) = content_manifest file.content

dir_manifest : Option JobDir → Option Manifest
unfolding file_manifest
dir_manifest none = none
dir_manifest (some dir) = file_manifest dir.manifest

-- The manifest of a job, whether or not it passes the checks.
unfoldable pub manifest_of : Queue → Text → Option Manifest
unfolding dir_manifest
manifest_of q job_id = dir_manifest (get q.jobs job_id)

-- A saved manifest is the job's, and no other job's manifest has changed.
pub record Saved (h : Host) (q : Queue) (job_id : Text) (m : Manifest) (q' : Queue) : Type 0 where
  pub views : (j : Text) → manifest_of q' j ≡ (if job_id =ₜ j then some m else manifest_of q j)
  pub valid : is_valid h m m.id ≡ true
  pub small : leb (h.json_size m) 4096 ≡ true

module _ (h : Host) (job_id : Text) (q : Queue) where
  -- Loading writes nothing.
  pub load-keeps : (load h job_id q).1 ≡ q
  unfolding load open_job ◌>>=◌
  load-keeps = ground arith

  decode_view :
      (content : Content) (m : Manifest)
      → decode h content job_id ≡ ok m
      → (content_manifest content ≡ some m) × (is_valid h m job_id ≡ true)
  unfolding decode content_manifest
  decode_view (current n) m e = ground arith
  decode_view (version_1 n) m e = ground arith
  decode_view malformed m e = cc

  read_manifest_file_view :
      (file : Option ManifestFile) (m : Manifest)
      → read_manifest_file h file job_id ≡ ok m
      → (file_manifest file ≡ some m) × (is_valid h m job_id ≡ true)
  unfolding read_manifest_file file_manifest
  read_manifest_file_view none m e = cc
  read_manifest_file_view (some file) m e = ground (arith, decode_view file.content m)

  -- A loaded manifest is the job's, and passed the checks.
  pub load-eq-ok :
      (m : Manifest)
      → (load h job_id q).0 ≡ ok m
      → (manifest_of q job_id ≡ some m) × (is_valid h m job_id ≡ true)
  unfolding load open_job manifest_of dir_manifest ◌>>=◌
  load-eq-ok m e = elim (Option-cases (get q.jobs job_id)) [
    | inl missing ↦ ground arith
    | inr (dir, found) ↦ ground (arith, read_manifest_file_view dir.manifest m)
  ]

  -- A save that raises writes nothing.
  pub save-eq-err :
      (m : Manifest) (e : Exception) → (save h job_id m q).0 ≡ err e → (save h job_id m q).1 ≡ q
  unfolding save open_job store ◌>>=◌
  save-eq-err m e p = ground arith

  stored_dir :
      (m : Manifest)
      → (save h job_id m q).0 ≡ ok tt
      → (dir : JobDir) × ((save h job_id m q).1
          ≡ record q { jobs = put q.jobs job_id (with_manifest h m dir) })
  unfolding save open_job store ◌>>=◌
  stored_dir m p = elim (Option-cases (get q.jobs job_id)) [
    | inl missing ↦ absurd (ground arith)
    | inr (dir, found) ↦ (dir, ground arith)
  ]

  save_checks :
      (m : Manifest)
      → (save h job_id m q).0 ≡ ok tt
      → (is_valid h m m.id ≡ true) × (leb (h.json_size m) manifest_limit ≡ true)
  unfolding save open_job store ◌>>=◌
  save_checks m p = ground arith

  put_view :
      (m : Manifest) (dir : JobDir) (j : Text)
      → dir_manifest (get (put q.jobs job_id (with_manifest h m dir)) j)
        ≡ (if job_id =ₜ j then some m else dir_manifest (get q.jobs j))
  unfolding dir_manifest with_manifest
  put_view m dir j = ground (arith, get-put q.jobs job_id j (with_manifest h m dir))

  pub save-eq-ok :
      (m : Manifest) → (save h job_id m q).0 ≡ ok tt → Saved h q job_id m (save h job_id m q).1
  save-eq-ok m p =
      let (dir, e) = stored_dir m p in
      record {
        views = λ j. rw e (unfold manifest_of in put_view m dir j);
        valid = (save_checks m p).0;
        small = (save_checks m p).1;
      }

-- A job's directory is replaced by one with the same manifest.
pub store-views :
    (q : Queue) (job_id : Text) (dir dir' : JobDir)
    → get q.jobs job_id ≡ some dir
    → dir'.manifest ≡ dir.manifest
    → (j : Text) → manifest_of (store job_id dir' q).1 j ≡ manifest_of q j
unfolding manifest_of store dir_manifest
store-views q job_id dir dir' found same j =
    ground (arith, get-put q.jobs job_id j dir', =ₜ_iff job_id j)

-- A new directory without a manifest.
pub store-views_new :
    (q : Queue) (job_id : Text) (dir' : JobDir)
    → get q.jobs job_id ≡ none
    → dir'.manifest ≡ none
    → (j : Text) → manifest_of (store job_id dir' q).1 j ≡ manifest_of q j
unfolding manifest_of store dir_manifest file_manifest
store-views_new q job_id dir' absent empty j =
    ground (arith, get-put q.jobs job_id j dir', =ₜ_iff job_id j)

pub open_job-eq-ok :
    (h : Host) (q : Queue) (job_id : Text) (dir : JobDir)
    → (open_job h job_id q).0 ≡ ok dir
    → get q.jobs job_id ≡ some dir
unfolding open_job
open_job-eq-ok h q job_id dir e = ground arith

-- A job that is not there has no manifest.
pub manifest_of_absent :
    (q : Queue) (job_id : Text) → get q.jobs job_id ≡ none → manifest_of q job_id ≡ none
unfolding manifest_of dir_manifest
manifest_of_absent q job_id absent = rw absent

-- The other fields of the queue do not matter.
pub manifest_of_jobs :
    (q q' : Queue) → q'.jobs ≡ q.jobs → (j : Text) → manifest_of q' j ≡ manifest_of q j
unfolding manifest_of
manifest_of_jobs q q' e j = rw e
