-- ===== src/Uploads/Listing/Readable.antt =====
-- `status` of src/immich_on_demand/uploads.py, by what the job's directory holds: the manifest that
-- can be read, or the quarantine.
use immich_on_demand.Prelude.{
  List, [], ◌∷◌, Option, none, some, Bool, true, ◌≡◌, refl, sym, ap, ◌∙◌, arith, ◌⊎◌, inl, inr,
  is_some, Bool-cases, Option-cases,
}
use immich_on_demand.Prelude.Text.{Text, ◌=ₜ◌, =ₜ_iff}
use immich_on_demand.Prelude.Exec.{ok, err, ◌>>=◌, Result-cases}
use immich_on_demand.Prelude.Dict.{get, contains, contains-discard, contains-discard_same}
use immich_on_demand.Errors.{Fallible}
use immich_on_demand.Uploads.Manifest.{Manifest, Host, is_canonical_uuid}
use immich_on_demand.Uploads.Disk.{
  Queue, ManifestFile, Content, load, open_job, read_manifest_file, decode,
}
use immich_on_demand.Uploads.Queue.{UploadStatus}
use immich_on_demand.Uploads.Listing.{is_quarantinable, quarantine, settle_status, status, with_job}

abbrev pub read_job : Fallible Manifest → Option UploadStatus
read_job (ok m) = some m
read_job (err e) = none

-- The job as its directory tells it, if the manifest passes all checks.
unfoldable pub readable : Host → Queue → Text → Option UploadStatus
readable h q job_id = read_job (load h job_id q).0

-- The readable ones of some jobs.
unfoldable pub readings : Host → Queue → List Text → List UploadStatus
readings h q [] = []
readings h q (job_id ∷ ids) = with_job (readable h q job_id) (readings h q ids)

-- Whatever keeps a manifest from being read is an error that quarantines it.
refuses : Fallible Manifest → Bool
refuses (ok m) = true
refuses (err e) = is_quarantinable e

decode-refuses : (h : Host) (content : Content) (id : Text) → refuses (decode h content id) ≡ true
unfolding refuses decode is_quarantinable
decode-refuses h (Content.current m) id = ground arith
decode-refuses h (Content.version_1 m) id = ground arith
decode-refuses h Content.malformed id = refl

file-refuses :
    (h : Host) (file : Option ManifestFile) (id : Text)
    → refuses (read_manifest_file h file id) ≡ true
unfolding refuses read_manifest_file is_quarantinable
file-refuses h none id = refl
file-refuses h (some file) id = ground (arith, decode-refuses h file.content id)

load-refuses : (h : Host) (id : Text) (q : Queue) → refuses (load h id q).0 ≡ true
unfolding refuses load open_job is_quarantinable ◌>>=◌
load-refuses h id q = elim (Option-cases (get q.jobs id)) [
  | inl e ↦ ground arith
  | inr (dir, e) ↦ ground (arith, file-refuses h dir.manifest id)
]

pub load_by_jobs :
    (h : Host) (id : Text) (q q' : Queue) → q'.jobs ≡ q.jobs → (load h id q').0 ≡ (load h id q).0
unfolding load open_job ◌>>=◌
load_by_jobs h id q q' e = ground arith

settle-status_result :
    (job_id : Text) (r : Fallible Manifest) (q : Queue)
    → refuses r ≡ true
    → (settle_status job_id r q).0 ≡ ok (read_job r)
unfolding settle_status refuses
settle-status_result job_id (ok m) q h = refl
settle-status_result job_id (err e) q h = ground arith

-- The jobs of the list are as they were, and a job that is listed no more cannot be read.
pub record Lists (h : Host) (q q' : Queue) : Type 0 where
  pub same_jobs : q'.jobs ≡ q.jobs
  pub dropped :
      (i : Text)
      → contains q.valid_ids i ≡ true
      → (contains q'.valid_ids i ≡ true) ⊎ (readable h q i ≡ none)
  pub kept : (i : Text) → contains q'.valid_ids i ≡ true → contains q.valid_ids i ≡ true

pub Lists-refl : (h : Host) (q : Queue) → Lists h q q
Lists-refl h q = record { same_jobs = refl; dropped = λ i e. inl e; kept = λ i e. e }

pub Lists-trans : (h : Host) (q r s : Queue) → Lists h q r → Lists h r s → Lists h q s
unfolding readable
Lists-trans h q r s a b = record {
  same_jobs = b.same_jobs ∙ a.same_jobs;
  dropped = λ i e. elim (a.dropped i e) [
    | inr n ↦ inr n
    | inl l ↦ elim (b.dropped i l) [
      | inl l' ↦ inl l'
      | inr n ↦ inr (ap read_job (sym (load_by_jobs h i q r a.same_jobs)) ∙ n)
    ]
  ];
  kept = λ i e. a.kept i (b.kept i e);
}

quarantine-Lists :
    (h : Host) (q : Queue) (id : Text) → readable h q id ≡ none → Lists h q (quarantine id q)
unfolding quarantine
quarantine-Lists h q id n = record {
  same_jobs = refl;
  dropped = λ i e. elim (Bool-cases (id =ₜ i)) [
    | inl same ↦ inr (ap (readable h q) (sym ((=ₜ_iff id i).0 same)) ∙ n)
    | inr other ↦ inl (ground (arith, contains-discard q.valid_ids id i))
  ];
  kept = λ i e. ground (arith, contains-discard q.valid_ids id i);
}

settle-status_state :
    (h : Host) (id : Text) (r : Fallible Manifest) (q : Queue)
    → (load h id q).0 ≡ r
    → Lists h q (settle_status id r q).1
unfolding settle_status quarantine readable
settle-status_state h id (ok m) q e = Lists-refl h q
settle-status_state h id (err x) q e = elim (Bool-cases (is_quarantinable x)) [
  | inl b ↦ rw b (quarantine-Lists h q id (ap read_job e))
  | inr b ↦ rw b (Lists-refl h q)
]

module _ (h : Host) where
  pub status_state : (q : Queue) (id : Text) → Lists h q (status h id q).1
  unfolding status ◌>>=◌
  status_state q id = elim (Bool-cases (is_canonical_uuid h id)) [
    | inr c ↦ rw c (Lists-refl h q)
    | inl c ↦ rw c (elim (Bool-cases (contains q.valid_ids id)) [
      | inl l ↦ rw l (settle-status_state h id (load h id q).0 q refl)
      | inr l ↦ rw l (Lists-refl h q)
    ])
  ]

  -- `status` of a listed job, or of one that cannot be read, is what its directory tells.
  pub status_result :
      (q : Queue) (id : Text)
      → is_canonical_uuid h id ≡ true
      → (contains q.valid_ids id ≡ true) ⊎ (readable h q id ≡ none)
      → (status h id q).0 ≡ ok (readable h q id)
  unfolding status readable ◌>>=◌
  status_result q id c (inl l) =
      ground (arith, settle-status_result id (load h id q).0 q (load-refuses h id q))
  status_result q id c (inr n) =
      ground (arith, settle-status_result id (load h id q).0 q (load-refuses h id q))

  -- A job that is listed after `status` has read it can be read.
  pub status_leaves :
      (q : Queue) (id : Text)
      → is_canonical_uuid h id ≡ true
      → contains (status h id q).1.valid_ids id ≡ true
      → is_some (readable h q id) ≡ true
  unfolding status settle_status quarantine readable refuses ◌>>=◌
  status_leaves q id c l = elim (Result-cases (load h id q).0) [
    | inl (m, e) ↦ rw e refl
    | inr (x, e) ↦
        absurd (ground (arith, load-refuses h id q, contains-discard_same q.valid_ids id))
  ]
