-- ===== src/Uploads/Listing.antt =====
-- `status`, `list` and `next_due` of `UploadQueue` in src/immich_on_demand/uploads.py: what the queue
-- tells of its jobs. A job that cannot be read is dropped from the list and quarantined on the way.
pub mod Order
pub mod Readable
pub mod Listed
pub mod Due
use immich_on_demand.Prelude.{
  ℤ, List, [], ◌∷◌, Option, none, some, Bool, true, false, ◌&&◌, not, if◌then◌else◌, is_some,
  is_none, none_or, is_nonneg, leb_ℤ, eq_ℤ,
}
use immich_on_demand.Prelude.Text.{Text, text_lt}
use immich_on_demand.Prelude.Exec.{Result, ok, err, guard, raise, pure, ◌>>=◌, ◌>>◌}
use immich_on_demand.Prelude.Dict.{contains, add, discard}
use immich_on_demand.Errors.{
  Exception, value_error, permission_error, file_not_found, queue_error, state_error,
}
use immich_on_demand.Uploads.Manifest.{
  UploadState, pending, attempting, replacing, Manifest, Host, is_canonical_uuid,
}
use immich_on_demand.Uploads.Disk.{Queue, Op, load}
use immich_on_demand.Uploads.Queue.{UploadStatus}

-- `_is_quarantinable`
unfoldable pub is_quarantinable : Exception → Bool
is_quarantinable value_error = true
is_quarantinable permission_error = true
is_quarantinable file_not_found = true
is_quarantinable queue_error = true
is_quarantinable state_error = true
is_quarantinable _ = false

unfoldable pub quarantine : Text → Queue → Queue
quarantine job_id q = record q {
  valid_ids = discard q.valid_ids job_id;
  quarantined_names = add q.quarantined_names job_id;
}

-- The `try` of `status`, by the result of the reading.
unfoldable pub settle_status : Text → Result Exception Manifest → Op (Option UploadStatus)
settle_status job_id (ok m) q = (ok (some m), q)
settle_status job_id (err e) q =
    if is_quarantinable e then (ok none, quarantine job_id q) else (err e, q)

unfoldable pub status : Host → Text → Op (Option UploadStatus)
status h job_id = do
  guard (is_canonical_uuid h job_id) value_error
  λ q.
      if contains q.valid_ids job_id
      then settle_status job_id (load h job_id q).0 q
      else (ok none, q)

abbrev pub with_job : Option UploadStatus → List UploadStatus → List UploadStatus
with_job none jobs = jobs
with_job (some job) jobs = job ∷ jobs

-- The loop of `list`
unfoldable pub statuses : Host → List Text → Op (List UploadStatus)
statuses h [] = pure []
statuses h (job_id ∷ ids) = do
  job ← status h job_id
  jobs ← statuses h ids
  pure (with_job job jobs)

unfoldable pub or_zero : Option ℤ → ℤ
or_zero none = ℤ.pos 0
or_zero (some n) = n

-- The order of `sorted` by `(sealed_ns is None, sealed_ns or 0, id)`: whether `a` may stand before `b`.
unfoldable pub precedes : UploadStatus → UploadStatus → Bool
unfolding or_zero
precedes a b =
    if is_none a.sealed_ns
    then (if is_none b.sealed_ns then not (text_lt b.id a.id) else false)
    else if is_none b.sealed_ns
    then true
    else if eq_ℤ (or_zero a.sealed_ns) (or_zero b.sealed_ns)
    then not (text_lt b.id a.id)
    else leb_ℤ (or_zero a.sealed_ns) (or_zero b.sealed_ns)

unfoldable pub insert_job : UploadStatus → List UploadStatus → List UploadStatus
insert_job job [] = job ∷ []
insert_job job (next ∷ jobs) =
    let rest = insert_job job jobs in if precedes job next then job ∷ next ∷ jobs else next ∷ rest

unfoldable pub sort_jobs : List UploadStatus → List UploadStatus
sort_jobs [] = []
sort_jobs (job ∷ jobs) = insert_job job (sort_jobs jobs)

-- `list`
unfoldable pub list : Host → Op (List UploadStatus)
list h = do jobs ← λ q. statuses h q.valid_ids q; pure (sort_jobs jobs)

-- The states in which a job waits for the worker.
abbrev pub is_active : UploadState → Bool
is_active pending = true
is_active attempting = true
is_active replacing = true
is_active _ = false

unfoldable pub is_due : ℤ → UploadStatus → Bool
is_due now_ns job = is_active job.state && none_or (λ at. leb_ℤ at now_ns) job.next_attempt_ns

unfoldable pub first_due : ℤ → List UploadStatus → Option UploadStatus
first_due now_ns [] = none
first_due now_ns (job ∷ jobs) =
    let later = first_due now_ns jobs in if is_due now_ns job then some job else later

unfoldable pub next_due : Host → ℤ → Op (Option UploadStatus)
next_due h now_ns = do
  guard (is_nonneg now_ns) value_error
  jobs ← list h
  pure (first_due now_ns jobs)
