-- ===== src/Service/Paging.antt =====
-- The control request `uploads` of src/immich_on_demand/service.py (`list_uploads`): the jobs of the
-- queue, a page at a time, from a cursor on.
pub mod Cursors
pub mod Walk
use immich_on_demand.Prelude.{
  ℕ, zero, suc, ◌+◌, List, [], ◌∷◌, Option, none, some, Bool, true, false, ◌&&◌, ltb, leb,
  if◌then◌else◌, length, take, drop,
}
use immich_on_demand.Prelude.Text.{Text, ◌=ₜ◌}
use immich_on_demand.Prelude.Exec.{Result, ok, err}
use immich_on_demand.Prelude.Fallible.{check, ◌>>=◌, ◌>>◌}
use immich_on_demand.Errors.{Fallible, value_error}
use immich_on_demand.Uploads.Manifest.{Host, is_canonical_uuid}
use immich_on_demand.Uploads.Queue.{UploadStatus}

-- `[index for index, job in enumerate(jobs) if job.id == after]`, counted from `index` on.
unfoldable pub matches : Text → ℕ → List UploadStatus → List ℕ
matches after index [] = []
matches after index (job ∷ jobs) =
    let rest = matches after (suc index) jobs in if job.id =ₜ after then index ∷ rest else rest

abbrev pub behind : List ℕ → Fallible ℕ
behind (index ∷ []) = ok (suc index)
behind _ = err value_error

-- The start of the page behind the cursor.
unfoldable pub start_of : Host → List UploadStatus → Option Text → Fallible ℕ
start_of h jobs none = ok 0
start_of h jobs (some after) = do
  check (is_canonical_uuid h after) value_error
  behind (matches after 0 jobs)

-- `page[-1].id`
unfoldable pub last_id : List UploadStatus → Option Text
last_id [] = none
last_id (job ∷ []) = some job.id
last_id (job ∷ next ∷ jobs) = last_id (next ∷ jobs)

unfoldable pub page_from : List UploadStatus → ℕ → ℕ → List UploadStatus × Option Text
page_from jobs limit start =
    let page = take limit (drop start jobs) in
    (page, if ltb (start + length page) (length jobs) then last_id page else none)

-- `list_uploads`: the jobs of the page, whose fields the answer shows, and the next cursor.
unfoldable pub list_uploads :
    Host → List UploadStatus → Option Text → ℕ → Fallible (List UploadStatus × Option Text)
list_uploads h jobs after limit = do
  check (leb 1 limit && leb limit 32) value_error
  start ← start_of h jobs after
  ok (page_from jobs limit start)
