-- ===== src/Tests/Listing.antt =====
-- The listing of the upload queue at concrete inputs.
use immich_on_demand.Uploads.Listing.Listed.{Listed, AllCanonical, list-Listed}
use immich_on_demand.Uploads.Listing.Due.{NextOutcome, next_due-NextOutcome}
use immich_on_demand.Uploads.Listing.{sort_jobs, first_due}
use immich_on_demand.Uploads.Listing.Readable.{readings}
use immich_on_demand.Prelude.{ℤ, refl, arith}
use immich_on_demand.Prelude.Dict.{contains}
use immich_on_demand.Prelude.Text.{=ₜ_iff}
use immich_on_demand.Uploads.Manifest.{is_canonical_uuid}
use immich_on_demand.Tests.Jobs.{waiting, queue_of}
use immich_on_demand.Tests.Host.{host, job_id}

listed_waiting : AllCanonical host (queue_of waiting)
unfolding contains is_canonical_uuid
listed_waiting i e = ground (arith, =ₜ_iff job_id i)

list-Listed_example :
    Listed host
      (queue_of waiting)
      (sort_jobs (readings host (queue_of waiting) (queue_of waiting).valid_ids))
list-Listed_example = list-Listed host (queue_of waiting) listed_waiting

next_due-NextOutcome_example : NextOutcome host (ℤ.pos 9) (queue_of waiting) (
    first_due (ℤ.pos 9) (sort_jobs (readings host (queue_of waiting) (queue_of waiting).valid_ids)))
next_due-NextOutcome_example =
    next_due-NextOutcome host (ℤ.pos 9) (queue_of waiting) listed_waiting refl
