-- ===== src/Service/Refresh.antt =====
-- `_replacement_refresh_policy` of src/immich_on_demand/service.py: what a full refresh of the catalog
-- must keep, leave out or recognise because a replacement is under way.
pub mod Growing
pub mod Round
pub mod Covered
use immich_on_demand.Prelude.{
  ℕ, List, [], ◌∷◌, Option, none, some, Bool, true, false, ◌&&◌, ◌||◌, ◌==◌, if◌then◌else◌, is_some,
}
use immich_on_demand.Prelude.Text.{Text, ◌=ₜ◌}
use immich_on_demand.Prelude.Exec.{Result, ok, err}
use immich_on_demand.Prelude.Fallible.{◌>>=◌}
use immich_on_demand.Prelude.Dict.{Dict, put, add}
use immich_on_demand.Errors.{Fallible, local_error}
use immich_on_demand.Model.Asset.{Asset, CatalogAsset}
use immich_on_demand.Uploads.Manifest.{
  UploadState, blocked, UploadErrorCode, candidate_mismatch, upload_rejected,
}
use immich_on_demand.Uploads.Validate.{is_replacement}
use immich_on_demand.Uploads.Queue.{UploadStatus}

-- The catalog's `by_id`, and the base64 form of a hash in hexadecimal, with `none` for ValueError.
pub record RefreshHost : Type 0 where
  pub by_id : Text → Option CatalogAsset
  pub base64_of_hex : Text → Option Text

pub record Signature : Type 0 where
  pub owner_id : Text
  pub size : ℕ
  pub checksum : Text

pub record Policy : Type 0 where
  pub preserved : Dict Asset
  pub excluded : List Text
  pub signatures : List Signature

abbrev is_blocked : UploadState → Bool
is_blocked blocked = true
is_blocked _ = false

abbrev is_refusal : Option UploadErrorCode → Bool
is_refusal (some candidate_mismatch) = true
is_refusal (some upload_rejected) = true
is_refusal _ = false

abbrev has_text : Option Text → Text → Bool
has_text none value = false
has_text (some old) value = value =ₜ old

abbrev has_inode : Option ℕ → ℕ → Bool
has_inode none inode = false
has_inode (some old) inode = inode == old

-- The two conditions under which a candidate in the catalog is kept.
unfoldable pub keeps_candidate : UploadStatus → CatalogAsset → CatalogAsset → Bool
keeps_candidate job source candidate =
    (source.asset.is_trashed && has_text job.old_name candidate.name)
    || (is_blocked job.state && is_refusal job.error)

unfoldable pub preserve : Asset → Policy → Policy
preserve asset p = record p { preserved = put p.preserved asset.id asset }

unfoldable pub exclude : Text → Policy → Policy
exclude asset_id p = record p { excluded = add p.excluded asset_id }

unfoldable pub sign : Signature → Policy → Policy
sign signature p = record p { signatures = signature ∷ p.signatures }

unfoldable pub place_candidate :
    UploadStatus → CatalogAsset → Text → Option CatalogAsset → Policy → Policy
place_candidate job source candidate_id none p = exclude candidate_id p
place_candidate job source candidate_id (some candidate) p =
    if keeps_candidate job source candidate
    then preserve candidate.asset p
    else exclude candidate_id p

unfoldable pub place :
    RefreshHost → UploadStatus → CatalogAsset → Signature → Option Text → Policy → Policy
place h job source signature none p = sign signature p
place h job source signature (some candidate_id) p =
    place_candidate job source candidate_id (h.by_id candidate_id) p

unfoldable pub current_source : UploadStatus → Option CatalogAsset → Fallible CatalogAsset
current_source job none = err local_error
current_source job (some source) =
    if has_inode job.old_inode source.inode then ok source else err local_error

unfoldable pub encoded : Option Text → Fallible Text
encoded none = err local_error
encoded (some checksum) = ok checksum

abbrev old_id : Option Text → Text
old_id none = []
old_id (some value) = value

-- One round of the loop for a sealed replacement.
unfoldable pub add_job : RefreshHost → UploadStatus → ℕ → Text → Policy → Fallible Policy
add_job h job size sha1 p = do
  source ← current_source job (h.by_id (old_id job.old_asset_id))
  checksum ← encoded (h.base64_of_hex sha1)
  ok (
      place h job source (record { owner_id = job.owner_id; size = size; checksum = checksum })
        job.candidate_asset_id (preserve source.asset p))

-- `job.size is None or job.sha1 is None`
unfoldable pub add_sealed :
    RefreshHost → UploadStatus → Option ℕ → Option Text → Policy → Fallible Policy
add_sealed h job (some size) (some sha1) p = add_job h job size sha1 p
add_sealed h job _ _ p = ok p

unfoldable pub add_any : RefreshHost → UploadStatus → Policy → Fallible Policy
add_any h job p =
    if is_replacement job.operation then add_sealed h job job.size job.sha1 p else ok p

unfoldable pub add_jobs : RefreshHost → List UploadStatus → Policy → Fallible Policy
add_jobs h [] p = ok p
add_jobs h (job ∷ jobs) p = do next ← add_any h job p; add_jobs h jobs next

-- What is returned.
pub record RefreshPolicy : Type 0 where
  pub assets : List Asset
  pub left_out : List Text
  pub recognised : List Signature

-- `preserved.values()`
unfoldable pub assets_of : {V : Type 0} → Dict V → List V
assets_of [] = []
assets_of ((k, v) ∷ d) = v ∷ assets_of d

unfoldable pub policy_of : Policy → Fallible RefreshPolicy
policy_of p =
    ok (record { assets = assets_of p.preserved; left_out = p.excluded; recognised = p.signatures })

-- `_replacement_refresh_policy`
unfoldable pub replacement_refresh_policy : RefreshHost → List UploadStatus → Fallible RefreshPolicy
replacement_refresh_policy h jobs = do
  p ← add_jobs h jobs (record { preserved = []; excluded = []; signatures = [] })
  policy_of p
