-- ===== src/Tests/Service.antt =====
-- The upload worker and the guarded changes of the library at concrete inputs.
use immich_on_demand.Prelude.{
  ℤ, [], ◌∷◌, none, some, true, false, ◌≡◌, refl, ◌+◌, ◌⊎◌, if◌then◌else◌, is_some, ◌||◌, ◌*◌, min,
}
use mathlib.Core.List.Memᴰ
use immich_on_demand.Prelude.Text.{codes}
use immich_on_demand.Prelude.Exec.{ok}
use immich_on_demand.Prelude.Fallible.{◌>>=◌}
use immich_on_demand.Prelude.Dict.{put, remove}
use immich_on_demand.Uploads.Manifest.{Manifest, replacement}
use immich_on_demand.Service.Refresh.{
  RefreshHost, RefreshPolicy, policy_of, assets_of, replacement_refresh_policy, add_jobs, add_any,
  add_sealed, add_job, current_source, encoded, place, preserve, sign,
}
use immich_on_demand.Service.Refresh.Round.{Covered}
use immich_on_demand.Service.Refresh.Covered.{Returned, replacement_refresh_policy-Covered}
use immich_on_demand.Model.Asset.{Asset, CatalogAsset}
use immich_on_demand.Library.{Library}
use immich_on_demand.Library.Trash.{
  CatalogOps, Shelf, TrashSent, RestoreSent, remote_trash, remote_restore,
}
use immich_on_demand.Library.Trash.Guarded.{remote_trash-TrashSent, remote_restore-RestoreSent}
use immich_on_demand.Uploads.Listing.{first_due}
use immich_on_demand.Service.Checks.{upload_retry_delay}
use immich_on_demand.Service.World.{Outside, World}
use immich_on_demand.Service.Delay.{
  shortest_wait, is_over, first_due-shortest_wait, upload_retry_delay_bounds,
}
use immich_on_demand.Service.Upload.Attempt.{process_body}
use immich_on_demand.Service.Upload.Process.{process_upload}
use immich_on_demand.Service.Upload.Failing.{propagated, is_served, process_upload_result}
use immich_on_demand.Service.Upload.Safety.Trace.{SafeRun, process_upload-SafeRun}
use immich_on_demand.Tests.Host.{host, job_id, owner_id, asset_id, origin}
use immich_on_demand.Tests.Jobs.{waiting, queue_of}

abbrev sent_asset : Asset
sent_asset = record {
  id = asset_id;
  owner_id = owner_id;
  original_name = codes "photo.jpg";
  mime_type = codes "image/jpeg";
  size = some 3;
  created_ns = ℤ.pos 5;
  modified_ns = ℤ.pos 5;
  updated_at = codes "2024";
  checksum = codes "2jmj7l5rSw0yVb/vlWAYkK/YBwk=";
  visibility = codes "timeline";
  is_trashed = false;
  is_offline = false;
  library_id = none;
  local_date = none;
  is_favorite = false;
  person_ids = [];
  live_photo_video_id = none;
}

abbrev entry_of : Asset → CatalogAsset
entry_of a = record { asset = a; inode = 5; name = codes "photo.jpg" }

-- A server that takes every upload, and a catalog that lists it.
abbrev served : Outside
served = record {
  codec = record {
    checksum_hex = λ value. some (codes "da39a3ee5e6b4b0d3255bfef95601890afd80709");
  };
  now_ns = λ t. ℤ.pos 100;
  meanwhile = λ t q. q;
  asset_reply = λ t id. ok sent_asset;
  marker_reply = λ t id. ok job_id;
  albums_reply = λ t id. ok [];
  upload_reply = λ t name id source. ok asset_id;
  copy_reply = λ t source candidate. ok tt;
  trash_reply = λ t id. ok tt;
  by_id = λ t id. ok none;
  album_ids = λ t id. ok [];
  add_uploaded = λ t a name. ok (entry_of a);
  publish_replacement = λ t old a. ok (entry_of a);
  pinned_ids = λ t. [];
  on_uploaded = λ t entry. ok tt;
  transfer_pin = λ t id a pinned. ok tt;
  has_content_cache = true;
  on_upload_finished = λ t id. ok tt;
}

abbrev library : Library
library = record {
  settings = record { server_origin = origin; remote_delete = true };
  has_client = true;
  session = some (record { owner_id = owner_id; trash_enabled = true });
}

abbrev start : World
start = record { time = 0; queue = queue_of waiting; current = waiting; log = [] }

process_upload-SafeRun_example : SafeRun host served library waiting start
process_upload-SafeRun_example = process_upload-SafeRun host served library waiting start refl

process_upload_result_example : (process_upload host served library waiting start).0 ≡ (
    if is_served library waiting then propagated (process_body host served true start).0 else ok tt)
process_upload_result_example = process_upload_result host served library waiting start

first_due-shortest_wait_example :
    is_some (first_due (ℤ.pos (4 + 2)) (waiting ∷ []))
    ≡ (is_some (first_due (ℤ.pos 4) (waiting ∷ [])) || is_over (shortest_wait 4 (waiting ∷ [])) 2)
first_due-shortest_wait_example = first_due-shortest_wait 4 2 (waiting ∷ [])

upload_retry_delay_bounds_example :
    (upload_retry_delay 0 ≡ 5)
    × (upload_retry_delay 1 ≡ 5)
    × (upload_retry_delay 5 ≡ min 60 (2 * upload_retry_delay 4))
upload_retry_delay_bounds_example = upload_retry_delay_bounds 3

-- A catalog of one entry.
abbrev one_entry : CatalogOps CatalogAsset
one_entry = record {
  by_inode = λ c inode. some c;
  by_id = λ c id. some c;
  restore_projects_standalone = λ c id. true;
  mark_trashed = λ c id. ok c;
  mark_restored = λ c id. ok c;
}

abbrev shelf : Shelf CatalogAsset
shelf = record { catalog = entry_of sent_asset; requests = [] }

remote_trash-TrashSent_example :
    ((remote_trash one_entry (λ r. ok tt) library (entry_of sent_asset) shelf).1 ≡ shelf)
    ⊎ TrashSent one_entry
        (λ r. ok tt)
        library
        (entry_of sent_asset)
        shelf
        (remote_trash one_entry (λ r. ok tt) library (entry_of sent_asset) shelf).1
remote_trash-TrashSent_example =
    remote_trash-TrashSent one_entry (λ r. ok tt) library (entry_of sent_asset) shelf

remote_restore-RestoreSent_example :
    ((remote_restore one_entry (λ r. ok tt) library asset_id shelf).1 ≡ shelf)
    ⊎ RestoreSent one_entry
        (λ r. ok tt)
        library
        asset_id
        shelf
        (remote_restore one_entry (λ r. ok tt) library asset_id shelf).1
remote_restore-RestoreSent_example =
    remote_restore-RestoreSent one_entry (λ r. ok tt) library asset_id shelf

-- A replacement of the listed asset whose candidate the server has not named yet.
abbrev replacing_job : Manifest
replacing_job = record waiting {
  operation = replacement;
  old_asset_id = some asset_id;
  old_inode = some 5;
}

abbrev refreshed : RefreshHost
refreshed = record {
  by_id = λ id. some (entry_of sent_asset);
  base64_of_hex = λ sha1. some (codes "2jmj7l5rSw0yVb/vlWAYkK/YBwk=");
}

abbrev recognised : RefreshPolicy
recognised = record {
  assets = sent_asset ∷ [];
  left_out = [];
  recognised =
      record { owner_id = owner_id; size = 3; checksum = codes "2jmj7l5rSw0yVb/vlWAYkK/YBwk=" }
      ∷ [];
}

replacement_refresh_policy-Covered_example :
    Covered refreshed replacing_job
      (Returned refreshed recognised.assets)
      recognised.left_out
      recognised.recognised
      3
      (codes "da39a3ee5e6b4b0d3255bfef95601890afd80709")
unfolding replacement_refresh_policy policy_of assets_of add_jobs add_any add_sealed add_job
    current_source encoded place preserve sign ◌>>=◌ put remove
replacement_refresh_policy-Covered_example =
    replacement_refresh_policy-Covered refreshed replacing_job 3
      (codes "da39a3ee5e6b4b0d3255bfef95601890afd80709") (replacing_job ∷ []) recognised
      (Memᴰ.head refl) refl refl refl refl
