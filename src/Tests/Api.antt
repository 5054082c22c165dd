-- ===== src/Tests/Api.antt =====
-- `Asset.from_api` on a concrete object.
use immich_on_demand.Prelude.{ℤ, [], none, some, true, false, ◌≡◌, refl}
use immich_on_demand.Prelude.Text.{codes, ◌=ₜ◌}
use immich_on_demand.Prelude.Exec.{ok}
use immich_on_demand.Prelude.Fallible.{check, ◌>>=◌}
use immich_on_demand.Model.Asset.{Asset}
use immich_on_demand.Model.Api.{
  ApiHost, Fields, field, empty_object, text, boolean, from_api, string_of, as_text, boolean_of,
  as_boolean, lookup, is_uuid, exif_fields, as_size, timestamp_nanoseconds, moment_ns,
  optional_text, local_date, has_time, date_of, person_ids, ids_in,
}
use immich_on_demand.Model.Api.Parsed.{Parsed, from_api-Parsed}
use immich_on_demand.Tests.Host.{ascii, owner_id, asset_id}

abbrev api_host : ApiHost
api_host = record {
  unicode = ascii;
  parse_time = λ value. some (record {
    has_timezone = true;
    days = ℤ.pos 1;
    seconds = 2;
    microseconds = 3;
    date = codes "1970-01-02";
  });
}

abbrev small_object : Fields
small_object = field (codes "id") (text asset_id) (
    field (codes "ownerId") (text owner_id) (
      field (codes "fileCreatedAt") (text (codes "1970-01-02T00:00:02Z")) (
        field (codes "fileModifiedAt") (text (codes "1970-01-02T00:00:02Z")) (
          field (codes "updatedAt") (text (codes "1970-01-02T00:00:02Z")) (
            field (codes "originalFileName") (text (codes "photo.jpg")) (
              field (codes "originalMimeType") (text (codes "image/jpeg")) (
                field (codes "checksum") (text (codes "2jmj")) (
                  field (codes "visibility") (text (codes "timeline")) (
                    field (codes "isTrashed") (boolean false) (
                      field (codes "isOffline") (boolean false) (
                        field (codes "isFavorite") (boolean true) (
                          field (codes "localDateTime") (text (codes "1970-01-02T00:00:02"))
                            empty_object))))))))))))

abbrev small_asset : Asset
small_asset = record {
  id = asset_id;
  owner_id = owner_id;
  original_name = codes "photo.jpg";
  mime_type = codes "image/jpeg";
  size = none;
  created_ns = ℤ.pos 86402000003000;
  modified_ns = ℤ.pos 86402000003000;
  updated_at = codes "1970-01-02T00:00:02Z";
  checksum = codes "2jmj";
  visibility = codes "timeline";
  is_trashed = false;
  is_offline = false;
  library_id = none;
  local_date = some (codes "1970-01-02");
  is_favorite = true;
  person_ids = [];
  live_photo_video_id = none;
}

small_object_parses : from_api api_host small_object ≡ ok small_asset
unfolding from_api ◌>>=◌ check string_of as_text boolean_of as_boolean lookup is_uuid exif_fields
    as_size timestamp_nanoseconds moment_ns optional_text local_date has_time date_of person_ids
    ids_in ◌=ₜ◌
small_object_parses = refl

from_api-Parsed_example : Parsed api_host small_object small_asset
from_api-Parsed_example = from_api-Parsed api_host small_object small_asset small_object_parses
