-- ===== src/Model/Api.antt =====
-- `Asset.from_api` of src/immich_on_demand/model.py: an asset from the server's decoded JSON, and the
-- checks of its fields.
pub mod Parsed
use immich_on_demand.Prelude.{
  ℕ, suc, ℤ, ◌+◌, ◌-◌, ◌*◌, List, [], ◌∷◌, Option, none, some, Bool, true, false, ◌&&◌, ◌||◌, not,
  leb, ◌==◌, if◌then◌else◌, is_some, all_of,
}
use immich_on_demand.Prelude.Text.{Text, codes, ◌=ₜ◌, sorted_set}
use immich_on_demand.Prelude.Exec.{Result, ok, err}
use immich_on_demand.Prelude.Fallible.{check, ◌>>=◌, ◌>>◌}
use immich_on_demand.Errors.{Exception, Fallible, value_error}
use immich_on_demand.Model.Names.{Unicode}
use immich_on_demand.Model.Asset.{Asset}

-- A value of decoded JSON; `real` is a number with a fraction, which no field of an asset may hold.
mutual
  pub data Json : Type 0 where
    null real : Json
    boolean : Bool → Json
    integer : ℤ → Json
    text : Text → Json
    array : Items → Json
    object : Fields → Json

  pub data Items : Type 0 where
    empty_array : Items
    item : Json → Items → Items

  pub data Fields : Type 0 where
    empty_object : Fields
    field : Text → Json → Fields → Fields

-- `value.get(name)`, with `none` for a missing field.
unfoldable pub lookup : Fields → Text → Option Json
lookup empty_object name = none
lookup (field key value fields) name =
    let rest = lookup fields name in if key =ₜ name then some value else rest

-- What `datetime.fromisoformat(value.replace("Z", "+00:00"))` gives: the time since 1970 in UTC if there is a time zone, and the
-- date as written.
pub record Moment : Type 0 where
  pub has_timezone : Bool
  pub days : ℤ
  pub seconds : ℕ
  pub microseconds : ℕ
  pub date : Text

-- The standard library: `uuid.UUID` and `datetime.fromisoformat`, with `none` for ValueError.
pub record ApiHost : Type 0 where
  pub unicode : Unicode
  pub parse_time : Text → Option Moment

-- `a - b` of two natural numbers
unfoldable pub difference : ℕ → ℕ → ℤ
difference a b = if leb b a then ℤ.pos (a - b) else ℤ.negsuc (b - suc a)

unfoldable pub days_and_rest : ℤ → ℕ → ℤ
unfolding difference
days_and_rest (ℤ.pos days) rest = ℤ.pos (days * 86400000000000 + rest)
days_and_rest (ℤ.negsuc days) rest = difference rest (suc days * 86400000000000)

unfoldable pub moment_ns : Option Moment → Fallible ℤ
unfolding days_and_rest
moment_ns none = err value_error
moment_ns (some m) =
    if m.has_timezone
    then ok (days_and_rest m.days ((m.seconds * 1000000 + m.microseconds) * 1000))
    else err value_error

-- `timestamp_nanoseconds`
unfoldable pub timestamp_nanoseconds : ApiHost → Text → Fallible ℤ
timestamp_nanoseconds h value = moment_ns (h.parse_time value)

unfoldable pub as_text : Option Json → Fallible Text
as_text (some (text value)) = ok value
as_text _ = err value_error

-- `_string`
unfoldable pub string_of : Fields → Text → Fallible Text
string_of value name = as_text (lookup value name)

unfoldable pub as_boolean : Option Json → Fallible Bool
as_boolean (some (boolean value)) = ok value
as_boolean _ = err value_error

-- `_boolean`
unfoldable pub boolean_of : Fields → Text → Fallible Bool
boolean_of value name = as_boolean (lookup value name)

unfoldable pub date_of : Option Moment → Fallible Text
date_of none = err value_error
date_of (some m) = ok m.date

-- `"T" in timestamp`
unfoldable pub has_time : Text → Bool
has_time timestamp = not (all_of (λ c. not (c == b'T')) timestamp)

-- `_local_date`
unfoldable pub local_date : ApiHost → Fields → Fallible Text
local_date h value = do
  timestamp ← string_of value (codes "localDateTime")
  check (has_time timestamp) value_error
  date_of (h.parse_time timestamp)

-- `str(UUID(value))` is the value itself.
unfoldable pub is_canonical : ApiHost → Text → Bool
is_canonical h value = elim (h.unicode.uuid value) [
  | none ↦ false
  | some canonical ↦ canonical =ₜ value
]

unfoldable pub person_id : ApiHost → Json → Fallible Text
person_id h (object person) = do
  id ← string_of person (codes "id")
  check (is_canonical h id) value_error
  ok id
person_id h _ = err value_error

-- The loop of `_person_ids`
unfoldable pub collect_ids : ApiHost → Items → Fallible (List Text)
collect_ids h empty_array = ok []
collect_ids h (item person people) = do
  id ← person_id h person
  ids ← collect_ids h people
  ok (id ∷ ids)

unfoldable pub ids_in : ApiHost → Option Json → Fallible (List Text)
ids_in h none = ok []
ids_in h (some (array people)) = do ids ← collect_ids h people; ok (sorted_set ids)
ids_in h (some _) = err value_error

-- `_person_ids`
unfoldable pub person_ids : ApiHost → Fields → Fallible (List Text)
person_ids h value = ids_in h (lookup value (codes "people"))

unfoldable pub exif_fields : Option Json → Fallible Fields
exif_fields none = ok empty_object
exif_fields (some null) = ok empty_object
exif_fields (some (object fields)) = ok fields
exif_fields (some _) = err value_error

unfoldable pub as_size : Option Json → Fallible (Option ℕ)
as_size none = ok none
as_size (some null) = ok none
as_size (some (integer (ℤ.pos size))) = ok (some size)
as_size (some _) = err value_error

-- A text or None, with a test on the text.
unfoldable pub optional_text : (Text → Bool) → Option Json → Fallible (Option Text)
optional_text test none = ok none
optional_text test (some null) = ok none
optional_text test (some (text value)) = if test value then ok (some value) else err value_error
optional_text test (some _) = err value_error

-- `UUID(value)` does not raise.
unfoldable pub is_uuid : ApiHost → Text → Bool
is_uuid h value = is_some (h.unicode.uuid value)

-- `Asset.from_api`
unfoldable pub from_api : ApiHost → Fields → Fallible Asset
from_api h value = do
  asset_id ← string_of value (codes "id")
  owner_id ← string_of value (codes "ownerId")
  check (is_uuid h asset_id) value_error
  check (is_uuid h owner_id) value_error
  exif ← exif_fields (lookup value (codes "exifInfo"))
  size ← as_size (lookup exif (codes "fileSizeInByte"))
  created_at ← string_of value (codes "fileCreatedAt")
  modified_at ← string_of value (codes "fileModifiedAt")
  updated_at ← string_of value (codes "updatedAt")
  updated_ns ← timestamp_nanoseconds h updated_at
  library_id ← optional_text (is_uuid h) (lookup value (codes "libraryId"))
  live_photo_video_id ←
      optional_text (λ id. is_canonical h id && not (id =ₜ asset_id))
        (lookup value (codes "livePhotoVideoId"))
  original_name ← string_of value (codes "originalFileName")
  mime_type ← string_of value (codes "originalMimeType")
  created_ns ← timestamp_nanoseconds h created_at
  modified_ns ← timestamp_nanoseconds h modified_at
  checksum ← string_of value (codes "checksum")
  visibility ← string_of value (codes "visibility")
  is_trashed ← boolean_of value (codes "isTrashed")
  is_offline ← boolean_of value (codes "isOffline")
  date ← local_date h value
  is_favorite ← boolean_of value (codes "isFavorite")
  people ← person_ids h value
  ok (record {
    id = asset_id;
    owner_id = owner_id;
    original_name = original_name;
    mime_type = mime_type;
    size = size;
    created_ns = created_ns;
    modified_ns = modified_ns;
    updated_at = updated_at;
    checksum = checksum;
    visibility = visibility;
    is_trashed = is_trashed;
    is_offline = is_offline;
    library_id = library_id;
    local_date = some date;
    is_favorite = is_favorite;
    person_ids = people;
    live_photo_video_id = live_photo_video_id;
  })
