-- ===== src/Model/Names.antt =====
-- The file names of src/immich_on_demand/model.py: `_truncate_utf8`, `safe_filename` and
-- `collision_name`. `unicodedata.normalize` and `uuid.UUID` are arguments.
pub mod Utf8
mod Chars
pub mod Safety
use immich_on_demand.Prelude.{
  ℕ, zero, suc, ◌+◌, ◌-◌, ◌/◌, ◌%◌, [], ◌∷◌, ◌++◌, Bool, true, ◌&&◌, ◌||◌, Option, none, some, ltb,
  leb, ◌==◌, if◌then◌else◌, is_none, length, take,
}
use immich_on_demand.Prelude.Text.{Text, codes, ◌=ₜ◌}
use immich_on_demand.Prelude.Exec.{ok, err}
use immich_on_demand.Errors.{Fallible, value_error}
use Utf8.{utf8_size, truncate_utf8, encodes, truncates}

-- What the standard library decides: the NFC form of a text, and `str(UUID(value))`, with `none`
-- where the constructor raises ValueError.
pub record Unicode : Type 0 where
  pub nfc : Text → Text
  pub uuid : Text → Option Text

-- The last component of a POSIX path, empty components and "." left out. `best` is the last
-- component that was complete, `part` the current one, read so far.
settle : Text → Text → Text
settle best part = if part =ₜ [] || part =ₜ codes "." then best else part

path_name_from : Text → Text → Text → Text
path_name_from best part [] = settle best part
path_name_from best part (c ∷ cs) =
    path_name_from (if c == b'/' then settle best part else best)
      (if c == b'/' then [] else part ++ c ∷ []) cs

-- `PurePath(value).name`
unfoldable pub path_name : Text → Text
unfolding path_name_from settle ◌=ₜ◌
path_name value = path_name_from [] [] value

-- The part from the last dot on, with `found` the last one seen so far.
last_dot_from : Option Text → Text → Option Text
last_dot_from found [] = found
last_dot_from found (c ∷ cs) = last_dot_from (if c == b'.' then some (c ∷ cs) else found) cs

-- A suffix begins at a dot that is neither the first nor the last character.
suffix_from : Text → Option Text → Text
suffix_from name none = []
suffix_from name (some tail) =
    if ltb 1 (length tail) && ltb (length tail) (length name) then tail else []

suffix_of_name : Text → Text
unfolding last_dot_from suffix_from
suffix_of_name name = suffix_from name (last_dot_from none name)

-- `PurePath(value).suffix`
unfoldable pub path_suffix : Text → Text
unfolding suffix_of_name path_name
path_suffix value = suffix_of_name (path_name value)

-- `name[: -len(suffix)] if suffix else name`
unfoldable pub stem_of : Text → Text → Text
stem_of name suffix = take (length name - length suffix) name

-- the regular expression `[\x00-\x1f\x7f]`
unfoldable pub is_control : ℕ → Bool
is_control c = leb c 31 || c == 127

unfoldable pub clean_char : ℕ → ℕ
unfolding is_control
clean_char c = if is_control c || c == b'/' then b'_' else c

-- `_CONTROL.sub("_", name).replace("/", "_")`
unfoldable pub clean : Text → Text
unfolding clean_char
clean [] = []
clean (c ∷ cs) = clean_char c ∷ clean cs

-- `if name in {"", ".", ".."}: name = asset_id`
unfoldable pub or_asset_id : Text → Text → Text
unfolding ◌=ₜ◌
or_asset_id name asset_id =
    if name =ₜ [] || name =ₜ codes "." || name =ₜ codes ".." then asset_id else name

-- `if name.startswith("."): name = f"_{name[1:]}"`
unfoldable pub undot : Text → Text
undot [] = []
undot (c ∷ cs) = (if c == b'.' then b'_' else c) ∷ cs

-- The name before it is cut to the limit.
unfoldable pub portable_name : Unicode → Text → Text → Text
unfolding undot or_asset_id clean path_name
portable_name u original asset_id =
    undot (or_asset_id (clean (u.nfc (path_name original))) asset_id)

-- `value or other`
unfoldable pub or_else : Text → Text → Text
or_else [] other = other
or_else (c ∷ cs) other = c ∷ cs

-- The last part of `safe_filename`: cut the stem and keep the suffix if that leaves some of the stem.
unfoldable pub shorten : Text → Text → ℕ → Text
unfolding or_else path_suffix stem_of truncate_utf8
shorten name asset_id limit =
    let suffix = path_suffix name in
    let stem = truncate_utf8 (stem_of name suffix) (limit - utf8_size suffix) in
    let whole = or_else (truncate_utf8 name limit) (truncate_utf8 asset_id limit) in
    if leb (utf8_size name) limit
    then name
    else if ltb 0 (length suffix) && ltb 0 (length stem)
    then stem ++ suffix
    else whole

-- `name.encode` raises UnicodeEncodeError, a ValueError, for a surrogate; what is encoded after it is
-- part of the name, or the characters of an identifier.
unfoldable pub safe_filename : Unicode → Text → Text → ℕ → Fallible Text
unfolding shorten portable_name encodes
safe_filename u original asset_id limit =
    if is_none (u.uuid asset_id)
    then err value_error
    else if limit == 0
    then err value_error
    else (let name = portable_name u original asset_id in
        if encodes name then ok (shorten name asset_id limit) else err value_error)

-- The decimal digits of a number, last digit last; `n` rounds are enough, as each divides by ten.
decimal_from : ℕ → ℕ → Text
decimal_from zero n = (48 + n % 10) ∷ []
decimal_from (suc fuel) n =
    let more = decimal_from fuel (n / 10) ++ (48 + n % 10) ∷ [] in
    if ltb n 10 then (48 + n) ∷ [] else more

-- `f"{n}"`
unfoldable pub decimal : ℕ → Text
unfolding decimal_from
decimal n = decimal_from n n

-- `f"__{asset_id}" if ordinal == 1 else f"__{asset_id}__{ordinal}"`
unfoldable pub collision_marker : Text → ℕ → Text
unfolding decimal
collision_marker asset_id ordinal =
    if ordinal == 1
    then codes "__" ++ asset_id
    else codes "__" ++ (asset_id ++ (codes "__" ++ decimal ordinal))

-- The name with the marker before its suffix, the stem cut to the limit.
unfoldable pub mark_name : Text → Text → ℕ → Text
unfolding path_suffix stem_of truncate_utf8
mark_name name marker limit =
    let suffix = path_suffix name in
    let stem = stem_of name suffix in
    if leb limit (utf8_size marker)
    then truncate_utf8 marker limit
    else if ltb 0 (length suffix) && leb (utf8_size marker + utf8_size suffix) limit
    then truncate_utf8 stem (limit - utf8_size marker - utf8_size suffix) ++ (marker ++ suffix)
    else truncate_utf8 stem (limit - utf8_size marker) ++ marker

-- Whether the texts that `collision_name` encodes can be: the suffix, and the stem if some room is left.
unfoldable pub mark_encodes : Text → Text → ℕ → Bool
unfolding path_suffix stem_of encodes truncates
mark_encodes name marker limit =
    let suffix = path_suffix name in
    let stem = stem_of name suffix in
    if leb limit (utf8_size marker)
    then true
    else encodes suffix
      && (if ltb 0 (length suffix) && leb (utf8_size marker + utf8_size suffix) limit
          then truncates stem (limit - utf8_size marker - utf8_size suffix)
          else truncates stem (limit - utf8_size marker))

unfoldable pub collision_name : Unicode → Text → Text → ℕ → ℕ → Fallible Text
unfolding mark_name mark_encodes collision_marker
collision_name u name asset_id limit ordinal =
    if is_none (u.uuid asset_id)
    then err value_error
    else if limit == 0
    then err value_error
    else if ordinal == 0
    then err value_error
    else (let marker = collision_marker asset_id ordinal in
        if mark_encodes name marker limit
        then ok (mark_name name marker limit)
        else err value_error)
