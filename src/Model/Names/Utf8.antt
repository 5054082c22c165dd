-- ===== src/Model/Names/Utf8.antt =====
-- Encodings in UTF-8, and `_truncate_utf8` of src/immich_on_demand/model.py. A text is a list of code
-- points. `str.encode` raises UnicodeEncodeError for one that holds a surrogate; the encoding of any
-- other has one to four bytes for each code point.
use immich_on_demand.Prelude.{
  ℕ, ◌+◌, ◌-◌, ◌≤◌, [], ◌∷◌, ◌++◌, ◌≡◌, arith, ltb, leb, ◌==◌, if◌then◌else◌, length, all_of, ◌||◌,
  Bool,
}
use immich_on_demand.Prelude.Text.{Text}

pub char_size : ℕ → ℕ
char_size c = if ltb c 128 then 1 else if ltb c 2048 then 2 else if ltb c 65536 then 3 else 4

-- A code point that is no surrogate.
abbrev pub is_scalar : ℕ → Bool
is_scalar c = ltb c 0xD800 || ltb 0xDFFF c

-- Whether `value.encode("utf-8")` returns.
unfoldable pub encodes : Text → Bool
encodes value = all_of is_scalar value

-- `len(value.encode("utf-8"))` of a text that can be encoded.
unfoldable pub utf8_size : Text → ℕ
unfolding char_size
utf8_size [] = 0
utf8_size (c ∷ cs) = char_size c + utf8_size cs

-- The characters that lie whole within the first `limit` bytes: what decoding a cut encoding with
-- `errors="ignore"` leaves.
unfoldable pub fit : ℕ → Text → Text
unfolding char_size
fit limit [] = []
fit limit (c ∷ cs) = if leb (char_size c) limit then c ∷ fit (limit - char_size c) cs else []

-- `_truncate_utf8` where it returns. A limit below zero acts as zero, so the truncated subtraction of
-- the callers is exact.
unfoldable pub truncate_utf8 : Text → ℕ → Text
unfolding fit utf8_size
truncate_utf8 value limit =
    if limit == 0 then [] else if leb (utf8_size value) limit then value else fit limit value

-- Whether `_truncate_utf8` returns: below a positive limit nothing is encoded.
unfoldable pub truncates : Text → ℕ → Bool
unfolding encodes
truncates value limit = limit == 0 || encodes value

pub utf8_size-append : (xs ys : Text) → utf8_size (xs ++ ys) ≡ utf8_size xs + utf8_size ys
unfolding utf8_size
utf8_size-append [] ys = omega arith
utf8_size-append (x ∷ xs) ys = omega (arith, utf8_size-append xs ys)

fit_bound : (limit : ℕ) (value : Text) → utf8_size (fit limit value) ≤ limit
unfolding fit utf8_size
fit_bound limit [] = omega arith
fit_bound limit (c ∷ cs) = ground (arith, fit_bound (limit - char_size c) cs)

pub truncate_utf8_bound : (value : Text) (limit : ℕ) → utf8_size (truncate_utf8 value limit) ≤ limit
unfolding truncate_utf8
truncate_utf8_bound value limit = ground (arith, fit_bound limit value)

pub length-le-utf8_size : (xs : Text) → length xs ≤ utf8_size xs
unfolding utf8_size
length-le-utf8_size [] = omega arith
length-le-utf8_size (x ∷ xs) = ground (arith, length-le-utf8_size xs)
