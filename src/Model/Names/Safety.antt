-- ===== src/Model/Names/Safety.antt =====
-- What `safe_filename` and `collision_name` promise of the names that they make.
use immich_on_demand.Prelude.{
  ℕ, zero, suc, ◌-◌, ◌≤◌, ◌<◌, [], ◌∷◌, ◌++◌, Bool, true, false, ◌&&◌, ◌||◌, ◌≡◌, refl, arith, ltb,
  leb, ◌==◌, if◌then◌else◌, length, length-append, take, all_of, is_none, leb→le, ltb→lt,
  &&-eq-true, ◌⊎◌, inl, inr, Bool-cases,
}
use immich_on_demand.Prelude.Text.{Text}
use immich_on_demand.Prelude.Exec.{ok, err}
use immich_on_demand.Errors.{value_error}
use immich_on_demand.Model.Names.{
  Unicode, path_name, path_suffix, stem_of, or_asset_id, undot, portable_name, or_else, shorten,
  safe_filename, mark_name, mark_encodes, collision_name, collision_marker, clean,
}
use immich_on_demand.Model.Names.Utf8.{
  utf8_size, fit, truncate_utf8, encodes, truncates, utf8_size-append, truncate_utf8_bound,
  length-le-utf8_size,
}
use immich_on_demand.Model.Names.Chars.{
  AllSafe, starts_with_dot, is_name_char, undot_visible, AllSafe-append, AllSafe-take,
  AllSafe-truncate_utf8, AllSafe-clean, AllSafe-undot, AllSafe-path_suffix, AllSafe-if,
}

-- A name that the mount can show: no more bytes than the limit, not empty, not hidden, and free of
-- separators and control characters.
pub record IsSafeName (limit : ℕ) (name : Text) : Type 0 where
  pub nonempty : 0 < length name
  pub fits : utf8_size name ≤ limit
  pub visible : starts_with_dot name ≡ false
  pub safe : AllSafe name

-- A character of a canonical UUID.
unfoldable pub is_id_char : ℕ → Bool
is_id_char c = leb b'0' c && leb c b'9' || leb b'a' c && leb c b'f' || c == b'-'

-- An identifier of the server: not empty, and of the characters of a canonical UUID.
pub record IsId (asset_id : Text) : Type 0 where
  pub nonempty : 0 < length asset_id
  pub chars : all_of is_id_char asset_id ≡ true

is_id_char-is_name_char : (c : ℕ) → is_id_char c ≡ true → is_name_char c ≡ true
unfolding is_id_char is_name_char
is_id_char-is_name_char c h = ground arith

AllSafe-id : (xs : Text) → all_of is_id_char xs ≡ true → AllSafe xs
AllSafe-id [] h = tt
AllSafe-id (x ∷ xs) h = (is_id_char-is_name_char x (ground arith), AllSafe-id xs (ground arith))

id_visible : (xs : Text) → all_of is_id_char xs ≡ true → starts_with_dot xs ≡ false
unfolding starts_with_dot is_id_char
id_visible [] h = refl
id_visible (x ∷ xs) h = ground arith

-- A cut text is empty or begins as the text does.
truncate_visible :
    (xs : Text) (limit : ℕ)
    → starts_with_dot xs ≡ false
    → starts_with_dot (truncate_utf8 xs limit) ≡ false
unfolding truncate_utf8 starts_with_dot fit
truncate_visible [] limit h = ground arith
truncate_visible (x ∷ xs) limit h = ground arith

take_visible :
    (n : ℕ) (xs : Text) → starts_with_dot xs ≡ false → starts_with_dot (take n xs) ≡ false
unfolding starts_with_dot
take_visible zero xs h = refl
take_visible (suc n) [] h = refl
take_visible (suc n) (x ∷ xs) h = h

append_visible :
    (xs ys : Text) → 0 < length xs → starts_with_dot xs ≡ false → starts_with_dot (xs ++ ys) ≡ false
unfolding starts_with_dot
append_visible [] ys h k = absurd (omega arith)
append_visible (x ∷ xs) ys h k = k

-- An identifier begins with a character of one byte, so a positive limit leaves some of it.
truncate_id_nonempty :
    (xs : Text) (limit : ℕ) → IsId xs → 0 < limit → 0 < length (truncate_utf8 xs limit)
unfolding truncate_utf8 fit is_id_char
truncate_id_nonempty [] limit h k = absurd (ground (arith, h.nonempty))
truncate_id_nonempty (x ∷ xs) limit h k = ground (arith, h.chars)

undot_nonempty : (xs : Text) → 0 < length xs → 0 < length (undot xs)
unfolding undot
undot_nonempty [] h = h
undot_nonempty (x ∷ xs) h = omega arith

or_asset_id_nonempty :
    (name asset_id : Text) → 0 < length asset_id → 0 < length (or_asset_id name asset_id)
unfolding or_asset_id
or_asset_id_nonempty [] asset_id h = h
or_asset_id_nonempty (c ∷ cs) asset_id h = ground arith

or_else_nonempty : (xs ys : Text) → 0 < length ys → 0 < length (or_else xs ys)
unfolding or_else
or_else_nonempty [] ys h = h
or_else_nonempty (x ∷ xs) ys h = omega arith

or_else_visible :
    (xs ys : Text)
    → starts_with_dot xs ≡ false
    → starts_with_dot ys ≡ false
    → starts_with_dot (or_else xs ys) ≡ false
unfolding or_else
or_else_visible [] ys h k = k
or_else_visible (x ∷ xs) ys h k = h

AllSafe-or_else : (xs ys : Text) → AllSafe xs → AllSafe ys → AllSafe (or_else xs ys)
unfolding or_else
AllSafe-or_else [] ys h k = k
AllSafe-or_else (x ∷ xs) ys h k = h

or_else_bound :
    (limit : ℕ) (xs ys : Text)
    → utf8_size xs ≤ limit
    → utf8_size ys ≤ limit
    → utf8_size (or_else xs ys) ≤ limit
unfolding or_else
or_else_bound limit [] ys h k = k
or_else_bound limit (x ∷ xs) ys h k = h

AllSafe-or_asset_id :
    (name asset_id : Text) → AllSafe name → AllSafe asset_id → AllSafe (or_asset_id name asset_id)
unfolding or_asset_id
AllSafe-or_asset_id name asset_id h k = AllSafe-if _ _ _ k h

module _ (u : Unicode) (original asset_id : Text) (id : IsId asset_id) where
  portable_name_nonempty : 0 < length (portable_name u original asset_id)
  unfolding portable_name
  portable_name_nonempty =
      undot_nonempty _
        (or_asset_id_nonempty (clean (u.nfc (path_name original))) asset_id id.nonempty)

  portable_name_visible : starts_with_dot (portable_name u original asset_id) ≡ false
  unfolding portable_name
  portable_name_visible = undot_visible _

  AllSafe-portable_name : AllSafe (portable_name u original asset_id)
  unfolding portable_name
  AllSafe-portable_name = AllSafe-undot _ (
      AllSafe-or_asset_id _ asset_id (AllSafe-clean (u.nfc (path_name original)))
        (AllSafe-id asset_id id.chars))

IsSafeName-if :
    (limit : ℕ) (b : Bool) (x y : Text)
    → (b ≡ true → IsSafeName limit x)
    → (b ≡ false → IsSafeName limit y)
    → IsSafeName limit (if b then x else y)
IsSafeName-if limit true x y h k = h refl
IsSafeName-if limit false x y h k = k refl

-- A stem that the suffix leaves room for fits together with it.
cut_IsSafeName :
    (limit : ℕ) (suffix stem : Text)
    → AllSafe suffix
    → AllSafe stem
    → starts_with_dot stem ≡ false
    → utf8_size stem ≤ limit - utf8_size suffix
    → 0 < length stem
    → IsSafeName limit (stem ++ suffix)
cut_IsSafeName limit suffix stem hs ht v fits some_stem = record {
  nonempty = omega (arith, length-append stem suffix);
  fits = omega (arith, utf8_size-append stem suffix, length-le-utf8_size stem);
  visible = append_visible stem suffix some_stem v;
  safe = AllSafe-append stem suffix ht hs;
}

module _ (name asset_id : Text) (limit : ℕ) (id : IsId asset_id) (positive : 0 < limit)
    (visible : starts_with_dot name ≡ false) (safe : AllSafe name) where
  -- A name that is cut as a whole, or the cut identifier where nothing of it is left.
  whole_IsSafeName :
      IsSafeName limit (or_else (truncate_utf8 name limit) (truncate_utf8 asset_id limit))
  whole_IsSafeName = record {
    nonempty = or_else_nonempty _ _ (truncate_id_nonempty asset_id limit id positive);
    fits =
        or_else_bound limit _ _ (truncate_utf8_bound name limit)
          (truncate_utf8_bound asset_id limit);
    visible =
        or_else_visible _ _ (truncate_visible name limit visible)
          (truncate_visible asset_id limit (id_visible asset_id id.chars));
    safe =
        AllSafe-or_else _ _ (AllSafe-truncate_utf8 name limit safe)
          (AllSafe-truncate_utf8 asset_id limit (AllSafe-id asset_id id.chars));
  }

  cut_or_whole :
      (suffix stem : Text)
      → AllSafe suffix
      → AllSafe stem
      → starts_with_dot stem ≡ false
      → utf8_size stem ≤ limit - utf8_size suffix
      → IsSafeName limit (
          if ltb 0 (length suffix) && ltb 0 (length stem)
          then stem ++ suffix
          else or_else (truncate_utf8 name limit) (truncate_utf8 asset_id limit))
  cut_or_whole suffix stem hs ht v fits =
      IsSafeName-if limit (ltb 0 (length suffix) && ltb 0 (length stem)) _ _
        (λ h.
          cut_IsSafeName limit suffix stem hs ht v fits
            (ltb→lt 0 _ (&&-eq-true (ltb 0 (length suffix)) (ltb 0 (length stem)) h).1))
        (λ _. whole_IsSafeName)

  shorten-IsSafeName : 0 < length name → IsSafeName limit (shorten name asset_id limit)
  unfolding shorten stem_of
  shorten-IsSafeName nonempty =
      let stem = take (length name - length (path_suffix name)) name in
      IsSafeName-if limit (leb (utf8_size name) limit) _ _
        (λ h. record { nonempty = nonempty; fits = leb→le _ _ h; visible = visible; safe = safe })
        (λ _.
          cut_or_whole (path_suffix name)
            (truncate_utf8 stem (limit - utf8_size (path_suffix name)))
            (AllSafe-path_suffix name safe)
            (AllSafe-truncate_utf8 stem _ (AllSafe-take _ name safe))
            (truncate_visible stem _ (take_visible _ name visible)) (truncate_utf8_bound stem _))

-- For an identifier that the server gives and a positive limit, `safe_filename` either returns a name
-- of at most `limit` bytes in UTF-8 that is not empty, does not begin with a dot, and holds no
-- separator and no control character; or it raises ValueError, and that only for an original whose
-- last path component, made portable, holds a surrogate, so that it cannot be encoded.
pub safe_filename-IsSafeName :
    (u : Unicode) (original asset_id : Text) (limit : ℕ)
    → IsId asset_id
    → is_none (u.uuid asset_id) ≡ false
    → 0 < limit
    → ((name : Text) × (safe_filename u original asset_id limit ≡ ok name) × IsSafeName limit name)
      ⊎ ((safe_filename u original asset_id limit ≡ err value_error)
          × (encodes (portable_name u original asset_id) ≡ false))
unfolding safe_filename
safe_filename-IsSafeName u original asset_id limit id known positive =
    elim (Bool-cases (encodes (portable_name u original asset_id))) [
      | inr e ↦ inr (ground arith, e)
      | inl e ↦ inl (
        shorten (portable_name u original asset_id) asset_id limit,
        ground arith,
        shorten-IsSafeName _ asset_id limit id positive
            (portable_name_visible u original asset_id id)
            (AllSafe-portable_name u original asset_id id)
            (portable_name_nonempty u original asset_id id),
      )
    ]

mark_name_bound : (name marker : Text) (limit : ℕ) → utf8_size (mark_name name marker limit) ≤ limit
unfolding mark_name
mark_name_bound name marker limit = ground (
  arith,
  truncate_utf8_bound marker limit,
  truncate_utf8_bound (stem_of name (path_suffix name))
      (limit - utf8_size marker - utf8_size (path_suffix name)),
  truncate_utf8_bound (stem_of name (path_suffix name)) (limit - utf8_size marker),
  utf8_size-append marker (path_suffix name),
  utf8_size-append (truncate_utf8 (stem_of name (path_suffix name)) (limit - utf8_size marker))
      marker,
  utf8_size-append
      (truncate_utf8 (stem_of name (path_suffix name))
        (limit - utf8_size marker - utf8_size (path_suffix name)))
      (marker ++ path_suffix name),
)

mark_fails :
    (name marker : Text) (limit : ℕ)
    → mark_encodes name marker limit ≡ false
    → (encodes (path_suffix name) && encodes (stem_of name (path_suffix name))) ≡ false
unfolding mark_encodes truncates
mark_fails name marker limit e = ground arith

-- For an identifier that the UUID parser accepts, a positive limit and a positive ordinal,
-- `collision_name` either returns a name of at most `limit` bytes in UTF-8, also where the marker alone
-- or the suffix alone would pass the limit; or it raises ValueError, and that only if the name's suffix
-- or the rest of it holds a surrogate, so that it cannot be encoded.
pub collision_name_bound :
    (u : Unicode) (name asset_id : Text) (limit ordinal : ℕ)
    → is_none (u.uuid asset_id) ≡ false
    → 0 < limit
    → 0 < ordinal
    → ((result : Text) × (collision_name u name asset_id limit ordinal ≡ ok result)
        × (utf8_size result ≤ limit))
      ⊎ ((collision_name u name asset_id limit ordinal ≡ err value_error)
          × ((encodes (path_suffix name) && encodes (stem_of name (path_suffix name))) ≡ false))
unfolding collision_name
collision_name_bound u name asset_id limit ordinal known positive counted =
    elim (Bool-cases (mark_encodes name (collision_marker asset_id ordinal) limit)) [
      | inr e ↦ inr (ground (arith, e), mark_fails name (collision_marker asset_id ordinal) limit e)
      | inl e ↦ inl (
        mark_name name (collision_marker asset_id ordinal) limit,
        ground (arith, e),
        mark_name_bound name (collision_marker asset_id ordinal) limit,
      )
    ]
