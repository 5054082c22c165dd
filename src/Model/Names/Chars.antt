-- ===== src/Model/Names/Chars.antt =====
-- The characters of the names that src/immich_on_demand/model.py makes: which may stand in a name,
-- and that each step of `safe_filename` keeps to them.
use immich_on_demand.Prelude.{
  ℕ, zero, suc, ◌-◌, [], ◌∷◌, ◌++◌, Bool, true, false, not, ◌&&◌, Option, none, some, ◌≡◌, refl,
  arith, ltb, leb, ◌==◌, if◌then◌else◌, length, take,
}
use immich_on_demand.Prelude.Text.{Text}
use immich_on_demand.Model.Names.{
  settle, path_name_from, path_name, last_dot_from, suffix_from, path_suffix, is_control,
  clean_char, clean, undot,
}
use immich_on_demand.Model.Names.Utf8.{char_size, utf8_size, fit, truncate_utf8}

-- A character that a name may hold.
unfoldable pub is_name_char : ℕ → Bool
unfolding is_control
is_name_char c = not (is_control c) && not (c == b'/')

abbrev pub AllSafe : Text → Type 0
AllSafe [] = Unit
AllSafe (c ∷ cs) = (is_name_char c ≡ true) × AllSafe cs

unfoldable pub starts_with_dot : Text → Bool
starts_with_dot [] = false
starts_with_dot (c ∷ cs) = c == b'.'

pub AllSafe-append : (xs ys : Text) → AllSafe xs → AllSafe ys → AllSafe (xs ++ ys)
AllSafe-append [] ys h k = k
AllSafe-append (x ∷ xs) ys h k = (h.0, AllSafe-append xs ys h.1 k)

pub AllSafe-take : (n : ℕ) (xs : Text) → AllSafe xs → AllSafe (take n xs)
AllSafe-take zero xs h = tt
AllSafe-take (suc n) [] h = tt
AllSafe-take (suc n) (x ∷ xs) h = (h.0, AllSafe-take n xs h.1)

pub AllSafe-if : (b : Bool) (x y : Text) → AllSafe x → AllSafe y → AllSafe (if b then x else y)
AllSafe-if true x y h k = h
AllSafe-if false x y h k = k

AllSafe-fit : (limit : ℕ) (xs : Text) → AllSafe xs → AllSafe (fit limit xs)
unfolding fit
AllSafe-fit limit [] h = tt
AllSafe-fit limit (x ∷ xs) h =
    AllSafe-if (leb (char_size x) limit) _ _ (h.0, AllSafe-fit (limit - char_size x) xs h.1) tt

pub AllSafe-truncate_utf8 : (xs : Text) (limit : ℕ) → AllSafe xs → AllSafe (truncate_utf8 xs limit)
unfolding truncate_utf8
AllSafe-truncate_utf8 xs limit h =
    AllSafe-if (limit == 0) _ _ tt
      (AllSafe-if (leb (utf8_size xs) limit) _ _ h (AllSafe-fit limit xs h))

clean_char_safe : (c : ℕ) → is_name_char (clean_char c) ≡ true
unfolding is_name_char clean_char
clean_char_safe c = ground arith

pub AllSafe-clean : (xs : Text) → AllSafe (clean xs)
unfolding clean
AllSafe-clean [] = tt
AllSafe-clean (x ∷ xs) = (clean_char_safe x, AllSafe-clean xs)

pub AllSafe-undot : (xs : Text) → AllSafe xs → AllSafe (undot xs)
unfolding undot is_name_char
AllSafe-undot [] h = tt
AllSafe-undot (x ∷ xs) h = (ground arith, h.1)

pub undot_visible : (xs : Text) → starts_with_dot (undot xs) ≡ false
unfolding undot starts_with_dot
undot_visible [] = refl
undot_visible (x ∷ xs) = ground arith

AllSafe-settle : (best part : Text) → AllSafe best → AllSafe part → AllSafe (settle best part)
unfolding settle
AllSafe-settle best part h k = AllSafe-if _ _ _ h k

AllSafe-path_name_from :
    (best part xs : Text)
    → AllSafe best
    → AllSafe part
    → AllSafe xs
    → AllSafe (path_name_from best part xs)
unfolding path_name_from
AllSafe-path_name_from best part [] h k l = AllSafe-settle best part h k
AllSafe-path_name_from best part (c ∷ cs) h k l =
    AllSafe-path_name_from (if c == b'/' then settle best part else best)
      (if c == b'/' then [] else part ++ c ∷ []) cs
      (AllSafe-if (c == b'/') _ _ (AllSafe-settle best part h k) h)
      (AllSafe-if (c == b'/') _ _ tt (AllSafe-append part (c ∷ []) k (l.0, tt))) l.1

abbrev SafeOption : Option Text → Type 0
SafeOption none = Unit
SafeOption (some xs) = AllSafe xs

SafeOption-if :
    (b : Bool) (x y : Option Text) → SafeOption x → SafeOption y → SafeOption (if b then x else y)
SafeOption-if true x y h k = h
SafeOption-if false x y h k = k

SafeOption-last_dot_from :
    (found : Option Text) (xs : Text)
    → SafeOption found
    → AllSafe xs
    → SafeOption (last_dot_from found xs)
unfolding last_dot_from
SafeOption-last_dot_from found [] h k = h
SafeOption-last_dot_from found (c ∷ cs) h k =
    SafeOption-last_dot_from (if c == b'.' then some (c ∷ cs) else found) cs
      (SafeOption-if (c == b'.') _ _ k h) k.1

AllSafe-suffix_from :
    (name : Text) (found : Option Text) → SafeOption found → AllSafe (suffix_from name found)
unfolding suffix_from
AllSafe-suffix_from name none h = tt
AllSafe-suffix_from name (some tail) h =
    AllSafe-if (ltb 1 (length tail) && ltb (length tail) (length name)) tail [] h tt

pub AllSafe-path_suffix : (name : Text) → AllSafe name → AllSafe (path_suffix name)
unfolding path_suffix
AllSafe-path_suffix name h = AllSafe-suffix_from (path_name name) _ (
    SafeOption-last_dot_from none (path_name name) tt
      (unfold path_name in AllSafe-path_name_from [] [] name tt tt h))
