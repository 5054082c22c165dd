-- ===== src/Prelude/Text.antt =====
-- Text as its list of code points, and the comparison of two texts.
use Prim.Native.Char.{code}
use Prim.Native.String.{String}
use mathlib.Core.List.{List, [], ◌∷◌}
use mathlib.Core.Path.{◌≡◌, refl}
use mathlib.Core.Logic.{◌↔◌}
use mathlib.Core.Bool.{Bool, true, false, ◌&&◌}
use Prim.Native.Nat.{ℕ}
use native.Mathlib.Omega.{arith}
use immich_on_demand.Prelude.Tests.{ltb, ◌==◌, if◌then◌else◌}

abbrev pub Text : Type 0
Text = List ℕ

abbrev pub codes : String → Text
codes String.[] = []
codes (String.◌∷◌ c s) = code c ∷ codes s

infix 50 ◌=ₜ◌
-- `a == b`
unfoldable pub ◌=ₜ◌ : Text → Text → Bool
[] =ₜ [] = true
[] =ₜ (y ∷ ys) = false
(x ∷ xs) =ₜ [] = false
(x ∷ xs) =ₜ (y ∷ ys) = x == y && xs =ₜ ys

pub =ₜ-refl : (a : Text) → (a =ₜ a) ≡ true
unfolding ◌=ₜ◌
=ₜ-refl [] = refl
=ₜ-refl (x ∷ xs) = ground (arith, =ₜ-refl xs)

pub =ₜ→eq : (a b : Text) → (a =ₜ b) ≡ true → a ≡ b
unfolding ◌=ₜ◌
=ₜ→eq [] [] h = refl
=ₜ→eq [] (y ∷ ys) h = cc
=ₜ→eq (x ∷ xs) [] h = cc
=ₜ→eq (x ∷ xs) (y ∷ ys) h = ground (arith, =ₜ→eq xs ys)

pub =ₜ_iff : (a b : Text) → ((a =ₜ b) ≡ true) ↔ (a ≡ b)
=ₜ_iff a b = (=ₜ→eq a b, λ e. rw e (=ₜ-refl b))

-- `a < b`, by code points
unfoldable pub text_lt : Text → Text → Bool
text_lt a [] = false
text_lt [] (y ∷ ys) = true
text_lt (x ∷ xs) (y ∷ ys) =
    let later = text_lt xs ys in if ltb x y then true else if x == y then later else false

-- `a == b` on tuples of texts
unfoldable pub same_texts : List Text → List Text → Bool
same_texts [] [] = true
same_texts (x ∷ xs) (y ∷ ys) = x =ₜ y && same_texts xs ys
same_texts _ _ = false

pub same_texts→eq : (xs ys : List Text) → same_texts xs ys ≡ true → xs ≡ ys
unfolding same_texts
same_texts→eq [] [] h = refl
same_texts→eq [] (y ∷ ys) h = absurd cc
same_texts→eq (x ∷ xs) [] h = absurd cc
same_texts→eq (x ∷ xs) (y ∷ ys) h = ground (arith, same_texts→eq xs ys, =ₜ→eq x y)

-- One text put into a sorted list, and `sorted(values)`.
insert_sorted : Text → List Text → List Text
insert_sorted value [] = value ∷ []
insert_sorted value (x ∷ xs) =
    let rest = insert_sorted value xs in if text_lt x value then x ∷ rest else value ∷ x ∷ xs

unfoldable pub sort_texts : List Text → List Text
unfolding insert_sorted
sort_texts [] = []
sort_texts (x ∷ xs) = insert_sorted x (sort_texts xs)

-- One text put into a list that `sorted(set(…))` has made.
unfoldable pub insert_text : Text → List Text → List Text
insert_text value [] = value ∷ []
insert_text value (x ∷ xs) =
    let rest = insert_text value xs in
    if value =ₜ x then x ∷ xs else if text_lt value x then value ∷ x ∷ xs else x ∷ rest

-- `sorted(set(values))`
unfoldable pub sorted_set : List Text → List Text
unfolding insert_text
sorted_set [] = []
sorted_set (x ∷ xs) = insert_text x (sorted_set xs)
