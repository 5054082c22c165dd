-- ===== src/Prelude/Ascending.antt =====
-- `sorted(set(values))`: ascending, and with the same tests passed.
use immich_on_demand.Prelude.Lists.{all_of}
use immich_on_demand.Prelude.Text.{Text, ◌=ₜ◌, =ₜ_iff, text_lt, insert_text, sorted_set}
use mathlib.Core.Path.{◌≡◌, refl}
use mathlib.Core.Bool.{Bool, true, false, ◌&&◌}
use mathlib.Core.List.{List, [], ◌∷◌}
use native.Mathlib.Omega.{arith}

-- Each text stands before all that follow it, so none stands twice.
unfoldable pub IsAscending : List Text → Type 0
IsAscending [] = Unit
IsAscending (x ∷ xs) = (all_of (text_lt x) xs ≡ true) × IsAscending xs

text_lt_trans : (a b c : Text) → text_lt a b ≡ true → text_lt b c ≡ true → text_lt a c ≡ true
unfolding text_lt
text_lt_trans a [] c h k = absurd (ground arith)
text_lt_trans a (y ∷ ys) [] h k = absurd (ground arith)
text_lt_trans [] (y ∷ ys) (z ∷ zs) h k = refl
text_lt_trans (x ∷ xs) (y ∷ ys) (z ∷ zs) h k = ground (arith, text_lt_trans xs ys zs)

text_lt_total : (a b : Text) → text_lt a b ≡ false → (a =ₜ b) ≡ false → text_lt b a ≡ true
unfolding text_lt ◌=ₜ◌
text_lt_total [] [] h k = absurd cc
text_lt_total [] (y ∷ ys) h k = absurd cc
text_lt_total (x ∷ xs) [] h k = refl
text_lt_total (x ∷ xs) (y ∷ ys) h k = ground (arith, text_lt_total xs ys)

all_after :
    (a b : Text) (xs : List Text)
    → text_lt a b ≡ true
    → all_of (text_lt b) xs ≡ true
    → all_of (text_lt a) xs ≡ true
all_after a b [] h k = refl
all_after a b (x ∷ xs) h k = ground (arith, all_after a b xs h, text_lt_trans a b x h)

all-insert_text :
    (test : Text → Bool) (value : Text) (xs : List Text)
    → all_of test (insert_text value xs) ≡ (test value && all_of test xs)
unfolding insert_text
all-insert_text test value [] = ground arith
all-insert_text test value (x ∷ xs) = ground (arith, all-insert_text test value xs, =ₜ_iff value x)

insert_text-IsAscending :
    (value : Text) (xs : List Text) → IsAscending xs → IsAscending (insert_text value xs)
unfolding insert_text IsAscending
insert_text-IsAscending value [] s = (refl, tt)
insert_text-IsAscending value (x ∷ xs) s = ground (
  arith,
  all_after value x xs,
  insert_text-IsAscending value xs s.1,
  text_lt_total value x,
  all-insert_text (text_lt x) value xs,
)

pub sorted_set-IsAscending : (xs : List Text) → IsAscending (sorted_set xs)
unfolding sorted_set IsAscending
sorted_set-IsAscending [] = tt
sorted_set-IsAscending (x ∷ xs) =
    insert_text-IsAscending x (sorted_set xs) (sorted_set-IsAscending xs)

pub all-sorted_set :
    (test : Text → Bool) (xs : List Text) → all_of test (sorted_set xs) ≡ all_of test xs
unfolding sorted_set
all-sorted_set test [] = refl
all-sorted_set test (x ∷ xs) =
    ground (arith, all-insert_text test x (sorted_set xs), all-sorted_set test xs)
