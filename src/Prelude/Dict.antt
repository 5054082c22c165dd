-- ===== src/Prelude/Dict.antt =====
-- Python's `dict` and a directory's entries, with texts for keys, and `set` of texts. The order of
-- the entries is not the program's: it sorts what it lists.
use immich_on_demand.Prelude.Tests.{if◌then◌else◌}
use immich_on_demand.Prelude.Text.{Text, ◌=ₜ◌, =ₜ_iff}
use mathlib.Core.Path.{◌≡◌}
use mathlib.Core.Bool.{Bool, false, ◌||◌, ◌&&◌, not}
use mathlib.Core.Option.{Option, none, some}
use mathlib.Core.List.{List, [], ◌∷◌}
use native.Mathlib.Omega.{arith}

abbrev pub Dict {ℓ} : Type ℓ → Type ℓ
Dict V = List (Text × V)

module _ {ℓ} {V : Type ℓ} where
  -- `d.get(k)`
  unfoldable pub get : Dict V → Text → Option V
  get [] k = none
  get ((j, v) ∷ d) k = if j =ₜ k then some v else get d k

  -- `d.pop(k, None)`
  unfoldable pub remove : Dict V → Text → Dict V
  remove [] k = []
  remove ((j, v) ∷ d) k = let rest = remove d k in if j =ₜ k then rest else (j, v) ∷ rest

  -- `d[k] = v`
  unfoldable pub put : Dict V → Text → V → Dict V
  unfolding remove
  put d k v = (k, v) ∷ remove d k

  pub get-remove :
      (d : Dict V) (k j : Text) → get (remove d k) j ≡ (if k =ₜ j then none else get d j)
  unfolding get remove
  get-remove [] k j = ground arith
  get-remove ((i, v) ∷ d) k j = ground (arith, get-remove d k j, =ₜ_iff i k, =ₜ_iff i j, =ₜ_iff k j)

  pub get-put :
      (d : Dict V) (k j : Text) (v : V) → get (put d k v) j ≡ (if k =ₜ j then some v else get d j)
  unfolding get put
  get-put d k j v = ground (arith, get-remove d k j)

  pub get-remove_same : (d : Dict V) (k : Text) → get (remove d k) k ≡ none
  get-remove_same d k = ground (arith, get-remove d k k, =ₜ_iff k k)

pub ruleset dict_laws = (get-remove, get-put)

-- `name in names`
unfoldable pub contains : List Text → Text → Bool
contains [] k = false
contains (j ∷ names) k = j =ₜ k || contains names k

-- `names.discard(name)`
unfoldable pub discard : List Text → Text → List Text
discard [] k = []
discard (j ∷ names) k = let rest = discard names k in if j =ₜ k then rest else j ∷ rest

-- `names.add(name)`
unfoldable pub add : List Text → Text → List Text
unfolding discard
add names k = k ∷ discard names k

pub contains-discard :
    (names : List Text) (k j : Text)
    → contains (discard names k) j ≡ (not (k =ₜ j) && contains names j)
unfolding contains discard
contains-discard [] k j = ground arith
contains-discard (i ∷ names) k j =
    ground (arith, contains-discard names k j, =ₜ_iff i k, =ₜ_iff i j, =ₜ_iff k j)

pub contains-add :
    (names : List Text) (k j : Text) → contains (add names k) j ≡ (k =ₜ j || contains names j)
unfolding contains add
contains-add names k j = ground (arith, contains-discard names k j)

pub contains-discard_same : (names : List Text) (k : Text) → contains (discard names k) k ≡ false
contains-discard_same names k = ground (arith, contains-discard names k k, =ₜ_iff k k)
