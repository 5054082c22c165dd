-- ===== src/Prelude/Fallible.antt =====
-- Chains of calls that may raise and keep no state, for `do` blocks.
use immich_on_demand.Prelude.Exec.{Result, ok, err}
use mathlib.Core.Path.{◌≡◌, refl, ap}
use mathlib.Core.Bool.{Bool, true, false}

-- `if not test: raise e`
unfoldable pub check : {E : Type 0} → Bool → E → Result E (Unit {0})
check true e = ok tt
check false e = err e

module _ {E A B : Type 0} where
  infixl 10 ◌>>=◌ ◌>>◌
  unfoldable pub ◌>>=◌ : Result E A → (A → Result E B) → Result E B
  ok a >>= f = f a
  err e >>= f = err e

  abbrev pub ◌>>◌ : Result E A → Result E B → Result E B
  m >> n = m >>= λ _. n

-- A chain that succeeds has a first call that does.
pub chain_split :
    {E A B : Type 0} (m : Result E A) (f : A → Result E B) (b : B)
    → (m >>= f) ≡ ok b
    → (a : A) × ((m ≡ ok a) × (f a ≡ ok b))
unfolding ◌>>=◌
chain_split (ok a) f b h = (a, (refl, h))
chain_split (err e) f b h = absurd cc

pub ok_injective : {E A : Type 0} (a b : A) → ◌≡◌ {A = Result E A} (ok a) (ok b) → a ≡ b
ok_injective a b h = ap (λ r. elim r [ ok x ↦ x | err e ↦ a ]) h

-- `guard`'s test holds where the chain goes on.
pub check_holds : {E : Type 0} (b : Bool) (e : E) (u : Unit {0}) → check b e ≡ ok u → b ≡ true
unfolding check
check_holds true e u h = refl
check_holds false e u h = absurd cc
