-- ===== src/Prelude/Exec.antt =====
-- Methods that change an object and may raise. What was written before the raise stays written, so
-- the state comes back beside the error too.
use mathlib.Core.Bool.{Bool, true, false}
use mathlib.Core.Path.{◌≡◌, refl, sym, ap, ◌∙◌}
use mathlib.Core.Logic.{◌≢◌, ◌⊎◌, inl, inr}

pub data Result {ℓ κ} (E : Type ℓ) (A : Type κ) : Type (ℓ ⊔ κ) where
  ok : A → Result E A
  err : E → Result E A

abbrev pub Exec {ℓ} : Type ℓ → Type ℓ → Type ℓ → Type ℓ
Exec E S A = S → Result E A × S

module _ {ℓ} {E S A : Type ℓ} where
  unfoldable pub pure : A → Exec E S A
  pure a s = (ok a, s)

  unfoldable pub raise : E → Exec E S A
  raise e s = (err e, s)

  unfoldable pub lift : Result E A → Exec E S A
  lift r s = (r, s)

-- `if not test: raise e`
unfoldable pub guard : {E S : Type 0} → Bool → E → Exec E S (Unit {0})
guard true e s = (ok tt, s)
guard false e s = (err e, s)

module _ {ℓ} {E S A B : Type ℓ} where
  abbrev pub continue : Result E A → (A → Exec E S B) → Exec E S B
  continue (ok a) f s = f a s
  continue (err e) f s = (err e, s)

  infixl 10 ◌>>=◌ ◌>>◌
  -- opening this opens `pure`, `raise`, `lift` and `guard` too
  unfoldable pub ◌>>=◌ : Exec E S A → (A → Exec E S B) → Exec E S B
  unfolding pure raise lift guard
  ◌>>=◌ m f s = let (r, s') = m s in continue r f s'

  abbrev pub ◌>>◌ : Exec E S A → Exec E S B → Exec E S B
  m >> n = m >>= λ _. n

pub Result-cases {ℓ κ} :
    {E : Type ℓ} {A : Type κ} (r : Result E A) → ((a : A) × (r ≡ ok a)) ⊎ ((e : E) × (r ≡ err e))
Result-cases (ok a) = inl (a, refl)
Result-cases (err e) = inr (e, refl)

-- An action that leaves the state alone is followed by the rest in the same state.
module _ {E S A B : Type 0} (m : Exec E S A) (f : A → Exec E S B) (s : S)
    (keeps : (m s).1 ≡ s) where
  pub bind-eq-ok : (a : A) → (m s).0 ≡ ok a → (m >>= f) s ≡ f a s
  unfolding ◌>>=◌
  bind-eq-ok a e = rw (keeps, e)

  pub bind-eq-err : (x : E) → (m s).0 ≡ err x → ((m >>= f) s).1 ≡ s
  unfolding ◌>>=◌
  bind-eq-err x e = rw (keeps, e)

pub bind-pure_state :
    {E S A B : Type 0} (m : Exec E S A) (b : B) (s : S) → ((m >>= λ _. pure b) s).1 ≡ (m s).1
unfolding ◌>>=◌
bind-pure_state m b s = elim (Result-cases (m s).0) [ inl (a, e) ↦ rw e | inr (x, e) ↦ rw e ]

pub bind-err_result :
    {E S A B : Type 0} (m : Exec E S A) (f : A → Exec E S B) (s : S) (x : E)
    → (m s).0 ≡ err x
    → ((m >>= f) s).0 ≡ err x
unfolding ◌>>=◌
bind-err_result m f s x e = rw e

module _ {E S A B : Type 0} (m : Exec E S A) (f : A → Exec E S B) (s : S) where
  pub bind_after_ok : (a : A) → (m s).0 ≡ ok a → (m >>= f) s ≡ f a (m s).1
  unfolding ◌>>=◌
  bind_after_ok a e = rw e

  pub bind_after_err : (x : E) → (m s).0 ≡ err x → ((m >>= f) s).1 ≡ (m s).1
  unfolding ◌>>=◌
  bind_after_err x e = rw e

pub err_not_ok : {E A : Type 0} (r : Result E A) (x : E) (a : A) → r ≡ err x → r ≢ ok a
err_not_ok r x a e k = cc

-- A sequence that succeeds has a first part that does.
pub bind_split :
    {E S A B : Type 0} (m : Exec E S A) (f : A → Exec E S B) (s : S) (b : B)
    → ((m >>= f) s).0 ≡ ok b
    → (a : A) × ((m s).0 ≡ ok a) × ((f a (m s).1).0 ≡ ok b) × ((m >>= f) s ≡ f a (m s).1)
unfolding ◌>>=◌
bind_split m f s b h = elim (Result-cases (m s).0) [
  | inl (a, e) ↦ (a, e, ap (λ r. r.0) (sym (bind_after_ok m f s a e)) ∙ h, bind_after_ok m f s a e)
  | inr (x, e) ↦ absurd (err_not_ok _ x b (bind-err_result m f s x e) h)
]

pub bind_assoc :
    {E S A B C : Type 0} (m : Exec E S A) (g : A → Exec E S B) (f : B → Exec E S C) (s : S)
    → ((m >>= g) >>= f) s ≡ (m >>= λ a. g a >>= f) s
unfolding ◌>>=◌
bind_assoc m g f s = elim (Result-cases (m s).0) [ inl (a, e) ↦ rw e refl | inr (x, e) ↦ rw e refl ]
