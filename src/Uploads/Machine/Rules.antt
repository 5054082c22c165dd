-- ===== src/Uploads/Machine/Rules.antt =====
-- Rules for the outcome of an action, one for each way to build it.
use immich_on_demand.Prelude.{some, Bool, true, false, ◌≡◌, refl, if◌then◌else◌, inl, inr}
use immich_on_demand.Prelude.Text.{Text}
use immich_on_demand.Prelude.Exec.{
  Result, ok, guard, lift, raise, pure, ◌>>=◌, ◌>>◌, Result-cases, bind-eq-ok, bind-eq-err,
  bind-pure_state,
}
use immich_on_demand.Errors.{Exception}
use immich_on_demand.Uploads.Manifest.{Manifest, Host}
use immich_on_demand.Uploads.Validate.{is_valid}
use immich_on_demand.Uploads.Disk.{Queue, Op, load, save}
use immich_on_demand.Uploads.Disk.View.{
  manifest_of, load-keeps, load-eq-ok, save-eq-err, save-eq-ok,
}
use immich_on_demand.Uploads.Queue.{write_status}
use immich_on_demand.Uploads.Machine.{Edge, Outcome, unchanged, changed, Touches, Writes}

pub Outcome-refl :
    (h : Host) (q : Queue) (job_id : Text) {q' : Queue} → q' ≡ q → Outcome h q job_id q'
Outcome-refl h q job_id e = unchanged (λ j. rw e)

-- An action that reads and checks only.
pub record Reads {A : Type 0} (op : Op A) : Type 0 where
  pub keeps : (q : Queue) → (op q).1 ≡ q

module _ {A : Type 0} where
  pub Reads-pure : (a : A) → Reads (pure {E = Exception} {S = Queue} a)
  unfolding pure
  Reads-pure a = record { keeps = λ q. refl }

  pub Reads-raise : (e : Exception) → Reads (raise {S = Queue} {A = A} e)
  unfolding raise
  Reads-raise e = record { keeps = λ q. refl }

  pub Reads-lift : (r : Result Exception A) → Reads (lift {S = Queue} r)
  unfolding lift
  Reads-lift r = record { keeps = λ q. refl }

pub Reads-guard : (b : Bool) (e : Exception) → Reads (guard {S = Queue} b e)
unfolding guard
Reads-guard true e = record { keeps = λ q. refl }
Reads-guard false e = record { keeps = λ q. refl }

pub Reads-load : (h : Host) (job_id : Text) → Reads (load h job_id)
Reads-load h job_id = record { keeps = load-keeps h job_id }

module _ {A B : Type 0} where
  pub Reads-bind :
      (op : Op A) (k : A → Op B) → Reads op → ((a : A) → Reads (k a)) → Reads (op >>= k)
  Reads-bind op k r s = record {
    keeps = λ q. elim (Result-cases (op q).0) [
      | inl (a, e) ↦ rw (bind-eq-ok op k q (r.keeps q) a e) ((s a).keeps q)
      | inr (x, e) ↦ bind-eq-err op k q (r.keeps q) x e
    ];
  }

  -- What holds of the state before a reading step and of the state that the rest leaves.
  pub bind_state :
      (P : Queue → Type 0) (op : Op A) (k : A → Op B) (q : Queue)
      → Reads op
      → P q
      → ((a : A) → (op q).0 ≡ ok a → P (k a q).1)
      → P ((op >>= k) q).1
  bind_state P op k q r p t = elim (Result-cases (op q).0) [
    | inl (a, e) ↦ rw (bind-eq-ok op k q (r.keeps q) a e) (t a e)
    | inr (x, e) ↦ rw (bind-eq-err op k q (r.keeps q) x e) p
  ]

  -- A reading step, whose result the rest may know of.
  pub Touches-bind :
      (h : Host) (job_id : Text) (op : Op A) (k : A → Op B)
      → Reads op
      → ((a : A) → Touches h job_id (k a))
      → Touches h job_id (op >>= k)
  Touches-bind h job_id op k r t = record {
    at = λ q. elim (Result-cases (op q).0) [
      | inl (a, e) ↦ rw (bind-eq-ok op k q (r.keeps q) a e) ((t a).at q)
      | inr (x, e) ↦ Outcome-refl h q job_id (bind-eq-err op k q (r.keeps q) x e)
    ];
  }

  pub Writes-bind :
      (h : Host) (job_id : Text) (m : Manifest) (op : Op A) (k : A → Op B)
      → Reads op
      → ((a : A) → Writes h job_id m (k a))
      → Writes h job_id m (op >>= k)
  Writes-bind h job_id m op k r t = record {
    at = λ q found valid. elim (Result-cases (op q).0) [
      | inl (a, e) ↦ rw (bind-eq-ok op k q (r.keeps q) a e) ((t a).at q found valid)
      | inr (x, e) ↦ Outcome-refl h q job_id (bind-eq-err op k q (r.keeps q) x e)
    ];
  }

module _ {B : Type 0} (h : Host) (job_id : Text) where
  -- The rest may use that the test passed.
  pub Writes-guard :
      (m : Manifest) (b : Bool) (e : Exception) (k : Unit {0} → Op B)
      → (b ≡ true → Writes h job_id m (k tt))
      → Writes h job_id m (guard b e >>= k)
  unfolding ◌>>=◌
  Writes-guard m true e k t = t refl
  Writes-guard m false e k t = record { at = λ q _ _. Outcome-refl h q job_id refl }

  pub Writes-if :
      (m : Manifest) (b : Bool) (x y : Op B)
      → (b ≡ true → Writes h job_id m x)
      → (b ≡ false → Writes h job_id m y)
      → Writes h job_id m (if b then x else y)
  Writes-if m true x y s t = s refl
  Writes-if m false x y s t = t refl

  pub Writes-Reads : (m : Manifest) (op : Op B) → Reads op → Writes h job_id m op
  Writes-Reads m op r = record { at = λ q _ _. Outcome-refl h q job_id (r.keeps q) }

  -- A step that returns the job's manifest, and what it has checked of it.
  pub Touches-fetch :
      (P : Manifest → Type 0) (op : Op Manifest) (k : Manifest → Op B)
      → Reads op
      → ((q : Queue) (m : Manifest)
          → (op q).0 ≡ ok m
          → (manifest_of q job_id ≡ some m) × (is_valid h m job_id ≡ true) × P m)
      → ((m : Manifest) → P m → Writes h job_id m (k m))
      → Touches h job_id (op >>= k)
  Touches-fetch P op k r fetched t = record {
    at = λ q. elim (Result-cases (op q).0) [
      | inl (m, e) ↦
          let (found, valid, p) = fetched q m e in
          rw (bind-eq-ok op k q (r.keeps q) m e) ((t m p).at q found valid)
      | inr (x, e) ↦ Outcome-refl h q job_id (bind-eq-err op k q (r.keeps q) x e)
    ];
  }

  pub Touches-load :
      (k : Manifest → Op B)
      → ((m : Manifest) → Writes h job_id m (k m))
      → Touches h job_id (load h job_id >>= k)
  Touches-load k t =
      Touches-fetch (λ _. Unit {0}) (load h job_id) k (Reads-load h job_id)
        (λ q m e. let (found, valid) = load-eq-ok h job_id q m e in (found, valid, tt)) (λ m _. t m)

module _ (h : Host) (job_id : Text) (m m' : Manifest) (edge : Edge h m m') where
  save-Outcome :
      (q : Queue)
      → manifest_of q job_id ≡ some m
      → is_valid h m job_id ≡ true
      → Outcome h q job_id (save h job_id m' q).1
  save-Outcome q found valid = elim (Result-cases (save h job_id m' q).0) [
    | inl (u, e) ↦ changed m m' found valid edge (save-eq-ok h job_id q m' e)
    | inr (x, e) ↦ Outcome-refl h q job_id (save-eq-err h job_id q m' x e)
  ]

  pub Writes-save : Writes h job_id m (save h job_id m')
  Writes-save = record { at = save-Outcome }

  -- A save, and a result that no longer depends on the state.
  pub Writes-save-pure : {B : Type 0} (b : B) → Writes h job_id m (save h job_id m' >> pure b)
  Writes-save-pure b = record {
    at = λ q found valid. rw (bind-pure_state (save h job_id m') b q) (save-Outcome q found valid);
  }

  pub Writes-write_status : Writes h job_id m (write_status h job_id m')
  unfolding write_status
  Writes-write_status = Writes-save-pure m'
