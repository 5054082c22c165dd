-- ===== src/Service/Upload/Safety/Rules.antt =====
-- Rules by which a part of `_process_upload` keeps the log safe.
use mathlib.Core.Path.{subst}
use immich_on_demand.Prelude.{
  ℕ, ◌∷◌, Bool, true, false, ◌≡◌, refl, sym, ap, ◌∙◌, if◌then◌else◌, inl, inr,
}
use immich_on_demand.Prelude.Exec.{Result, ok, ◌>>=◌, Result-cases}
use immich_on_demand.Errors.{Exception, Fallible}
use immich_on_demand.Uploads.Disk.{Op}
use immich_on_demand.Uploads.Manifest.{Host}
use immich_on_demand.Uploads.Queue.{UploadStatus}
use immich_on_demand.Service.Checks.{Codec}
use immich_on_demand.Service.World.{
  Outside, World, Act, Event, status_taken, ticked, noted, ask, note, send, see, queue_call,
  take_status, queue_status, catch,
}
use immich_on_demand.Service.Upload.Safety.{latest, Allowed, Safe, Good}

module _ (h : Host) (c : Codec) (remote_delete : Bool) (job : UploadStatus) where
  -- A result leaves the task good.
  abbrev pub GoodEnd : {A : Type 0} → Result Exception A × World → Type 0
  GoodEnd r = Good h c remote_delete job r.1

  module _ {A B : Type 0} (f : A → Act B) (w : World) where
    pub bind-GoodEnd :
        (m : Act A)
        → GoodEnd (m w)
        → ((a : A) → (m w).0 ≡ ok a → GoodEnd (f a (m w).1))
        → GoodEnd ((m >>= f) w)
    unfolding ◌>>=◌
    bind-GoodEnd m g k = elim (Result-cases (m w).0) [
      | inl (a, e) ↦ rw e (k a e)
      | inr (x, e) ↦ rw e g
    ]

  -- A step that leaves the log and the status alone.
  pub Good-quiet :
      (w w' : World)
      → w'.log ≡ w.log
      → w'.current ≡ w.current
      → Good h c remote_delete job w
      → Good h c remote_delete job w'
  Good-quiet w w' l k g = record {
    safe = subst (Safe h c remote_delete job) (sym l) g.safe;
    current = k ∙ g.current ∙ ap (latest job) (sym l);
  }

  -- An event that is allowed, and is no new status.
  pub Good-noted :
      (w w' : World) (event : Event)
      → w'.log ≡ event ∷ w.log
      → w'.current ≡ w.current
      → latest job (event ∷ w.log) ≡ latest job w.log
      → Allowed h c remote_delete job event w.log
      → Good h c remote_delete job w
      → Good h c remote_delete job w'
  unfolding Safe
  Good-noted w w' event l k s a g = record {
    safe = subst (Safe h c remote_delete job) (sym l) (a, g.safe);
    current = k ∙ g.current ∙ sym s ∙ ap (latest job) (sym l);
  }

  pub Good-status :
      (w w' : World) (m : UploadStatus)
      → w'.log ≡ status_taken m ∷ w.log
      → w'.current ≡ m
      → Good h c remote_delete job w
      → Good h c remote_delete job w'
  unfolding Safe Allowed latest
  Good-status w w' m l k g = record {
    safe = subst (Safe h c remote_delete job) (sym l) (tt, g.safe);
    current = k ∙ ap (latest job) (sym l);
  }

  pub if-GoodEnd :
      {A : Type 0} (test : Bool) (m n : Act A) (w : World)
      → (test ≡ true → GoodEnd (m w))
      → (test ≡ false → GoodEnd (n w))
      → GoodEnd ((if test then m else n) w)
  if-GoodEnd true m n w t f = t refl
  if-GoodEnd false m n w t f = f refl

  pub catch-GoodEnd :
      {A : Type 0} (m : Act A) (handler : Exception → Act A) (w : World)
      → GoodEnd (m w)
      → ((x : Exception) → GoodEnd (handler x (m w).1))
      → GoodEnd (catch m handler w)
  unfolding catch
  catch-GoodEnd m handler w g k = elim (Result-cases (m w).0) [
    | inl (a, e) ↦ rw e g
    | inr (x, e) ↦ rw e (k x)
  ]

  module _ {A B : Type 0} (f : A → Act B) (w : World) (g : Good h c remote_delete job w) where
    pub ask-GoodEnd :
        (reply : ℕ → Fallible A)
        → ((a : A) → GoodEnd (f a (ticked w)))
        → GoodEnd ((ask reply >>= f) w)
    unfolding ask
    ask-GoodEnd reply k =
        bind-GoodEnd f w (ask reply) (Good-quiet w (ticked w) refl refl g) (λ a e. k a)

    pub send-GoodEnd :
        (event : Event) (reply : ℕ → Fallible A)
        → latest job (event ∷ w.log) ≡ latest job w.log
        → Allowed h c remote_delete job event w.log
        → ((a : A) → Good h c remote_delete job (noted w event) → GoodEnd (f a (noted w event)))
        → GoodEnd ((send event reply >>= f) w)
    unfolding send
    send-GoodEnd event reply s allowed k =
        let good = Good-noted w (noted w event) event refl refl s allowed g in
        bind-GoodEnd f w (send event reply) good (λ a e. k a good)

    pub queue_call-GoodEnd :
        (e : Outside) (op : Op A)
        → ((a : A) (w' : World)
            → w'.log ≡ w.log
            → w'.current ≡ w.current
            → Good h c remote_delete job w'
            → GoodEnd (f a w'))
        → GoodEnd ((queue_call e op >>= f) w)
    unfolding queue_call
    queue_call-GoodEnd e op k =
        let good = Good-quiet w (queue_call e op w).1 refl refl g in
        bind-GoodEnd f w (queue_call e op) good (λ a _. k a (queue_call e op w).1 refl refl good)

    -- What was read is noted.
    pub see-GoodEnd :
        (event : A → Event) (reply : ℕ → Fallible A)
        → ((a : A)
            → (latest job (event a ∷ w.log) ≡ latest job w.log)
              × Allowed h c remote_delete job (event a) w.log)
        → ((a : A) (w' : World)
            → w'.log ≡ event a ∷ w.log
            → reply w.time ≡ ok a
            → Good h c remote_delete job w'
            → GoodEnd (f a w'))
        → GoodEnd ((see event reply >>= f) w)
    unfolding see ask note ◌>>=◌
    see-GoodEnd event reply allowed k = elim (Result-cases (reply w.time)) [
      | inr (x, e) ↦ rw e (Good-quiet w (ticked w) refl refl g)
      | inl (a, e) ↦
          let w' = noted (ticked w) (event a) in
          rw e (k a w' refl e (Good-noted w w' (event a) refl refl (allowed a).0 (allowed a).1 g))
    ]

  pub queue_status-GoodEnd :
      {B : Type 0} (f : Unit {0} → Act B) (w : World) (g : Good h c remote_delete job w)
      (e : Outside) (op : Op UploadStatus)
      → ((m : UploadStatus) (w' : World)
          → w'.log ≡ status_taken m ∷ w.log
          → w'.current ≡ m
          → Good h c remote_delete job w'
          → GoodEnd (f tt w'))
      → GoodEnd ((queue_status e op >>= f) w)
  unfolding queue_status queue_call take_status ◌>>=◌
  queue_status-GoodEnd f w g e op k = elim (Result-cases (op (e.meanwhile w.time w.queue)).0) [
    | inr (x, r) ↦ rw r (Good-quiet w _ refl refl g)
    | inl (m, r) ↦ rw r (k m _ refl refl (Good-status w _ m refl refl g))
  ]
