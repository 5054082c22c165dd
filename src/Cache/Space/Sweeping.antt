-- ===== src/Cache/Space/Sweeping.antt =====
-- The loops of `_reserve` and `evict_to_limits` keep their totals right.
use immich_on_demand.Prelude.{
  ℕ, ◌+◌, ◌≤◌, ◌∷◌, none, some, Bool, true, false, ◌≡◌, refl, arith, ◌∙◌, if◌then◌else◌, ap,
}
use immich_on_demand.Prelude.Text.{Text, ◌=ₜ◌, =ₜ_iff, =ₜ-refl}
use immich_on_demand.Prelude.Dict.{Dict, get, get-remove}
use immich_on_demand.Cache.{CacheHost, CachedFile, file_size, ContentCache, unlink}
use immich_on_demand.Cache.Space.{is_entry, sum_sizes, entries_of, Sweep, swept}
use immich_on_demand.Cache.Space.Entries.{Distinct, remove-Distinct, sum-remove}

-- The bytes of the complete originals.
unfoldable pub total_size : CacheHost → ContentCache → ℕ
unfolding sum_sizes entries_of
total_size h c = sum_sizes (entries_of h c)

-- The loop's running total is the cache's.
pub record Tracks (h : CacheHost) (s : Sweep) : Type 0 where
  pub distinct : Distinct s.cache.files
  pub exact : s.total ≡ total_size h s.cache

-- The entries still to be looked at are complete originals of the cache.
pub record Listed (h : CacheHost) (entries : Dict CachedFile) (c : ContentCache) : Type 0 where
  pub distinct : Distinct entries
  pub stored :
      (j : Text) (f : CachedFile)
      → get entries j ≡ some f
      → (get c.files j ≡ some f) × (is_entry h j f ≡ true)

-- What a loop changes: files leave, with their validations, and the freed bytes are free.
pub record Sweeps (h : CacheHost) (entries : Dict CachedFile) (s s' : Sweep) : Type 0 where
  pub tracks : Tracks h s'
  pub balance : s'.total + s'.free ≡ s.total + s.free
  pub shrinks : s'.total ≤ s.total
  pub others : (j : Text) → get entries j ≡ none → get s'.cache.files j ≡ get s.cache.files j
  pub rest : s'.cache ≡ record s.cache { files = s'.cache.files; validated = s'.cache.validated }

module _ (h : CacheHost) (name : Text) (f : CachedFile) (entries : Dict CachedFile) (s : Sweep)
    (l : Listed h ((name, f) ∷ entries) s.cache) where
  pub head_stored : (get s.cache.files name ≡ some f) × (is_entry h name f ≡ true)
  unfolding get
  head_stored = l.stored name f (rw (=ₜ-refl name))

  pub head_absent : get entries name ≡ none
  unfolding Distinct
  head_absent = l.distinct.0

  pub tail-Listed : Listed h entries s.cache
  unfolding Distinct get
  tail-Listed = record {
    distinct = l.distinct.1;
    stored = λ j g e. l.stored j g (ground (arith, =ₜ_iff name j, head_absent));
  }

  pub swept-Listed : Listed h entries (swept name f s).cache
  unfolding swept unlink Distinct
  swept-Listed = record {
    distinct = l.distinct.1;
    stored = λ j g e. ground (
      arith,
      tail-Listed.stored j g e,
      head_stored,
      get-remove s.cache.files name j,
      =ₜ_iff name j,
      head_absent,
    );
  }

  module _ (t : Tracks h s) where
    pub swept_size : (swept name f s).total + file_size f ≡ s.total
    unfolding swept total_size entries_of
    swept_size = ground (
      arith,
      head_stored,
      t.exact,
      sum-remove h s.cache.files name f t.distinct head_stored.0 head_stored.1,
    )

    pub swept-Tracks : Tracks h (swept name f s)
    unfolding swept total_size entries_of unlink
    swept-Tracks = record {
      distinct = ground (arith, head_stored, remove-Distinct s.cache.files name t.distinct);
      exact = ground (
        arith,
        head_stored,
        t.exact,
        sum-remove h s.cache.files name f t.distinct head_stored.0 head_stored.1,
      );
    }

    pub swept_balance : (swept name f s).total + (swept name f s).free ≡ s.total + s.free
    unfolding swept total_size entries_of unlink
    swept_balance = ground (
      arith,
      head_stored,
      t.exact,
      sum-remove h s.cache.files name f t.distinct head_stored.0 head_stored.1,
    )

    pub swept_free : (swept name f s).free ≡ s.free + file_size f
    unfolding swept
    swept_free = ground (arith, head_stored)

  pub swept_others :
      (j : Text) → (name =ₜ j) ≡ false → get (swept name f s).cache.files j ≡ get s.cache.files j
  unfolding swept unlink
  swept_others j e = ground (arith, get-remove s.cache.files name j)

  pub swept_gone :
      (j : Text)
      → get (swept name f s).cache.files j ≡ (if name =ₜ j then none else get s.cache.files j)
  unfolding swept unlink
  swept_gone j = ground (arith, head_stored, get-remove s.cache.files name j)

  pub swept_rest : (swept name f s).cache ≡ record s.cache {
    files = (swept name f s).cache.files;
    validated = (swept name f s).cache.validated;
  }
  unfolding swept unlink
  swept_rest = ground arith

  -- A loop over the rest is a loop over all.
  pub after_swept :
      (t : Tracks h s) (s' : Sweep)
      → Sweeps h entries (swept name f s) s'
      → Sweeps h ((name, f) ∷ entries) s s'
  unfolding get
  after_swept t s' w = record {
    tracks = w.tracks;
    balance = w.balance ∙ swept_balance t;
    shrinks = omega (arith, w.shrinks, swept_size t);
    others = λ j e. ground (arith, w.others j, swept_others j);
    rest =
        w.rest
        ∙ ap {A = ContentCache}
            (λ c. record c { files = s'.cache.files; validated = s'.cache.validated }) swept_rest;
  }

  pub after_skipped : (s' : Sweep) → Sweeps h entries s s' → Sweeps h ((name, f) ∷ entries) s s'
  unfolding get
  after_skipped s' w = record {
    tracks = w.tracks;
    balance = w.balance;
    shrinks = w.shrinks;
    others = λ j e. ground (arith, w.others j);
    rest = w.rest;
  }

pub none-Sweeps :
    (h : CacheHost) (entries : Dict CachedFile) (s : Sweep) → Tracks h s → Sweeps h entries s s
none-Sweeps h entries s t = record {
  tracks = t;
  balance = refl;
  shrinks = omega arith;
  others = λ j e. refl;
  rest = refl;
}

pub if-Sweeps :
    (h : CacheHost) (entries : Dict CachedFile) (s s' s'' : Sweep) (b : Bool)
    → Sweeps h entries s s'
    → Sweeps h entries s s''
    → Sweeps h entries s (if b then s' else s'')
if-Sweeps h entries s s' s'' true w w' = w
if-Sweeps h entries s s' s'' false w w' = w'
