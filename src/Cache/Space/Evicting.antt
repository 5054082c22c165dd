-- ===== src/Cache/Space/Evicting.antt =====
-- What `evict_to_limits` promises.
use immich_on_demand.Prelude.{
  ℕ, ◌+◌, ◌≤◌, List, [], ◌∷◌, none, some, Bool, true, false, ◌≡◌, refl, arith, sym, ◌∙◌,
  if◌then◌else◌, ◌&&◌, is_none, ℤ, is_nonneg, pos_part, ◌||◌,
}
use immich_on_demand.Prelude.Text.{Text, =ₜ_iff}
use immich_on_demand.Prelude.Dict.{Dict, get, contains}
use immich_on_demand.Prelude.Exec.{ok, ◌>>=◌}
use immich_on_demand.Cache.{CacheHost, CachedFile, ContentCache, unlink, is_busy}
use immich_on_demand.Cache.Space.{
  complete_entries, entries_of, Sweep, swept, sorted, sweep_of, is_evictable, Limits, is_due,
  is_expired, is_over, sweep, sweep_entries, evict_to_limits,
}
use immich_on_demand.Cache.Space.Entries.{
  Distinct, complete-Distinct, complete_found, sorted-Distinct, get-sorted,
}
use immich_on_demand.Cache.Space.Sweeping.{
  total_size, Tracks, Listed, Sweeps, swept-Listed, tail-Listed, swept-Tracks, after_swept,
  after_skipped, none-Sweeps, head_stored, swept_gone,
}

-- What the loop does with the entries it is given.
record Evicted (h : CacheHost) (l : Limits) (entries : Dict CachedFile) (s : Sweep)
    (removed : List Text) (s' : Sweep) : Type 0 where
  pub sweeps : Sweeps h entries s s'
  pub gone :
      (j : Text) → get s'.cache.files j ≡ (if contains removed j then none else get s.cache.files j)
  pub listed :
      (j : Text)
      → contains removed j ≡ true
      → (is_none (get entries j) ≡ false) × (is_evictable s.cache j ≡ true)
  pub left :
      (j : Text) (f : CachedFile)
      → get entries j ≡ some f
      → is_evictable s.cache j ≡ true
      → contains removed j ≡ false
      → (is_expired l.now_ns l.max_age_seconds f ≡ false)
        × (is_over l.max_bytes l.minimum_free_bytes s'.total s'.free ≡ false)

module _ (h : CacheHost) (l : Limits) where
  swept_evictable :
      (name : Text) (f : CachedFile) (s : Sweep) (j : Text)
      → is_evictable (swept name f s).cache j ≡ is_evictable s.cache j
  unfolding swept unlink is_evictable is_busy
  swept_evictable name f s j = ground arith

  module _ (name : Text) (f : CachedFile) (entries : Dict CachedFile) (s : Sweep)
      (li : Listed h ((name, f) ∷ entries) s.cache) (t : Tracks h s) where
    due-Evicted :
        (removed : List Text) (s' : Sweep)
        → is_due l name f s ≡ true
        → Evicted h l entries (swept name f s) removed s'
        → Evicted h l ((name, f) ∷ entries) s (name ∷ removed) s'
    unfolding get contains is_due
    due-Evicted removed s' due e = record {
      sweeps = after_swept h name f entries s li t s' e.sweeps;
      gone = λ j. ground (arith, e.gone j, swept_gone h name f entries s li j);
      listed = λ j c. ground (arith, e.listed j, swept_evictable name f s j, =ₜ_iff name j);
      left = λ j g found ev absent. ground (arith, e.left j g, swept_evictable name f s j);
    }

    over_mono :
        (t t' f f' : ℕ)
        → t' ≤ t
        → t' + f' ≡ t + f
        → is_over l.max_bytes l.minimum_free_bytes t f ≡ false
        → is_over l.max_bytes l.minimum_free_bytes t' f' ≡ false
    unfolding is_over
    over_mono t t' f f' le balance e = ground arith

    kept_left :
        (removed : List Text) (s' : Sweep)
        → is_due l name f s ≡ false
        → Evicted h l entries s removed s'
        → (j : Text) (g : CachedFile) → get ((name, f) ∷ entries) j ≡ some g
        → is_evictable s.cache j ≡ true
        → contains removed j ≡ false
        → (is_expired l.now_ns l.max_age_seconds g ≡ false)
          × (is_over l.max_bytes l.minimum_free_bytes s'.total s'.free ≡ false)
    unfolding get is_due
    kept_left removed s' due e j g found ev absent = ground (
      arith,
      e.left j g,
      =ₜ_iff name j,
      head_stored h name f entries s li,
      over_mono s.total s'.total s.free s'.free e.sweeps.shrinks e.sweeps.balance,
    )

    kept-Evicted :
        (removed : List Text) (s' : Sweep)
        → is_due l name f s ≡ false
        → Evicted h l entries s removed s'
        → Evicted h l ((name, f) ∷ entries) s removed s'
    unfolding get contains is_due
    kept-Evicted removed s' due e = record {
      sweeps = after_skipped h name f entries s li s' e.sweeps;
      gone = e.gone;
      listed = λ j c. ground (arith, e.listed j);
      left = λ j g found ev absent. kept_left removed s' due e j g found ev absent;
    }

  Evicted-if :
      (entries : Dict CachedFile) (s : Sweep) (b : Bool) (r r' : List Text × Sweep)
      → (b ≡ true → Evicted h l entries s r.0 r.1)
      → (b ≡ false → Evicted h l entries s r'.0 r'.1)
      → Evicted h l entries s (if b then r else r').0 (if b then r else r').1
  Evicted-if entries s true r r' y n = y refl
  Evicted-if entries s false r r' y n = n refl

  sweep-Evicted :
      (entries : Dict CachedFile) (s : Sweep)
      → Listed h entries s.cache
      → Tracks h s
      → Evicted h l entries s (sweep l entries s).0 (sweep l entries s).1
  unfolding sweep get contains
  sweep-Evicted [] s li t = record {
    sweeps = none-Sweeps h [] s t;
    gone = λ j. refl;
    listed = λ j e. absurd cc;
    left = λ j f e. absurd cc;
  }
  sweep-Evicted ((name, f) ∷ entries) s li t =
      Evicted-if ((name, f) ∷ entries) s (is_due l name f s) _ _
        (λ due. due-Evicted name f entries s li t _ _ due (
          sweep-Evicted entries (swept name f s) (swept-Listed h name f entries s li)
            (swept-Tracks h name f entries s li t)))
        (λ kept.
          kept-Evicted name f entries s li t _ _ kept
            (sweep-Evicted entries s (tail-Listed h name f entries s li) t))

-- What a call leaves behind: exactly the named originals are gone, each of them was complete and
-- neither pinned nor busy, and any other such original is young enough and within the limits.
pub record Limited (h : CacheHost) (l : Limits) (free : ℕ) (c : ContentCache) (removed : List Text)
    (c' : ContentCache) : Type 0 where
  pub free_after : ℕ
  pub balance : total_size h c' + free_after ≡ total_size h c + free
  pub gone : (j : Text) → get c'.files j ≡ (if contains removed j then none else get c.files j)
  pub chosen :
      (j : Text)
      → contains removed j ≡ true
      → (is_none (get (entries_of h c) j) ≡ false) × ((contains c.pinned j || is_busy c j) ≡ false)
  pub left :
      (j : Text) (f : CachedFile)
      → get (entries_of h c) j ≡ some f
      → (contains c.pinned j || is_busy c j) ≡ false
      → contains removed j ≡ false
      → (is_expired l.now_ns l.max_age_seconds f ≡ false)
        × (total_size h c' ≤ l.max_bytes)
        × (l.minimum_free_bytes ≤ free_after)

module _ (h : CacheHost) (l : Limits) (free : ℕ) (c : ContentCache) (d : Distinct c.files) where
  abbrev outcome : List Text × Sweep
  outcome = sweep l (sorted (entries_of h c)) (sweep_of h c free)

  same_entries : (j : Text) → get (sorted (entries_of h c)) j ≡ get (entries_of h c) j
  unfolding entries_of
  same_entries j = get-sorted (complete_entries h c.files) j (complete-Distinct h c.files d)

  entries-Listed : Listed h (sorted (entries_of h c)) (sweep_of h c free).cache
  unfolding entries_of sweep_of
  entries-Listed = record {
    distinct = sorted-Distinct _ (complete-Distinct h c.files d);
    stored = λ j f e. complete_found h c.files j f d (sym (same_entries j) ∙ e);
  }

  outcome-Evicted : Evicted h l (sorted (entries_of h c)) (sweep_of h c free) outcome.0 outcome.1
  unfolding sweep_of total_size
  outcome-Evicted =
      sweep-Evicted h l (sorted (entries_of h c)) (sweep_of h c free) entries-Listed
        (record { distinct = d; exact = refl })

  outcome-Limited : Limited h l free c outcome.0 outcome.1.cache
  unfolding sweep_of total_size
  outcome-Limited =
      let e = outcome-Evicted in
      record {
        free_after = outcome.1.free;
        balance = omega (arith, e.sweeps.balance, e.sweeps.tracks.exact);
        gone = e.gone;
        chosen = λ j x. unfold is_evictable in (ground (arith, e.listed j x, same_entries j));
        left = λ j f found ev x.
            unfold is_over is_evictable in
            (ground (arith, e.left j f (same_entries j ∙ found), ev, x, e.sweeps.tracks.exact));
      }

abbrev pub limits_of : ℤ → ℤ → ℤ → ℤ → Limits
limits_of max_age max_bytes minimum_free now = record {
  now_ns = now;
  max_age_seconds = pos_part max_age;
  max_bytes = pos_part max_bytes;
  minimum_free_bytes = pos_part minimum_free;
}

-- In a directory without two entries of one name and with limits that are not negative,
-- `evict_to_limits` succeeds. Exactly the originals it returns
-- have left the cache; each was a complete original, neither pinned nor busy. Every other complete
-- original that is neither pinned nor busy has not expired, and if there is one, then the bytes
-- left and the disk's free space, counting what was freed, satisfy the limits.
pub evict_to_limits-Limited :
    (h : CacheHost) (max_age max_bytes minimum_free now : ℤ) (free : ℕ) (c : ContentCache)
    → Distinct c.files
    → (is_nonneg max_age && is_nonneg max_bytes && is_nonneg minimum_free) ≡ true
    → (removed : List Text) × (c' : ContentCache) × (evict_to_limits h max_age max_bytes
          minimum_free now free c
        ≡ (ok removed, c'))
      × Limited h (limits_of max_age max_bytes minimum_free now) free c removed c'
unfolding evict_to_limits sweep_entries ◌>>=◌
evict_to_limits-Limited h max_age max_bytes minimum_free now free c d e =
    let l = limits_of max_age max_bytes minimum_free now in
    (
      (outcome h l free c d).0,
      (outcome h l free c d).1.cache,
      rw e refl,
      outcome-Limited h l free c d,
    )
