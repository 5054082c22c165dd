-- ===== src/Cache/Space/Reserving.antt =====
-- What `_reserve` promises: the limits hold afterwards, or nothing has happened.
use immich_on_demand.Prelude.{
  ℕ, ◌+◌, ◌-◌, ◌≤◌, [], ◌∷◌, Option, none, some, Bool, true, false, ◌≡◌, refl, arith, sym, ◌∙◌,
  ◌&&◌, ◌||◌, none_or, leb, Bool-cases, Option-cases, ◌⊎◌, inl, inr, ap,
}
use immich_on_demand.Prelude.Text.{Text}
use immich_on_demand.Prelude.Dict.{Dict, get, put, contains}
use immich_on_demand.Prelude.Exec.{ok, err, ◌>>=◌}
use immich_on_demand.Errors.{capacity_error}
use immich_on_demand.Model.Asset.{Asset}
use immich_on_demand.Cache.{CacheHost, CachedFile, ContentCache, is_busy}
use immich_on_demand.Cache.Space.{
  complete_entries, sum_sizes, entries_of, Sweep, swept, make_room, fits, sum_counts, evictable_of,
  sweep_of, is_evictable, reserve, reserve_room, reserve_after, settle, sum_written,
}
use immich_on_demand.Cache.Space.Entries.{
  Distinct, complete-Distinct, complete_found, sorted-Distinct, get-sorted, evictable-Distinct,
  evictable_found,
}
use immich_on_demand.Cache.Space.Sweeping.{
  total_size, Tracks, Listed, Sweeps, swept-Listed, swept-Tracks, after_swept, none-Sweeps,
  swept_size, swept_free, if-Sweeps,
}

-- A test that only gets easier as files leave.
abbrev pub Eases : (ℕ → ℕ → Bool) → Type 0
Eases enough = (t t' f f' : ℕ) → t' ≤ t → f ≤ f' → enough t f ≡ true → enough t' f' ≡ true

within_mono :
    (t t' n : ℕ) (limit : Option ℕ)
    → t' ≤ t
    → none_or (leb (t + n)) limit ≡ true
    → none_or (leb (t' + n)) limit ≡ true
within_mono t t' n none le e = refl
within_mono t t' n (some m) le e = ground arith

fits-Eases : (c : ContentCache) (p : Bool) (size : ℕ) → Eases (fits c p size)
unfolding fits
fits-Eases c p size t t' f f' le le' e =
    ground (arith, within_mono t t' (sum_counts c.reservations + size) c.max_bytes le)

module _ (h : CacheHost) (enough : ℕ → ℕ → Bool) where
  make_room-Sweeps :
      (entries : Dict CachedFile) (s : Sweep)
      → Listed h entries s.cache
      → Tracks h s
      → Sweeps h entries s (make_room enough entries s)
  unfolding make_room
  make_room-Sweeps [] s l t = none-Sweeps h [] s t
  make_room-Sweeps ((name, f) ∷ entries) s l t =
      if-Sweeps h ((name, f) ∷ entries) s s _ (enough s.total s.free)
        (none-Sweeps h ((name, f) ∷ entries) s t)
        (after_swept h name f entries s l t _ (
          make_room-Sweeps entries (swept name f s) (swept-Listed h name f entries s l)
            (swept-Tracks h name f entries s l t)))

  -- If removing every listed entry is enough, the loop makes enough room.
  make_room-enough :
      (entries : Dict CachedFile) (s : Sweep)
      → Eases enough
      → Listed h entries s.cache
      → Tracks h s
      → enough (s.total - sum_sizes entries) (s.free + sum_sizes entries) ≡ true
      → enough (make_room enough entries s).total (make_room enough entries s).free ≡ true
  unfolding make_room sum_sizes
  make_room-enough [] s eases l t e = eases _ _ _ _ (omega arith) (omega arith) e
  make_room-enough ((name, f) ∷ entries) s eases l t e = elim (Bool-cases (enough s.total s.free)) [
    | inl fits ↦ rw fits fits
    | inr full ↦ rw full (
        make_room-enough entries (swept name f s) eases (swept-Listed h name f entries s l)
          (swept-Tracks h name f entries s l t)
          (eases _ _ _ _ (omega (arith, swept_size h name f entries s l t))
            (omega (arith, swept_free h name f entries s l t)) e))
  ]

-- What `_reserve` may remove are complete originals, neither pinned nor busy.
pub evictable-Listed :
    (h : CacheHost) (c : ContentCache) → Distinct c.files → Listed h (evictable_of h c) c
unfolding evictable_of entries_of
evictable-Listed h c d = record {
  distinct = evictable-Distinct c _ (sorted-Distinct _ (complete-Distinct h c.files d));
  stored = λ j f e. complete_found h c.files j f d (
      sym (get-sorted (complete_entries h c.files) j (complete-Distinct h c.files d))
      ∙ (evictable_found c _ j f (sorted-Distinct _ (complete-Distinct h c.files d)) e).0);
}

evictable_only :
    (h : CacheHost) (c : ContentCache) (j : Text)
    → Distinct c.files
    → is_evictable c j ≡ false
    → get (evictable_of h c) j ≡ none
unfolding evictable_of entries_of
evictable_only h c j d e = elim (Option-cases (get (evictable_of h c) j)) [
  | inl absent ↦ absent
  | inr (f, found) ↦ absurd (
      ground (
        arith,
        (evictable_found c _ j f (sorted-Distinct _ (complete-Distinct h c.files d)) found).1,
      ))
]

entries_only :
    (h : CacheHost) (c : ContentCache) (j : Text)
    → Distinct c.files
    → get (entries_of h c) j ≡ none
    → get (evictable_of h c) j ≡ none
unfolding evictable_of entries_of
entries_only h c j d absent = elim (Option-cases (get (evictable_of h c) j)) [
  | inl e ↦ e
  | inr (f, found) ↦ absurd (
      ground (
        arith,
        absent,
        (evictable_found c _ j f (sorted-Distinct _ (complete-Distinct h c.files d)) found).0,
        get-sorted (complete_entries h c.files) j (complete-Distinct h c.files d),
      ))
]

-- The original fits, at the latest when every original that is neither pinned nor busy is gone: a
-- pinned original may pass the capacity, and none the free-space floor.
unfoldable pub can_fit : CacheHost → Asset → ℕ → ℕ → ContentCache → Bool
unfolding total_size evictable_of sum_sizes
can_fit h asset size free c =
    let is_pinned = contains c.pinned asset.id in
    let reclaimable = sum_sizes (evictable_of h c) in
    (is_pinned || none_or (leb size) c.max_bytes)
    && (is_pinned
        || none_or (leb (total_size h c - reclaimable + sum_counts c.reservations + size))
            c.max_bytes)
    && leb (c.minimum_free_bytes + size + sum_counts c.reservations)
        (free + reclaimable + sum_written c.written c.reservations)

-- A successful reservation: the space is there, and what had to stay has stayed.
pub record Reserved (h : CacheHost) (asset : Asset) (size free : ℕ) (c c' : ContentCache)
    : Type 0 where
  pub free_after : ℕ
  pub balance : total_size h c' + free_after ≡ total_size h c + free
  pub capacity :
      (contains c.pinned asset.id
        || none_or (leb (total_size h c' + sum_counts c.reservations + size)) c.max_bytes)
      ≡ true
  pub floor :
      c.minimum_free_bytes + size + sum_counts c.reservations
      ≤ free_after + sum_written c.written c.reservations
  pub protected :
      (j : Text) → (contains c.pinned j || is_busy c j) ≡ true → get c'.files j ≡ get c.files j
  pub others : (j : Text) → get (entries_of h c) j ≡ none → get c'.files j ≡ get c.files j
  pub rest : c' ≡ record c {
    files = c'.files;
    validated = c'.validated;
    reservations = put c.reservations asset.id size;
    written = put c.written asset.id 0;
  }

module _ (h : CacheHost) (asset : Asset) (size free : ℕ) (c : ContentCache) where
  abbrev enough : ℕ → ℕ → Bool
  enough = fits c (contains c.pinned asset.id) size

  abbrev room : Sweep
  room = make_room enough (evictable_of h c) (sweep_of h c free)

  abbrev reserved : ContentCache
  reserved = record room.cache {
    reservations = put room.cache.reservations asset.id size;
    written = put room.cache.written asset.id 0;
  }

  reserve_refused :
      asset.size ≡ some size
      → can_fit h asset size free c ≡ false
      → reserve h asset free c ≡ (err capacity_error, c)
  unfolding fits reserve reserve_room can_fit ◌>>=◌ sweep_of total_size
  reserve_refused e n = rw e (ground arith)

  module _ (d : Distinct c.files) where
    start-Tracks : Tracks h (sweep_of h c free)
    unfolding sweep_of total_size entries_of
    start-Tracks = record { distinct = d; exact = refl }

    room-Sweeps : Sweeps h (evictable_of h c) (sweep_of h c free) room
    unfolding sweep_of
    room-Sweeps =
        make_room-Sweeps h enough (evictable_of h c) (sweep_of h c free) (evictable-Listed h c d)
          start-Tracks

    room_enough : can_fit h asset size free c ≡ true → enough room.total room.free ≡ true
    unfolding fits can_fit sweep_of total_size
    room_enough y =
        make_room-enough h enough (evictable_of h c) (sweep_of h c free)
          (fits-Eases c (contains c.pinned asset.id) size) (evictable-Listed h c d) start-Tracks
          (ground arith)

    reserve_done :
        asset.size ≡ some size
        → can_fit h asset size free c ≡ true
        → reserve h asset free c ≡ (ok tt, reserved)
    unfolding fits reserve reserve_room can_fit ◌>>=◌ total_size reserve_after settle sweep_of
    reserve_done e y = rw e (ground (arith, room_enough y))

    reserved-Reserved : can_fit h asset size free c ≡ true → Reserved h asset size free c reserved
    unfolding sweep_of total_size
    reserved-Reserved y = record {
      free_after = room.free;
      balance = omega (arith, room-Sweeps.tracks.exact, room-Sweeps.balance);
      capacity = unfold fits in (ground (arith, room-Sweeps.tracks.exact, room_enough y));
      floor = unfold fits in (ground (arith, room-Sweeps.tracks.exact, room_enough y));
      protected = λ j p.
          room-Sweeps.others j (evictable_only h c j d (unfold is_evictable in (ground arith)));
      others = λ j absent. room-Sweeps.others j (entries_only h c j d absent);
      rest =
          ap {A = ContentCache}
            (λ c'. record c' {
              reservations = put c'.reservations asset.id size;
              written = put c'.written asset.id 0;
            })
            room-Sweeps.rest;
    }

-- In a directory without two entries of one name, `_reserve` of an original of known size succeeds exactly when the original fits once every
-- original that is neither pinned nor busy is gone. It then leaves the limits satisfied with the
-- reservation counted, has removed complete originals only, none pinned or busy, and has recorded
-- the reservation. Otherwise it raises CacheCapacityError and has changed nothing.
pub reserve_outcome :
    (h : CacheHost) (asset : Asset) (size free : ℕ) (c : ContentCache)
    → Distinct c.files
    → asset.size ≡ some size
    → ((can_fit h asset size free c ≡ true)
        × (c' : ContentCache) × (reserve h asset free c ≡ (ok tt, c'))
        × Reserved h asset size free c c')
      ⊎ ((can_fit h asset size free c ≡ false) × (reserve h asset free c ≡ (err capacity_error, c)))
reserve_outcome h asset size free c d e = elim (Bool-cases (can_fit h asset size free c)) [
  | inl y ↦ inl (
    y,
    reserved h asset size free c,
    reserve_done h asset size free c d e y,
    reserved-Reserved h asset size free c d y,
  )
  | inr n ↦ inr (n, reserve_refused h asset size free c e n)
]
