-- ===== src/Cache/Handles.antt =====
-- Open originals under the calls of `ContentCache` (src/immich_on_demand/content_cache.py) that do
-- not await: `acquire`, `release`, `pin`, `unpin`, `evict`, `_discard` and `enable_downloads`.
use immich_on_demand.Prelude.{
  ℕ, zero, suc, ◌-◌, List, [], ◌∷◌, none, true, false, ◌≡◌, refl, arith, ◌&&◌, not, ltb,
  if◌then◌else◌, ◌≤◌, ◌==◌,
}
use immich_on_demand.Prelude.Text.{Text, ◌=ₜ◌, =ₜ_iff, =ₜ-refl}
use immich_on_demand.Prelude.Exec.{◌>>=◌}
use immich_on_demand.Prelude.Dict.{
  get, get-put, get-remove, contains, contains-add, contains-discard,
}
use immich_on_demand.Cache.{
  CacheHost, ContentCache, or_zero, open_count, is_busy, unlink, require_uuid, acquire, release,
  pin, unpin, evict, discard_file, enable_downloads, count_open, add_pin, drop_pin, release_one,
  close_last, evict_free, unlink_found,
}

pub data HandleCall : Type 0 where
  acquired released pinned unpinned evicted discarded : Text → HandleCall
  enabled : HandleCall

-- The state that a call leaves, whether it returns or raises.
unfoldable pub handle : CacheHost → HandleCall → ContentCache → ContentCache
unfolding acquire release pin unpin evict discard_file enable_downloads
handle h (acquired id) c = (acquire h id c).1
handle h (released id) c = (release id c).1
handle h (pinned id) c = (pin h id c).1
handle h (unpinned id) c = (unpin h id c).1
handle h (evicted id) c = (evict h id c).1
handle h (discarded id) c = (discard_file id c).1
handle h enabled c = (enable_downloads c).1

unfoldable pub handle_all : CacheHost → List HandleCall → ContentCache → ContentCache
handle_all h [] c = c
handle_all h (call ∷ calls) c = handle_all h calls (handle h call c)

-- A discard waits only for an original that is open.
pub record WaitsOnlyForOpen (c : ContentCache) : Type 0 where
  pub waits : (j : Text) → contains c.pending_discards j ≡ true → ltb 0 (open_count c j) ≡ true

module _ (c : ContentCache) (j : Text) where
  -- What a release does, by the number of handles before it.
  release_one_effect :
      (id : Text) (n : ℕ)
      → open_count c id ≡ n
      → (open_count (release_one id n c).1 j ≡ (if id =ₜ j then n - 1 else open_count c j))
        × (contains (release_one id n c).1.pending_discards j
            ≡ (contains c.pending_discards j && not (id =ₜ j && n == 1)))
        × (get (release_one id n c).1.files j
            ≡ (if id =ₜ j && n == 1 && contains c.pending_discards id then none else get c.files j))
  unfolding release_one close_last discard_file unlink open_count
  release_one_effect id zero e = ground (arith, e, =ₜ_iff id j)
  release_one_effect id (suc zero) e = ground (
    arith,
    e,
    get-remove c.opened id j,
    get-remove c.opened id id,
    get-remove c.files id j,
    contains-discard c.pending_discards id j,
    =ₜ_iff id j,
    =ₜ-refl id,
  )
  release_one_effect id (suc (suc n)) e =
      ground (arith, e, get-put c.opened id j (suc n), =ₜ_iff id j)

module _ (h : CacheHost) (c : ContentCache) (j : Text) where
  acquire_effect :
      (id : Text)
      → (open_count c j ≤ open_count (acquire h id c).1 j)
        × ((acquire h id c).1.pending_discards ≡ c.pending_discards)
        × ((acquire h id c).1.files ≡ c.files)
  unfolding acquire require_uuid count_open open_count ◌>>=◌
  acquire_effect id =
      ground (arith, get-put c.opened id j (suc (or_zero (get c.opened id))), =ₜ_iff id j)

  discard_effect :
      (id : Text)
      → (open_count (discard_file id c).1 j ≡ open_count c j)
        × (contains (discard_file id c).1.pending_discards j
            ≡ (if id =ₜ j then ltb 0 (open_count c id) else contains c.pending_discards j))
        × (get (discard_file id c).1.files j
            ≡ (if id =ₜ j && not (ltb 0 (open_count c id)) then none else get c.files j))
  unfolding discard_file unlink open_count
  discard_effect id = ground (
    arith,
    get-remove c.files id j,
    contains-add c.pending_discards id j,
    contains-discard c.pending_discards id j,
    =ₜ_iff id j,
  )

  evict_effect :
      (id : Text)
      → (open_count (evict h id c).1 j ≡ open_count c j)
        × ((evict h id c).1.pending_discards ≡ c.pending_discards)
        × (ltb 0 (open_count c j) ≡ true → get (evict h id c).1.files j ≡ get c.files j)
  unfolding evict evict_free unlink_found unlink is_busy open_count require_uuid ◌>>=◌
  evict_effect id = ground (arith, get-remove c.files id j, =ₜ_iff id j)

  pin_effect :
      (id : Text)
      → ((pin h id c).1.opened ≡ c.opened)
        × ((pin h id c).1.pending_discards ≡ c.pending_discards)
        × ((pin h id c).1.files ≡ c.files)
  unfolding pin require_uuid add_pin ◌>>=◌
  pin_effect id = ground arith

  unpin_effect :
      (id : Text)
      → ((unpin h id c).1.opened ≡ c.opened)
        × ((unpin h id c).1.pending_discards ≡ c.pending_discards)
        × ((unpin h id c).1.files ≡ c.files)
  unfolding unpin require_uuid drop_pin ◌>>=◌
  unpin_effect id = ground arith

-- One call.
handle-WaitsOnlyForOpen :
    (h : CacheHost) (call : HandleCall) (c : ContentCache)
    → WaitsOnlyForOpen c
    → WaitsOnlyForOpen (handle h call c)
unfolding handle
handle-WaitsOnlyForOpen h (acquired id) c w = record {
  waits = λ j p. ground (arith, w.waits j, acquire_effect h c j id);
}
handle-WaitsOnlyForOpen h (released id) c w = record {
  waits = λ j p.
      ground (arith, w.waits j, release_one_effect c j id (open_count c id) refl, =ₜ_iff id j);
}
handle-WaitsOnlyForOpen h (pinned id) c w = record {
  waits = λ j p. unfold open_count in (ground (arith, w.waits j, pin_effect h c j id));
}
handle-WaitsOnlyForOpen h (unpinned id) c w = record {
  waits = λ j p. unfold open_count in (ground (arith, w.waits j, unpin_effect h c j id));
}
handle-WaitsOnlyForOpen h (evicted id) c w = record {
  waits = λ j p. ground (arith, w.waits j, evict_effect h c j id);
}
handle-WaitsOnlyForOpen h (discarded id) c w = record {
  waits = λ j p. ground (arith, w.waits j, discard_effect h c j id, =ₜ_iff id j);
}
handle-WaitsOnlyForOpen h enabled c w = record {
  waits = λ j p. unfold enable_downloads in (unfold open_count in (ground (arith, w.waits j)));
}

-- After any sequence of these calls from a cache in which discards wait only for open originals, such as one with no
-- waiting discard, this is still so: no discard is left waiting for a handle that nobody holds.
pub handle_all-WaitsOnlyForOpen :
    (h : CacheHost) (calls : List HandleCall) (c : ContentCache)
    → WaitsOnlyForOpen c
    → WaitsOnlyForOpen (handle_all h calls c)
unfolding handle_all
handle_all-WaitsOnlyForOpen h [] c w = w
handle_all-WaitsOnlyForOpen h (call ∷ calls) c w =
    handle_all-WaitsOnlyForOpen h calls (handle h call c) (handle-WaitsOnlyForOpen h call c w)

-- None of these calls takes the file of an original that was open before it and is open after it.
pub handle_open_file :
    (h : CacheHost) (call : HandleCall) (c : ContentCache) (j : Text)
    → ltb 0 (open_count c j) ≡ true
    → ltb 0 (open_count (handle h call c) j) ≡ true
    → get (handle h call c).files j ≡ get c.files j
unfolding handle
handle_open_file h (acquired id) c j o o' = ground (arith, acquire_effect h c j id)
handle_open_file h (released id) c j o o' =
    ground (arith, release_one_effect c j id (open_count c id) refl, =ₜ_iff id j)
handle_open_file h (pinned id) c j o o' = ground (arith, pin_effect h c j id)
handle_open_file h (unpinned id) c j o o' = ground (arith, unpin_effect h c j id)
handle_open_file h (evicted id) c j o o' = ground (arith, evict_effect h c j id)
handle_open_file h (discarded id) c j o o' = ground (arith, discard_effect h c j id, =ₜ_iff id j)
handle_open_file h enabled c j o o' = unfold enable_downloads in refl

-- The calls that close `n` handles of an original.
unfoldable pub releases : Text → ℕ → List HandleCall
releases id zero = []
releases id (suc n) = released id ∷ releases id n

-- The original is gone, its discard does not wait any more, and no handle of it is open.
pub record Discarded (id : Text) (c : ContentCache) : Type 0 where
  pub gone : get c.files id ≡ none
  pub settled : contains c.pending_discards id ≡ false
  pub closed : open_count c id ≡ 0

release_last :
    (c : ContentCache) (id : Text)
    → open_count c id ≡ 1
    → contains c.pending_discards id ≡ true
    → Discarded id (release id c).1
unfolding release
release_last c id one waiting = rw one (record {
  gone = ground (arith, waiting, release_one_effect c id id 1 one, =ₜ-refl id);
  settled = ground (arith, waiting, release_one_effect c id id 1 one, =ₜ-refl id);
  closed = ground (arith, waiting, release_one_effect c id id 1 one, =ₜ-refl id);
})

release_further :
    (c : ContentCache) (id : Text) (n : ℕ)
    → open_count c id ≡ suc (suc n)
    → contains c.pending_discards id ≡ true
    → (open_count (release id c).1 id ≡ suc n)
      × (contains (release id c).1.pending_discards id ≡ true)
unfolding release
release_further c id n more waiting =
    rw more (ground (arith, waiting, release_one_effect c id id (suc (suc n)) more, =ₜ-refl id))

releases-Discarded :
    (h : CacheHost) (id : Text) (n : ℕ) (c : ContentCache)
    → open_count c id ≡ suc n
    → contains c.pending_discards id ≡ true
    → Discarded id (handle_all h (releases id (suc n)) c)
unfolding handle_all handle releases
releases-Discarded h id zero c one waiting = release_last c id one waiting
releases-Discarded h id (suc n) c more waiting =
    let (fewer, still) = release_further c id n more waiting in
    releases-Discarded h id n (release id c).1 fewer still

-- If an original that is open is to be discarded, its file is kept for now, and when all its handles
-- have been released, the file and the waiting discard are gone.
pub discard-Discarded :
    (h : CacheHost) (id : Text) (n : ℕ) (c : ContentCache)
    → open_count c id ≡ suc n
    → (get (handle h (discarded id) c).files id ≡ get c.files id)
      × Discarded id (handle_all h (discarded id ∷ releases id (suc n)) c)
unfolding handle_all handle
discard-Discarded h id n c held = (
  ground (arith, discard_effect h c id id, =ₜ-refl id),
  releases-Discarded h id n (discard_file id c).1
      (ground (arith, discard_effect h c id id, =ₜ-refl id))
      (ground (arith, discard_effect h c id id, =ₜ-refl id)),
)
