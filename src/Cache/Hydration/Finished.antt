-- ===== src/Cache/Hydration/Finished.antt =====
-- What a finished `hydrate` leaves in the cache.
use immich_on_demand.Errors.{Exception, downloads_disabled, busy_error, cache_error, local_error}
use immich_on_demand.Prelude.{
  none, some, Bool, true, false, ◌≡◌, ◌≢◌, refl, ◌∙◌, ap, inl, inr, Bool-cases, List, [], ◌∷◌,
  Option,
}
use immich_on_demand.Prelude.Exec.{ok, pure, raise, bind_split, err_not_ok}
use immich_on_demand.Prelude.Dict.{get, contains, add, get-remove_same, contains-discard_same}
use immich_on_demand.Model.Asset.{Asset}
use immich_on_demand.Cache.{CacheHost, CachedFile, file_size, ContentCache, CacheAction}
use immich_on_demand.Cache.Download.{validation, Stamp}
use immich_on_demand.Cache.Hydration.{
  cached_path, touch, finish_hydration, hydrate, hydrate_alone, hydrate_from, Environment, Wait,
  Waited, ready, again, go_on, after_wait, touch_found, Reading,
}
use immich_on_demand.Cache.Hydration.Present.{IsPresent, cached-IsPresent}
use immich_on_demand.Cache.Hydration.Body.{touch-IsPresent, body-IsPresent}

-- A complete original of the asset's size stands in the cache, with its validation recorded.
pub record Stored (asset : Asset) (c : ContentCache) : Type 0 where
  pub file : CachedFile
  pub found : get c.files asset.id ≡ some file
  pub own : file.is_own ≡ true
  pub sized : asset.size ≡ some (file_size file)
  pub checked : get c.validated asset.id ≡ some (validation asset file)

-- Neither a reservation nor a hydration of the asset is left.
pub record Over (asset : Asset) (c : ContentCache) : Type 0 where
  pub unreserved : (get c.reservations asset.id ≡ none) × (get c.written asset.id ≡ none)
  pub idle : contains c.hydrations asset.id ≡ false

-- What a `hydrate` that has returned leaves; its own hydration is over, if it did not wait for
-- another's.
pub record Hydrated (asset : Asset) (before after : ContentCache) : Type 0 where
  pub stored : Stored asset after
  pub over : contains before.hydrations asset.id ≡ false → Over asset after

module _ (h : CacheHost) (asset : Asset) where
  touch-Stored :
      (stamp : Stamp) (c : ContentCache) → IsPresent asset c → Stored asset (touch asset stamp c).1
  touch-Stored stamp c p =
      let (f, found, own, sized, checked) = touch-IsPresent h asset stamp c p in
      record { file = f; found = found; own = own; sized = sized; checked = checked }

  alone-Stored :
      (env : Environment) (c : ContentCache)
      → (hydrate_alone h asset env c).0 ≡ ok tt
      → Stored asset (hydrate_alone h asset env c).1
  unfolding hydrate_alone finish_hydration
  alone-Stored env c e =
      let (d, present, last) =
        body-IsPresent h asset env (record c { hydrations = add c.hydrations asset.id }) e in
      let s = touch-Stored env.stamp d present in
      record {
        file = s.file;
        found = ap (λ p. get p.1.files asset.id) last ∙ s.found;
        own = s.own;
        sized = s.sized;
        checked = ap (λ p. get p.1.validated asset.id) last ∙ s.checked;
      }

  alone-Over : (env : Environment) (c : ContentCache) → Over asset (hydrate_alone h asset env c).1
  unfolding hydrate_alone finish_hydration
  alone-Over env c = record {
    unreserved = (get-remove_same _ asset.id, get-remove_same _ asset.id);
    idle = contains-discard_same _ asset.id;
  }

  touch_found-Stored :
      (stamp : Stamp) (otherwise : CacheAction Waited) (found : Bool) (c : ContentCache)
      → ((d : ContentCache) → (otherwise d).0 ≢ ok ready)
      → (found ≡ true → IsPresent asset c)
      → (touch_found asset stamp otherwise found c).0 ≡ ok ready
      → Stored asset (touch_found asset stamp otherwise found c).1
  unfolding touch_found pure
  touch_found-Stored stamp otherwise false c never p e = absurd (never c e)
  touch_found-Stored stamp otherwise true c never p e =
      let (u, first, last, whole) = bind_split (touch asset stamp) (λ _. pure ready) c ready e in
      rw whole (touch-Stored stamp c (p refl))

  after_wait-Stored :
      (r : Reading) (stamp : Stamp) (error : Option Exception) (c : ContentCache)
      → (after_wait h asset r stamp error c).0 ≡ ok ready
      → Stored asset (after_wait h asset r stamp error c).1
  unfolding after_wait raise pure
  after_wait-Stored r stamp none c e =
      let (found, first, last, whole) =
        bind_split (cached_path h asset true r) (touch_found asset stamp (pure again)) c ready e in
      rw whole (
        touch_found-Stored stamp (pure again) found (cached_path h asset true r c).1
          (λ d k. absurd cc) (λ t. cached-IsPresent h asset true r c (first ∙ ap (λ b. ok b) t))
          last)
  after_wait-Stored r stamp (some downloads_disabled) c e = absurd cc
  after_wait-Stored r stamp (some busy_error) c e =
      let (found, first, last, whole) =
        bind_split (cached_path h asset true r) (touch_found asset stamp (raise cache_error)) c
          ready e in
      rw whole (
        touch_found-Stored stamp (raise cache_error) found (cached_path h asset true r c).1
          (λ d k. absurd cc) (λ t. cached-IsPresent h asset true r c (first ∙ ap (λ b. ok b) t))
          last)
  after_wait-Stored r stamp (some _) c e = absurd cc

  go_on-Stored :
      (next : CacheAction Unit) (w : Waited) (c : ContentCache)
      → (w ≡ ready → Stored asset c)
      → ((next c).0 ≡ ok tt → Stored asset (next c).1)
      → (go_on next w c).0 ≡ ok tt
      → Stored asset (go_on next w c).1
  unfolding go_on pure
  go_on-Stored next ready c s f e = s refl
  go_on-Stored next again c s f e = f e

  hydrate_from-Stored :
      (env : Environment) (waits : List Wait) (c : ContentCache)
      → (hydrate_from h asset env waits c).0 ≡ ok tt
      → Stored asset (hydrate_from h asset env waits c).1
  unfolding hydrate_from
  hydrate_from-Stored env [] c e = elim (Bool-cases (contains c.hydrations asset.id)) [
    | inl b ↦ absurd (err_not_ok _ local_error tt (rw b refl) e)
    | inr b ↦ rw b (alone-Stored env c (rw b at e))
  ]
  hydrate_from-Stored env (wait ∷ waits) c e = elim (Bool-cases (contains c.hydrations asset.id)) [
    | inr b ↦ rw b (alone-Stored env c (rw b at e))
    | inl b ↦
        let next = hydrate_from h asset env waits in
        let waited = after_wait h asset wait.reading wait.stamp wait.error in
        let c1 = wait.meanwhile c in
        let (w, first, last, whole) = bind_split waited (go_on next) c1 tt (rw b at e) in
        let c2 = (waited c1).1 in
        rw (b, whole)
          (go_on-Stored next w c2
            (λ t.
              after_wait-Stored wait.reading wait.stamp wait.error c1 (first ∙ ap (λ x. ok x) t))
            (hydrate_from-Stored env waits c2) last)
  ]

  hydrate_from_idle :
      (env : Environment) (waits : List Wait) (c : ContentCache)
      → contains c.hydrations asset.id ≡ false
      → hydrate_from h asset env waits c ≡ hydrate_alone h asset env c
  unfolding hydrate_from
  hydrate_from_idle env [] c b = rw b refl
  hydrate_from_idle env (wait ∷ waits) c b = rw b refl

-- When `hydrate` returns, a complete original of the asset's size stands under the asset's name,
-- with its validation recorded: whether it was there before, has been downloaded, or another task's
-- hydration was waited for, and whatever other tasks did in the meantime. If no hydration of the asset
-- was under way when it was called, the asset's reservation and hydration are over.
pub hydrate-Hydrated :
    (h : CacheHost) (asset : Asset) (env : Environment) (c : ContentCache)
    → (hydrate h asset env c).0 ≡ ok tt
    → Hydrated asset c (hydrate h asset env c).1
unfolding hydrate
hydrate-Hydrated h asset env c e = record {
  stored = hydrate_from-Stored h asset env env.waits c e;
  over = λ b. rw (hydrate_from_idle h asset env env.waits c b) (alone-Over h asset env c);
}
