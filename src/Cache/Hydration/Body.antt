-- ===== src/Cache/Hydration/Body.antt =====
-- What the body of `hydrate` in src/immich_on_demand/content_cache.py leaves: an original that was found or
-- downloaded, and touched.
use immich_on_demand.Errors.{downloads_disabled}
use immich_on_demand.Cache.Space.{reserve}
use immich_on_demand.Cache.Download.Receiving.{body}
use immich_on_demand.Prelude.{
  ℕ, none, some, Bool, true, false, ◌≡◌, ◌≢◌, refl, arith, ◌∙◌, ap, sym, inl, inr, Option-cases,
}
use immich_on_demand.Prelude.Text.{=ₜ-refl}
use immich_on_demand.Prelude.Exec.{ok, guard, ◌>>=◌, ◌>>◌, bind_split, err_not_ok}
use immich_on_demand.Prelude.Dict.{get, get-put}
use immich_on_demand.Model.Asset.{Asset}
use immich_on_demand.Cache.{CacheHost, CachedFile, file_size, ContentCache, require_uuid}
use immich_on_demand.Cache.Download.{validation, Stamp, download, Response}
use immich_on_demand.Cache.Download.Storing.{download_outcome, stored_file, delivered_size}
use immich_on_demand.Cache.Hydration.{
  complete_info, info_of, cached_path, touch, touch_info, fetch, fetch_missing, hydrate_body,
  Environment,
}
use immich_on_demand.Cache.Hydration.Present.{IsPresent, cached-IsPresent}

module _ (h : CacheHost) (asset : Asset) where
  download_unknown :
      (stamp : Stamp) (response : Response) (c : ContentCache)
      → asset.size ≡ none
      → (download h asset stamp response c).0 ≢ ok tt
  unfolding download require_uuid ◌>>=◌
  download_unknown stamp response c unknown e = absurd (ground (arith, unknown))

  download-IsPresent :
      (stamp : Stamp) (response : Response) (c : ContentCache)
      → (download h asset stamp response c).0 ≡ ok tt
      → IsPresent asset (download h asset stamp response c).1
  download-IsPresent stamp response c e = elim (Option-cases asset.size) [
    | inl unknown ↦ absurd (download_unknown stamp response c unknown e)
    | inr (size, known) ↦ elim (download_outcome h asset size stamp response c known) [
      | inl (delivered, mtime, m, c', done, placed) ↦ rw done (record {
        file = stored_file stamp (body response.chunks) mtime;
        found =
            ap (λ (d : ContentCache). get d.files asset.id) placed
            ∙ ground (
              arith,
              get-put c.files asset.id asset.id (stored_file stamp (body response.chunks) mtime),
              =ₜ-refl asset.id,
            );
        own = refl;
        sized =
            known
            ∙ ap {A = ℕ} (λ n. some n)
                (sym (delivered_size h asset size c.minimum_free_bytes response delivered));
      })
      | inr (missed, x, c', failed, only) ↦ absurd (err_not_ok _ x tt (ap (λ p. p.0) failed) e)
    ]
  ]

  fetch-IsPresent :
      (env : Environment) (c : ContentCache)
      → (fetch h asset env c).0 ≡ ok tt
      → IsPresent asset (fetch h asset env c).1
  unfolding fetch
  fetch-IsPresent env c e =
      let (a, first, last, whole) =
        bind_split (guard c.downloads_enabled downloads_disabled >> reserve h asset env.free)
          (λ _. download h asset env.stamp env.response) c tt e in
      rw whole (download-IsPresent env.stamp env.response _ last)

  complete_found :
      (f : CachedFile) (c : ContentCache)
      → get c.files asset.id ≡ some f
      → f.is_own ≡ true
      → complete_info asset.id c ≡ (ok (some f), c)
  unfolding complete_info info_of
  complete_found f c found own = rw found (ground (arith, own))

  pub touch-IsPresent :
      (stamp : Stamp) (c : ContentCache)
      → IsPresent asset c
      → (f : CachedFile) × (get (touch asset stamp c).1.files asset.id ≡ some f)
        × (f.is_own ≡ true)
        × (asset.size ≡ some (file_size f))
        × (get (touch asset stamp c).1.validated asset.id ≡ some (validation asset f))
  unfolding touch touch_info ◌>>=◌
  touch-IsPresent stamp c p = rw (complete_found p.file c p.found p.own) (
    record p.file { atime_ns = stamp.now_ns; ctime_ns = stamp.ctime_ns },
    ground (
      arith,
      get-put c.files asset.id asset.id
          (record p.file { atime_ns = stamp.now_ns; ctime_ns = stamp.ctime_ns }),
      =ₜ-refl asset.id,
    ),
    p.own,
    p.sized,
    ground (
      arith,
      get-put c.validated asset.id asset.id
          (validation asset (record p.file { atime_ns = stamp.now_ns; ctime_ns = stamp.ctime_ns })),
      =ₜ-refl asset.id,
    ),
  )

  fetch_missing-IsPresent :
      (env : Environment) (found : Bool) (c : ContentCache)
      → (found ≡ true → IsPresent asset c)
      → (fetch_missing h asset env found c).0 ≡ ok tt
      → IsPresent asset (fetch_missing h asset env found c).1
  unfolding fetch_missing
  fetch_missing-IsPresent env true c p e = p refl
  fetch_missing-IsPresent env false c p e = fetch-IsPresent env c e

  -- The body ends with the touch of an original that is there.
  pub body-IsPresent :
      (env : Environment) (c : ContentCache)
      → (hydrate_body h asset env c).0 ≡ ok tt
      → (d : ContentCache) × IsPresent asset d
        × (hydrate_body h asset env c ≡ touch asset env.stamp d)
  unfolding hydrate_body
  body-IsPresent env c e =
      let (found, first, last, whole) =
        bind_split (cached_path h asset c.downloads_enabled env.reading)
          (λ found. (fetch_missing h asset env found >> touch asset env.stamp)) c tt e in
      let d = (cached_path h asset c.downloads_enabled env.reading c).1 in
      let (a, fetched, touched, rest) =
        bind_split (fetch_missing h asset env found) (λ _. touch asset env.stamp) d tt last in
      (
        (fetch_missing h asset env found d).1,
        fetch_missing-IsPresent env found d
            (λ yes_found.
              cached-IsPresent h asset c.downloads_enabled env.reading c
                (first ∙ ap (λ b. ok b) yes_found))
            fetched,
        whole ∙ rest,
      )
