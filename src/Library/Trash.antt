-- ===== src/Library/Trash.antt =====
-- `remote_trash` and `remote_restore` of src/immich_on_demand/library.py over any catalog: its reads and
-- marks are operations of the catalog's own state.
pub mod Guarded
use mathlib.Core.Path.{subst}
use immich_on_demand.Prelude.{
  ℕ, List, [], ◌∷◌, Option, none, some, Bool, true, false, ◌&&◌, not, ◌≡◌, refl, sym, ap, ◌∙◌,
  arith, ◌⊎◌, inl, inr, if◌then◌else◌, Bool-cases, Option-cases, is_some,
}
use immich_on_demand.Prelude.Text.{Text, ◌=ₜ◌, =ₜ_iff}
use immich_on_demand.Prelude.Exec.{
  Result, ok, err, Exec, guard, lift, pure, raise, ◌>>=◌, ◌>>◌, Result-cases,
}
use immich_on_demand.Errors.{Exception, Fallible, permission_error, library_error}
use immich_on_demand.Model.Asset.{Asset, CatalogAsset}
use immich_on_demand.Library.{Library, ServerSession, mutation_access}

-- What the library uses of `Catalog`, on a catalog's state of any type.
pub record CatalogOps (C : Type 0) : Type 0 where
  pub by_inode : C → ℕ → Option CatalogAsset
  pub by_id : C → Text → Option CatalogAsset
  pub restore_projects_standalone : C → Text → Bool
  pub mark_trashed : C → Text → Fallible C
  pub mark_restored : C → Text → Fallible C

pub data Request : Type 0 where
  trash restore : Text → Request

-- The catalog, and the requests sent to the server, the latest first.
pub record Shelf (C : Type 0) : Type 0 where
  pub catalog : C
  pub requests : List Request

module _ {C : Type 0} (ops : CatalogOps C) (reply : Request → Fallible (Unit {0})) where
  -- `await mutation.trash(…)` and `await mutation.restore(…)`
  unfoldable pub send_request : Request → Exec Exception (Shelf C) (Unit {0})
  send_request request s = (reply request, record s { requests = request ∷ s.requests })

  abbrev or_error : {A : Type 0} → Option A → Fallible A
  or_error none = err library_error
  or_error (some a) = ok a

  settle_mark : Fallible C → Exec Exception (Shelf C) (Unit {0})
  settle_mark (ok c) s = (ok tt, record s { catalog = c })
  settle_mark (err x) s = (err x, s)

  unfoldable pub change : (C → Fallible C) → Exec Exception (Shelf C) (Unit {0})
  unfolding settle_mark
  change mark s = settle_mark (mark s.catalog) s

  -- The server is asked, and then the catalog is marked.
  unfoldable pub ask_server : Request → (C → Fallible C) → Exec Exception (Shelf C) (Unit {0})
  ask_server request mark = do send_request request; change mark

  -- The entry that the guards of `remote_trash` let through.
  unfoldable pub trash_target : Library → CatalogAsset → C → Fallible CatalogAsset
  trash_target library entry catalog =
      if library.settings.remote_delete
      then elim (mutation_access library) [
        | err x ↦ err x
        | ok session ↦
            if session.trash_enabled
            then elim (ops.by_inode catalog entry.inode) [
              | none ↦ err library_error
              | some current ↦
                  if current.asset.id =ₜ entry.asset.id
                  then (if current.asset.owner_id =ₜ session.owner_id
                      then ok current
                      else err permission_error)
                  else err library_error
            ]
            else err permission_error
      ]
      else err permission_error

  -- `remote_trash`
  unfoldable pub remote_trash : Library → CatalogAsset → Exec Exception (Shelf C) (Unit {0})
  remote_trash library entry = do
    current ← λ s. (trash_target library entry s.catalog, s)
    ask_server (trash current.asset.id) (λ c. ops.mark_trashed c current.asset.id)

  unfoldable pub restore_target : Library → Text → C → Fallible CatalogAsset
  restore_target library asset_id catalog =
      if library.settings.remote_delete
      then elim (mutation_access library) [
        | err x ↦ err x
        | ok session ↦
            if session.trash_enabled
            then elim (ops.by_id catalog asset_id) [
              | none ↦ err library_error
              | some current ↦
                  if current.asset.is_trashed
                  then (if current.asset.owner_id =ₜ session.owner_id
                      then (if ops.restore_projects_standalone catalog current.asset.id
                          then ok current
                          else err library_error)
                      else err permission_error)
                  else err library_error
            ]
            else err permission_error
      ]
      else err permission_error

  -- `restored is None or restored.asset.is_trashed`
  unfoldable pub restored_entry : Option CatalogAsset → Fallible CatalogAsset
  restored_entry none = err library_error
  restored_entry (some entry) = if entry.asset.is_trashed then err library_error else ok entry

  -- `remote_restore`
  unfoldable pub remote_restore : Library → Text → Exec Exception (Shelf C) CatalogAsset
  remote_restore library asset_id = do
    current ← λ s. (restore_target library asset_id s.catalog, s)
    ask_server (restore current.asset.id) (λ c. ops.mark_restored c current.asset.id)
    λ s. (restored_entry (ops.by_id s.catalog current.asset.id), s)

  -- The library may change the server in the name of the owner of the entry.
  pub record MayChange (library : Library) (entry : CatalogAsset) : Type 0 where
    pub permitted : library.settings.remote_delete ≡ true
    pub session : ServerSession
    pub opened : library.session ≡ some session
    pub trash_enabled : session.trash_enabled ≡ true
    pub owned : entry.asset.owner_id ≡ session.owner_id

  -- What `remote_trash` has sent: nothing, or one request for the entry that stands in the catalog under
  -- the inode with the same asset, by a library that may.
  pub record TrashSent (library : Library) (entry : CatalogAsset) (s s' : Shelf C) : Type 0 where
    pub current : CatalogAsset
    pub may : MayChange library current
    pub listed : ops.by_inode s.catalog entry.inode ≡ some current
    pub same_asset : current.asset.id ≡ entry.asset.id
    pub sent : s'.requests ≡ trash current.asset.id ∷ s.requests
    pub marked :
        (s'.catalog ≡ s.catalog)
        ⊎ ((reply (trash current.asset.id) ≡ ok tt)
            × (ops.mark_trashed s.catalog current.asset.id ≡ ok s'.catalog))

  -- The same for `remote_restore`: the entry is in the trash and shows in the mount when restored.
  pub record RestoreSent (library : Library) (asset_id : Text) (s s' : Shelf C) : Type 0 where
    pub current : CatalogAsset
    pub may : MayChange library current
    pub listed : ops.by_id s.catalog asset_id ≡ some current
    pub in_trash : current.asset.is_trashed ≡ true
    pub projects : ops.restore_projects_standalone s.catalog current.asset.id ≡ true
    pub sent : s'.requests ≡ restore current.asset.id ∷ s.requests
    pub marked :
        (s'.catalog ≡ s.catalog)
        ⊎ ((reply (restore current.asset.id) ≡ ok tt)
            × (ops.mark_restored s.catalog current.asset.id ≡ ok s'.catalog))
