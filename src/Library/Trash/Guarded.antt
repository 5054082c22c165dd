-- ===== src/Library/Trash/Guarded.antt =====
-- What `remote_trash` and `remote_restore` of src/immich_on_demand/library.py ask of the server.
use mathlib.Core.Path.{subst}
use immich_on_demand.Prelude.{
  ◌∷◌, some, true, ◌≡◌, refl, sym, ap, ◌∙◌, arith, ◌⊎◌, inl, inr, Option-cases,
}
use immich_on_demand.Prelude.Text.{Text, ◌=ₜ◌, =ₜ_iff}
use immich_on_demand.Prelude.Exec.{ok, ◌>>=◌, Result-cases}
use immich_on_demand.Errors.{Fallible}
use immich_on_demand.Model.Asset.{CatalogAsset}
use immich_on_demand.Library.{Library, ServerSession, mutation_access}
use immich_on_demand.Library.Trash.{
  CatalogOps, Request, trash, restore, Shelf, send_request, change, ask_server, trash_target,
  remote_trash, restore_target, remote_restore, MayChange, TrashSent, RestoreSent,
}

module _ {C : Type 0} (ops : CatalogOps C) (reply : Request → Fallible (Unit {0})) where
  access_session :
      (library : Library) (session : ServerSession)
      → mutation_access library ≡ ok session
      → library.session ≡ some session
  unfolding mutation_access
  access_session library session h = ground arith

  trash_target_found :
      (library : Library) (entry current : CatalogAsset) (catalog : C)
      → trash_target ops reply library entry catalog ≡ ok current
      → MayChange ops reply library current
        × (ops.by_inode catalog entry.inode ≡ some current)
        × (current.asset.id ≡ entry.asset.id)
  unfolding trash_target
  trash_target_found library entry current catalog h =
      elim (Result-cases (mutation_access library)) [
        | inr (x, e) ↦ absurd (ground arith)
        | inl (session, e) ↦ elim (Option-cases (ops.by_inode catalog entry.inode)) [
          | inl k ↦ absurd (ground arith)
          | inr (found, k) ↦
              let (p, t, o, i, same) : (library.settings.remote_delete ≡ true)
                  × (session.trash_enabled ≡ true)
                  × ((found.asset.owner_id =ₜ session.owner_id) ≡ true)
                  × ((found.asset.id =ₜ entry.asset.id) ≡ true)
                  × (found ≡ current) =
                ground arith in
              (
                record {
                  permitted = p;
                  session = session;
                  opened = access_session library session e;
                  trash_enabled = t;
                  owned =
                      ap (λ (a : CatalogAsset). a.asset.owner_id) (sym same)
                      ∙ (=ₜ_iff found.asset.owner_id session.owner_id).0 o;
                },
                k ∙ ap (λ a. some a) same,
                ap (λ (a : CatalogAsset). a.asset.id) (sym same)
                    ∙ (=ₜ_iff found.asset.id entry.asset.id).0 i,
              )
        ]
      ]

  module _ (request : Request) (mark : C → Fallible C) (s : Shelf C) where
    asked_once : (ask_server ops reply request mark s).1.requests ≡ request ∷ s.requests
    unfolding ask_server send_request change ◌>>=◌
    asked_once = elim (Result-cases (reply request)) [
      | inr (x, e) ↦ rw e refl
      | inl (a, e) ↦ elim (Result-cases (mark s.catalog)) [
        | inl (c, k) ↦ rw (e, k) refl
        | inr (x, k) ↦ rw (e, k) refl
      ]
    ]

    marked_after :
        ((ask_server ops reply request mark s).1.catalog ≡ s.catalog)
        ⊎ ((reply request ≡ ok tt)
            × (mark s.catalog ≡ ok (ask_server ops reply request mark s).1.catalog))
    unfolding ask_server send_request change ◌>>=◌
    marked_after = elim (Result-cases (reply request)) [
      | inr (x, e) ↦ inl (rw e refl)
      | inl (a, e) ↦ elim (Result-cases (mark s.catalog)) [
        | inl (c, k) ↦ inr (e, rw (e, k) refl)
        | inr (x, k) ↦ inl (rw (e, k) refl)
      ]
    ]

  -- However it ends, `remote_trash` changes nothing, or it has sent one request, which a library with
  -- remote deletion and an open session with trash may send for an own asset that the catalog lists under
  -- the inode; the catalog is then unchanged, or marked after the server's consent.
  pub remote_trash-TrashSent :
      (library : Library) (entry : CatalogAsset) (s : Shelf C)
      → ((remote_trash ops reply library entry s).1 ≡ s)
        ⊎ TrashSent ops reply library entry s (remote_trash ops reply library entry s).1
  unfolding remote_trash ◌>>=◌
  remote_trash-TrashSent library entry s =
      elim (Result-cases (trash_target ops reply library entry s.catalog)) [
        | inr (x, e) ↦ inl (rw e refl)
        | inl (current, e) ↦
            let (may, listed, same) = trash_target_found library entry current s.catalog e in
            let mark : C → Fallible C = λ c. ops.mark_trashed c current.asset.id in
            inr (
              rw e (record {
                current = current;
                may = may;
                listed = listed;
                same_asset = same;
                sent = asked_once (trash current.asset.id) mark s;
                marked = marked_after (trash current.asset.id) mark s;
              }))
      ]

  restore_target_found :
      (library : Library) (asset_id : Text) (current : CatalogAsset) (catalog : C)
      → restore_target ops reply library asset_id catalog ≡ ok current
      → MayChange ops reply library current
        × (ops.by_id catalog asset_id ≡ some current)
        × (current.asset.is_trashed ≡ true)
        × (ops.restore_projects_standalone catalog current.asset.id ≡ true)
  unfolding restore_target
  restore_target_found library asset_id current catalog h =
      elim (Result-cases (mutation_access library)) [
        | inr (x, e) ↦ absurd (ground arith)
        | inl (session, e) ↦ elim (Option-cases (ops.by_id catalog asset_id)) [
          | inl k ↦ absurd (ground arith)
          | inr (found, k) ↦
              let (p, t, o, i, j, same) : (library.settings.remote_delete ≡ true)
                  × (session.trash_enabled ≡ true)
                  × ((found.asset.owner_id =ₜ session.owner_id) ≡ true)
                  × (found.asset.is_trashed ≡ true)
                  × (ops.restore_projects_standalone catalog found.asset.id ≡ true)
                  × (found ≡ current) =
                ground arith in
              (
                record {
                  permitted = p;
                  session = session;
                  opened = access_session library session e;
                  trash_enabled = t;
                  owned =
                      ap (λ (a : CatalogAsset). a.asset.owner_id) (sym same)
                      ∙ (=ₜ_iff found.asset.owner_id session.owner_id).0 o;
                },
                k ∙ ap (λ a. some a) same,
                ap (λ (a : CatalogAsset). a.asset.is_trashed) (sym same) ∙ i,
                ap (λ (a : CatalogAsset). ops.restore_projects_standalone catalog a.asset.id)
                      (sym same)
                    ∙ j,
              )
        ]
      ]

  -- However it ends, `remote_restore` changes nothing, or it has sent one request, which a library with
  -- remote deletion and an open session with trash may send for an own asset that the catalog has in the
  -- trash and would show when restored; the catalog is then unchanged, or marked after the server's consent.
  pub remote_restore-RestoreSent :
      (library : Library) (asset_id : Text) (s : Shelf C)
      → ((remote_restore ops reply library asset_id s).1 ≡ s)
        ⊎ RestoreSent ops reply library asset_id s (remote_restore ops reply library asset_id s).1
  unfolding remote_restore ◌>>=◌
  remote_restore-RestoreSent library asset_id s =
      elim (Result-cases (restore_target ops reply library asset_id s.catalog)) [
        | inr (x, e) ↦ inl (rw e refl)
        | inl (current, e) ↦
            let (may, listed, in_trash, projects) =
              restore_target_found library asset_id current s.catalog e in
            let mark : C → Fallible C = λ c. ops.mark_restored c current.asset.id in
            let request = restore current.asset.id in
            let same : (remote_restore ops reply library asset_id s).1
                ≡ (ask_server ops reply request mark s).1 =
              elim (Result-cases (ask_server ops reply request mark s).0) [
                | inl (a, k) ↦ rw (e, k) refl
                | inr (x, k) ↦ rw (e, k) refl
              ] in
            inr (
              subst (RestoreSent ops reply library asset_id s) (sym same) (record {
                current = current;
                may = may;
                listed = listed;
                in_trash = in_trash;
                projects = projects;
                sent = asked_once request mark s;
                marked = marked_after request mark s;
              }))
      ]
