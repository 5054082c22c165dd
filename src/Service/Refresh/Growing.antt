-- ===== src/Service/Refresh/Growing.antt =====
-- Nothing that the policy of `_replacement_refresh_policy` in src/immich_on_demand/service.py holds is lost
-- by what a round adds.
use mathlib.Core.Path.{subst}
use mathlib.Core.List.{Memᴰ}
use immich_on_demand.Prelude.{some, true, ◌≡◌, refl, arith, inl, inr, Bool-cases, false, ◌∙◌}
use immich_on_demand.Prelude.Text.{Text, ◌=ₜ◌, =ₜ_iff}
use immich_on_demand.Prelude.Dict.{Dict, get, contains, get-put, contains-add}
use immich_on_demand.Model.Asset.{Asset, CatalogAsset}
use immich_on_demand.Service.Refresh.{RefreshHost, Signature, Policy, preserve, exclude, sign}

-- An asset of this identifier is preserved, as the catalog lists it.
pub record Listed (h : RefreshHost) (d : Dict Asset) (id : Text) : Type 0 where
  pub entry : CatalogAsset
  pub key : Text
  pub listed : h.by_id key ≡ some entry
  pub same_id : entry.asset.id ≡ id
  pub kept : get d id ≡ some entry.asset

-- Nothing that the policy holds is lost.
pub record Grows (h : RefreshHost) (p q : Policy) : Type 0 where
  pub preserved : (id : Text) → Listed h p.preserved id → Listed h q.preserved id
  pub excluded : (id : Text) → contains p.excluded id ≡ true → contains q.excluded id ≡ true
  pub signatures : (s : Signature) → Memᴰ s p.signatures → Memᴰ s q.signatures

module _ (h : RefreshHost) where
  pub Grows-refl : (p : Policy) → Grows h p p
  Grows-refl p = record { preserved = λ id e. e; excluded = λ id e. e; signatures = λ s m. m }

  pub Grows-trans : (p q r : Policy) → Grows h p q → Grows h q r → Grows h p r
  Grows-trans p q r a b = record {
    preserved = λ id e. b.preserved id (a.preserved id e);
    excluded = λ id e. b.excluded id (a.excluded id e);
    signatures = λ s m. b.signatures s (a.signatures s m);
  }

  module _ (key : Text) (entry : CatalogAsset) (listed : h.by_id key ≡ some entry)
      (p : Policy) where
    pub preserved_lem : Listed h (preserve entry.asset p).preserved entry.asset.id
    unfolding preserve
    preserved_lem = record {
      entry = entry;
      key = key;
      listed = listed;
      same_id = refl;
      kept = ground (
        arith,
        get-put p.preserved entry.asset.id entry.asset.id entry.asset,
        =ₜ_iff entry.asset.id entry.asset.id,
      );
    }

    preserve_other :
        (id : Text)
        → (entry.asset.id =ₜ id) ≡ false
        → get (preserve entry.asset p).preserved id ≡ get p.preserved id
    unfolding preserve
    preserve_other id n = get-put p.preserved entry.asset.id id entry.asset ∙ rw n refl

    pub preserve-Grows : Grows h p (preserve entry.asset p)
    preserve-Grows = record {
      preserved = λ id e. elim (Bool-cases (entry.asset.id =ₜ id)) [
        | inl same ↦
            subst (Listed h (preserve entry.asset p).preserved) ((=ₜ_iff entry.asset.id id).0 same)
              preserved_lem
        | inr n ↦ record {
          entry = e.entry;
          key = e.key;
          listed = e.listed;
          same_id = e.same_id;
          kept = preserve_other id n ∙ e.kept;
        }
      ];
      excluded = λ id e. unfold preserve in e;
      signatures = λ s m. unfold preserve in m;
    }

  pub exclude-Grows : (id : Text) (p : Policy) → Grows h p (exclude id p)
  unfolding exclude
  exclude-Grows asset_id p = record {
    preserved = λ id e. e;
    excluded = λ id e. ground (arith, contains-add p.excluded asset_id id);
    signatures = λ s m. m;
  }

  pub sign-Grows : (s : Signature) (p : Policy) → Grows h p (sign s p)
  unfolding sign
  sign-Grows s p = record {
    preserved = λ id e. e;
    excluded = λ id e. e;
    signatures = λ s m. Memᴰ.tail m;
  }
