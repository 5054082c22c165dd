-- ===== src/Model/Asset.antt =====
-- The asset record of src/immich_on_demand/model.py, and the catalog's entry for it.
use immich_on_demand.Prelude.{ℕ, ℤ, List, Option, Bool, ◌&&◌, not, is_some}
use immich_on_demand.Prelude.Text.{Text, codes, ◌=ₜ◌}

pub record Asset : Type 0 where
  pub id : Text
  pub owner_id : Text
  pub original_name : Text
  pub mime_type : Text
  pub size : Option ℕ
  pub created_ns : ℤ
  pub modified_ns : ℤ
  pub updated_at : Text
  pub checksum : Text
  pub visibility : Text
  pub is_trashed : Bool
  pub is_offline : Bool
  pub library_id : Option Text
  pub local_date : Option Text
  pub is_favorite : Bool
  pub person_ids : List Text
  pub live_photo_video_id : Option Text

-- `Asset.visible`
unfoldable pub is_visible : Asset → Bool
is_visible a =
    not a.is_trashed && not a.is_offline && not (a.visibility =ₜ codes "hidden") && is_some a.size

-- `CatalogAsset` of src/immich_on_demand/catalog.py
pub record CatalogAsset : Type 0 where
  pub asset : Asset
  pub inode : ℕ
  pub name : Text
