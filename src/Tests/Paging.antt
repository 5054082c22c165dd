-- ===== src/Tests/Paging.antt =====
-- The pages of the uploads at a concrete list.
use immich_on_demand.Prelude.{[], ◌∷◌, none, ◌≡◌, refl, arith}
use immich_on_demand.Prelude.Text.{◌=ₜ◌}
use immich_on_demand.Prelude.Exec.{ok}
use immich_on_demand.Uploads.Manifest.{Manifest, is_canonical_uuid}
use immich_on_demand.Service.Paging.Cursors.{AllDistinct}
use immich_on_demand.Service.Paging.Walk.{walk, walk_lem}
use immich_on_demand.Tests.Host.{host, asset_id}
use immich_on_demand.Tests.Jobs.{waiting}

abbrev other : Manifest
other = record waiting { id = asset_id }

walk_lem_example : walk 3 host (waiting ∷ other ∷ []) 1 none ≡ ok (waiting ∷ other ∷ [])
unfolding AllDistinct is_canonical_uuid ◌=ₜ◌
walk_lem_example =
    walk_lem host (waiting ∷ other ∷ []) 1 (refl, (refl, tt)) refl (omega arith) (omega arith)
