-- ===== src/Service/Albums.antt =====
-- `_stable_album_ids` of src/immich_on_demand/service.py: the albums of an asset, read twice.
use immich_on_demand.Prelude.{List, Option, none, some, Bool, false, if◌then◌else◌}
use immich_on_demand.Prelude.Text.{Text, same_texts, sort_texts}
use immich_on_demand.Prelude.Exec.{ok, err, pure, ◌>>=◌}
use immich_on_demand.Errors.{Fallible}
use immich_on_demand.Service.World.{Outside, Act, albums_read, see}

unfoldable pub sorted_reply : Fallible (List Text) → Fallible (List Text)
sorted_reply (ok ids) = ok (sort_texts ids)
sorted_reply (err x) = err x

-- `tuple(sorted(album.id for album in await client.albums(asset_id=asset_id)))`
unfoldable pub read_albums : Outside → Text → Act (List Text)
unfolding see
read_albums e asset_id = see (albums_read asset_id) (λ t. sorted_reply (e.albums_reply t asset_id))

unfoldable pub if_same : List Text → List Text → Option (List Text)
if_same first second = if same_texts first second then some first else none

-- `_stable_album_ids`
unfoldable pub stable_album_ids : Outside → Text → Act (Option (List Text))
stable_album_ids e asset_id = do
  first ← read_albums e asset_id
  second ← read_albums e asset_id
  pure (if_same first second)

-- `albums == expected_albums`
unfoldable pub is_album_tuple : Option (List Text) → List Text → Bool
is_album_tuple none expected = false
is_album_tuple (some albums) expected = same_texts albums expected
