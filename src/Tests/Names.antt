-- ===== src/Tests/Names.antt =====
-- File names at concrete inputs.
use immich_on_demand.Prelude.{[], ◌∷◌, ◌≤◌, ◌≡◌, refl, arith, false, ◌&&◌, ◌⊎◌}
use immich_on_demand.Prelude.Text.{Text, codes}
use immich_on_demand.Prelude.Exec.{ok, err}
use immich_on_demand.Errors.{value_error}
use immich_on_demand.Model.Names.{
  safe_filename, collision_name, portable_name, path_suffix, stem_of,
}
use immich_on_demand.Model.Names.Utf8.{utf8_size, encodes}
use immich_on_demand.Model.Names.Safety.{
  IsSafeName, IsId, is_id_char, safe_filename-IsSafeName, collision_name_bound,
}
use immich_on_demand.Tests.Host.{ascii, asset_id}

hidden_file : safe_filename ascii (codes "DCIM/.IMG 1.JPG") asset_id 255 ≡ ok (codes "_IMG 1.JPG")
unfolding safe_filename
hidden_file = refl

keeps_suffix : safe_filename ascii (codes "holiday.jpeg") asset_id 8 ≡ ok (codes "hol.jpeg")
unfolding safe_filename
keeps_suffix = refl

second_name :
    collision_name ascii (codes "a.jpg") asset_id 255 1
    ≡ ok (codes "a__33333333-3333-4333-8333-333333333333.jpg")
unfolding collision_name
second_name = refl

asset_id-IsId : IsId asset_id
unfolding is_id_char
asset_id-IsId = record { nonempty = omega arith; chars = refl }

safe_filename-IsSafeName_example :
    ((name : Text) × (safe_filename ascii (codes "../.x") asset_id 255 ≡ ok name)
      × IsSafeName 255 name)
    ⊎ ((safe_filename ascii (codes "../.x") asset_id 255 ≡ err value_error)
        × (encodes (portable_name ascii (codes "../.x") asset_id) ≡ false))
safe_filename-IsSafeName_example =
    safe_filename-IsSafeName ascii (codes "../.x") asset_id 255 asset_id-IsId refl (omega arith)

lone_surrogate : safe_filename ascii (0xD800 ∷ []) asset_id 255 ≡ err value_error
unfolding safe_filename
lone_surrogate = refl

collision_name_bound_example :
    ((result : Text) × (collision_name ascii (codes "a.jpg") asset_id 40 2 ≡ ok result)
      × (utf8_size result ≤ 40))
    ⊎ ((collision_name ascii (codes "a.jpg") asset_id 40 2 ≡ err value_error)
        × ((encodes (path_suffix (codes "a.jpg"))
              && encodes (stem_of (codes "a.jpg") (path_suffix (codes "a.jpg"))))
            ≡ false))
collision_name_bound_example =
    collision_name_bound ascii (codes "a.jpg") asset_id 40 2 refl (omega arith) (omega arith)
