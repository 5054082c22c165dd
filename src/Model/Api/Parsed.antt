-- ===== src/Model/Api/Parsed.antt =====
-- What an asset that `Asset.from_api` of src/immich_on_demand/model.py returns is known to satisfy.
use mathlib.Core.Path.{subst}
use immich_on_demand.Prelude.{
  List, [], ◌∷◌, Option, none, some, Bool, true, ◌&&◌, not, ◌≡◌, refl, sym, ap, ◌∙◌, arith, all_of,
  is_some, none_or, Bool-cases, inl, inr,
}
use immich_on_demand.Prelude.Text.{Text, codes, ◌=ₜ◌, sorted_set}
use immich_on_demand.Prelude.Exec.{ok}
use immich_on_demand.Prelude.Fallible.{chain_split, ok_injective, check_holds}
use immich_on_demand.Prelude.Ascending.{IsAscending, sorted_set-IsAscending, all-sorted_set}
use immich_on_demand.Errors.{Fallible, value_error}
use immich_on_demand.Model.Asset.{Asset}
use immich_on_demand.Model.Api.{
  ApiHost, Json, Items, Fields, lookup, string_of, optional_text, is_uuid, is_canonical, person_id,
  collect_ids, ids_in, person_ids, from_api,
}

-- The identifiers are what the server's fields say and UUIDs, a related video is another asset in
-- canonical form, and the persons are canonical, sorted and unique.
pub record Parsed (h : ApiHost) (value : Fields) (a : Asset) : Type 0 where
  pub same_id : string_of value (codes "id") ≡ ok a.id
  pub same_owner : string_of value (codes "ownerId") ≡ ok a.owner_id
  pub same_checksum : string_of value (codes "checksum") ≡ ok a.checksum
  pub uuid : is_uuid h a.id ≡ true
  pub owner_uuid : is_uuid h a.owner_id ≡ true
  pub library_uuid : none_or (is_uuid h) a.library_id ≡ true
  pub video : none_or (λ id. is_canonical h id && not (id =ₜ a.id)) a.live_photo_video_id ≡ true
  pub canonical_people : all_of (is_canonical h) a.person_ids ≡ true
  pub ascending_people : IsAscending a.person_ids
  pub dated : is_some a.local_date ≡ true

optional_text_holds :
    (test : Text → Bool) (json : Option Json) (value : Option Text)
    → optional_text test json ≡ ok value
    → none_or test value ≡ true
unfolding optional_text
optional_text_holds test none value h = rw (sym (ok_injective none value h)) refl
optional_text_holds test (some Json.null) value h = rw (sym (ok_injective none value h)) refl
optional_text_holds test (some Json.real) value h = absurd cc
optional_text_holds test (some (Json.boolean _)) value h = absurd cc
optional_text_holds test (some (Json.integer _)) value h = absurd cc
optional_text_holds test (some (Json.array _)) value h = absurd cc
optional_text_holds test (some (Json.object _)) value h = absurd cc
optional_text_holds test (some (Json.text t)) value h = elim (Bool-cases (test t)) [
  | inl b ↦
      let e : ◌≡◌ {A = Fallible (Option Text)} (ok (some t)) (ok value) = ground arith in
      ap (none_or test) (sym (ok_injective (some t) value e)) ∙ b
  | inr b ↦ absurd (ground arith)
]

module _ (h : ApiHost) where
  person_id_canonical :
      (person : Json) (id : Text) → person_id h person ≡ ok id → is_canonical h id ≡ true
  unfolding person_id
  person_id_canonical (Json.object fields) id e =
      let (read, (found, rest)) = chain_split _ _ _ e in
      let (u, (held, last)) = chain_split _ _ _ rest in
      ap (is_canonical h) (sym (ok_injective read id last))
      ∙ check_holds (is_canonical h read) value_error u held
  person_id_canonical Json.null id e = absurd cc
  person_id_canonical Json.real id e = absurd cc
  person_id_canonical (Json.boolean _) id e = absurd cc
  person_id_canonical (Json.integer _) id e = absurd cc
  person_id_canonical (Json.text _) id e = absurd cc
  person_id_canonical (Json.array _) id e = absurd cc

  collect_ids_canonical :
      (people : Items) (ids : List Text)
      → collect_ids h people ≡ ok ids
      → all_of (is_canonical h) ids ≡ true
  unfolding collect_ids
  collect_ids_canonical Items.empty_array ids e = rw (sym (ok_injective [] ids e)) refl
  collect_ids_canonical (Items.item person people) ids e =
      let (id, (first, rest)) = chain_split _ _ _ e in
      let (others, (later, last)) = chain_split _ _ _ rest in
      let c = person_id_canonical person id first in
      let all = collect_ids_canonical people others later in
      rw (sym (ok_injective (id ∷ others) ids last)) (ground arith)

  ids_in_known :
      (people : Option Json) (ids : List Text)
      → ids_in h people ≡ ok ids
      → (all_of (is_canonical h) ids ≡ true) × IsAscending ids
  unfolding ids_in IsAscending
  ids_in_known none ids e =
      subst (λ l. (all_of (is_canonical h) l ≡ true) × IsAscending l) (ok_injective [] ids e)
        (refl, tt)
  ids_in_known (some (Json.array people)) ids e =
      let (found, (first, last)) = chain_split _ _ _ e in
      subst (λ l. (all_of (is_canonical h) l ≡ true) × IsAscending l)
        (ok_injective (sorted_set found) ids last)
        (
          all-sorted_set (is_canonical h) found ∙ collect_ids_canonical people found first,
          sorted_set-IsAscending found,
        )
  ids_in_known (some Json.null) ids e = absurd cc
  ids_in_known (some Json.real) ids e = absurd cc
  ids_in_known (some (Json.boolean _)) ids e = absurd cc
  ids_in_known (some (Json.integer _)) ids e = absurd cc
  ids_in_known (some (Json.text _)) ids e = absurd cc
  ids_in_known (some (Json.object _)) ids e = absurd cc

  person_ids_known :
      (value : Fields) (ids : List Text)
      → person_ids h value ≡ ok ids
      → (all_of (is_canonical h) ids ≡ true) × IsAscending ids
  unfolding person_ids
  person_ids_known value ids e = ids_in_known (lookup value (codes "people")) ids e

  -- An asset that `from_api` returns has the identifiers and the checksum of the server's fields; these
  -- and its library are UUIDs, a live photo's video is canonical and another asset, the persons are
  -- canonical, ascending and so unique, and there is a local date.
  pub from_api-Parsed : (value : Fields) (a : Asset) → from_api h value ≡ ok a → Parsed h value a
  unfolding from_api
  from_api-Parsed value a e0 =
      let (asset_id, (r0, e1)) = chain_split _ _ _ e0 in
      let (owner_id, (r1, e2)) = chain_split _ _ _ e1 in
      let (t1, (r2, e3)) = chain_split _ _ _ e2 in
      let (t2, (r3, e4)) = chain_split _ _ _ e3 in
      let (exif, (r4, e5)) = chain_split _ _ _ e4 in
      let (size, (r5, e6)) = chain_split _ _ _ e5 in
      let (created_at, (r6, e7)) = chain_split _ _ _ e6 in
      let (modified_at, (r7, e8)) = chain_split _ _ _ e7 in
      let (updated_at, (r8, e9)) = chain_split _ _ _ e8 in
      let (updated_ns, (r9, e10)) = chain_split _ _ _ e9 in
      let (library_id, (r10, e11)) = chain_split _ _ _ e10 in
      let (video, (r11, e12)) = chain_split _ _ _ e11 in
      let (original_name, (r12, e13)) = chain_split _ _ _ e12 in
      let (mime_type, (r13, e14)) = chain_split _ _ _ e13 in
      let (created_ns, (r14, e15)) = chain_split _ _ _ e14 in
      let (modified_ns, (r15, e16)) = chain_split _ _ _ e15 in
      let (checksum, (r16, e17)) = chain_split _ _ _ e16 in
      let (visibility, (r17, e18)) = chain_split _ _ _ e17 in
      let (is_trashed, (r18, e19)) = chain_split _ _ _ e18 in
      let (is_offline, (r19, e20)) = chain_split _ _ _ e19 in
      let (date, (r20, e21)) = chain_split _ _ _ e20 in
      let (is_favorite, (r21, e22)) = chain_split _ _ _ e21 in
      let (people, (r22, e23)) = chain_split _ _ _ e22 in
      subst (Parsed h value) (ok_injective _ a e23) (record {
        same_id = r0;
        same_owner = r1;
        same_checksum = r16;
        uuid = check_holds (is_uuid h asset_id) value_error t1 r2;
        owner_uuid = check_holds (is_uuid h owner_id) value_error t2 r3;
        library_uuid =
            optional_text_holds (is_uuid h) (lookup value (codes "libraryId")) library_id r10;
        video =
            optional_text_holds (λ id. is_canonical h id && not (id =ₜ asset_id))
              (lookup value (codes "livePhotoVideoId")) video r11;
        canonical_people = (person_ids_known value people r22).0;
        ascending_people = (person_ids_known value people r22).1;
        dated = refl;
      })
