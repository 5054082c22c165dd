-- ===== src/Service/Checks.antt =====
-- The tests of src/immich_on_demand/service.py that compare a job with what the server and the
-- catalog say, and the delay of a retry.
use immich_on_demand.Prelude.{
  ℕ, zero, suc, ℤ, ◌+◌, ◌-◌, ◌*◌, List, [], ◌∷◌, Option, none, some, Bool, true, false, ◌&&◌, ◌||◌,
  not, leb, ◌==◌, if◌then◌else◌, is_some, is_none, eq_ℤ,
}
use immich_on_demand.Prelude.Text.{Text, codes, ◌=ₜ◌}
use immich_on_demand.Model.Asset.{Asset, is_visible}
use immich_on_demand.Uploads.Queue.{UploadStatus}

-- `base64.b64decode(value, validate=True).hex()`, with `none` for ValueError.
pub record Codec : Type 0 where
  pub checksum_hex : Text → Option Text

-- `==` on optional values, of which both may be None.
abbrev pub same_texts_or_none : Option Text → Option Text → Bool
same_texts_or_none none none = true
same_texts_or_none (some a) (some b) = a =ₜ b
same_texts_or_none _ _ = false

abbrev same_size : Option ℕ → Option ℕ → Bool
same_size none none = true
same_size (some a) (some b) = a == b
same_size _ _ = false

abbrev is_time : ℤ → Option ℤ → Bool
is_time a none = false
is_time a (some b) = eq_ℤ a b

abbrev is_flag : Bool → Option Bool → Bool
is_flag a none = false
is_flag true (some b) = b
is_flag false (some b) = not b

abbrev pub same_flag : Bool → Bool → Bool
same_flag true b = b
same_flag false b = not b

abbrev is_text : Text → Option Text → Bool
is_text a none = false
is_text a (some b) = a =ₜ b

-- The decoded checksum is the hash of the payload.
unfoldable pub is_same_hash : Option Text → Option Text → Bool
is_same_hash (some checksum) (some sha1) = checksum =ₜ sha1
is_same_hash _ _ = false

-- `_upload_matches`
unfoldable pub upload_matches : Codec → UploadStatus → Asset → Text → Bool
upload_matches c job asset marker =
    marker =ₜ job.id
    && is_visible asset
    && asset.owner_id =ₜ job.owner_id
    && is_none asset.library_id
    && same_size asset.size job.size
    && is_same_hash (c.checksum_hex asset.checksum) job.sha1

-- `_replacement_source_matches`
unfoldable pub replacement_source_matches : UploadStatus → Asset → Bool → Bool
replacement_source_matches job asset allow_trashed =
    is_text asset.id job.old_asset_id
    && is_text asset.owner_id job.source_owner_id
    && is_text job.owner_id job.source_owner_id
    && same_texts_or_none asset.library_id job.source_library_id
    && is_none job.source_library_id
    && is_none asset.live_photo_video_id
    && is_text asset.checksum job.source_checksum
    && (is_text asset.updated_at job.source_updated_at || (allow_trashed && asset.is_trashed))
    && is_time asset.created_ns job.source_created_ns
    && is_flag asset.is_favorite job.source_is_favorite
    && is_text asset.visibility job.source_visibility
    && is_some asset.size
    && not (asset.visibility =ₜ codes "hidden")
    && not asset.is_offline
    && (allow_trashed || not asset.is_trashed)

-- `_replacement_candidate_matches`
unfoldable pub replacement_candidate_matches : Asset → Asset → Bool
replacement_candidate_matches source candidate =
    eq_ℤ candidate.created_ns source.created_ns
    && same_texts_or_none candidate.local_date source.local_date
    && same_flag candidate.is_favorite source.is_favorite
    && candidate.visibility =ₜ source.visibility
    && same_texts_or_none candidate.live_photo_video_id source.live_photo_video_id

-- `_same_managed_checksum`
unfoldable pub same_managed_checksum : Codec → UploadStatus → Asset → Bool
same_managed_checksum c job source =
    is_none source.library_id && is_same_hash (c.checksum_hex source.checksum) job.sha1

-- `UPLOAD_RETRY_DELAYS`, in seconds
abbrev pub upload_retry_delays : List ℕ
upload_retry_delays = 5 ∷ 10 ∷ 20 ∷ 40 ∷ 60 ∷ []

-- `delays[min(index, len(delays) - 1)]`
unfoldable pub delay_at : List ℕ → ℕ → ℕ
delay_at [] index = 0
delay_at (delay ∷ []) index = delay
delay_at (delay ∷ next ∷ delays) zero = delay
delay_at (delay ∷ next ∷ delays) (suc index) = delay_at (next ∷ delays) index

-- The delay that `_upload_retry_at` adds to the time; `max(attempt_count, 1) - 1` is this difference.
unfoldable pub upload_retry_delay : ℕ → ℕ
unfolding delay_at
upload_retry_delay attempt_count = delay_at upload_retry_delays (attempt_count - 1)

unfoldable pub later_by : ℤ → ℕ → ℤ
later_by (ℤ.pos n) d = ℤ.pos (n + d)
later_by (ℤ.negsuc n) d = if leb d n then ℤ.negsuc (n - d) else ℤ.pos (d - suc n)

-- `_upload_retry_at`
unfoldable pub upload_retry_at : ℤ → ℕ → ℤ
unfolding later_by upload_retry_delay
upload_retry_at now_ns attempt_count =
    later_by now_ns (upload_retry_delay attempt_count * 1000000000)
