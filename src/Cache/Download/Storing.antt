-- ===== src/Cache/Download/Storing.antt =====
-- What `_download` promises: the whole original is in place, or no file has changed.
use immich_on_demand.Prelude.{
  ℕ, List, [], some, Bool, true, false, ◌&&◌, ◌||◌, not, ◌==◌, if◌then◌else◌, is_some, length, ◌≡◌,
  ◌∙◌, refl, arith, ◌⊎◌, inl, inr, Bool-cases, ap, ℤ,
}
use immich_on_demand.Prelude.Exec.{Result, ok, err, ◌>>=◌, Result-cases}
use immich_on_demand.Prelude.Dict.{put}
use immich_on_demand.Errors.{Exception, integrity_error, value_error}
use immich_on_demand.Model.Asset.{Asset}
use immich_on_demand.Cache.{CacheHost, CachedFile, ContentCache, require_uuid}
use immich_on_demand.Cache.Download.{
  Response, Stamp, store_content, replace_file, download_sized, download, checksum_matches,
  cache_mtime_ns,
}
use immich_on_demand.Cache.Download.Receiving.{
  body, is_received, OnlyWritten, receive_all, receive_refused,
}

is_ok : {A : Type 0} → Result Exception A → Bool
is_ok (ok a) = true
is_ok (err e) = false

-- The content is the asset's: its size, for a managed asset its checksum, and a date for the file.
unfoldable pub is_content : CacheHost → Asset → ℕ → List ℕ → Bool
unfolding is_ok
is_content h asset size content =
    length content == size
    && (is_some asset.library_id || checksum_matches h asset.checksum (h.sha1 content))
    && is_ok (cache_mtime_ns h asset)

-- The server sends exactly the asset's original, and the disk takes it above its floor.
unfoldable pub is_delivered : CacheHost → Asset → ℕ → ℕ → Response → Bool
unfolding is_received is_content body
is_delivered h asset size minimum response =
    h.is_uuid asset.id
    && is_received minimum size response.failure response.chunks 0
    && is_content h asset size (body response.chunks)

pub delivered_size :
    (h : CacheHost) (asset : Asset) (size minimum : ℕ) (response : Response)
    → is_delivered h asset size minimum response ≡ true
    → length (body response.chunks) ≡ size
unfolding is_delivered is_content
delivered_size h asset size minimum response e = ground arith

-- The new file, under the asset's name.
abbrev pub stored_file : Stamp → List ℕ → ℤ → CachedFile
stored_file stamp content mtime = record {
  is_own = true;
  bytes = content;
  atime_ns = stamp.now_ns;
  mtime_ns = mtime;
  ctime_ns = stamp.ctime_ns;
  dev = stamp.dev;
  ino = stamp.ino;
}

module _ (h : CacheHost) (asset : Asset) (size : ℕ) (stamp : Stamp) where
  store_done :
      (content : List ℕ) (c : ContentCache)
      → is_content h asset size content ≡ true
      → (mtime : ℤ) × (cache_mtime_ns h asset ≡ ok mtime)
        × (store_content h asset size stamp content c
            ≡ (ok tt, record c { files = put c.files asset.id (stored_file stamp content mtime) }))
  unfolding is_content is_ok store_content replace_file ◌>>=◌
  store_done content c e = elim (Result-cases (cache_mtime_ns h asset)) [
    | inl (mtime, m) ↦ (mtime, m, rw m (ground arith))
    | inr (x, m) ↦ absurd (ground (arith, m))
  ]

  abbrev store_error : List ℕ → Exception → Exception
  store_error content x =
      if not (length content == size)
      then integrity_error
      else if not (is_some asset.library_id || checksum_matches h asset.checksum (h.sha1 content))
      then integrity_error
      else x

  store_refused :
      (content : List ℕ) (c : ContentCache)
      → is_content h asset size content ≡ false
      → (e : Exception) × (store_content h asset size stamp content c ≡ (err e, c))
  unfolding is_content is_ok store_content replace_file ◌>>=◌
  store_refused content c e = elim (Result-cases (cache_mtime_ns h asset)) [
    | inl (mtime, m) ↦ (store_error content integrity_error, rw m (ground arith))
    | inr (x, m) ↦ (store_error content x, rw m (ground arith))
  ]

  module _ (response : Response) (c : ContentCache) where
    sized_done :
        is_received c.minimum_free_bytes size response.failure response.chunks 0 ≡ true
        → is_content h asset size (body response.chunks) ≡ true
        → (mtime : ℤ) × (cache_mtime_ns h asset ≡ ok mtime)
          × (c' : ContentCache) × (download_sized h asset stamp response (some size) c
              ≡ (ok tt, c'))
          × (c' ≡ record c {
            files = put c.files asset.id (stored_file stamp (body response.chunks) mtime);
            written = c'.written;
          })
    unfolding download_sized ◌>>=◌
    sized_done received content =
        let (c', r, only) =
          receive_all asset size c.minimum_free_bytes response.failure response.chunks [] c refl
            received in
        let (mtime, m, s) = store_done (body response.chunks) c' content in
        (
          mtime,
          m,
          record c' {
            files = put c'.files asset.id (stored_file stamp (body response.chunks) mtime);
          },
          rw r s,
          ap {A = ContentCache}
              (λ d. record d {
                files = put d.files asset.id (stored_file stamp (body response.chunks) mtime);
              })
              only,
        )

    sized_refused :
        (is_received c.minimum_free_bytes size response.failure response.chunks 0
            && is_content h asset size (body response.chunks))
          ≡ false
        → (e : Exception) × (c' : ContentCache) × (download_sized h asset stamp response
              (some size)
              c
            ≡ (err e, c'))
          × OnlyWritten c c'
    unfolding download_sized ◌>>=◌
    sized_refused no_content =
        elim (Bool-cases
          (is_received c.minimum_free_bytes size response.failure response.chunks 0)) [
            | inl received ↦
                (let (c', r, only) =
                    receive_all asset size c.minimum_free_bytes response.failure response.chunks []
                      c refl received in
                  let (x, s) = store_refused (body response.chunks) c' (ground arith) in
                  (x, c', rw r s, only))
            | inr cut ↦
                (let (x, c', r, only) =
                    receive_refused asset size c.minimum_free_bytes response.failure response.chunks
                      [] c refl (omega arith) cut in
                  (x, c', rw r refl, only))
          ]

download_known :
    (h : CacheHost) (asset : Asset) (size : ℕ) (stamp : Stamp) (response : Response)
    (c : ContentCache)
    → h.is_uuid asset.id ≡ true
    → asset.size ≡ some size
    → download h asset stamp response c ≡ download_sized h asset stamp response (some size) c
unfolding download require_uuid ◌>>=◌
download_known h asset size stamp response c good known =
    rw good (ap (λ o. download_sized h asset stamp response o c) known)

-- `_download` of an original of known size succeeds exactly when the response ends without an
-- error, holds `size` bytes that match the checksum (for a managed asset), and the disk takes each
-- part above the free-space floor (the identifier and the date being well-formed). The asset's file
-- then holds the bytes of the response under the asset's date, and every other file is as it was.
-- Otherwise it raises, and no file has changed: neither the asset's earlier one nor another.
pub download_outcome :
    (h : CacheHost) (asset : Asset) (size : ℕ) (stamp : Stamp) (response : Response)
    (c : ContentCache)
    → asset.size ≡ some size
    → ((is_delivered h asset size c.minimum_free_bytes response ≡ true)
        × (mtime : ℤ) × (cache_mtime_ns h asset ≡ ok mtime)
        × (c' : ContentCache) × (download h asset stamp response c ≡ (ok tt, c'))
        × (c' ≡ record c {
          files = put c.files asset.id (stored_file stamp (body response.chunks) mtime);
          written = c'.written;
        }))
      ⊎ ((is_delivered h asset size c.minimum_free_bytes response ≡ false)
          × (e : Exception) × (c' : ContentCache) × (download h asset stamp response c
              ≡ (err e, c'))
          × OnlyWritten c c')
unfolding download require_uuid ◌>>=◌ is_delivered
download_outcome h asset size stamp response c known = elim (Bool-cases (h.is_uuid asset.id)) [
  | inr bad ↦ inr (ground (arith, bad), value_error, c, rw bad refl, refl)
  | inl good ↦ elim (Bool-cases (is_delivered h asset size c.minimum_free_bytes response)) [
    | inl delivered ↦
        (let (mtime, m, c', r, only) =
            sized_done h asset size stamp response c (ground arith) (ground arith) in
          inl (
            delivered,
            mtime,
            m,
            c',
            download_known h asset size stamp response c good known ∙ r,
            only,
          ))
    | inr missed ↦
        (let (x, c', r, only) = sized_refused h asset size stamp response c (ground arith) in
          inr (missed, x, c', download_known h asset size stamp response c good known ∙ r, only))
  ]
]
