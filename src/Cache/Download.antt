-- ===== src/Cache/Download.antt =====
-- `_download` of src/immich_on_demand/content_cache.py with what it computes from an asset:
-- `_checksum_matches`, `_cache_mtime_ns` and `_validation`. The temporary file has a name of its own
-- and is gone when the function returns or raises, so it stands here for the bytes received so far.
pub mod Receiving
pub mod Storing
use immich_on_demand.Prelude.{
  ℕ, zero, suc, ◌+◌, List, [], ◌∷◌, ◌++◌, Option, none, some, Bool, true, false, ◌&&◌, ◌||◌, not,
  ltb, leb, ◌==◌, if◌then◌else◌, is_some, is_none, length, ℤ,
}
use immich_on_demand.Prelude.Text.{Text, codes, ◌=ₜ◌}
use immich_on_demand.Prelude.Exec.{Result, ok, err, pure, raise, lift, guard, ◌>>=◌, ◌>>◌}
use immich_on_demand.Prelude.Dict.{get, put}
use immich_on_demand.Errors.{
  Exception, Fallible, value_error, integrity_error, capacity_error, cache_error,
}
use immich_on_demand.Model.Asset.{Asset}
use immich_on_demand.Cache.{
  Moment, CacheHost, CachedFile, file_size, ContentCache, CacheAction, Validation, require_uuid,
}

-- `hmac.compare_digest` after `base64.b64decode(..., validate=True)`
digest_equal : Option (List ℕ) → List ℕ → Bool
digest_equal none actual = false
digest_equal (some decoded) actual = decoded =ₜ actual

-- `_checksum_matches`
unfoldable pub checksum_matches : CacheHost → Text → List ℕ → Bool
unfolding digest_equal
checksum_matches h expected actual = digest_equal (h.b64decode expected) actual

-- `updated_at.replace("Z", "+00:00")`
unfoldable pub replace_z : Text → Text
replace_z [] = []
replace_z (c ∷ cs) =
    let rest = replace_z cs in if c == b'Z' then codes "+00:00" ++ rest else c ∷ rest

moment_ns : Option Moment → Fallible ℤ
moment_ns none = err value_error
moment_ns (some m) = if m.has_zone then ok m.timestamp_ns else err value_error

-- `_cache_mtime_ns`
unfoldable pub cache_mtime_ns : CacheHost → Asset → Fallible ℤ
unfolding moment_ns replace_z
cache_mtime_ns h asset =
    if is_none asset.library_id
    then ok asset.modified_ns
    else moment_ns (h.fromisoformat (replace_z asset.updated_at))

-- `_validation`
unfoldable pub validation : Asset → CachedFile → Validation
validation asset f = record {
  dev = f.dev;
  ino = f.ino;
  size = file_size f;
  mtime_ns = f.mtime_ns;
  ctime_ns = f.ctime_ns;
  source =
      if is_none asset.library_id
      then codes "managed:" ++ asset.checksum
      else codes "external:" ++ asset.updated_at;
}

-- A part of the response, the disk's free space when it comes, and what `stream.write` returns.
pub record Chunk : Type 0 where
  pub bytes : List ℕ
  pub free : ℕ
  pub accepted : ℕ

-- The parts of the response, and the error that ends it early.
pub record Response : Type 0 where
  pub chunks : List Chunk
  pub failure : Option Exception

-- What the system gives the new file.
pub record Stamp : Type 0 where
  pub now_ns : ℤ
  pub ctime_ns : ℤ
  pub dev : ℕ
  pub ino : ℕ

note_written : Text → ℕ → CacheAction Unit
note_written asset_id n c = (ok tt, record c { written = put c.written asset_id n })

receive_some : Asset → ℕ → Chunk → List ℕ → CacheAction (List ℕ)
unfolding note_written ◌>>=◌
receive_some asset size chunk content c =
    let received = length content + length chunk.bytes in
    (guard (leb received size) integrity_error
        >> guard (leb (c.minimum_free_bytes + length chunk.bytes) chunk.free) capacity_error
        >> guard (chunk.accepted == length chunk.bytes) cache_error
        >> note_written asset.id received
        >> pure (content ++ chunk.bytes))
      c

-- The body of the loop over the chunks.
unfoldable pub receive_chunk : Asset → ℕ → Chunk → List ℕ → CacheAction (List ℕ)
unfolding receive_some
receive_chunk asset size chunk content c =
    if length chunk.bytes == 0 then (ok content, c) else receive_some asset size chunk content c

end_response : Option Exception → List ℕ → CacheAction (List ℕ)
end_response none content c = (ok content, c)
end_response (some e) content c = (err e, c)

-- The loop over the chunks.
unfoldable pub receive : Asset → ℕ → Option Exception → List Chunk → List ℕ → CacheAction (List ℕ)
unfolding receive_chunk end_response ◌>>=◌
receive asset size failure [] content = end_response failure content
receive asset size failure (chunk ∷ chunks) content =
    receive_chunk asset size chunk content >>= λ content'.
    receive asset size failure chunks content'

-- `os.replace(temporary, destination)`
replace_file : Asset → Stamp → List ℕ → ℤ → CacheAction Unit
replace_file asset stamp content mtime c = (
  ok tt,
  record c {
    files = put c.files asset.id (record {
      is_own = true;
      bytes = content;
      atime_ns = stamp.now_ns;
      mtime_ns = mtime;
      ctime_ns = stamp.ctime_ns;
      dev = stamp.dev;
      ino = stamp.ino;
    });
  },
)

-- The checks after the last chunk, and the move into place.
store_content : CacheHost → Asset → ℕ → Stamp → List ℕ → CacheAction Unit
unfolding checksum_matches cache_mtime_ns replace_file ◌>>=◌
store_content h asset size stamp content =
    guard (length content == size) integrity_error
    >> guard (is_some asset.library_id || checksum_matches h asset.checksum (h.sha1 content))
        integrity_error
    >> (lift (cache_mtime_ns h asset) >>= λ mtime. replace_file asset stamp content mtime)

download_sized : CacheHost → Asset → Stamp → Response → Option ℕ → CacheAction Unit
unfolding receive store_content ◌>>=◌
download_sized h asset stamp response none = raise integrity_error
download_sized h asset stamp response (some size) =
    receive asset size response.failure response.chunks [] >>= λ content.
    store_content h asset size stamp content

-- `_download`; the path it returns is the asset's.
unfoldable pub download : CacheHost → Asset → Stamp → Response → CacheAction Unit
unfolding download_sized require_uuid ◌>>=◌
download h asset stamp response =
    require_uuid h asset.id >> download_sized h asset stamp response asset.size
