-- ===== src/Uploads/Payload.antt =====
-- The bytes of a payload in src/immich_on_demand/uploads.py: positioned writes, truncation, and the
-- loop that hashes a sealed file piece by piece.
pub mod Reading
use immich_on_demand.Prelude.{
  ℕ, zero, suc, ◌+◌, ◌-◌, ◌*◌, ◌≤◌, ◌<◌, min, List, [], ◌∷◌, ◌++◌, Bool, ◌≡◌, refl, arith, ltb, leb,
  ◌==◌, if◌then◌else◌, length, take, drop, length-append, length-take, length-drop, drop-drop,
  take-append-drop,
}
use immich_on_demand.Prelude.Exec.{ok, err}
use immich_on_demand.Errors.{Exception, Fallible, queue_error}
use mathlib.Core.List.{append-nil, append_assoc}

abbrev pub Bytes : Type 0
Bytes = List ℕ

abbrev pub zeros : ℕ → Bytes
zeros zero = []
zeros (suc n) = 0 ∷ zeros n

-- `os.ftruncate`: a longer file is filled with zero bytes.
unfoldable pub resize : Bytes → ℕ → Bytes
resize bytes size = take size bytes ++ zeros (size - length bytes)

-- `os.pwrite`: a gap before the offset is filled with zero bytes, and nothing is written of no data.
unfoldable pub pwrite : Bytes → ℕ → Bytes → Bytes
unfolding resize
pwrite bytes offset [] = bytes
pwrite bytes offset (b ∷ more) =
    resize bytes offset ++ ((b ∷ more) ++ drop (offset + length (b ∷ more)) bytes)

-- `os.pread`
unfoldable pub pread : Bytes → ℕ → ℕ → Bytes
pread bytes count offset = take count (drop offset bytes)

abbrev pub chunk_size : ℕ
chunk_size = 1048576

-- The loop of `seal` and `_verify_sealed_payload` on a file of `size` bytes as `fstat` gave it. What
-- the digest was fed comes back; an empty piece before the end is an error.
pub feed_from : ℕ → Bytes → ℕ → ℕ → Bytes → Fallible Bytes
feed_from zero bytes size offset fed = err queue_error
feed_from (suc fuel) bytes size offset fed =
    let chunk = pread bytes (min chunk_size (size - offset)) offset in
    let rest = feed_from fuel bytes size (offset + length chunk) (fed ++ chunk) in
    let next = if length chunk == 0 then err queue_error else rest in
    if ltb offset size then next else ok fed

-- Each round reads at least one byte, so `size + 1` rounds are enough.
unfoldable pub feed : Bytes → ℕ → Fallible Bytes
unfolding feed_from
feed bytes size = feed_from (suc size) bytes size 0 []
