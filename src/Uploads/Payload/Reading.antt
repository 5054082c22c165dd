-- ===== src/Uploads/Payload/Reading.antt =====
-- The hashing loop reads the whole file, and writes land where they should.
use immich_on_demand.Prelude.{
  ℕ, zero, suc, ◌+◌, ◌-◌, ◌≤◌, ◌<◌, min, [], ◌∷◌, ◌++◌, ◌≡◌, refl, arith, length, drop, length-take,
  length-drop, drop-drop, take-append-drop,
}
use immich_on_demand.Prelude.Exec.{ok}
use immich_on_demand.Uploads.Payload.{Bytes, chunk_size, pread, feed_from, feed}
use mathlib.Core.List.{append-nil, append_assoc}

drop_all : (n : ℕ) (xs : Bytes) → length xs ≤ n → drop n xs ≡ []
drop_all zero [] h = refl
drop_all zero (x ∷ xs) h = absurd (omega arith)
drop_all (suc n) [] h = refl
drop_all (suc n) (x ∷ xs) h = drop_all n xs (omega arith)

-- One piece is as long as it was asked for, at most the rest of the file.
length-pread :
    (bytes : Bytes) (count offset : ℕ)
    → length (pread bytes count offset) ≡ min count (length bytes - offset)
unfolding pread
length-pread bytes count offset = rw length-take (rw length-drop)

-- What is left after one piece is what stands behind it.
piece-append :
    (bytes : Bytes) (count offset : ℕ)
    → count ≤ length bytes - offset
    → pread bytes count offset ++ drop (offset + length (pread bytes count offset)) bytes
      ≡ drop offset bytes
unfolding pread
piece-append bytes count offset h =
    rw (length-take count (drop offset bytes), length-drop offset bytes)
      (rw (← drop-drop (min count (length bytes - offset)) offset bytes)
        (rw (shorter count (length bytes - offset) h) (take-append-drop count (drop offset bytes))))
  where
    shorter : (a b : ℕ) → a ≤ b → min a b ≡ a
    shorter a b h = omega arith

feed_from-drop :
    (fuel : ℕ) (bytes : Bytes) (offset : ℕ) (fed : Bytes)
    → offset ≤ length bytes
    → length bytes < offset + fuel
    → feed_from fuel bytes (length bytes) offset fed ≡ ok (fed ++ drop offset bytes)
unfolding feed_from
feed_from-drop zero bytes offset fed inside h = absurd (omega arith)
feed_from-drop (suc fuel) bytes offset fed inside h =
    let count = min chunk_size (length bytes - offset) in
    let chunk = pread bytes count offset in
    ground (
      arith,
      length-pread bytes count offset,
      feed_from-drop fuel bytes (offset + length chunk) (fed ++ chunk),
      piece-append bytes count offset,
      append_assoc fed chunk (drop (offset + length chunk) bytes),
      drop_all offset bytes,
      append-nil fed,
    )

-- The loop that hashes a sealed payload hands the digest every byte of the file, in order, and ends:
-- for every content it returns the content itself.
pub feed-eq-ok : (bytes : Bytes) → feed bytes (length bytes) ≡ ok bytes
unfolding feed
feed-eq-ok bytes = feed_from-drop (suc (length bytes)) bytes 0 [] (omega arith) (omega arith)
