-- ===== src/Cache/Download/Receiving.antt =====
-- The loop of `_download` over the parts of the response.
use immich_on_demand.Prelude.{
  ℕ, ◌+◌, ◌≤◌, List, [], ◌∷◌, ◌++◌, Option, none, some, Bool, true, false, ◌&&◌, ◌||◌, not, leb,
  ◌==◌, if◌then◌else◌, is_none, length, all_of, ◌≡◌, ◌∙◌, refl, arith, inl, inr, Bool-cases,
  length-append, ap,
}
use immich_on_demand.Prelude.Exec.{ok, err, ◌>>=◌}
use immich_on_demand.Prelude.Dict.{put}
use immich_on_demand.Errors.{Exception, integrity_error, capacity_error, cache_error}
use immich_on_demand.Model.Asset.{Asset}
use immich_on_demand.Cache.{ContentCache}
use immich_on_demand.Cache.Download.{
  Chunk, receive, receive_chunk, receive_some, end_response, note_written,
}

-- All the bytes of the response.
unfoldable pub body : List Chunk → List ℕ
body [] = []
body (chunk ∷ chunks) = chunk.bytes ++ body chunks

-- The disk takes the chunk, and stays above its floor.
unfoldable pub is_taken : ℕ → Chunk → Bool
is_taken minimum chunk =
    length chunk.bytes == 0
    || leb (minimum + length chunk.bytes) chunk.free && chunk.accepted == length chunk.bytes

-- The response ends well and holds no more than the bytes that are expected.
unfoldable pub is_received : ℕ → ℕ → Option Exception → List Chunk → ℕ → Bool
unfolding is_taken body
is_received minimum size failure chunks received =
    all_of (is_taken minimum) chunks
    && leb (received + length (body chunks)) size
    && is_none failure

-- Nothing but the counter of written bytes has changed.
abbrev pub OnlyWritten : ContentCache → ContentCache → Type 0
OnlyWritten c c' = c' ≡ record c { written = c'.written }

append_empty : (xs ys : List ℕ) → length ys ≡ 0 → xs ++ ys ≡ xs
append_empty [] [] e = refl
append_empty [] (y ∷ ys) e = absurd (omega arith)
append_empty (x ∷ xs) ys e = ap {A = List ℕ} (λ r. x ∷ r) (append_empty xs ys e)

append_assoc : (xs ys zs : List ℕ) → (xs ++ ys) ++ zs ≡ xs ++ (ys ++ zs)
append_assoc [] ys zs = refl
append_assoc (x ∷ xs) ys zs = ap {A = List ℕ} (λ r. x ∷ r) (append_assoc xs ys zs)

module _ (asset : Asset) (size : ℕ) where
  abbrev fits_chunk : Chunk → List ℕ → ContentCache → Bool
  fits_chunk chunk content c =
      is_taken c.minimum_free_bytes chunk && leb (length content + length chunk.bytes) size

  abbrev counted : Chunk → List ℕ → ContentCache → ContentCache
  counted chunk content c =
      if length chunk.bytes == 0
      then c
      else record c { written = put c.written asset.id (length content + length chunk.bytes) }

  chunk_taken :
      (chunk : Chunk) (content : List ℕ) (c : ContentCache)
      → fits_chunk chunk content c ≡ true
      → receive_chunk asset size chunk content c
        ≡ (ok (content ++ chunk.bytes), counted chunk content c)
  unfolding receive_chunk receive_some note_written ◌>>=◌ is_taken
  chunk_taken chunk content c e = ground (arith, append_empty content chunk.bytes)

  abbrev chunk_error : Chunk → List ℕ → ContentCache → Exception
  chunk_error chunk content c =
      if not (leb (length content + length chunk.bytes) size)
      then integrity_error
      else if not (leb (c.minimum_free_bytes + length chunk.bytes) chunk.free)
      then capacity_error
      else cache_error

  chunk_refused :
      (chunk : Chunk) (content : List ℕ) (c : ContentCache)
      → length content ≤ size
      → fits_chunk chunk content c ≡ false
      → (e : Exception) × (receive_chunk asset size chunk content c ≡ (err e, c))
  unfolding receive_chunk receive_some note_written ◌>>=◌ is_taken
  chunk_refused chunk content c le e = (chunk_error chunk content c, ground arith)

  counted_only :
      (chunk : Chunk) (content : List ℕ) (c : ContentCache)
      → OnlyWritten c (counted chunk content c)
  counted_only chunk content c = ground arith

  receive_step :
      (failure : Option Exception) (chunk : Chunk) (chunks : List Chunk) (content : List ℕ)
      (c : ContentCache)
      → fits_chunk chunk content c ≡ true
      → receive asset size failure (chunk ∷ chunks) content c
        ≡ receive asset size failure chunks (content ++ chunk.bytes) (counted chunk content c)
  unfolding receive ◌>>=◌
  receive_step failure chunk chunks content c e = rw (chunk_taken chunk content c e)

  receive_stop :
      (failure : Option Exception) (chunk : Chunk) (chunks : List Chunk) (content : List ℕ)
      (c : ContentCache) (e : Exception)
      → receive_chunk asset size chunk content c ≡ (err e, c)
      → receive asset size failure (chunk ∷ chunks) content c ≡ (err e, c)
  unfolding receive ◌>>=◌
  receive_stop failure chunk chunks content c e r = rw r

OnlyWritten-trans :
    (c c' c'' : ContentCache) → OnlyWritten c c' → OnlyWritten c' c'' → OnlyWritten c c''
OnlyWritten-trans c c' c'' h k =
    k ∙ ap {A = ContentCache} (λ d. record d { written = c''.written }) h

end_well :
    (failure : Option Exception) (content : List ℕ) (c : ContentCache)
    → is_none failure ≡ true
    → end_response failure content c ≡ (ok (content ++ []), c)
unfolding end_response
end_well none content c e = ground (arith, append_empty content [])
end_well (some x) content c e = absurd cc

end_badly :
    (failure : Option Exception) (content : List ℕ) (c : ContentCache)
    → is_none failure ≡ false
    → (x : Exception) × (end_response failure content c ≡ (err x, c))
unfolding end_response
end_badly none content c e = absurd cc
end_badly (some x) content c e = (x, refl)

module _ (asset : Asset) (size minimum : ℕ) (failure : Option Exception) where
  -- A body of the expected bytes arrives whole.
  pub receive_all :
      (chunks : List Chunk) (content : List ℕ) (c : ContentCache)
      → c.minimum_free_bytes ≡ minimum
      → is_received minimum size failure chunks (length content) ≡ true
      → (c' : ContentCache) × (receive asset size failure chunks content c
          ≡ (ok (content ++ body chunks), c'))
        × OnlyWritten c c'
  unfolding receive is_received body
  receive_all [] content c m e = (c, end_well failure content c (ground arith), refl)
  receive_all (chunk ∷ chunks) content c m e =
      let (c', done, only) =
        receive_all chunks (content ++ chunk.bytes) (counted asset size chunk content c)
          (ground arith)
          (ground
            (arith, length-append chunk.bytes (body chunks), length-append content chunk.bytes)) in
      (
        c',
        receive_step asset size failure chunk chunks content c
              (ground (arith, length-append chunk.bytes (body chunks)))
            ∙ done
            ∙ ap (λ r. (ok r, c')) (append_assoc content chunk.bytes (body chunks)),
        OnlyWritten-trans c _ c' (counted_only asset size chunk content c) only,
      )

  -- Anything else raises, and no file has changed.
  pub receive_refused :
      (chunks : List Chunk) (content : List ℕ) (c : ContentCache)
      → c.minimum_free_bytes ≡ minimum
      → length content ≤ size
      → is_received minimum size failure chunks (length content) ≡ false
      → (e : Exception) × (c' : ContentCache) × (receive asset size failure chunks content c
          ≡ (err e, c'))
        × OnlyWritten c c'
  unfolding receive is_received body
  receive_refused [] content c m le e =
      let (x, r) = end_badly failure content c (ground arith) in (x, c, r, refl)
  receive_refused (chunk ∷ chunks) content c m le e =
      elim (Bool-cases (fits_chunk asset size chunk content c)) [
        | inr no_fit ↦
            (let (x, r) = chunk_refused asset size chunk content c le no_fit in
              (x, c, receive_stop asset size failure chunk chunks content c x r, refl))
        | inl fit ↦
            (let (x, c', r, only) =
                receive_refused chunks (content ++ chunk.bytes) (counted asset size chunk content c)
                  (ground arith) (ground (arith, length-append content chunk.bytes))
                  (ground (
                    arith,
                    length-append chunk.bytes (body chunks),
                    length-append content chunk.bytes,
                  )) in
              (
                x,
                c',
                receive_step asset size failure chunk chunks content c fit ∙ r,
                OnlyWritten-trans c _ c' (counted_only asset size chunk content c) only,
              ))
      ]
