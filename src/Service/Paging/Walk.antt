-- ===== src/Service/Paging/Walk.antt =====
-- Whoever follows the cursors of `list_uploads` in src/immich_on_demand/service.py sees every job once.
use mathlib.Core.Path.{subst}
use immich_on_demand.Prelude.{
  ℕ, zero, suc, ◌+◌, ◌≤◌, ◌<◌, List, [], ◌∷◌, ◌++◌, Option, none, some, true, false, ltb, leb,
  if◌then◌else◌, length, take, drop, all_of, ◌≡◌, refl, sym, ap, ◌∙◌, arith, Bool-cases, inl, inr,
  take-append-drop, length-append, drop-append_exact, length-take, length-drop,
}
use immich_on_demand.Prelude.Text.{Text}
use immich_on_demand.Prelude.Exec.{ok, err}
use immich_on_demand.Prelude.Fallible.{check, ◌>>=◌}
use immich_on_demand.Errors.{Fallible, queue_error}
use immich_on_demand.Uploads.Manifest.{Host, is_canonical_uuid}
use immich_on_demand.Uploads.Queue.{UploadStatus}
use immich_on_demand.Service.Paging.{matches, start_of, last_id, page_from, list_uploads}
use immich_on_demand.Service.Paging.Cursors.{
  AllDistinct, one_match, append_assoc, append_nil, take_all, page-Ends, all_at,
}

abbrev follow : (Text → Fallible (List UploadStatus)) → Option Text → Fallible (List UploadStatus)
follow more none = ok []
follow more (some cursor) = more cursor

-- A client of the request, which follows the cursor until there is none.
unfoldable pub walk : ℕ → Host → List UploadStatus → ℕ → Option Text → Fallible (List UploadStatus)
walk zero h jobs limit after = err queue_error
walk (suc fuel) h jobs limit after =
    let more : Text → Fallible (List UploadStatus) =
      λ cursor. walk fuel h jobs limit (some cursor) in
    list_uploads h jobs after limit >>= λ p. (follow more p.1 >>= λ rest. ok (p.0 ++ rest))

module _ (h : Host) (jobs : List UploadStatus) (limit : ℕ) (distinct : AllDistinct jobs)
    (canonical : all_of (λ (job : UploadStatus). is_canonical_uuid h job.id) jobs ≡ true)
    (small : leb (suc limit) 32 ≡ true) where
  -- The cursor of the last job of `before` leads behind it.
  start_behind :
      (before : List UploadStatus) (x : UploadStatus) (rest : List UploadStatus)
      → jobs ≡ before ++ x ∷ rest
      → start_of h jobs (some x.id) ≡ ok (suc (length before))
  unfolding start_of check ◌>>=◌
  start_behind before x rest e =
      let c =
        all_at (λ (job : UploadStatus). is_canonical_uuid h job.id) before x rest
          (ap (all_of (λ (job : UploadStatus). is_canonical_uuid h job.id)) (sym e) ∙ canonical) in
      let m = one_match before x rest 0 (subst AllDistinct e distinct) in
      let m' : matches x.id 0 jobs ≡ (0 + length before) ∷ [] = ap (matches x.id 0) e ∙ m in
      rw (c, m') (ap (λ n. ok (suc n)) (zero_add (length before)))
    where
      zero_add : (n : ℕ) → 0 + n ≡ n
      zero_add n = omega arith

  -- The page behind `before`.
  list_page :
      (before rest : List UploadStatus) (after : Option Text)
      → jobs ≡ before ++ rest
      → start_of h jobs after ≡ ok (length before)
      → list_uploads h jobs after (suc limit)
        ≡ ok (
          take (suc limit) rest,
          if ltb (length before + length (take (suc limit) rest)) (length jobs)
              then last_id (take (suc limit) rest)
              else none,
        )
  unfolding list_uploads page_from check ◌>>=◌
  list_page before rest after e s =
      let some_left : leb 1 (suc limit) ≡ true = ground arith in
      let left : drop (length before) jobs ≡ rest =
        ap (drop (length before)) e ∙ drop-append_exact (length before) before rest refl in
      rw (some_left, small, s, left) refl

  -- Where no job is left behind the page, the page is all that was left.
  page_is_rest :
      (before rest : List UploadStatus)
      → jobs ≡ before ++ rest
      → ltb (length before + length (take (suc limit) rest)) (length jobs) ≡ false
      → take (suc limit) rest ≡ rest
  page_is_rest before rest e b =
      take_all (suc limit) rest
        (ground (arith, ap length e, length-append before rest, length-take (suc limit) rest))

  walk_on :
      (fuel : ℕ) (before rest : List UploadStatus)
      → jobs ≡ before ++ rest
      → length rest < suc fuel
      → ltb (length before + length (take (suc limit) rest)) (length jobs) ≡ true
      → (x : UploadStatus) × ((last_id (take (suc limit) rest) ≡ some x.id)
          × (start_of h jobs (some x.id) ≡ ok (length (before ++ take (suc limit) rest)))
          × (jobs ≡ (before ++ take (suc limit) rest) ++ drop (suc limit) rest)
          × (length (drop (suc limit) rest) < fuel))
  walk_on fuel before [] e f b = absurd (ground (arith, ap length e, length-append before []))
  walk_on fuel before (y ∷ ys) e f b =
      let page = take (suc limit) (y ∷ ys) in
      let tail = drop (suc limit) (y ∷ ys) in
      let end = page-Ends y (take limit ys) in
      let whole : jobs ≡ (before ++ page) ++ tail =
        e
        ∙ ap (λ l. before ++ l) (sym (take-append-drop (suc limit) (y ∷ ys)))
        ∙ sym (append_assoc before page tail) in
      let at_end : before ++ page ≡ (before ++ end.init) ++ end.last ∷ [] =
        ap (λ l. before ++ l) end.split ∙ sym (append_assoc before end.init (end.last ∷ [])) in
      let placed : jobs ≡ (before ++ end.init) ++ end.last ∷ tail =
        whole
        ∙ ap (λ l. l ++ tail) at_end
        ∙ append_assoc (before ++ end.init) (end.last ∷ []) tail in
      let many : suc (length (before ++ end.init)) ≡ length (before ++ page) = sym (
        ap length at_end
        ∙ length-append (before ++ end.init) (end.last ∷ [])
        ∙ add_one (length (before ++ end.init))) in
      (
        end.last,
        (
          end.cursor,
          start_behind (before ++ end.init) end.last tail placed ∙ ap (λ n. ok n) many,
          whole,
          ground (arith, length-drop (suc limit) (y ∷ ys)),
        ),
      )
    where
      add_one : (n : ℕ) → n + 1 ≡ suc n
      add_one n = omega arith

  walk_from :
      (fuel : ℕ) (before rest : List UploadStatus) (after : Option Text)
      → jobs ≡ before ++ rest
      → start_of h jobs after ≡ ok (length before)
      → length rest < fuel
      → walk fuel h jobs (suc limit) after ≡ ok rest
  unfolding walk ◌>>=◌
  walk_from zero before rest after e s f = absurd (omega arith)
  walk_from (suc fuel) before rest after e s f =
      let page = take (suc limit) rest in
      let listed = list_page before rest after e s in
      elim (Bool-cases (ltb (length before + length page) (length jobs))) [
        | inr b ↦ rw (listed, b) (ap (λ l. ok l) (append_nil page ∙ page_is_rest before rest e b))
        | inl b ↦
            let (x, (c, s', e', f')) = walk_on fuel before rest e f b in
            let later =
              walk_from fuel (before ++ page) (drop (suc limit) rest) (some x.id) e' s' f' in
            rw (listed, b, c, later) (ap (λ l. ok l) (take-append-drop (suc limit) rest))
      ]

-- If no id stands twice among the jobs, all are canonical, and the limit is between 1 and 32, then a
-- client that starts without a cursor and follows the cursors gets all jobs, each once and in order,
-- after at most one request for each job and one more.
pub walk_lem :
    (h : Host) (jobs : List UploadStatus) (limit : ℕ)
    → AllDistinct jobs
    → all_of (λ (job : UploadStatus). is_canonical_uuid h job.id) jobs ≡ true
    → 1 ≤ limit
    → limit ≤ 32
    → walk (suc (length jobs)) h jobs limit none ≡ ok jobs
unfolding start_of
walk_lem h jobs zero d c l u = absurd (omega arith)
walk_lem h jobs (suc limit) d c l u =
    walk_from h jobs limit d c (ground arith) (suc (length jobs)) [] jobs none refl refl
      (omega arith)
