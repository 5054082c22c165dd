-- ===== src/Uploads/Listing/Order.antt =====
-- The order in which `list` of src/immich_on_demand/uploads.py returns the jobs.
use mathlib.Core.List.{Permᴰ}
use mathlib.Core.List.Permᴰ
use immich_on_demand.Prelude.{
  List, [], ◌∷◌, Bool, true, false, ◌&&◌, ◌≡◌, refl, arith, all_of, Bool-cases, inl, inr,
}
use immich_on_demand.Prelude.Text.{Text, text_lt}
use immich_on_demand.Uploads.Queue.{UploadStatus}
use immich_on_demand.Uploads.Listing.{precedes, or_zero, insert_job, sort_jobs}

text_lt-antisym : (a b : Text) → text_lt a b ≡ true → text_lt b a ≡ false
unfolding text_lt
text_lt-antisym [] [] h = absurd cc
text_lt-antisym [] (y ∷ ys) h = refl
text_lt-antisym (x ∷ xs) [] h = absurd cc
text_lt-antisym (x ∷ xs) (y ∷ ys) h = ground (arith, text_lt-antisym xs ys)

-- `a <= b` and `b <= c` give `a <= c`, for texts compared as `not b < a`.
text_le_trans : (a b c : Text) → text_lt b a ≡ false → text_lt c b ≡ false → text_lt c a ≡ false
unfolding text_lt
text_le_trans [] b c h k = ground arith
text_le_trans (x ∷ xs) [] c h k = absurd (ground arith)
text_le_trans (x ∷ xs) (y ∷ ys) [] h k = absurd (ground arith)
text_le_trans (x ∷ xs) (y ∷ ys) (z ∷ zs) h k = ground (arith, text_le_trans xs ys zs)

precedes-total : (a b : UploadStatus) → precedes a b ≡ false → precedes b a ≡ true
unfolding precedes or_zero
precedes-total a b h = ground (arith, text_lt-antisym b.id a.id)

pub precedes_refl : (a : UploadStatus) → precedes a a ≡ true
precedes_refl a = ground (arith, precedes-total a a)

precedes_trans :
    (a b c : UploadStatus) → precedes a b ≡ true → precedes b c ≡ true → precedes a c ≡ true
unfolding precedes or_zero
precedes_trans a b c h k = ground (arith, text_le_trans a.id b.id c.id)

-- No job stands behind one that it must precede.
unfoldable pub IsSorted : List UploadStatus → Type 0
IsSorted [] = Unit
IsSorted (job ∷ jobs) = (all_of (precedes job) jobs ≡ true) × IsSorted jobs

all-insert :
    (test : UploadStatus → Bool) (job : UploadStatus) (jobs : List UploadStatus)
    → all_of test (insert_job job jobs) ≡ (test job && all_of test jobs)
unfolding insert_job
all-insert test job [] = ground arith
all-insert test job (next ∷ jobs) = ground (arith, all-insert test job jobs)

all-precedes :
    (a b : UploadStatus) (jobs : List UploadStatus)
    → precedes a b ≡ true
    → all_of (precedes b) jobs ≡ true
    → all_of (precedes a) jobs ≡ true
all-precedes a b [] h k = refl
all-precedes a b (c ∷ jobs) h k = ground (arith, all-precedes a b jobs h, precedes_trans a b c)

insert-IsSorted :
    (job : UploadStatus) (jobs : List UploadStatus) → IsSorted jobs → IsSorted (insert_job job jobs)
unfolding insert_job IsSorted
insert-IsSorted job [] s = (refl, tt)
insert-IsSorted job (next ∷ jobs) s = ground (
  arith,
  all-precedes job next jobs,
  insert-IsSorted job jobs s.1,
  precedes-total job next,
  all-insert (precedes next) job jobs,
)

pub sort-IsSorted : (jobs : List UploadStatus) → IsSorted (sort_jobs jobs)
unfolding sort_jobs IsSorted
sort-IsSorted [] = tt
sort-IsSorted (job ∷ jobs) = insert-IsSorted job (sort_jobs jobs) (sort-IsSorted jobs)

insert-Permᴰ :
    (job : UploadStatus) (jobs : List UploadStatus) → Permᴰ (job ∷ jobs) (insert_job job jobs)
unfolding insert_job
insert-Permᴰ job [] = Permᴰ.refl _
insert-Permᴰ job (next ∷ jobs) = elim (Bool-cases (precedes job next)) [
  | inl e ↦ rw e (Permᴰ.refl _)
  | inr e ↦ rw e (Permᴰ.trans (Permᴰ.swap refl refl) (Permᴰ.cons refl (insert-Permᴰ job jobs)))
]

pub sort-Permᴰ : (jobs : List UploadStatus) → Permᴰ jobs (sort_jobs jobs)
unfolding sort_jobs
sort-Permᴰ [] = Permᴰ.nil
sort-Permᴰ (job ∷ jobs) =
    Permᴰ.trans (Permᴰ.cons refl (sort-Permᴰ jobs)) (insert-Permᴰ job (sort_jobs jobs))
