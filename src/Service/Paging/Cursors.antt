-- ===== src/Service/Paging/Cursors.antt =====
-- The cursor of a page of the uploads is found once, and a page ends with it.
use immich_on_demand.Prelude.{
  ℕ, zero, suc, ◌+◌, ◌≤◌, List, [], ◌∷◌, ◌++◌, some, Bool, true, false, not, length, take, all_of,
  ◌≡◌, refl, ap, arith,
}
use immich_on_demand.Prelude.Text.{Text, ◌=ₜ◌, =ₜ_iff}
use immich_on_demand.Uploads.Queue.{UploadStatus}
use immich_on_demand.Service.Paging.{matches, last_id}

-- No id stands twice.
unfoldable pub AllDistinct : List UploadStatus → Type 0
AllDistinct [] = Unit
AllDistinct (job ∷ jobs) =
    (all_of (λ other. not (other.id =ₜ job.id)) jobs ≡ true) × AllDistinct jobs

no_match :
    (x : Text) (index : ℕ) (jobs : List UploadStatus)
    → all_of (λ other. not (other.id =ₜ x)) jobs ≡ true
    → matches x index jobs ≡ []
unfolding matches
no_match x index [] h = refl
no_match x index (job ∷ jobs) h = ground (arith, no_match x (suc index) jobs)

-- The cursor at the end of `before` is found once.
pub one_match :
    (before : List UploadStatus) (x : UploadStatus) (rest : List UploadStatus) (index : ℕ)
    → AllDistinct (before ++ x ∷ rest)
    → matches x.id index (before ++ x ∷ rest) ≡ (index + length before) ∷ []
unfolding matches AllDistinct
one_match [] x rest index d = ground (arith, no_match x.id (suc index) rest, =ₜ_iff x.id x.id)
one_match (y ∷ before) x rest index d = ground (
  arith,
  one_match before x rest (suc index) d.1,
  distinct_head y.id before x rest,
  =ₜ_iff y.id x.id,
  =ₜ_iff x.id y.id,
)
  where
    distinct_head :
        (y : Text) (before : List UploadStatus) (x : UploadStatus) (rest : List UploadStatus)
        → all_of (λ other. not (other.id =ₜ y)) (before ++ x ∷ rest) ≡ true
        → (x.id =ₜ y) ≡ false
    distinct_head y [] x rest h = ground arith
    distinct_head y (z ∷ before) x rest h = distinct_head y before x rest (ground arith)

pub append_assoc : (xs ys zs : List UploadStatus) → (xs ++ ys) ++ zs ≡ xs ++ (ys ++ zs)
append_assoc [] ys zs = refl
append_assoc (x ∷ xs) ys zs = ap (λ (l : List UploadStatus). x ∷ l) (append_assoc xs ys zs)

pub append_nil : (xs : List UploadStatus) → xs ++ [] ≡ xs
append_nil [] = refl
append_nil (x ∷ xs) = ap (λ (l : List UploadStatus). x ∷ l) (append_nil xs)

pub take_all : (n : ℕ) (xs : List UploadStatus) → length xs ≤ n → take n xs ≡ xs
take_all zero [] h = refl
take_all zero (x ∷ xs) h = absurd (omega arith)
take_all (suc n) [] h = refl
take_all (suc n) (x ∷ xs) h = ap (λ (l : List UploadStatus). x ∷ l) (take_all n xs (omega arith))

-- The last job of a page, whose id is the cursor.
pub record Ends (page : List UploadStatus) : Type 0 where
  pub init : List UploadStatus
  pub last : UploadStatus
  pub split : page ≡ init ++ last ∷ []
  pub cursor : last_id page ≡ some last.id

pub page-Ends : (job : UploadStatus) (page : List UploadStatus) → Ends (job ∷ page)
unfolding last_id
page-Ends job [] = record { init = []; last = job; split = refl; cursor = refl }
page-Ends job (next ∷ page) =
    let e = page-Ends next page in
    record {
      init = job ∷ e.init;
      last = e.last;
      split = ap (λ (l : List UploadStatus). job ∷ l) e.split;
      cursor = e.cursor;
    }

pub all_at :
    (test : UploadStatus → Bool) (before : List UploadStatus) (x : UploadStatus)
    (rest : List UploadStatus)
    → all_of test (before ++ x ∷ rest) ≡ true
    → test x ≡ true
all_at test [] x rest h = ground arith
all_at test (y ∷ before) x rest h = all_at test before x rest (ground arith)
