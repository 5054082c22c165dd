-- ===== src/Uploads/Listing/Due.antt =====
-- What `next_due` of src/immich_on_demand/uploads.py returns.
use mathlib.Core.List.{Permᴰ, Memᴰ}
use mathlib.Core.List.Permᴰ
use mathlib.Core.List.Memᴰ
use immich_on_demand.Prelude.{
  ℤ, List, [], ◌∷◌, Option, none, some, Bool, true, false, ◌≡◌, refl, ap, ◌∙◌, arith, inl, inr,
  all_of, is_nonneg, Bool-cases,
}
use immich_on_demand.Prelude.Exec.{ok, ◌>>=◌}
use immich_on_demand.Uploads.Manifest.{Host}
use immich_on_demand.Uploads.Disk.{Queue}
use immich_on_demand.Uploads.Queue.{UploadStatus}
use immich_on_demand.Uploads.Listing.{precedes, is_due, first_due, next_due, sort_jobs}
use immich_on_demand.Uploads.Listing.Order.{precedes_refl, IsSorted}
use immich_on_demand.Uploads.Listing.Readable.{readings}
use immich_on_demand.Uploads.Listing.Listed.{AllCanonical, list-Listed}

-- What the worker is to take next: the first by the order of the list among the jobs that are due.
pub record IsNext (now_ns : ℤ) (jobs : List UploadStatus) (job : UploadStatus) : Type 0 where
  pub among : Memᴰ job jobs
  pub due : is_due now_ns job ≡ true
  pub first :
      (other : UploadStatus)
      → Memᴰ other jobs
      → is_due now_ns other ≡ true
      → precedes job other ≡ true

-- `next_due` gives what is next, or nothing if nothing is due.
unfoldable pub NextAmong : ℤ → List UploadStatus → Option UploadStatus → Type 0
NextAmong now_ns jobs (some job) = IsNext now_ns jobs job
NextAmong now_ns jobs none = (job : UploadStatus) → Memᴰ job jobs → is_due now_ns job ≡ false

all-member :
    (test : UploadStatus → Bool) (jobs : List UploadStatus) (job : UploadStatus)
    → all_of test jobs ≡ true
    → Memᴰ job jobs
    → test job ≡ true
all-member test [] job a m = absurd (Memᴰ.not-nil m)
all-member test (x ∷ jobs) job a (Memᴰ.head e) = ground arith
all-member test (x ∷ jobs) job a (Memᴰ.tail m) = all-member test jobs job (ground arith) m

next_behind :
    (now_ns : ℤ) (x : UploadStatus) (jobs : List UploadStatus) (next : Option UploadStatus)
    → is_due now_ns x ≡ false
    → NextAmong now_ns jobs next
    → NextAmong now_ns (x ∷ jobs) next
unfolding NextAmong
next_behind now_ns x jobs none d n = λ job m. elim (Memᴰ.cases_cons m) [
  | inl same ↦ ap (is_due now_ns) same ∙ d
  | inr behind ↦ n job behind
]
next_behind now_ns x jobs (some job) d n = record {
  among = Memᴰ.tail n.among;
  due = n.due;
  first = λ other m e. elim (Memᴰ.cases_cons m) [
    | inl same ↦ absurd (ground (arith, ap (is_due now_ns) same))
    | inr behind ↦ n.first other behind e
  ];
}

member_permuted : {A : Type 0} {xs ys : List A} → Permᴰ xs ys → (a : A) → Memᴰ a xs → Memᴰ a ys
member_permuted Permᴰ.nil a m = m
member_permuted (Permᴰ.cons e p) a m = elim (Memᴰ.cases_cons m) [
  | inl same ↦ Memᴰ.head (same ∙ e)
  | inr behind ↦ Memᴰ.tail (member_permuted p a behind)
]
member_permuted (Permᴰ.swap e k) a m = elim (Memᴰ.cases_cons m) [
  | inl same ↦ Memᴰ.tail (Memᴰ.head (same ∙ e))
  | inr behind ↦ elim (Memᴰ.cases_cons behind) [
    | inl same ↦ Memᴰ.head (same ∙ k)
    | inr rest ↦ Memᴰ.tail (Memᴰ.tail rest)
  ]
]
member_permuted (Permᴰ.trans p r) a m = member_permuted r a (member_permuted p a m)

of_permuted :
    (now_ns : ℤ) (jobs others : List UploadStatus) (next : Option UploadStatus)
    → Permᴰ jobs others
    → NextAmong now_ns jobs next
    → NextAmong now_ns others next
unfolding NextAmong
of_permuted now_ns jobs others none p n = λ job m. n job (member_permuted (Permᴰ.symm p) job m)
of_permuted now_ns jobs others (some job) p n = record {
  among = member_permuted p job n.among;
  due = n.due;
  first = λ other m e. n.first other (member_permuted (Permᴰ.symm p) other m) e;
}

first_due-NextAmong :
    (now_ns : ℤ) (jobs : List UploadStatus)
    → IsSorted jobs
    → NextAmong now_ns jobs (first_due now_ns jobs)
unfolding first_due NextAmong IsSorted
first_due-NextAmong now_ns [] s = λ job m. absurd (Memᴰ.not-nil m)
first_due-NextAmong now_ns (x ∷ jobs) s = elim (Bool-cases (is_due now_ns x)) [
  | inl d ↦ rw d (record {
    among = Memᴰ.head refl;
    due = d;
    first = λ other m e. elim (Memᴰ.cases_cons m) [
      | inl same ↦ ap (precedes x) same ∙ precedes_refl x
      | inr behind ↦ all-member (precedes x) jobs other s.0 behind
    ];
  })
  | inr d ↦
      rw d
        (next_behind now_ns x jobs (first_due now_ns jobs) d (first_due-NextAmong now_ns jobs s.1))
]

-- After `list`, `next_due` picks among the jobs that can be read.
pub record NextOutcome (h : Host) (now_ns : ℤ) (q : Queue) (next : Option UploadStatus)
    : Type 0 where
  pub returned : (next_due h now_ns q).0 ≡ ok next
  pub chosen : NextAmong now_ns (readings h q q.valid_ids) next

-- If every listed id is canonical and the time is not negative, `next_due` returns a job that can be
-- read, is due and precedes every other such job in the order of `list`, or nothing if no job that can be
-- read is due.
pub next_due-NextOutcome :
    (h : Host) (now_ns : ℤ) (q : Queue)
    → AllCanonical h q
    → is_nonneg now_ns ≡ true
    → NextOutcome h now_ns q (first_due now_ns (sort_jobs (readings h q q.valid_ids)))
unfolding next_due ◌>>=◌
next_due-NextOutcome h now_ns q canonical n =
    let listed = list-Listed h q canonical in
    record {
      returned = rw (n, listed.returned) refl;
      chosen =
          of_permuted now_ns _ _ _ (Permᴰ.symm listed.all_readable)
            (first_due-NextAmong now_ns _ listed.ordered);
    }
