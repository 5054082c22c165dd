-- ===== src/Service/Delay.antt =====
-- `_next_upload_delay` of src/immich_on_demand/service.py and the delays of the retries: how long the
-- worker waits.
use immich_on_demand.Prelude.{
  ℕ, zero, suc, ℤ, ◌+◌, ◌-◌, ◌*◌, List, [], ◌∷◌, Option, none, some, Bool, false, ◌||◌, ◌≡◌, refl,
  arith, min, ltb, leb, if◌then◌else◌, is_some, none_or, leb_ℤ,
}
use immich_on_demand.Prelude.Exec.{pure, ◌>>=◌}
use immich_on_demand.Uploads.Manifest.{Host}
use immich_on_demand.Uploads.Disk.{Op}
use immich_on_demand.Uploads.Queue.{UploadStatus}
use immich_on_demand.Uploads.Listing.{list, is_active, is_due, first_due}
use immich_on_demand.Service.Checks.{delay_at, upload_retry_delay}

wait_until : ℕ → Option ℤ → Option ℕ
wait_until now_ns (some (ℤ.pos at)) = if ltb now_ns at then some (at - now_ns) else none
wait_until now_ns _ = none

-- The time in nanoseconds until a waiting job becomes due, if it is to come.
unfoldable pub wait_of : ℕ → UploadStatus → Option ℕ
unfolding wait_until
wait_of now_ns job = if is_active job.state then wait_until now_ns job.next_attempt_ns else none

unfoldable pub shorter : Option ℕ → Option ℕ → Option ℕ
shorter none b = b
shorter (some a) none = some a
shorter (some a) (some b) = if leb a b then some a else some b

-- `min(due) - now`, which is not negative
unfoldable pub shortest_wait : ℕ → List UploadStatus → Option ℕ
unfolding wait_of
shortest_wait now_ns [] = none
shortest_wait now_ns (job ∷ jobs) = shorter (wait_of now_ns job) (shortest_wait now_ns jobs)

in_seconds : {F : Type 0} → (ℕ → F) → Option ℕ → Option F
in_seconds seconds none = none
in_seconds seconds (some delay) = some (seconds delay)

-- `_next_upload_delay`; `seconds` is the division of a number of nanoseconds to a float, with the
-- `max` that leaves it as it is.
unfoldable pub next_upload_delay : {F : Type 0} → Host → (ℕ → F) → ℕ → Op (Option F)
unfolding in_seconds
next_upload_delay h seconds now_ns = do
  jobs ← list h
  pure (in_seconds seconds (shortest_wait now_ns jobs))

unfoldable pub is_over : Option ℕ → ℕ → Bool
is_over none t = false
is_over (some d) t = leb d t

is_over-shorter : (a b : Option ℕ) (t : ℕ) → is_over (shorter a b) t ≡ (is_over a t || is_over b t)
unfolding is_over shorter
is_over-shorter none b t = refl
is_over-shorter (some a) none t = ground arith
is_over-shorter (some a) (some b) t = ground arith

wait_after :
    (now_ns t : ℕ) (at : Option ℤ)
    → none_or (λ n. leb_ℤ n (ℤ.pos (now_ns + t))) at
      ≡ (none_or (λ n. leb_ℤ n (ℤ.pos now_ns)) at || is_over (wait_until now_ns at) t)
unfolding wait_until is_over
wait_after now_ns t none = refl
wait_after now_ns t (some (ℤ.pos n)) = ground arith
wait_after now_ns t (some (ℤ.negsuc n)) = ground arith

due_after :
    (now_ns t : ℕ) (job : UploadStatus)
    → is_due (ℤ.pos (now_ns + t)) job
      ≡ (is_due (ℤ.pos now_ns) job || is_over (wait_of now_ns job) t)
unfolding is_due wait_of is_over
due_after now_ns t job = ground (arith, wait_after now_ns t job.next_attempt_ns)

-- A job is due at a later time exactly if one is due at the time that the delay was computed for, or
-- the delay is over at the later time.
pub first_due-shortest_wait :
    (now_ns t : ℕ) (jobs : List UploadStatus)
    → is_some (first_due (ℤ.pos (now_ns + t)) jobs)
      ≡ (is_some (first_due (ℤ.pos now_ns) jobs) || is_over (shortest_wait now_ns jobs) t)
unfolding first_due shortest_wait is_over
first_due-shortest_wait now_ns t [] = refl
first_due-shortest_wait now_ns t (job ∷ jobs) = ground (
  arith,
  first_due-shortest_wait now_ns t jobs,
  due_after now_ns t job,
  is_over-shorter (wait_of now_ns job) (shortest_wait now_ns jobs) t,
)

-- After no attempt or one a retry waits for five seconds, and after each further attempt for twice as
-- long as before, but never longer than sixty seconds.
pub upload_retry_delay_bounds :
    (attempts : ℕ)
    → (upload_retry_delay 0 ≡ 5)
      × (upload_retry_delay 1 ≡ 5)
      × (upload_retry_delay (suc (suc attempts)) ≡ min 60 (2 * upload_retry_delay (suc attempts)))
unfolding upload_retry_delay delay_at
upload_retry_delay_bounds zero = (refl, refl, refl)
upload_retry_delay_bounds (suc zero) = (refl, refl, refl)
upload_retry_delay_bounds (suc (suc zero)) = (refl, refl, refl)
upload_retry_delay_bounds (suc (suc (suc zero))) = (refl, refl, refl)
upload_retry_delay_bounds (suc (suc (suc (suc n)))) = (refl, refl, ground arith)
