-- ===== src/Uploads/Machine/Methods.antt =====
-- Every locked section of `UploadQueue` has one of the outcomes of the state machine.
use immich_on_demand.Prelude.{ℕ, ℤ, Option, none, some, Bool, true, ◌≡◌, refl, arith}
use immich_on_demand.Prelude.Text.{Text, ◌=ₜ◌}
use immich_on_demand.Prelude.Exec.{guard, ◌>>=◌}
use immich_on_demand.Errors.{Exception, state_error}
use immich_on_demand.Uploads.Manifest.{Manifest, Host, UploadErrorCode}
use immich_on_demand.Uploads.Validate.{is_replacing}
use immich_on_demand.Uploads.Disk.{Op, load}
use immich_on_demand.Uploads.Queue.{
  require_known, require_listed, Source, mark_replacement, record_candidate, record_new,
  begin_replacing, retry, block, commit, mark_cancelled, is_attempting, marked, with_candidate,
  verified, retried, stopped, finished, dropped,
}
use immich_on_demand.Uploads.Machine.{Edge, mark, find, verify, stop, finish, drop, Touches, Writes}
use immich_on_demand.Uploads.Machine.Rules.{
  Reads, Reads-pure, Reads-raise, Reads-guard, Touches-bind, Touches-load, Writes-bind,
  Writes-guard, Writes-if, Writes-Reads, Writes-write_status,
}

pub Reads-require_known : (h : Host) (job_id : Text) → Reads (require_known h job_id)
unfolding require_known require_listed ◌>>=◌
Reads-require_known h job_id = record { keeps = λ q. ground arith }

module _ {B : Type 0} (h : Host) (job_id : Text) where
  -- The common head of the methods: a known job, a check of the arguments, and its manifest.
  pub known_load :
      (k : Manifest → Op B)
      → ((m : Manifest) → Writes h job_id m (k m))
      → Touches h job_id (require_known h job_id >>= λ _. load h job_id >>= k)
  known_load k t =
      Touches-bind h job_id _ _ (Reads-require_known h job_id) (λ _. Touches-load h job_id k t)

  known_guard-load :
      (b : Bool) (e : Exception) (k : Manifest → Op B)
      → ((m : Manifest) → Writes h job_id m (k m))
      → Touches h job_id (require_known h job_id >>= λ _. guard b e >>= λ _. load h job_id >>= k)
  known_guard-load b e k t =
      Touches-bind h job_id _ _ (Reads-require_known h job_id)
        (λ _. Touches-bind h job_id _ _ (Reads-guard b e) (λ _. Touches-load h job_id k t))

module _ (h : Host) (job_id : Text) where
  pub mark_replacement-Touches :
      (revision : ℕ) (s : Source) → Touches h job_id (mark_replacement h job_id revision s)
  unfolding mark_replacement
  mark_replacement-Touches revision s = known_guard-load h job_id _ _ _ (λ m.
      Writes-bind h job_id m _ _ (Reads-guard _ _) (λ _.
        Writes-guard h job_id m _ _ _
          (λ p. Writes-write_status h job_id m (marked m s) (mark m s p))))

  record_new-Writes :
      (m : Manifest) (candidate : Text) (known : Option Text)
      → m.candidate_asset_id ≡ known
      → is_attempting m.state ≡ true
      → Writes h job_id m (record_new h job_id m candidate known)
  unfolding record_new
  record_new-Writes m candidate none e running =
      Writes-write_status h job_id m (with_candidate m candidate)
        (find m candidate running (ground arith))
  record_new-Writes m candidate (some known) e running =
      Writes-if h job_id m (known =ₜ candidate) _ _ (λ _. Writes-Reads h job_id m _ (Reads-pure m))
        (λ _. Writes-Reads h job_id m _ (Reads-raise state_error))

  pub record_candidate-Touches :
      (candidate : Text) → Touches h job_id (record_candidate h job_id candidate)
  unfolding record_candidate
  record_candidate-Touches candidate = known_guard-load h job_id _ _ _ (λ m.
      Writes-guard h job_id m _ _ _
        (λ running. record_new-Writes m candidate m.candidate_asset_id refl running))

  pub begin_replacing-Touches : Touches h job_id (begin_replacing h job_id)
  unfolding begin_replacing
  begin_replacing-Touches = known_load h job_id _ (λ m. Writes-guard h job_id m _ _ _ (λ replaces.
      Writes-if h job_id m (is_replacing m.state) _ _
        (λ _. Writes-Reads h job_id m _ (Reads-pure m))
        (λ _.
          Writes-guard h job_id m _ _ _
            (λ p. Writes-write_status h job_id m (verified m) (verify m replaces p)))))

  pub retry-Touches :
      (at_ns : ℤ) (error : Option UploadErrorCode) (revision : Option ℕ)
      → Touches h job_id (retry h job_id at_ns error revision)
  unfolding retry
  retry-Touches at_ns error revision = known_guard-load h job_id _ _ _ (λ m.
      Writes-bind h job_id m _ _ (Reads-guard _ _) (λ _.
        Writes-bind h job_id m _ _ (Reads-guard _ _) (λ _. Writes-guard h job_id m _ _ _ (λ queued.
          Writes-guard h job_id m _ _ _ (λ hashed.
            Writes-write_status h job_id m (retried m at_ns error)
              (Edge.retry m at_ns error queued hashed))))))

  pub block-Touches : (error : UploadErrorCode) → Touches h job_id (block h job_id error)
  unfolding block
  block-Touches error = known_load h job_id _ (λ m.
      Writes-guard h job_id m _ _ _
        (λ queued. Writes-write_status h job_id m (stopped m error) (stop m error queued)))

  pub commit-Touches : Touches h job_id (commit h job_id)
  unfolding commit
  commit-Touches = known_load h job_id _ (λ m. Writes-guard h job_id m _ _ _ (λ ready.
      Writes-guard h job_id m _ _ _
        (λ candidate. Writes-write_status h job_id m (finished m) (finish m ready candidate))))

  pub mark_cancelled-Touches :
      (requested_name : Text) (revision : ℕ)
      → Touches h job_id (mark_cancelled h job_id requested_name revision)
  unfolding mark_cancelled
  mark_cancelled-Touches requested_name revision = known_load h job_id _ (λ m.
      Writes-bind h job_id m _ _ (Reads-guard _ _) (λ _. Writes-guard h job_id m _ _ _ (λ idle.
        Writes-guard h job_id m _ _ _
          (λ absent. Writes-write_status h job_id m (dropped m) (drop m idle absent)))))
