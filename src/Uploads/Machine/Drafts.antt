-- ===== src/Uploads/Machine/Drafts.antt =====
-- The methods on a draft have outcomes of the state machine.
use immich_on_demand.Prelude.{ℕ, ℤ, some, Bool, true, ◌≡◌, refl, arith, inl, inr, ◌+◌, length}
use immich_on_demand.Prelude.Text.{Text}
use immich_on_demand.Prelude.Exec.{
  ok, guard, lift, pure, ◌>>=◌, ◌>>◌, Result-cases, bind-eq-ok, bind-err_result, bind-pure_state,
}
use immich_on_demand.Errors.{state_error, no_space}
use immich_on_demand.Uploads.Manifest.{Manifest, Host, UploadErrorCode}
use immich_on_demand.Uploads.Validate.{is_valid}
use immich_on_demand.Uploads.Payload.{Bytes, pwrite}
use immich_on_demand.Uploads.Disk.{Queue, Op, load, open_job, open_payload}
use immich_on_demand.Uploads.Disk.View.{
  manifest_of, load-keeps, load-eq-ok, store-views, open_job-eq-ok,
}
use immich_on_demand.Uploads.Queue.{is_writing}
use immich_on_demand.Uploads.Draft.{
  WritableUpload, Reading, is_open_draft, require_draft, seal_draft, block_writing, sealed_manifest,
  abandoned, write, truncate, change_payload, with_bytes, has_space,
}
use immich_on_demand.Uploads.Machine.{Edge, unchanged, Touches}
use immich_on_demand.Uploads.Machine.Attempts.{Reads-open_job}
use immich_on_demand.Uploads.Machine.Rules.{
  Reads, Reads-pure, Reads-lift, Reads-guard, Reads-bind, Reads-load, Touches-bind, Touches-fetch,
  Writes-bind, bind_state, Writes-write_status,
}

module _ (h : Host) (draft : WritableUpload) where
  pub Reads-require_draft : Reads (require_draft h draft)
  unfolding require_draft
  Reads-require_draft = Reads-bind _ _ (Reads-load h draft.id) (λ m.
      Reads-bind _ _ (Reads-open_job h draft.id) (λ dir.
        Reads-bind _ _ (Reads-lift _)
          (λ payload. Reads-bind _ _ (Reads-guard _ _) (λ _. Reads-pure m))))

  -- `require_draft` behind its load.
  checks : Manifest → Op Manifest
  checks m = do
    dir ← open_job h draft.id
    payload ← lift (open_payload h dir)
    guard (is_open_draft m payload draft) state_error
    pure m

  checks-eq-ok :
      (q : Queue) (m n : Manifest) → (checks m q).0 ≡ ok n → (m ≡ n) × (is_writing m.state ≡ true)
  unfolding checks ◌>>=◌ is_open_draft open_job
  checks-eq-ok q m n e = ground arith

  pub require_draft-eq-ok :
      (q : Queue) (n : Manifest)
      → (require_draft h draft q).0 ≡ ok n
      → (manifest_of q draft.id ≡ some n)
        × (is_valid h n draft.id ≡ true)
        × (is_writing n.state ≡ true)
  unfolding require_draft checks
  require_draft-eq-ok q n e = elim (Result-cases (load h draft.id q).0) [
    | inl (m, loaded) ↦
        let step = bind-eq-ok (load h draft.id) checks q (load-keeps h draft.id q) m loaded in
        let same = checks-eq-ok q m n (rw step at e) in
        let (found, valid) = load-eq-ok h draft.id q m loaded in
        rw (← same.0) (found, valid, same.1)
    | inr (x, failed) ↦ absurd (cc (bind-err_result (load h draft.id) checks q x failed))
  ]

  pub seal_draft-Touches : (r : Reading) (now : ℤ) → Touches h draft.id (seal_draft h draft r now)
  unfolding seal_draft
  seal_draft-Touches r now =
      Touches-fetch h draft.id (λ m. is_writing m.state ≡ true) _ _ Reads-require_draft
        require_draft-eq-ok
        (λ m running. Writes-bind h draft.id m _ _ (Reads-guard _ _) (λ _.
          Writes-bind h draft.id m _ _ (Reads-open_job h draft.id) (λ dir.
            Writes-bind h draft.id m _ _ (Reads-lift _) (λ payload.
              Writes-bind h draft.id m _ _ (Reads-guard _ _) (λ _.
                Writes-write_status h draft.id m (sealed_manifest m r now)
                  (Edge.seal m r now running))))))

  pub block_writing-Touches :
      (error : UploadErrorCode) → Touches h draft.id (block_writing h draft error)
  unfolding block_writing
  block_writing-Touches error =
      Touches-fetch h draft.id (λ m. is_writing m.state ≡ true) _ _ Reads-require_draft
        require_draft-eq-ok
        (λ m running.
          Writes-write_status h draft.id m (abandoned m error) (Edge.abandon m error running))

module _ (h : Host) (fits : ℕ → Bool) (change : Bytes → Bytes) (now : ℤ) (job_id : Text) where
  change_views :
      (q : Queue) (j : Text)
      → manifest_of (change_payload h fits change now job_id q).1 j ≡ manifest_of q j
  unfolding change_payload
  change_views q j =
      let P : Queue → Type 0 = λ s. manifest_of s j ≡ manifest_of q j in
      bind_state P (open_job h job_id) _ q (Reads-open_job h job_id) refl (λ dir opened.
        bind_state P (lift (open_payload h dir)) _ q (Reads-lift _) refl (λ payload _.
          bind_state P (guard (fits (length payload.bytes)) no_space) _ q (Reads-guard _ _) refl
            (λ _ _.
              store-views q job_id dir (with_bytes (change payload.bytes) now payload dir)
                (open_job-eq-ok h q job_id dir opened) (unfold with_bytes in refl) j)))

  pub change_payload-Touches : Touches h job_id (change_payload h fits change now job_id)
  change_payload-Touches = record { at = λ q. unchanged (change_views q) }

module _ (h : Host) (free minimum : ℕ) (now : ℤ) (draft : WritableUpload) where
  pub write-Touches :
      (offset : ℕ) (content : Bytes)
      → Touches h draft.id (write h free minimum now draft offset content)
  unfolding write
  write-Touches offset content = Touches-bind h draft.id _ _ (Reads-require_draft h draft) (λ _.
      record {
        at = λ q.
            rw
              (bind-pure_state
                (change_payload h (λ size. has_space free minimum size (offset + length content))
                  (λ bytes. pwrite bytes offset content) now draft.id)
                (length content) q)
              ((change_payload-Touches h _ _ now draft.id).at q);
      })

  pub truncate-Touches : (size : ℕ) → Touches h draft.id (truncate h free minimum now draft size)
  unfolding truncate
  truncate-Touches size =
      Touches-bind h draft.id _ _ (Reads-require_draft h draft)
        (λ _. change_payload-Touches h _ _ now draft.id)
