-- ===== src/Gateway/UseCase/Progress.antt =====
-- A scrape request is always answered, if its ports are.
use project4_sentinel_ai_scr.Base.{
  String, ◌≡◌, refl, ap, ◌⊎◌, inl, inr, Bool, true, false, some, List, Bool-cases,
}
use project4_sentinel_ai_scr.Base.Exec.{ok, Returns, Returns-bind, pure}
use project4_sentinel_ai_scr.Shared.FailureReason.{FailureReason}
use project4_sentinel_ai_scr.Shared.Job.{
  Job, create, mark_succeeded, mark_recovery_pending, mark_failed,
}
use project4_sentinel_ai_scr.Gateway.Policy.{should_trigger_recovery}
use project4_sentinel_ai_scr.Gateway.Ports.{ExtractionResult}
use project4_sentinel_ai_scr.Gateway.UseCase.{
  UseCase, apply_extraction_result, enqueue_if, is_recovery_pending, finish, execute, lift,
}

-- The extraction succeeded, or says why it failed.
abbrev pub IsExplained : ExtractionResult → Type 0
IsExplained r = (r.success ≡ true) ⊎ ((reason : FailureReason) × (r.failure_reason ≡ some reason))

applied_lem :
    (job : Job) (r : ExtractionResult)
    → IsExplained r
    → (after : Job) × (apply_extraction_result job r ≡ ok after)
unfolding apply_extraction_result
applied_lem job r h = elim (Bool-cases r.success) [
  | inl good ↦ (mark_succeeded job r.extracted, rw good refl)
  | inr bad ↦ elim (Bool-cases (should_trigger_recovery r.failure_reason)) [
    | inl again ↦ (mark_recovery_pending job, rw (bad, again) refl)
    | inr final ↦ elim h [
      | inl good ↦ absurd (cc)
      | inr (reason, p) ↦ (mark_failed job reason, rw (bad, final, p) refl)
    ]
  ]
]

module _ {W : Type 0} (u : UseCase W) where
  -- No port raises, and every answer about an extraction is explained.
  pub record Answers : Type 0 where
    pub mints : Returns (λ _. Unit) u.uuid4
    pub saves : (job : Job) → Returns (λ _. Unit) (u.job_repository.save job)
    pub extracts :
        (url domain : String) (fields : List String)
        → Returns IsExplained (u.extraction_service.extract url domain fields)
    pub queues : (id : String) → Returns (λ _. Unit) (u.recovery_queue.enqueue id)

  module _ (answers : Answers) where
    queued : (b : Bool) (id : String) → Returns (λ _. Unit) (enqueue_if u b id)
    queued true id w = answers.queues id w
    queued false id w = (tt, w, refl, tt)

    finish-Returns : (job : Job) → Returns (λ _. Unit) (finish u job)
    unfolding finish
    finish-Returns job =
        Returns-bind (λ _. Unit) (λ _. Unit) (u.job_repository.save job) _ (answers.saves job)
          (λ _ _ w.
            Returns-bind (λ _. Unit) (λ _. Unit)
              (enqueue_if u (is_recovery_pending job.status) job.id) (λ _. pure job)
              (queued (is_recovery_pending job.status) job.id) (λ _ _ v. (job, v, refl, tt)) _)

    -- If no port raises, and every answer about an extraction is a success or has a reason, a scrape request
    -- returns a job in every world.
    pub execute-Returns :
        (url domain : String) (fields : List String)
        → Returns (λ _. Unit) (execute u url domain fields)
    unfolding execute
    execute-Returns url domain fields =
        Returns-bind (λ _. Unit) (λ _. Unit) u.uuid4 _ answers.mints
          (λ id _.
            let job = create id url domain fields in
            Returns-bind (λ _. Unit) (λ _. Unit) (u.job_repository.save job) _ (answers.saves job)
              (λ _ _.
                Returns-bind IsExplained (λ _. Unit)
                  (u.extraction_service.extract url domain fields) _
                  (answers.extracts url domain fields)
                  (λ r explained.
                    Returns-bind (λ _. Unit) (λ _. Unit) (lift u (apply_extraction_result job r))
                      (finish u)
                      (λ w.
                        let (after, e) = applied_lem job r explained in
                        (after, w, ap (λ x. (x, w)) e, tt))
                      (λ after _. finish-Returns after))))
