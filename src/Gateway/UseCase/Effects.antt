-- ===== src/Gateway/UseCase/Effects.antt =====
-- What a scrape request stores and queues, on every branch.
use project4_sentinel_ai_scr.Base.{
  String, ◌==◌, ◌≡◌, sym, ap, ◌∙◌, subst, ◌⊎◌, Bool, true, false, Option, none, some, List, [], ◌∷◌,
  ◌++◌, arith, if◌then◌else◌,
}
use project4_sentinel_ai_scr.Base.Exec.{ok, continue-eq-ok}
use project4_sentinel_ai_scr.Shared.JobStatus.{
  JobStatus, pending, recovery_pending, recovering, success, failed, needs_human_review,
}
use project4_sentinel_ai_scr.Shared.JobStatus
use project4_sentinel_ai_scr.Shared.Metrics.{Metric, job_status}
use project4_sentinel_ai_scr.Shared.Job.{
  Job, create, mark_succeeded, mark_recovery_pending, mark_failed,
}
use project4_sentinel_ai_scr.Gateway.Ports.{ExtractionResult}
use project4_sentinel_ai_scr.Gateway.UseCase.{
  UseCase, apply_extraction_result, is_recovery_pending, enqueue_if, finish, execute, lift,
}

-- What the services hold in a world: the rows of the jobs table, and the identifiers in the queue.
pub record View (W : Type 0) : Type 0 where
  pub stored : W → String → Option Job
  pub queued : W → List String

abbrev pub SameRequest : Job → Job → Type 0
SameRequest old job =
    (old.id ≡ job.id)
    × (old.url ≡ job.url)
    × (old.domain ≡ job.domain)
    × (old.required_fields ≡ job.required_fields)

abbrev pub IsDecided : JobStatus → Type 0
IsDecided status = (status ≡ success) ⊎ (status ≡ recovery_pending) ⊎ (status ≡ failed)

applied :
    (old job : Job) (r : ExtractionResult)
    → apply_extraction_result old r ≡ ok job
    → SameRequest old job × IsDecided job.status
unfolding apply_extraction_result mark_succeeded mark_recovery_pending mark_failed
applied old job r h = ground arith

module _ {W : Type 0} (view : View W) where
  open view use {stored, queued}

  abbrev pub Same : W → W → Type 0
  Same w v = ((j : String) → stored v j ≡ stored w j) × (queued v ≡ queued w)

  -- The documented behaviour of the ports: a save that returns has inserted a row or updated the row of
  -- the same request, an enqueue that returns has appended its message, a new identifier is unused.
  pub record IsLawful (u : UseCase W) : Type 0 where
    pub uuid_same : (w v : W) (id : String) → u.uuid4 w ≡ (ok id, v) → Same w v
    pub uuid_fresh : (w v : W) (id : String) → u.uuid4 w ≡ (ok id, v) → stored w id ≡ none
    pub extract_same :
        (url domain : String) (fields : List String) (w v : W) (r : ExtractionResult)
        → u.extraction_service.extract url domain fields w ≡ (ok r, v)
        → Same w v
    pub inc_same : (m : Metric) (w : W) → Same w (u.monitor.inc m 1 w)
    pub save_new :
        (job : Job) (w v : W)
        → u.job_repository.save job w ≡ (ok tt, v)
        → stored w job.id ≡ none
        → stored v job.id ≡ some job
    pub save_again :
        (old job : Job) (w v : W)
        → u.job_repository.save job w ≡ (ok tt, v)
        → stored w job.id ≡ some old
        → SameRequest old job
        → stored v job.id ≡ some job
    pub save_others :
        (job : Job) (w v : W)
        → u.job_repository.save job w ≡ (ok tt, v)
        → ((j : String) → (job.id == j) ≡ false → stored v j ≡ stored w j) × (queued v ≡ queued w)
    pub enqueue_done :
        (id : String) (w v : W)
        → u.recovery_queue.enqueue id w ≡ (ok tt, v)
        → ((j : String) → stored v j ≡ stored w j) × (queued v ≡ queued w ++ (id ∷ []))

  -- A new row holds the job, which is in the queue exactly if it waits for a recovery, and nothing else
  -- has changed between the worlds.
  pub record IsRecorded (w v : W) (job : Job) : Type 0 where
    pub new : stored w job.id ≡ none
    pub row : stored v job.id ≡ some job
    pub others : (j : String) → (job.id == j) ≡ false → stored v j ≡ stored w j
    pub queue :
        queued v ≡ (if is_recovery_pending job.status then queued w ++ (job.id ∷ []) else queued w)

  module _ (u : UseCase W) (lawful : IsLawful u) where
    enqueued :
        (b : Bool) (id : String) (w v : W)
        → enqueue_if u b id w ≡ (ok tt, v)
        → ((j : String) → stored v j ≡ stored w j)
          × (queued v ≡ (if b then queued w ++ (id ∷ []) else queued w))
    enqueued true id w v h = lawful.enqueue_done id w v h
    enqueued false id w v h =
        let e : w ≡ v = ap (λ r. r.1) h in (λ j. ap (λ x. stored x j) (sym e), ap queued (sym e))

    finished :
        (old job result : Job) (w v : W)
        → finish u job w ≡ (ok result, v)
        → stored w job.id ≡ some old
        → SameRequest old job
        → (result ≡ job)
          × (stored v job.id ≡ some job)
          × ((j : String) → (job.id == j) ≡ false → stored v j ≡ stored w j)
          × (queued v
              ≡ (if is_recovery_pending job.status then queued w ++ (job.id ∷ []) else queued w))
    unfolding finish
    finished old job result w v h there same =
        let (_, w₁, saved, h₁) = continue-eq-ok (u.job_repository.save job w) _ h in
        let counted = u.monitor.inc (job_status (JobStatus.value job.status)) 1 w₁ in
        let waits = is_recovery_pending job.status in
        let (_, w₂, sent, h₂) = continue-eq-ok (enqueue_if u waits job.id counted) _ h₁ in
        let (others, queue) = lawful.save_others job w w₁ saved in
        let (rows, log) = lawful.inc_same (job_status (JobStatus.value job.status)) w₁ in
        let (rows', queue') = enqueued waits job.id counted w₂ sent in
        let end : w₂ ≡ v = ap (λ r. r.1) h₂ in
        (
          cc h₂,
          ap (λ x. stored x job.id) (sym end)
              ∙ rows' job.id
              ∙ rows job.id
              ∙ lawful.save_again old job w w₁ saved there same,
          λ j differs. ap (λ x. stored x j) (sym end) ∙ rows' j ∙ rows j ∙ others j differs,
          ap queued (sym end)
              ∙ queue'
              ∙ ap (λ q. if waits then q ++ (job.id ∷ []) else q) (log ∙ queue),
        )

    -- Let the ports behave as documented. A request that returns a job has stored it under an
    -- identifier that was unused, with the request's address, domain and fields and with a status
    -- that is decided. The job is in the queue exactly if it waits for a recovery, and no other
    -- row and no other message has changed.
    pub execute-IsRecorded :
        (url domain : String) (fields : List String) (w v : W) (job : Job)
        → execute u url domain fields w ≡ (ok job, v)
        → IsRecorded w v job
          × (job.url ≡ url)
          × (job.domain ≡ domain)
          × (job.required_fields ≡ fields)
          × IsDecided job.status
    unfolding execute create
    execute-IsRecorded url domain fields w v job h =
        let (id, w₁, minted, h₁) = continue-eq-ok (u.uuid4 w) _ h in
        let job₀ = create id url domain fields in
        let (_, w₂, saved, h₂) = continue-eq-ok (u.job_repository.save job₀ w₁) _ h₁ in
        let (r, w₃, answered, h₃) =
          continue-eq-ok (u.extraction_service.extract url domain fields w₂) _ h₂ in
        let (job₁, w₄, decided, h₄) =
          continue-eq-ok (lift u (apply_extraction_result job₀ r) w₃) _ h₃ in
        let (same, status) = applied job₀ job₁ r (ap (λ x. x.0) decided) in
        let stays : w₃ ≡ w₄ = ap (λ x. x.1) decided in
        let (rows, log) = lawful.uuid_same w w₁ id minted in
        let (others, queue) = lawful.save_others job₀ w₁ w₂ saved in
        let (rows', log') = lawful.extract_same url domain fields w₂ w₃ r answered in
        let kept : (j : String) → stored w₄ j ≡ stored w₂ j =
          λ j. ap (λ x. stored x j) (sym stays) ∙ rows' j in
        let fresh = lawful.uuid_fresh w w₁ id minted in
        let first : stored w₂ id ≡ some job₀ = lawful.save_new job₀ w₁ w₂ saved (rows id ∙ fresh) in
        let (e, row, others', queue') =
          finished job₀ job₁ job w₄ v h₄ (ap (stored w₄) (sym same.0) ∙ kept id ∙ first) same in
        subst
          (λ x.
            IsRecorded w v x
            × (x.url ≡ url)
            × (x.domain ≡ domain)
            × (x.required_fields ≡ fields)
            × IsDecided x.status)
          (sym e)
          (
            record {
              new = ap (stored w) (sym same.0) ∙ fresh;
              row = row;
              others = λ j differs.
                  others' j differs
                  ∙ kept j
                  ∙ others j (ap (λ x. x == j) same.0 ∙ differs)
                  ∙ rows j;
              queue =
                  queue'
                  ∙ ap (λ q. if is_recovery_pending job₁.status then q ++ (job₁.id ∷ []) else q)
                      (ap queued (sym stays) ∙ log' ∙ queue ∙ log);
            },
            sym same.1,
            sym same.2,
            sym same.3,
            status,
          )
