-- ===== src/Gateway/UseCase.antt =====
-- api_gateway/application/use_cases/process_scrape_request_use_case.py
pub mod Effects
pub mod Progress
use project4_sentinel_ai_scr.Base.{
  String, Bool, true, false, Option, none, some, List, if◌then◌else◌,
}
use project4_sentinel_ai_scr.Base.Exec.{
  Exec, Result, ok, err, pure, raise, modify, ◌>>=◌, ◌>>◌, assertion_error,
}
use project4_sentinel_ai_scr.Shared.FailureReason.{FailureReason}
use project4_sentinel_ai_scr.Shared.JobStatus.{JobStatus, recovery_pending}
use project4_sentinel_ai_scr.Shared.JobStatus
use project4_sentinel_ai_scr.Shared.Metrics.{Monitor, job_status}
use project4_sentinel_ai_scr.Shared.Job.{
  Job, create, mark_succeeded, mark_recovery_pending, mark_failed,
}
use project4_sentinel_ai_scr.Gateway.Policy.{should_trigger_recovery}
use project4_sentinel_ai_scr.Gateway.Ports.{
  ExtractionResult, ExtractionService, JobRepository, RecoveryQueue,
}

-- `assert result.failure_reason is not None` and the return after it
abbrev pub fail_with : Job → Option FailureReason → Result Job
fail_with job none = err assertion_error
fail_with job (some reason) = ok (mark_failed job reason)

unfoldable pub apply_extraction_result : Job → ExtractionResult → Result Job
apply_extraction_result job result =
    if result.success
    then ok (mark_succeeded job result.extracted)
    else if should_trigger_recovery result.failure_reason
    then ok (mark_recovery_pending job)
    else fail_with job result.failure_reason

abbrev pub is_recovery_pending : JobStatus → Bool
is_recovery_pending recovery_pending = true
is_recovery_pending _ = false

-- The use case with its three ports, the metrics, and the source of new identifiers, `uuid4`.
pub record UseCase (W : Type 0) : Type 0 where
  pub extraction_service : ExtractionService W
  pub job_repository : JobRepository W
  pub recovery_queue : RecoveryQueue W
  pub monitor : Monitor W
  pub uuid4 : Exec W String

module _ {W : Type 0} (u : UseCase W) where
  abbrev pub lift : {A : Type 0} → Result A → Exec W A
  lift r w = (r, w)

  abbrev pub enqueue_if : Bool → String → Exec W (Unit {0})
  enqueue_if true id = u.recovery_queue.enqueue id
  enqueue_if false id = pure tt

  -- The job after the extraction is stored, counted and queued.
  unfoldable pub finish : Job → Exec W Job
  finish job = do
    u.job_repository.save job
    modify (u.monitor.inc (job_status (JobStatus.value job.status)) 1) tt
    enqueue_if (is_recovery_pending job.status) job.id
    pure job

  unfoldable pub execute : String → String → List String → Exec W Job
  execute url domain required_fields = do
    id ← u.uuid4
    let job = create id url domain required_fields
    u.job_repository.save job
    result ← u.extraction_service.extract url domain required_fields
    extracted ← lift (apply_extraction_result job result)
    finish extracted
