-- ===== src/Contract/JobRows/Sharing.antt =====
-- What one service writes into the jobs table is what the other reads.
use project4_sentinel_ai_scr.Base.{String, ◌≡◌, refl, sym, ap, ◌∙◌, Option, none, some, arith}
use project4_sentinel_ai_scr.Base.Exec.{ok, continue-eq-ok}
use project4_sentinel_ai_scr.Shared.FailureReason
use project4_sentinel_ai_scr.Shared.FailureReason.{
  FailureReason, missing_required_field, empty_required_field, navigation_error, http_error,
}
use project4_sentinel_ai_scr.Shared.JobStatus
use project4_sentinel_ai_scr.Shared.Job.{Job}
use project4_sentinel_ai_scr.Recovery.State.{RecoveryState}
use project4_sentinel_ai_scr.Recovery.Consumer.{final_job}
use project4_sentinel_ai_scr.Gateway.UseCase.Effects.{SameRequest}
use project4_sentinel_ai_scr.Contract.JobRows.{
  JobModel, Outcome, JobSession, reason_column, read_column, job_to_model, model_to_job, outcome_of,
  assigned, put, save, get, read_row, write_row, update,
}

read_column-reason_column : (o : Option FailureReason) → read_column (reason_column o) ≡ ok o
unfolding FailureReason.value FailureReason.of_value
read_column-reason_column none = refl
read_column-reason_column (some missing_required_field) = refl
read_column-reason_column (some empty_required_field) = refl
read_column-reason_column (some navigation_error) = refl
read_column-reason_column (some http_error) = refl

-- A job that is written as a row is read back as it was.
pub model_to_job-job_to_model : (job : Job) → model_to_job (job_to_model job) ≡ ok job
unfolding model_to_job job_to_model
model_to_job-job_to_model job =
    rw (JobStatus.of_value-value job.status)
      (rw (read_column-reason_column job.failure_reason) refl)

-- The rows as committed.
pub record View (W : Type 0) : Type 0 where
  pub row : W → String → Option JobModel

abbrev pub assigned_row : Outcome → Option JobModel → Option JobModel
assigned_row o none = none
assigned_row o (some model) = some (assigned o model)

pub assigned-SameRequest :
    (old job : Job)
    → SameRequest old job
    → assigned (outcome_of job) (job_to_model old) ≡ job_to_model job
unfolding job_to_model outcome_of
assigned-SameRequest old job (a, b, c, d) = cc (a, b, c, d)

-- The row of a job that may be there, and whether it is of the same request as another job.
abbrev pub stored_row : Option Job → Option JobModel
stored_row none = none
stored_row (some old) = some (job_to_model old)

abbrev pub IsRequestOf : Option Job → Job → Type 0
IsRequestOf none job = Unit
IsRequestOf (some old) job = SameRequest old job

module _ {W : Type 0} (view : View W) where
  open view use {row}

  -- The documented behaviour of a session whose unit of work is one added row, or one changed row.
  pub record IsLawful (session : JobSession W) : Type 0 where
    pub get_done :
        (id : String) (w v : W) (found : Option JobModel)
        → session.get id w ≡ (ok found, v)
        → (found ≡ row w id) × ((j : String) → row v j ≡ row w j)
    pub get_id : (id : String) (w : W) (model : JobModel) → row w id ≡ some model → model.id ≡ id
    pub add_done :
        (model : JobModel) (w v : W)
        → session.commit (session.add model w) ≡ (ok tt, v)
        → row w model.id ≡ none
        → row v model.id ≡ some model
    pub assign_done :
        (id : String) (o : Outcome) (w v : W)
        → session.commit (session.assign id o w) ≡ (ok tt, v)
        → row v id ≡ assigned_row o (row w id)

  module _ (session : JobSession W) (lawful : IsLawful session) where
    -- A read of a row that stands for a job.
    read :
        (job : Job) (w v : W) (r : Option Job)
        → row w job.id ≡ some (job_to_model job)
        → get session job.id w ≡ (ok r, v)
        → r ≡ some job
    unfolding get
    read job w v r there h =
        let (model, w₁, got, h₁) = continue-eq-ok (session.get job.id w) _ h in
        let (e, _) = lawful.get_done job.id w w₁ model got in
        let said = ap (λ x. x.0) h₁ in
        let as_job : read_row session (some (job_to_model job)) ≡ ok (some job) =
          rw (model_to_job-job_to_model job) refl in
        let same = sym said ∙ ap (read_row session) (e ∙ there) ∙ as_job in cc same

    reassigned :
        (old job : Job) (w v : W)
        → row w job.id ≡ some (job_to_model old)
        → SameRequest old job
        → session.commit (session.assign (job_to_model old).id (outcome_of job) w) ≡ (ok tt, v)
        → row v job.id ≡ some (job_to_model job)
    unfolding job_to_model
    reassigned old job w v there same h =
        ap (row v) (sym same.0)
        ∙ lawful.assign_done old.id (outcome_of job) w v h
        ∙ ap (assigned_row (outcome_of job)) (ap (row w) same.0 ∙ there)
        ∙ ap some (assigned-SameRequest old job same)

    saved :
        (old : Option Job) (job : Job) (w v : W)
        → row w job.id ≡ stored_row old
        → IsRequestOf old job
        → save session job w ≡ (ok tt, v)
        → row v job.id ≡ some (job_to_model job)
    unfolding save job_to_model
    saved none job w v there same h =
        let (existing, w₁, got, h₁) = continue-eq-ok (session.get job.id w) _ h in
        let (e, rows) = lawful.get_done job.id w w₁ existing got in
        lawful.add_done (job_to_model job) w₁ v
          (ap (λ x. session.commit (put session job x w₁)) (sym (e ∙ there)) ∙ h₁)
          (rows job.id ∙ there)
    saved (some old) job w v there same h =
        let (existing, w₁, got, h₁) = continue-eq-ok (session.get job.id w) _ h in
        let (e, rows) = lawful.get_done job.id w w₁ existing got in
        reassigned old job w₁ v (rows job.id ∙ there) same
          (ap (λ x. session.commit (put session job x w₁)) (sym (e ∙ there)) ∙ h₁)

    -- Let the session behave as documented. A lookup after a save, with nothing between them and
    -- where both return, gives the saved job: where no row was there, and where the row was that
    -- of a job of the same request.
    pub get-save :
        (old : Option Job) (job : Job) (w v u : W) (r : Option Job)
        → row w job.id ≡ stored_row old
        → IsRequestOf old job
        → save session job w ≡ (ok tt, v)
        → get session job.id v ≡ (ok r, u)
        → r ≡ some job
    get-save old job w v u r there same h got = read job v u r (saved old job w v there same h) got

    final_job-SameRequest : (job : Job) (t : RecoveryState) → SameRequest job (final_job job t)
    unfolding final_job
    final_job-SameRequest job t = ground arith

    -- Let the session behave as documented. The gateway reads what the recovery engine wrote:
    -- after an update of a stored job to the outcome of a recovery, a lookup of its identifier
    -- gives that outcome, with nothing between them and where both return.
    pub get-update :
        (old : Job) (t : RecoveryState) (w v u : W) (r : Option Job)
        → row w old.id ≡ some (job_to_model old)
        → update session (final_job old t) w ≡ (ok tt, v)
        → get session old.id v ≡ (ok r, u)
        → r ≡ some (final_job old t)
    unfolding update
    get-update old t w v u r there h got =
        let job = final_job old t in
        let same = final_job-SameRequest old t in
        let here = ap (row w) (sym same.0) ∙ there in
        let (model, w₁, found, h₁) = continue-eq-ok (session.get job.id w) _ h in
        let (e, rows) = lawful.get_done job.id w w₁ model found in
        let row_there =
          reassigned old job w₁ v (rows job.id ∙ here) same
            (ap (λ x. write_row session job x w₁) (sym (e ∙ here)) ∙ h₁) in
        read job v u r row_there (ap (λ x. get session x v) (sym same.0) ∙ got)
