-- ===== src/Contract/JobRows.antt =====
-- The jobs table that the gateway and the recovery engine share: api_gateway/infrastructure/sql
-- (job_model.py, job_mapper.py, sqlalchemy_job_repository.py) and
-- recovery_engine/infrastructure/sql/sql_job_repository.py. The SQL session is a parameter.
pub mod Sharing
use project4_sentinel_ai_scr.Base.{String, ◌==◌, Option, none, some, List, if◌then◌else◌}
use project4_sentinel_ai_scr.Base.Dict.{Dict}
use project4_sentinel_ai_scr.Base.Exec.{
  Exec, Result, ok, err, pure, raise, modify, and_then, ◌>>=◌, ◌>>◌, value_error,
}
use project4_sentinel_ai_scr.Shared.FailureReason
use project4_sentinel_ai_scr.Shared.FailureReason.{FailureReason}
use project4_sentinel_ai_scr.Shared.JobStatus
use project4_sentinel_ai_scr.Shared.JobStatus.{JobStatus}
use project4_sentinel_ai_scr.Shared.Job.{Job}

-- A row; both services declare the same columns.
pub record JobModel : Type 0 where
  pub id : String
  pub url : String
  pub domain : String
  pub required_fields : List String
  pub status : String
  pub result : Option (Dict String)
  pub failure_reason : Option String

-- The columns that a service changes in a row that is there.
pub record Outcome : Type 0 where
  pub status : String
  pub result : Option (Dict String)
  pub failure_reason : Option String

-- `job.failure_reason.value if job.failure_reason else None`
abbrev pub reason_column : Option FailureReason → Option String
reason_column none = none
reason_column (some reason) = some (FailureReason.value reason)

-- `JobStatus(…)` and `FailureReason(…)` of a text that is no value are a ValueError.
abbrev pub known : {A : Type 0} → Option A → Result A
known none = err value_error
known (some a) = ok a

-- `FailureReason(model.failure_reason) if model.failure_reason else None`
abbrev pub read_column : Option String → Result (Option FailureReason)
read_column none = ok none
read_column (some text) =
    if text == ""
    then ok none
    else and_then (known (FailureReason.of_value text)) λ reason. ok (some reason)

unfoldable pub job_to_model : Job → JobModel
job_to_model job = record {
  id = job.id;
  url = job.url;
  domain = job.domain;
  required_fields = job.required_fields;
  status = JobStatus.value job.status;
  result = job.result;
  failure_reason = reason_column job.failure_reason;
}

unfoldable pub model_to_job : JobModel → Result Job
model_to_job model = and_then (known (JobStatus.of_value model.status)) λ status.
    and_then (read_column model.failure_reason) λ reason. ok (record {
      id = model.id;
      url = model.url;
      domain = model.domain;
      required_fields = model.required_fields;
      status = status;
      result = model.result;
      failure_reason = reason;
    })

-- The three assignments to a row that is there.
unfoldable pub outcome_of : Job → Outcome
outcome_of job = record {
  status = JobStatus.value job.status;
  result = job.result;
  failure_reason = reason_column job.failure_reason;
}

abbrev pub assigned : Outcome → JobModel → JobModel
assigned o model = record model {
  status = o.status;
  result = o.result;
  failure_reason = o.failure_reason;
}

-- The session: a lookup by the primary key, `add`, the assignments to the attributes of a row that was
-- looked up, and `commit`.
pub record JobSession (W : Type 0) : Type 0 where
  pub get : String → Exec W (Option JobModel)
  pub add : JobModel → W → W
  pub assign : String → Outcome → W → W
  pub commit : Exec W (Unit {0})

module _ {W : Type 0} (session : JobSession W) where
  abbrev pub put : Job → Option JobModel → W → W
  put job none = session.add (job_to_model job)
  put job (some existing) = session.assign existing.id (outcome_of job)

  -- SqlAlchemyJobRepository
  unfoldable pub save : Job → Exec W (Unit {0})
  save job = do existing ← session.get job.id; modify (put job existing) tt; session.commit

  abbrev pub read_row : Option JobModel → Result (Option Job)
  read_row none = ok none
  read_row (some model) = and_then (model_to_job model) λ job. ok (some job)

  abbrev lift : {A : Type 0} → Result A → Exec W A
  lift r w = (r, w)

  unfoldable pub get : String → Exec W (Option Job)
  get job_id = do model ← session.get job_id; lift (read_row model)

  -- SqlJobRepository of the recovery engine, whose `get` reads a row in the same way.
  abbrev pub write_row : Job → Option JobModel → Exec W (Unit {0})
  write_row job none = raise value_error
  write_row job (some model) = do
    modify (session.assign model.id (outcome_of job)) tt
    session.commit

  unfoldable pub update : Job → Exec W (Unit {0})
  update job = do model ← session.get job.id; write_row job model
