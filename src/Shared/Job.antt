-- ===== src/Shared/Job.antt =====
-- sentinel_shared/domain/job.py: the immutable Job and its transitions, each of which is a new Job.
use project4_sentinel_ai_scr.Base.{String, Option, none, some, List}
use project4_sentinel_ai_scr.Base.Dict.{Dict}
use project4_sentinel_ai_scr.Shared.FailureReason.{FailureReason}
use project4_sentinel_ai_scr.Shared.JobStatus.{
  JobStatus, pending, recovery_pending, success, failed,
}

pub record Job : Type 0 where
  pub id : String
  pub url : String
  pub domain : String
  pub required_fields : List String
  pub status : JobStatus
  pub result : Option (Dict String)
  pub failure_reason : Option FailureReason

-- `Job.create`; the new `uuid4` is the first argument
unfoldable pub create : String → String → String → List String → Job
create uuid url domain required_fields = record {
  id = uuid;
  url = url;
  domain = domain;
  required_fields = required_fields;
  status = pending;
  result = none;
  failure_reason = none;
}

unfoldable pub mark_succeeded : Job → Dict String → Job
mark_succeeded job result = record job { status = success; result = some result }

unfoldable pub mark_recovery_pending : Job → Job
mark_recovery_pending job = record job { status = recovery_pending }

unfoldable pub mark_failed : Job → FailureReason → Job
mark_failed job reason = record job { status = failed; failure_reason = some reason }
