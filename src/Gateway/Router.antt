-- ===== src/Gateway/Router.antt =====
-- api_gateway/interfaces/http: routers/jobs_router.py and schemas.py.
pub mod Responses
use project4_sentinel_ai_scr.Base.{
  ℕ, String, ◌<>◌, Bool, true, false, Option, none, some, List, if◌then◌else◌,
}
use project4_sentinel_ai_scr.Base.Dict.{Dict}
use project4_sentinel_ai_scr.Base.Exec.{Exec, pure, raise, ◌>>=◌, ◌>>◌, http_exception}
use project4_sentinel_ai_scr.Shared.FailureReason.{
  FailureReason, missing_required_field, empty_required_field, navigation_error, http_error,
}
use project4_sentinel_ai_scr.Shared.JobStatus.{
  JobStatus, pending, recovery_pending, recovering, success, failed, needs_human_review,
}
use project4_sentinel_ai_scr.Shared.Job.{Job}
use project4_sentinel_ai_scr.Gateway.UseCase.{UseCase, is_recovery_pending, execute}
use project4_sentinel_ai_scr.Gateway.RateLimiter.{RateLimiter, is_allowed}

pub record CreateScrapeRequestBody : Type 0 where
  pub url : String
  pub domain : String
  pub required_fields : List String

pub record ScrapeResponseBody : Type 0 where
  pub job_id : String
  pub status : JobStatus
  pub result : Option (Dict String)
  pub recovery_used : Bool
  pub poll_url : Option String

pub record ProblemDetail : Type 0 where
  pub type : String
  pub title : String
  pub status : ℕ
  pub detail : String
  pub job_id : String

pub data Content : Type 0 where
  scrape : ScrapeResponseBody → Content
  problem : ProblemDetail → Content

pub record JsonResponse : Type 0 where
  pub status_code : ℕ
  pub content : Content

unfoldable pub from_job : Job → ScrapeResponseBody
from_job job = record {
  job_id = job.id;
  status = job.status;
  result = job.result;
  recovery_used = is_recovery_pending job.status;
  poll_url = if is_recovery_pending job.status then some ("/api/v1/jobs/" <> job.id) else none;
}

-- An optional reason in a format string, as Python 3.12 prints a member of an `Enum`.
abbrev pub format_reason : Option FailureReason → String
format_reason none = "None"
format_reason (some missing_required_field) = "FailureReason.MISSING_REQUIRED_FIELD"
format_reason (some empty_required_field) = "FailureReason.EMPTY_REQUIRED_FIELD"
format_reason (some navigation_error) = "FailureReason.NAVIGATION_ERROR"
format_reason (some http_error) = "FailureReason.HTTP_ERROR"

unfoldable pub problem_of : Job → ProblemDetail
problem_of job = record {
  type = "https://sentinelai.dev/errors/validation-failed";
  title = "Extraction validation failed";
  status = 422;
  detail = "Extraction failed with non-recoverable reason: " <> format_reason job.failure_reason;
  job_id = job.id;
}

-- The three returns of `create_scrape_job`, by the status of the job.
unfoldable pub respond : Job → JobStatus → JsonResponse
respond job success = record { status_code = 200; content = scrape (from_job job) }
respond job recovery_pending = record { status_code = 202; content = scrape (from_job job) }
respond job _ = record { status_code = 422; content = problem (problem_of job) }

-- `request.client.host if request.client else "unknown"`
abbrev pub client_ip : Option String → String
client_ip none = "unknown"
client_ip (some host) = host

module _ {W : Type 0} (limiter : RateLimiter W) (u : UseCase W) where
  abbrev pub admitted : CreateScrapeRequestBody → Bool → Exec W JsonResponse
  admitted body false = raise (http_exception 429)
  admitted body true = do
    job ← execute u body.url body.domain body.required_fields
    pure (respond job job.status)

  unfoldable pub create_scrape_job : Option String → CreateScrapeRequestBody → Exec W JsonResponse
  create_scrape_job client body = do
    allowed ← is_allowed limiter (client_ip client)
    admitted body allowed

module _ {W : Type 0} (u : UseCase W) where
  abbrev pub found_job : Option Job → Exec W ScrapeResponseBody
  found_job none = raise (http_exception 404)
  found_job (some job) = pure (from_job job)

  unfoldable pub get_job : String → Exec W ScrapeResponseBody
  get_job job_id = do job ← u.job_repository.get job_id; found_job job
