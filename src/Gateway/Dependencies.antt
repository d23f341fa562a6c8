-- ===== src/Gateway/Dependencies.antt =====
-- api_gateway/interfaces/http/dependencies.py, and the use case that the router makes of what they give.
use project4_sentinel_ai_scr.Base.{String}
use project4_sentinel_ai_scr.Base.Exec.{Exec}
use project4_sentinel_ai_scr.Shared.Metrics.{Monitor}
use project4_sentinel_ai_scr.Gateway.Ports.{ExtractionService, JobRepository, RecoveryQueue}
use project4_sentinel_ai_scr.Gateway.RateLimiter.{Counters, RateLimiter}
use project4_sentinel_ai_scr.Gateway.UseCase.{UseCase}
use project4_sentinel_ai_scr.Contract.Http.{HttpClient, http_extraction_service}
use project4_sentinel_ai_scr.Contract.JobRows.{JobSession, save, get}
use project4_sentinel_ai_scr.Contract.Stream.{Stream, enqueue}

-- `app.state`, with the two views of its Redis client, and what the modules take from libraries.
pub record AppState (W : Type 0) : Type 0 where
  pub counters : Counters W
  pub stream : Stream W
  pub http_client : HttpClient W
  pub extraction_worker_base_url : String
  pub monitor : Monitor W
  pub uuid4 : Exec W String

module _ {W : Type 0} (state : AppState W) where
  unfoldable pub get_rate_limiter : RateLimiter W
  get_rate_limiter = record { redis = state.counters; limit = 60; window_seconds = 60 }

  unfoldable pub get_extraction_service : ExtractionService W
  get_extraction_service =
      http_extraction_service state.http_client state.extraction_worker_base_url

  unfoldable pub get_recovery_queue : RecoveryQueue W
  get_recovery_queue = record { enqueue = enqueue state.stream "recovery_stream" }

  -- `ProcessScrapeRequestUseCase(…)`, with the repository of the request.
  unfoldable pub use_case_with : JobRepository W → UseCase W
  unfolding get_extraction_service get_recovery_queue
  use_case_with job_repository = record {
    extraction_service = get_extraction_service;
    job_repository = job_repository;
    recovery_queue = get_recovery_queue;
    monitor = state.monitor;
    uuid4 = state.uuid4;
  }

-- The repository over the request's session.
unfoldable pub get_job_repository : {W : Type 0} → JobSession W → JobRepository W
get_job_repository session = record { save = save session; get = get session }
