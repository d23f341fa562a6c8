-- ===== src/Tests/SystemRuns.antt =====
-- A history of the whole system: a request whose extraction fails, and the recovery of its job.
use project4_sentinel_ai_scr.Base.{◌≡◌, refl, subst, ◌⊎◌, select, none, some, [], ◌∷◌}
use project4_sentinel_ai_scr.Base.Dict.{lookup, insert, keys, has_key, from_keys, from_keys_onto}
use project4_sentinel_ai_scr.Base.Text.{strip, is_blank, is_space, lstrip, rstrip}
use project4_sentinel_ai_scr.Shared.FailureReason
use project4_sentinel_ai_scr.Shared.JobStatus
use project4_sentinel_ai_scr.Shared.Job.{
  Job, create, mark_succeeded, mark_recovery_pending, mark_failed,
}
use project4_sentinel_ai_scr.Shared.Validator.{
  is_missing_or_empty, determine_failure_reason, validate,
}
use project4_sentinel_ai_scr.Gateway.Policy.{should_trigger_recovery}
use project4_sentinel_ai_scr.Gateway.RateLimiter.{is_allowed}
use project4_sentinel_ai_scr.Gateway.UseCase
use project4_sentinel_ai_scr.Gateway.UseCase.{apply_extraction_result, finish}
use project4_sentinel_ai_scr.Gateway.UseCase.Effects.{SameRequest}
use project4_sentinel_ai_scr.Gateway.Router.{CreateScrapeRequestBody, create_scrape_job}
use project4_sentinel_ai_scr.Gateway.Dependencies.{
  get_rate_limiter, get_extraction_service, get_recovery_queue, get_job_repository, use_case_with,
}
use project4_sentinel_ai_scr.Recovery.Nodes
use project4_sentinel_ai_scr.Recovery.Graph.{
  supersteps, next, recovery_edge, recovery_node, route_after_proposal, build_recovery_graph,
}
use project4_sentinel_ai_scr.Recovery.Engines.{
  known_of, demo_propose_selectors, demo_recovery_engine,
}
use project4_sentinel_ai_scr.Recovery.Consumer
use project4_sentinel_ai_scr.Recovery.Main.{process_graph, process_consumer, sql_job_repository}
use project4_sentinel_ai_scr.Contract.Http
use project4_sentinel_ai_scr.Contract.JobRows
use project4_sentinel_ai_scr.Contract.Stream.{enqueue, message_fields, merge_onto}
use project4_sentinel_ai_scr.Worker.Extract
use project4_sentinel_ai_scr.Worker.Router.{extract_endpoint}
use project4_sentinel_ai_scr.Worker.Schemas.{from_attempt_result}
use project4_sentinel_ai_scr.System.Table.{HasResult, IsOutcome, IsComplete, AllComplete}
use project4_sentinel_ai_scr.System.History.{
  Reach, here, then, request, poll, Reach-HasResult, Reach-kept,
}
use project4_sentinel_ai_scr.Tests.SystemWorld.{World, view, session, sys}
use project4_sentinel_ai_scr.Tests.SystemLaws.{session-IsLawful, sys-IsLawful}
use project4_sentinel_ai_scr.System.Additions.{SavesJobs}
use project4_sentinel_ai_scr.System.Updates.{UpdatesJobs}
use project4_sentinel_ai_scr.System.Repositories.{
  get_job_repository-SavesJobs, sql_job_repository-UpdatesJobs,
}

abbrev body : CreateScrapeRequestBody
body = record {
  url = "https://shop.example/p";
  domain = "shop.example";
  required_fields = "title" ∷ [];
}

abbrev start : World
start = record { jobs = []; queue = [] }

abbrev waiting : Job
waiting = record {
  id = "job-1";
  url = "https://shop.example/p";
  domain = "shop.example";
  required_fields = "title" ∷ [];
  status = JobStatus.recovery_pending;
  result = none;
  failure_reason = none;
}

abbrev repaired : Job
repaired = record waiting {
  status = JobStatus.success;
  result = some (("title", "Soumission") ∷ []);
}

abbrev requested : World
requested = record { jobs = waiting ∷ []; queue = "job-1" ∷ [] }

abbrev polled : World
polled = record { jobs = repaired ∷ []; queue = [] }

request_run :
    (create_scrape_job
      (get_rate_limiter sys.state)
      (use_case_with sys.state (get_job_repository sys.session))
      none
      body
      start).1
    ≡ requested
unfolding create_scrape_job is_allowed get_rate_limiter UseCase.execute use_case_with
    get_job_repository get_extraction_service get_recovery_queue JobRows.save
    Http.http_extraction_service Http.post_checked extract_endpoint Extract.execute
    Extract.resolve_known_selectors Extract.resolve_onto Http.read_answer from_attempt_result
    validate select has_key insert lookup is_blank is_space lstrip rstrip strip Http.http_extract
    Http.read_reason JobRows.job_to_model JobRows.model_to_job JobRows.outcome_of enqueue merge_onto
    message_fields should_trigger_recovery apply_extraction_result finish FailureReason.of_value
    FailureReason.value create mark_failed mark_recovery_pending mark_succeeded JobStatus.of_value
    JobStatus.value determine_failure_reason is_missing_or_empty
request_run = refl

poll_run :
    (Consumer.process_next_job (process_consumer sys.process sys.engine) 5000 requested).1 ≡ polled
unfolding Consumer.process_next_job Consumer.ensure_group_exists process_consumer process_graph
    sql_job_repository Consumer.handle_message Consumer.process_job Consumer.process_found
    Consumer.trace_carrier Consumer.build_initial_state Consumer.final_job JobRows.get
    JobRows.update JobRows.job_to_model JobRows.model_to_job JobRows.outcome_of
    Http.http_worker_service Http.http_capture_screenshot Http.http_validate_selectors
    Http.http_save_approved_selector Http.post_checked Http.read_answer Http.read_reason
    extract_endpoint Extract.execute from_attempt_result validate select has_key insert lookup keys
    from_keys from_keys_onto is_blank is_space lstrip rstrip strip FailureReason.of_value
    FailureReason.value mark_succeeded JobStatus.of_value JobStatus.value determine_failure_reason
    is_missing_or_empty demo_recovery_engine demo_propose_selectors known_of build_recovery_graph
    recovery_node recovery_edge next route_after_proposal supersteps Nodes.decide_next_step
    Nodes.capture_screenshot_node Nodes.analyze_and_propose_node Nodes.conclude_validation
    Nodes.validate_selectors_live_node Nodes.persist_selector_node Nodes.save_all
poll_run = refl

first : Reach view sys start requested
first = subst (Reach view sys start) request_run (then here (request none body start))

second : Reach view sys start polled
second = subst (Reach view sys start) poll_run (then first (poll 5000 requested))

start-AllComplete : AllComplete view start
start-AllComplete j job h = absurd (cc h)

Reach-HasResult_example : HasResult repaired
Reach-HasResult_example =
    Reach-HasResult view sys sys-IsLawful start polled start-AllComplete second "job-1" repaired
      refl refl

Reach-kept_example :
    (after : Job) × (view.stored polled "job-1" ≡ some after)
    × SameRequest waiting after
    × ((after ≡ waiting) ⊎ (IsOutcome after.status × IsComplete after))
Reach-kept_example =
    Reach-kept view sys sys-IsLawful requested polled "job-1" waiting
      (subst (Reach view sys requested) poll_run (then here (poll 5000 requested))) refl

get_job_repository-SavesJobs_example : SavesJobs view (get_job_repository session)
get_job_repository-SavesJobs_example = get_job_repository-SavesJobs view session session-IsLawful

sql_job_repository-UpdatesJobs_example : UpdatesJobs view (sql_job_repository session)
sql_job_repository-UpdatesJobs_example =
    sql_job_repository-UpdatesJobs view session session-IsLawful sys-IsLawful.keyed
