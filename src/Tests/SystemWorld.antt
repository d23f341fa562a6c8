-- ===== src/Tests/SystemWorld.antt =====
-- A whole system over a world of jobs and queued identifiers: the Worker answers over HTTP, the browser finds
-- a title only for given selectors, and the recovery engine is the demonstration's.
use project4_sentinel_ai_scr.Base.{
  String, ◌==◌, Option, none, some, List, [], ◌∷◌, ◌++◌, leb, if◌then◌else◌,
}
use project4_sentinel_ai_scr.Base.Dict.{Dict}
use project4_sentinel_ai_scr.Base.Exec.{Exec, Exception, Result, ok, err, library_error}
use project4_sentinel_ai_scr.Shared.Job.{Job}
use project4_sentinel_ai_scr.Shared.Metrics.{Monitor}
use project4_sentinel_ai_scr.Gateway.Dependencies.{AppState}
use project4_sentinel_ai_scr.Recovery.Graph.{supersteps}
use project4_sentinel_ai_scr.Recovery.Consumer.{Message}
use project4_sentinel_ai_scr.Recovery.Engines.{demo_recovery_engine}
use project4_sentinel_ai_scr.Recovery.Main.{Process}
use project4_sentinel_ai_scr.Contract.Http.{
  HttpClient, Request, Response, Payload, screenshot, extract, save_selector,
}
use project4_sentinel_ai_scr.Contract.Extraction.{answer_of}
use project4_sentinel_ai_scr.Contract.JobRows.{
  Outcome, JobSession, job_to_model, model_to_job, assigned,
}
use project4_sentinel_ai_scr.Contract.JobRows.Sharing.{stored_row}
use project4_sentinel_ai_scr.Worker.Extract.{ExtractData}
use project4_sentinel_ai_scr.Worker.Router.{extract_endpoint}
use project4_sentinel_ai_scr.Worker.Schemas.{ExtractResponseBody}
use project4_sentinel_ai_scr.System.Table.{View}
use project4_sentinel_ai_scr.System.History.{System}

pub record World : Type 0 where
  pub jobs : List Job
  pub queue : List String

abbrev pub find : List Job → String → Option Job
find [] j = none
find (job ∷ jobs) j = if job.id == j then some job else find jobs j

abbrev pub view : View World
view = record { stored = λ w j. find w.jobs j }

abbrev pub decoded : Job → Result Job → Job
decoded job (ok found) = record job {
  status = found.status;
  result = found.result;
  failure_reason = found.failure_reason;
}
decoded job (err _) = job

abbrev pub amend : String → Outcome → List Job → List Job
amend id o [] = []
amend id o (job ∷ jobs) =
    if job.id == id
    then decoded job (model_to_job (assigned o (job_to_model job))) ∷ jobs
    else job ∷ amend id o jobs

abbrev pub entered : Result Job → List Job → List Job
entered (ok job) jobs = job ∷ jobs
entered (err _) jobs = jobs

abbrev pub session : JobSession World
session = record {
  get = λ id w. (ok (stored_row (find w.jobs id)), w);
  add = λ model w. record w { jobs = entered (model_to_job model) w.jobs };
  assign = λ id o w. record w { jobs = amend id o w.jobs };
  commit = λ w. (ok tt, w);
}

abbrev monitor : Monitor World
monitor = record { inc = λ metric amount w. w; observe = λ metric w. w }

-- The Worker finds a title by any selector.
abbrev pub found : Dict String → Dict String
found [] = []
found (_ ∷ _) = ("title", "Soumission") ∷ []

abbrev pub worker : ExtractData World
worker = record {
  browser = record {
    extract_fields = λ url selectors w. (ok (found selectors), w);
    capture_screenshot = λ url w. (ok [], w);
  };
  selector_repository = record {
    get_active_selector = λ domain field_name w. (ok none, w);
    save_selector = λ selector w. (ok tt, w);
  };
  monitor = monitor;
}

abbrev shown : Payload
shown = record {
  success = none;
  extracted = none;
  failure_reason = none;
  screenshot_base64 = some "iVBORw0KGgo=";
}

abbrev pub reply : Result ExtractResponseBody → Result Response
reply (ok body) = ok (record { status_code = 200; json = (answer_of body).json })
reply (err _) = err Exception.http_error

-- Every request is answered in the world that it came with.
abbrev pub post : String → Request → Exec World Response
post url (screenshot page) w = (ok (record { status_code = 200; json = some shown }), w)
post url (save_selector _ _ _ _) w = (ok (record { status_code = 201; json = none }), w)
post url (extract page domain fields candidates) w = (
  reply
      (extract_endpoint worker
        (record { url = page; domain = domain; required_fields = fields; selectors = candidates })
        w).0,
  w,
)

abbrev pub client : HttpClient World
client = record { post = post; is_error = λ code. leb 400 code }

abbrev pub mint : Option Job → Result String
mint none = ok "job-1"
mint (some _) = err (library_error "no identifier is left")

abbrev pub state : AppState World
state = record {
  counters = record { incr = λ key w. (ok 1, w); expire = λ key seconds w. (ok tt, w) };
  stream = record {
    xadd = λ key fields w. (ok tt, record w { queue = w.queue ++ ("job-1" ∷ []) });
    inject_trace_context = λ w. [];
  };
  http_client = client;
  extraction_worker_base_url = "http://worker:8000";
  monitor = monitor;
  uuid4 = λ w. (mint (find w.jobs "job-1"), w);
}

abbrev deliver : List String → List (String × List Message)
deliver [] = []
deliver (id ∷ _) = ("recovery_stream", ("1-0", ("job_id", id) ∷ []) ∷ []) ∷ []

abbrev remaining : List String → List String
remaining [] = []
remaining (_ ∷ ids) = ids

abbrev pub process : Process World
process = record {
  redis = record {
    xgroup_create = λ key group w. (ok tt, w);
    xreadgroup =
        λ key group name block w. (ok (deliver w.queue), record w { queue = remaining w.queue });
    xautoclaim = λ key group name idle w. (ok [], w);
    xack = λ key group id w. (ok tt, w);
  };
  session = session;
  http = client;
  runtime = record { recursion_limit = 25; ainvoke = λ g s. supersteps 25 g g.entry s };
  monitor = monitor;
  tracer = record { start_span = λ carrier w. w; end_span = λ w. w };
  worker_base_url = "http://worker:8000";
  stream_key = "recovery_stream";
  group_name = "recovery_workers";
  consumer_name = "consumer-1";
  max_attempts = 3;
}

abbrev pub sys : System World
sys = record {
  state = state;
  session = session;
  process = process;
  engine = demo_recovery_engine;
  worker = worker;
}
