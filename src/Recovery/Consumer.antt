-- ===== src/Recovery/Consumer.antt =====
-- recovery_engine/infrastructure/recovery_queue_consumer.py and the loop of recovery_engine/main.py.
-- The Redis client, the job repository and the tracer are parameters over a world `W`.
pub mod View
pub mod Handling
pub mod Delivery
pub mod Progress
pub mod Settling
use project4_sentinel_ai_scr.Base.{
  ℕ, zero, suc, String, ◌==◌, Bool, Option, none, some, List, [], ◌∷◌, if◌then◌else◌,
}
use project4_sentinel_ai_scr.Base.Dict.{Dict, lookup, from_keys}
use project4_sentinel_ai_scr.Base.Text.{has_part}
use project4_sentinel_ai_scr.Base.Exec.{
  Exec, Result, ok, err, pure, raise, ◌>>=◌, ◌>>◌, key_error, index_error, response_error,
}
use project4_sentinel_ai_scr.Shared.Metrics.{Monitor, recovery_duration_seconds}
use project4_sentinel_ai_scr.Shared.JobStatus.{JobStatus}
use project4_sentinel_ai_scr.Shared.JobStatus
use project4_sentinel_ai_scr.Shared.Job.{Job, mark_succeeded}
use project4_sentinel_ai_scr.Recovery.State.{
  RecoveryState, FieldType, success, needs_human_review, FinalStatus,
}
use project4_sentinel_ai_scr.Recovery.State

-- A message of the stream: its id and its fields.
abbrev pub Message : Type 0
Message = String × Dict String

-- The commands of the Redis client that the consumer sends, with their arguments in the source's order:
-- stream, group, and what follows them.
pub record RedisStreams (W : Type 0) : Type 0 where
  pub xgroup_create : String → String → Exec W (Unit {0})
  pub xreadgroup : String → String → String → ℕ → Exec W (List (String × List Message))
  pub xautoclaim : String → String → String → ℕ → Exec W (List Message)
  pub xack : String → String → String → Exec W (Unit {0})

pub record JobRepository (W : Type 0) : Type 0 where
  pub get : String → Exec W (Option Job)
  pub update : Job → Exec W (Unit {0})

-- `extract_trace_context` with `start_as_current_span`, and the end of the `with` block.
pub record Tracer (W : Type 0) : Type 0 where
  pub start_span : Dict String → W → W
  pub end_span : W → W

-- `RecoveryQueueConsumer.__init__`
pub record Consumer (W : Type 0) : Type 0 where
  pub redis : RedisStreams W
  pub jobs : JobRepository W
  pub ainvoke : RecoveryState → Exec W RecoveryState
  pub monitor : Monitor W
  pub tracer : Tracer W
  pub stream_key : String
  pub group_name : String
  pub consumer_name : String
  pub max_attempts : ℕ

unfoldable pub build_initial_state : ℕ → Job → RecoveryState
build_initial_state max_attempts job = record {
  job_id = job.id;
  url = job.url;
  domain = job.domain;
  expected_schema = from_keys job.required_fields FieldType.str;
  screenshot_base64 = none;
  attempt_number = 1;
  max_attempts = max_attempts;
  proposed_selectors = none;
  recovered_data = none;
  rejection_history = [];
  validation_result = State.pending;
  final_status = none;
}

abbrev to_review : Job → Job
to_review job = record {
  id = job.id;
  url = job.url;
  domain = job.domain;
  required_fields = job.required_fields;
  status = JobStatus.needs_human_review;
  result = none;
  failure_reason = none;
}

-- The job that `_apply_final_state` writes. `mark_succeeded` is given the recovered data as they are;
-- a success without data, which the graph never returns, would store a null result.
unfoldable pub final_job : Job → RecoveryState → Job
unfolding mark_succeeded
final_job job final_state = elim final_state.final_status [
  | some success ↦ elim final_state.recovered_data [
    | some recovered ↦ mark_succeeded job recovered
    | none ↦ record job { status = JobStatus.success; result = none }
  ]
  | _ ↦ to_review job
]

-- `{k: v for k, v in fields.items() if k != "job_id"}`
unfoldable pub trace_carrier : Dict String → Dict String
trace_carrier [] = []
trace_carrier ((k, v) ∷ fields) =
    let rest = trace_carrier fields in if k == "job_id" then rest else (k, v) ∷ rest

module _ {W : Type 0} (c : Consumer W) where
  abbrev acknowledge : String → Exec W (Unit {0})
  acknowledge message_id = c.redis.xack c.stream_key c.group_name message_id

  -- The part of `_process_job` after the repository's answer.
  unfoldable pub process_found : String → String → Option Job → Exec W (Option String)
  process_found job_id message_id none = do acknowledge message_id; pure none
  process_found job_id message_id (some job) = do
    final_state ← c.ainvoke (build_initial_state c.max_attempts job)
    (λ w. (ok tt, c.monitor.observe recovery_duration_seconds w))
    c.jobs.update (final_job job final_state)
    acknowledge message_id
    pure (some job_id)

  unfoldable pub process_job : String → String → Exec W (Option String)
  process_job job_id message_id = do
    found ← c.jobs.get job_id
    process_found job_id message_id found

  -- `with tracer.start_as_current_span(…)`: the span ends also when the body raises.
  abbrev pub in_span : {A : Type 0} → Dict String → Exec W A → Exec W A
  in_span carrier body w =
      let r = body (c.tracer.start_span carrier w) in (r.0, c.tracer.end_span r.1)

  -- `fields["job_id"]` is a KeyError where the field is missing.
  abbrev pub handle_fields : String → Dict String → Option String → Exec W (Option String)
  handle_fields message_id fields none = raise key_error
  handle_fields message_id fields (some job_id) =
      in_span (trace_carrier fields) (process_job job_id message_id)

  unfoldable pub handle_message : Message → Exec W (Option String)
  handle_message (message_id, fields) = handle_fields message_id fields (lookup "job_id" fields)

  -- A group that is there already is no error.
  abbrev pub tolerate_busy_group : Result (Unit {0}) × W → Result (Unit {0}) × W
  tolerate_busy_group (err (response_error text), w) =
      if has_part "BUSYGROUP" text then (ok tt, w) else (err (response_error text), w)
  tolerate_busy_group r = r

  unfoldable pub ensure_group_exists : Exec W (Unit {0})
  ensure_group_exists w = tolerate_busy_group (c.redis.xgroup_create c.stream_key c.group_name w)

  -- `_, messages = response[0]` and `messages[0]`
  abbrev pub handle_response : List (String × List Message) → Exec W (Option String)
  handle_response [] = pure none
  handle_response ((stream, []) ∷ others) = raise index_error
  handle_response ((stream, message ∷ messages) ∷ others) = handle_message message

  unfoldable pub process_next_job : ℕ → Exec W (Option String)
  process_next_job block_ms = do
    ensure_group_exists
    response ← c.redis.xreadgroup c.stream_key c.group_name c.consumer_name block_ms
    handle_response response

  abbrev pub keep_id : Option String → List String → List String
  keep_id none ids = ids
  keep_id (some job_id) ids = job_id ∷ ids

  unfoldable pub handle_claimed : List Message → Exec W (List String)
  handle_claimed [] = pure []
  handle_claimed (message ∷ messages) = do
    job_id ← handle_message message
    ids ← handle_claimed messages
    pure (keep_id job_id ids)

  unfoldable pub reclaim_stale_messages : ℕ → Exec W (List String)
  reclaim_stale_messages min_idle_time_ms = do
    ensure_group_exists
    claimed ← c.redis.xautoclaim c.stream_key c.group_name c.consumer_name min_idle_time_ms
    handle_claimed claimed

  -- `_consume_forever` over `rounds` iterations: an exception ends only its own iteration.
  unfoldable pub consume : ℕ → W → W
  consume zero w = w
  consume (suc rounds) w = consume rounds (process_next_job 5000 w).1
