-- ===== src/Recovery/Main.antt =====
-- recovery_engine/main.py: how the process puts its parts together. The clients of Redis and HTTP, the
-- session, the tracer and LangGraph are parameters.
use project4_sentinel_ai_scr.Base.{ℕ, String}
use project4_sentinel_ai_scr.Base.Exec.{Result, ok, and_then}
use project4_sentinel_ai_scr.Shared.Metrics.{Monitor}
use project4_sentinel_ai_scr.Contract.Http.{HttpClient, http_worker_service}
use project4_sentinel_ai_scr.Contract.JobRows.{JobSession, get, update}
use project4_sentinel_ai_scr.Recovery.Ports.{RecoveryEnginePort}
use project4_sentinel_ai_scr.Recovery.Graph.{Runtime, StateGraph, build_recovery_graph}
use project4_sentinel_ai_scr.Recovery.Consumer.{
  RedisStreams, JobRepository, Tracer, Consumer, consume,
}
use project4_sentinel_ai_scr.Recovery.Engines.{
  Environment, build_recovery_engine, build_demo_recovery_engine,
}

-- What `main` reads from the environment, and the clients that it makes.
pub record Process (W : Type 0) : Type 0 where
  pub redis : RedisStreams W
  pub session : JobSession W
  pub http : HttpClient W
  pub runtime : Runtime W
  pub monitor : Monitor W
  pub tracer : Tracer W
  pub worker_base_url : String
  pub stream_key : String
  pub group_name : String
  pub consumer_name : String
  pub max_attempts : ℕ

-- SqlJobRepository over the session of an iteration.
unfoldable pub sql_job_repository : {W : Type 0} → JobSession W → JobRepository W
sql_job_repository session = record { get = get session; update = update session }

module _ {W : Type 0} (p : Process W) where
  unfoldable pub process_graph : RecoveryEnginePort W → StateGraph W
  process_graph engine =
      build_recovery_graph engine (http_worker_service p.http p.worker_base_url) p.monitor

  unfoldable pub process_consumer : RecoveryEnginePort W → Consumer W
  unfolding process_graph
  process_consumer engine = record {
    redis = p.redis;
    jobs = sql_job_repository p.session;
    ainvoke = p.runtime.ainvoke (process_graph engine);
    monitor = p.monitor;
    tracer = p.tracer;
    stream_key = p.stream_key;
    group_name = p.group_name;
    consumer_name = p.consumer_name;
    max_attempts = p.max_attempts;
  }

  -- `main` over `rounds` iterations of its loop: an engine that cannot be made ends it at the start.
  unfoldable pub main : {R : Type 0} → Environment W R → ℕ → Result (W → W)
  main env rounds =
      and_then (build_recovery_engine env) λ engine. ok (consume (process_consumer engine) rounds)

  -- `main` of deployment/huggingface-space/recovery_worker_process.py, whose consumer has the default names.
  unfoldable pub demo_main : {R : Type 0} → Environment W R → ℕ → W → W
  demo_main env rounds =
      consume
        (record (process_consumer (build_demo_recovery_engine env)) {
          stream_key = "recovery_stream";
          group_name = "recovery_workers";
          consumer_name = "consumer-1";
        })
        rounds
