-- ===== src/System/Recoveries.antt =====
-- What the recovery engine does to the jobs table when it handles messages, whatever raises.
use project4_sentinel_ai_scr.Base.{
  ℕ, zero, suc, String, ◌≡◌, refl, sym, ap, subst, ◌∙◌, Option, none, some, List, [], ◌∷◌,
}
use project4_sentinel_ai_scr.Base.Dict.{Dict, lookup}
use project4_sentinel_ai_scr.Base.Exec.{ok, pure, ◌>>◌}
use project4_sentinel_ai_scr.Base.Keeps.{Keeps-continue, Keeps-continue_known}
use project4_sentinel_ai_scr.Shared.Metrics.{Metric, recovery_duration_seconds}
use project4_sentinel_ai_scr.Shared.Job.{Job}
use project4_sentinel_ai_scr.Recovery.State.{FieldType}
use project4_sentinel_ai_scr.Recovery.Ports.{RecoveryEnginePort}
use project4_sentinel_ai_scr.Recovery.Graph.{ExecutesSupersteps}
use project4_sentinel_ai_scr.Recovery.Consumer.{
  Message, JobRepository, Consumer, build_initial_state, final_job, trace_carrier, process_found,
  process_job, handle_fields, handle_message, ensure_group_exists, handle_response,
  process_next_job, keep_id, handle_claimed, reclaim_stale_messages, consume,
}
use project4_sentinel_ai_scr.Recovery.Consumer.Delivery.{tolerate-world}
use project4_sentinel_ai_scr.Recovery.Main.{
  Process, sql_job_repository, process_graph, process_consumer,
}
use project4_sentinel_ai_scr.Contract.Http.{Request, http_worker_service}
use project4_sentinel_ai_scr.Contract.Served.{ServesWorker, http_validate_selectors_complete}
use project4_sentinel_ai_scr.Worker.Extract.{ExtractData}
use project4_sentinel_ai_scr.System.Table.{
  View, SameRows, Evolves, SameRows-Evolves, Evolves-trans, Evolves-refl,
}
use project4_sentinel_ai_scr.System.Runs.{
  KeptByPorts, ainvoke-Keeps, ValidatesFields, success-recovers,
}
use project4_sentinel_ai_scr.System.Updates.{UpdatesJobs, final_job-good, update-Evolves}
use project4_sentinel_ai_scr.System.Clients.{http_worker-KeptByPorts}

module _ {W : Type 0} (view : View W) (p : Process W) (engine : RecoveryEnginePort W) where
  open view use {stored}

  -- The documented behaviour of what the recovery engine calls: nothing else changes
  -- the jobs table.
  pub record IsLawful : Type 0 where
    pub create_rows :
        (key group : String) → (w : W) → SameRows view w (p.redis.xgroup_create key group w).1
    pub read_rows :
        (key group name : String) (block : ℕ) (w : W)
        → SameRows view w (p.redis.xreadgroup key group name block w).1
    pub claim_rows :
        (key group name : String) (idle : ℕ) (w : W)
        → SameRows view w (p.redis.xautoclaim key group name idle w).1
    pub ack_rows : (key group id : String) (w : W) → SameRows view w (p.redis.xack key group id w).1
    pub post_rows :
        (url : String) (request : Request) (w : W) → SameRows view w (p.http.post url request w).1
    pub propose_rows :
        (shot : String) (schema : Dict FieldType) (history : List String) (w : W)
        → SameRows view w (engine.propose_selectors shot schema history w).1
    pub inc_rows : (m : Metric) (n : ℕ) (w : W) → SameRows view w (p.monitor.inc m n w)
    pub observe_rows : (m : Metric) (w : W) → SameRows view w (p.monitor.observe m w)
    pub start_rows :
        (carrier : Dict String) (w : W) → SameRows view w (p.tracer.start_span carrier w)
    pub end_rows : (w : W) → SameRows view w (p.tracer.end_span w)

  abbrev jobs : JobRepository W
  jobs = sql_job_repository p.session

  module _ (lawful : IsLawful) (table : UpdatesJobs view jobs) where
    -- What does not change the rows keeps them as they were in a first world.
    keep : (w u v : W) → SameRows view u v → SameRows view w u → SameRows view w v
    keep w u v same h j = same j ∙ h j

    ports-keep :
        (w : W)
        → KeptByPorts
            (SameRows view w)
            engine
            (http_worker_service p.http p.worker_base_url)
            p.monitor
    ports-keep w =
        http_worker-KeptByPorts (SameRows view w) p.http
          (λ url request u h. keep w u _ (lawful.post_rows url request u) h) p.worker_base_url
          engine p.monitor
          (λ shot schema history u h. keep w u _ (lawful.propose_rows shot schema history u) h)
          (λ m n u h. keep w u _ (lawful.inc_rows m n u) h)

    module _ (worker : ExtractData W) (serves : ServesWorker p.http p.worker_base_url worker)
        (executes : ExecutesSupersteps p.runtime) where
      abbrev c : Consumer W
      c = process_consumer p engine

      validates : ValidatesFields (http_worker_service p.http p.worker_base_url)
      unfolding http_worker_service
      validates = http_validate_selectors_complete p.http p.worker_base_url worker serves

      then_same : (w v u : W) → Evolves view w v → SameRows view v u → Evolves view w u
      then_same w v u h same = Evolves-trans view w v u h (SameRows-Evolves view v u same)

      ack-Evolves :
          {A : Type 0} (w v : W) (id : String) (a : A)
          → Evolves view w v
          → Evolves view w ((p.redis.xack p.stream_key p.group_name id >> pure a) v).1
      ack-Evolves w v id a h =
          Keeps-continue (Evolves view w) (p.redis.xack p.stream_key p.group_name id v)
            (λ _. pure a) (then_same w v _ h (lawful.ack_rows p.stream_key p.group_name id v))
            (λ _ _ k. k)

      process_found-Evolves :
          (job_id id : String) (found : Option Job) (w : W)
          → ((job : Job) → found ≡ some job → stored w job.id ≡ some job)
          → Evolves view w (process_found c job_id id found w).1
      unfolding process_found process_consumer process_graph
      process_found-Evolves job_id id none w known = ack-Evolves w w id none (Evolves-refl view w)
      process_found-Evolves job_id id (some job) w known =
          let o = build_initial_state p.max_attempts job in
          let run = p.runtime.ainvoke (process_graph p engine) o w in
          let rows : SameRows view w run.1 =
            ainvoke-Keeps (SameRows view w) engine (http_worker_service p.http p.worker_base_url)
              p.monitor (ports-keep w) p.runtime executes o w (λ j. refl) in
          Keeps-continue_known (Evolves view w) run _ (SameRows-Evolves view w run.1 rows)
            (λ t v ran _.
              let timed = p.monitor.observe recovery_duration_seconds v in
              let before : SameRows view w timed =
                keep w v timed (lawful.observe_rows recovery_duration_seconds v)
                  (subst (λ x. SameRows view w x.1) ran rows) in
              let (same, outcome, complete) = final_job-good job t (
                success-recovers engine (http_worker_service p.http p.worker_base_url) p.monitor
                  validates p.runtime executes p.max_attempts job t w v ran) in
              Keeps-continue (Evolves view w) (jobs.update (final_job job t) timed) _
                (update-Evolves view jobs table job (final_job job t) w timed (known job refl)
                  before same outcome complete)
                (λ _ u h. ack-Evolves w u id (some job_id) h))

      process_job-Evolves :
          (job_id id : String) (w : W) → Evolves view w (process_job c job_id id w).1
      unfolding process_job process_consumer
      process_job-Evolves job_id id w =
          Keeps-continue_known (Evolves view w) (jobs.get job_id w) (process_found c job_id id)
            (SameRows-Evolves view w _ (table.get_rows job_id w))
            (λ found v call h.
              let rows = subst (λ x. SameRows view w x.1) call (table.get_rows job_id w) in
              Evolves-trans view w v _ h (
                process_found-Evolves job_id id found v (λ job e.
                  rows job.id ∙ table.get_some job_id w v job (call ∙ ap (λ o. (ok o, v)) e))))

      handle_fields-Evolves :
          (id : String) (fields : Dict String) (o : Option String) (w : W)
          → Evolves view w (handle_fields c id fields o w).1
      unfolding process_consumer
      handle_fields-Evolves id fields none w = Evolves-refl view w
      handle_fields-Evolves id fields (some job_id) w =
          let carrier = trace_carrier fields in
          let started = p.tracer.start_span carrier w in
          then_same w _ _
            (Evolves-trans view w started _
              (SameRows-Evolves view w started (lawful.start_rows carrier w))
              (process_job-Evolves job_id id started))
            (lawful.end_rows _)

      handle_message-Evolves : (m : Message) (w : W) → Evolves view w (handle_message c m w).1
      unfolding handle_message
      handle_message-Evolves (id, fields) w =
          handle_fields-Evolves id fields (lookup "job_id" fields) w

      ensure_group_exists-rows : (w : W) → SameRows view w (ensure_group_exists c w).1
      unfolding ensure_group_exists process_consumer
      ensure_group_exists-rows w =
          subst (SameRows view w)
            (sym (tolerate-world c (p.redis.xgroup_create p.stream_key p.group_name w)))
            (lawful.create_rows p.stream_key p.group_name w)

      handle_response-Evolves :
          (response : List (String × List Message)) (w : W)
          → Evolves view w (handle_response c response w).1
      handle_response-Evolves [] w = Evolves-refl view w
      handle_response-Evolves ((stream, []) ∷ others) w = Evolves-refl view w
      handle_response-Evolves ((stream, message ∷ messages) ∷ others) w =
          handle_message-Evolves message w

      handle_claimed-Evolves :
          (messages : List Message) (w : W) → Evolves view w (handle_claimed c messages w).1
      unfolding handle_claimed
      handle_claimed-Evolves [] w = Evolves-refl view w
      handle_claimed-Evolves (message ∷ messages) w =
          Keeps-continue (Evolves view w) (handle_message c message w) _
            (handle_message-Evolves message w)
            (λ job_id v h. Evolves-trans view w v _ h (
              Keeps-continue (Evolves view v) (handle_claimed c messages v)
                (λ ids. pure (keep_id c job_id ids)) (handle_claimed-Evolves messages v)
                (λ _ _ k. k)))

      -- Let the services behave as documented, the Worker serve the requests and LangGraph run by
      -- supersteps. Whatever one poll of the stream does or raises, each row of the jobs table has
      -- changed as it may.
      pub process_next_job-Evolves :
          (block_ms : ℕ) (w : W) → Evolves view w (process_next_job c block_ms w).1
      unfolding process_next_job process_consumer
      process_next_job-Evolves block w =
          Keeps-continue (Evolves view w) (ensure_group_exists c w) _
            (SameRows-Evolves view w _ (ensure_group_exists-rows w))
            (λ _ v h.
              Keeps-continue (Evolves view w)
                (p.redis.xreadgroup p.stream_key p.group_name p.consumer_name block v)
                (handle_response c)
                (then_same w v _ h
                  (lawful.read_rows p.stream_key p.group_name p.consumer_name block v))
                (λ response u k. Evolves-trans view w u _ k (handle_response-Evolves response u)))

      pub reclaim-Evolves :
          (min_idle_time_ms : ℕ) (w : W)
          → Evolves view w (reclaim_stale_messages c min_idle_time_ms w).1
      unfolding reclaim_stale_messages process_consumer
      reclaim-Evolves idle w =
          Keeps-continue (Evolves view w) (ensure_group_exists c w) _
            (SameRows-Evolves view w _ (ensure_group_exists-rows w))
            (λ _ v h.
              Keeps-continue (Evolves view w)
                (p.redis.xautoclaim p.stream_key p.group_name p.consumer_name idle v)
                (handle_claimed c)
                (then_same w v _ h
                  (lawful.claim_rows p.stream_key p.group_name p.consumer_name idle v))
                (λ messages u k. Evolves-trans view w u _ k (handle_claimed-Evolves messages u)))

      pub consume-Evolves : (rounds : ℕ) (w : W) → Evolves view w (consume c rounds w)
      unfolding consume
      consume-Evolves zero w = Evolves-refl view w
      consume-Evolves (suc rounds) w =
          Evolves-trans view w _ _ (process_next_job-Evolves 5000 w)
            (consume-Evolves rounds (process_next_job c 5000 w).1)
