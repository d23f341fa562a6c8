-- ===== src/Recovery/Consumer/Progress.antt =====
-- The handling of a message always returns, if its services do.
use project4_sentinel_ai_scr.Base.{String, ◌≡◌, refl, ap, ◌∙◌, Option, none, some}
use project4_sentinel_ai_scr.Base.Dict.{Dict, lookup}
use project4_sentinel_ai_scr.Base.Exec.{Returns, Returns-bind, ◌>>◌, pure}
use project4_sentinel_ai_scr.Shared.Metrics.{recovery_duration_seconds}
use project4_sentinel_ai_scr.Shared.Job.{Job}
use project4_sentinel_ai_scr.Recovery.Consumer.{
  Consumer, build_initial_state, final_job, process_found, process_job, handle_fields,
  handle_message, acknowledge, trace_carrier,
}

-- The identifier, or nothing where the job is gone.
abbrev pub IsFor : String → Option String → Type 0
IsFor job_id none = Unit
IsFor job_id (some id) = id ≡ job_id

module _ {W : Type 0} (c : Consumer W) where
  -- Neither the jobs table nor Redis nor a run of the graph from an initial state raises.
  pub record Answers : Type 0 where
    pub gets : (id : String) → Returns (λ _. Unit) (c.jobs.get id)
    pub updates : (job : Job) → Returns (λ _. Unit) (c.jobs.update job)
    pub acks : (id : String) → Returns (λ _. Unit) (c.redis.xack c.stream_key c.group_name id)
    pub runs :
        (job : Job) → Returns (λ _. Unit) (c.ainvoke (build_initial_state c.max_attempts job))

  module _ (answers : Answers) where
    process_found-Returns :
        (job_id id : String) (found : Option Job)
        → Returns (IsFor job_id) (process_found c job_id id found)
    unfolding process_found
    process_found-Returns job_id id none w =
        Returns-bind (λ _. Unit) (IsFor job_id) (acknowledge c id) (λ _. pure none)
          (answers.acks id) (λ _ _ v. (none, v, refl, tt)) w
    process_found-Returns job_id id (some job) w =
        Returns-bind (λ _. Unit) (IsFor job_id) (c.ainvoke (build_initial_state c.max_attempts job))
          _ (answers.runs job)
          (λ t _ v.
            Returns-bind (λ _. Unit) (IsFor job_id) (c.jobs.update (final_job job t))
              (λ _. acknowledge c id >> pure (some job_id)) (answers.updates (final_job job t))
              (λ _ _.
                Returns-bind (λ _. Unit) (IsFor job_id) (acknowledge c id) (λ _. pure (some job_id))
                  (answers.acks id) (λ _ _ x. (some job_id, x, refl, refl)))
              (c.monitor.observe recovery_duration_seconds v))
          w

    process_job-Returns : (job_id id : String) → Returns (IsFor job_id) (process_job c job_id id)
    unfolding process_job
    process_job-Returns job_id id =
        Returns-bind (λ _. Unit) (IsFor job_id) (c.jobs.get job_id) (process_found c job_id id)
          (answers.gets job_id) (λ found _. process_found-Returns job_id id found)

    -- If neither the jobs table nor Redis nor a run of the graph raises, the handling of a message with a job
    -- identifier returns in every world: that identifier, or nothing.
    pub handle_message-Returns :
        (id job_id : String) (fields : Dict String)
        → lookup "job_id" fields ≡ some job_id
        → Returns (IsFor job_id) (handle_message c (id, fields))
    unfolding handle_message
    handle_message-Returns id job_id fields there w =
        let (r, v, e, h) =
          process_job-Returns job_id id (c.tracer.start_span (trace_carrier fields) w) in
        (
          r,
          c.tracer.end_span v,
          ap (λ o. handle_fields c id fields o w) there ∙ ap (λ x. (x.0, c.tracer.end_span x.1)) e,
          h,
        )
