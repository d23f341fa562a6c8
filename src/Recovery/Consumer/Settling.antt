-- ===== src/Recovery/Consumer/Settling.antt =====
-- The handling of a message settles its job, if its services answer.
use project4_sentinel_ai_scr.Base.{String, ◌≡◌, refl, sym, ap, subst, ◌∙◌, Option, none, some}
use project4_sentinel_ai_scr.Base.Dict.{Dict, lookup}
use project4_sentinel_ai_scr.Base.Exec.{ok, continue-eq-ok, ok-eq-ok, ◌>>◌, pure}
use project4_sentinel_ai_scr.Shared.Metrics.{recovery_duration_seconds}
use project4_sentinel_ai_scr.Shared.Job.{Job}
use project4_sentinel_ai_scr.Recovery.Consumer.{
  Consumer, acknowledge, build_initial_state, final_job, process_found, process_job, handle_message,
  handle_fields, trace_carrier,
}
use project4_sentinel_ai_scr.Recovery.Consumer.View.{View, IsLawful, Settled}
use project4_sentinel_ai_scr.Recovery.Consumer.Handling.{final_job-Settled, final_job-id}
use project4_sentinel_ai_scr.Recovery.Consumer.Progress.{Answers, IsFor, handle_message-Returns}

module _ {W : Type 0} (view : View W) (c : Consumer W) (lawful : IsLawful view c) where
  open view use {status, job_of}

  acked :
      {A : Type 0} (id j : String) (w v : W) (a r : A)
      → Settled (status w j)
      → (acknowledge c id >> pure a) w ≡ (ok r, v)
      → Settled (status v j)
  acked id j w v a r settled h =
      let (_, w₁, sent, h₁) = continue-eq-ok (acknowledge c id w) (λ _. pure a) h in
      let end = ap (λ x. x.1) sent ∙ (ok-eq-ok h₁).1 in
      subst (λ x. Settled (status x j)) end (subst Settled (sym (lawful.ack_status id w j)) settled)

  process_found-settles :
      (job_id id : String) (found : Option Job) (w v : W) (r : Option String)
      → (found ≡ none → status w job_id ≡ none)
      → ((job : Job) → found ≡ some job → job.id ≡ job_id)
      → process_found c job_id id found w ≡ (ok r, v)
      → Settled (status v job_id)
  unfolding process_found
  process_found-settles job_id id none w v r gone known h =
      acked id job_id w v none r (subst Settled (sym (gone refl)) tt) h
  process_found-settles job_id id (some job) w v r gone known h =
      let (t, w₁, _, h₁) =
        continue-eq-ok (c.ainvoke (build_initial_state c.max_attempts job) w) _ h in
      let timed = c.monitor.observe recovery_duration_seconds w₁ in
      let (_, w₂, written, h₂) =
        continue-eq-ok (c.jobs.update (final_job job t) timed)
          (λ _. acknowledge c id >> pure (some job_id)) h₁ in
      let row : status w₂ job_id ≡ some (final_job job t).status =
        ap (status w₂) (sym (final_job-id job t ∙ known job refl))
        ∙ lawful.update_done (final_job job t) timed w₂ written in
      acked id job_id w₂ v (some job_id) r (subst Settled (sym row) (final_job-Settled job t)) h₂

  process_job-settles :
      (job_id id : String) (w v : W) (r : Option String)
      → process_job c job_id id w ≡ (ok r, v)
      → Settled (status v job_id)
  unfolding process_job
  process_job-settles job_id id w v r h =
      let (found, w₁, got, h₁) =
        continue-eq-ok (c.jobs.get job_id w) (process_found c job_id id) h in
      process_found-settles job_id id found w₁ v r
        (λ e. lawful.get_none job_id w w₁ (got ∙ ap (λ o. (ok o, w₁)) e))
        (λ job e. lawful.get_some job_id w w₁ job (got ∙ ap (λ o. (ok o, w₁)) e)) h₁

  -- Let the services behave as documented, and let neither the jobs table nor Redis nor a run of the
  -- graph raise. The handling of a message about a job returns in every world, with the job's
  -- identifier or nothing, and the job is then gone, succeeded or flagged for review.
  pub handle_message-settles :
      (id job_id : String) (fields : Dict String) (w : W)
      → Answers c
      → lookup "job_id" fields ≡ some job_id
      → (r : Option String) × (v : W) × (handle_message c (id, fields) w ≡ (ok r, v))
        × IsFor job_id r
        × Settled (status v job_id)
  unfolding handle_message
  handle_message-settles id job_id fields w answers about =
      let (r, v, ran, for) = handle_message-Returns c answers id job_id fields about w in
      let start = c.tracer.start_span (trace_carrier fields) w in
      let body = process_job c job_id id start in
      let whole : handle_fields c id fields (some job_id) w ≡ (ok r, v) =
        ap (λ o. handle_fields c id fields o w) (sym about) ∙ ran in
      let said : body ≡ (ok r, body.1) = ap (λ x. (x.0, body.1)) whole in
      let end : c.tracer.end_span body.1 ≡ v = ap (λ x. x.1) whole in
      let settled = process_job-settles job_id id start body.1 r said in
      (
        r,
        v,
        ran,
        for,
        subst (λ x. Settled (status x job_id)) end
            (subst Settled (sym ((lawful.end_same body.1).1 job_id)) settled),
      )
