-- ===== src/Recovery/Consumer/Handling.antt =====
-- What the handling of one message does to the stream and to the jobs, whatever raises.
use project4_sentinel_ai_scr.Base.{
  String, ◌==◌, eq_iff, ◌≡◌, refl, sym, ap, subst, ◌∙◌, ◌⊎◌, inl, inr, Option, none, some,
  Bool-cases, arith,
}
use project4_sentinel_ai_scr.Base.Dict.{Dict, lookup}
use project4_sentinel_ai_scr.Base.Exec.{Exec, ok, ◌>>◌, continue, pure}
use project4_sentinel_ai_scr.Shared.Metrics.{recovery_duration_seconds}
use project4_sentinel_ai_scr.Shared.JobStatus.{success, needs_human_review}
use project4_sentinel_ai_scr.Shared.Job.{Job}
use project4_sentinel_ai_scr.Recovery.State.{RecoveryState}
use project4_sentinel_ai_scr.Recovery.Consumer.{
  Message, Consumer, build_initial_state, final_job, process_found, process_job, handle_message,
  handle_fields, acknowledge, in_span, trace_carrier,
}
use project4_sentinel_ai_scr.Recovery.Consumer.View.{
  View, IsAbout, IsLawful, Settled, same-IsSafe, Protects, Protects-then,
}

final_job-status :
    (job : Job) (s : RecoveryState)
    → ((final_job job s).status ≡ success) ⊎ ((final_job job s).status ≡ needs_human_review)
unfolding final_job
final_job-status job s = ground arith

pub final_job-Settled : (job : Job) (s : RecoveryState) → Settled (some (final_job job s).status)
final_job-Settled job s = elim (final_job-status job s) [ inl e ↦ rw e tt | inr e ↦ rw e tt ]

pub final_job-id : (job : Job) (s : RecoveryState) → (final_job job s).id ≡ job.id
unfolding final_job
final_job-id job s = ground arith

module _ {W : Type 0} (view : View W) where
  open view use {is_waiting, is_pending, status, job_of}

  module _ (c : Consumer W) (lawful : IsLawful view c) where
    ack-Protects :
        (id : String) (w : W)
        → Settled (status w (job_of id))
        → Protects view w (acknowledge c id w)
    ack-Protects id w settled m h = elim (Bool-cases (id == m)) [
      | inl same ↦
          let e = (eq_iff id m).0 same in
          inr (
            subst Settled (sym (lawful.ack_status id w (job_of m)))
              (subst (λ k. Settled (status w (job_of k))) e settled))
      | inr differs ↦ elim h [
        | inl there ↦ inl (lawful.ack_others id m w differs there)
        | inr done ↦ inr (subst Settled (sym (lawful.ack_status id w (job_of m))) done)
      ]
    ]

    update-Protects :
        (job : Job) (s : RecoveryState) (w : W)
        → Protects view w (c.jobs.update (final_job job s) w)
    update-Protects job s w m (inl there) = inl (lawful.update_stream (final_job job s) w m there)
    update-Protects job s w m (inr done) =
        elim (lawful.update_status (final_job job s) w (job_of m)) [
          | inl same ↦ inr (subst Settled (sym same) done)
          | inr (_, written) ↦ inr (subst Settled (sym written) (final_job-Settled job s))
        ]

    process_found-Protects :
        (job_id id : String) (found : Option Job) (w : W)
        → job_of id ≡ job_id
        → (found ≡ none → status w job_id ≡ none)
        → ((job : Job) → found ≡ some job → job.id ≡ job_id)
        → Protects view w (process_found c job_id id found w)
    unfolding process_found
    process_found-Protects job_id id none w about gone known =
        Protects-then view w (acknowledge c id w) (λ _. pure none)
          (ack-Protects id w (subst Settled (sym (ap (status w) about ∙ gone refl)) tt))
          (λ _ v _ m h. h)
    process_found-Protects job_id id (some job) w about gone known =
        Protects-then view w (c.ainvoke (build_initial_state c.max_attempts job) w) _
          (λ m.
            same-IsSafe view w _ m (lawful.graph_same (build_initial_state c.max_attempts job) w))
          (λ s v _ m h.
            updated s (c.monitor.observe recovery_duration_seconds v) m
              (same-IsSafe view v _ m (lawful.observe_same v) h))
      where
        written :
            (s : RecoveryState) (v u : W)
            → c.jobs.update (final_job job s) v ≡ (ok tt, u)
            → Settled (status u (job_of id))
        written s v u call =
            let target = about ∙ sym (known job refl) ∙ sym (final_job-id job s) in
            subst Settled
              (sym (ap (status u) target ∙ lawful.update_done (final_job job s) v u call))
              (final_job-Settled job s)

        updated :
            (s : RecoveryState) (v : W)
            → Protects view v (
                continue
                  (c.jobs.update (final_job job s) v)
                  (λ _. acknowledge c id >> pure (some job_id)))
        updated s v =
            Protects-then view v (c.jobs.update (final_job job s) v)
              (λ _. acknowledge c id >> pure (some job_id)) (update-Protects job s v)
              (λ _ u call.
                Protects-then view u (acknowledge c id u) (λ _. pure (some job_id))
                  (ack-Protects id u (written s v u call)) (λ _ t _ m h. h))

    process_job-Protects :
        (job_id id : String) (w : W)
        → job_of id ≡ job_id
        → Protects view w (process_job c job_id id w)
    unfolding process_job
    process_job-Protects job_id id w about =
        Protects-then view w (c.jobs.get job_id w) (process_found c job_id id)
          (λ m. same-IsSafe view w _ m (lawful.get_same job_id w))
          (λ found v call.
            process_found-Protects job_id id found v about
              (λ e. lawful.get_none job_id w v (call ∙ ap (λ o. (ok o, v)) e))
              (λ job e. lawful.get_some job_id w v job (call ∙ ap (λ o. (ok o, v)) e)))

    in_span-Protects :
        {A : Type 0} (carrier : Dict String) (body : Exec W A) (w : W)
        → ((v : W) → Protects view v (body v))
        → Protects view w (in_span c carrier body w)
    in_span-Protects carrier body w p m h = same-IsSafe view _ _ m (lawful.end_same _) (
        p (c.tracer.start_span carrier w) m (same-IsSafe view w _ m (lawful.span_same carrier w) h))

    handle_fields-Protects :
        (id : String) (fields : Dict String) (o : Option String) (w : W)
        → o ≡ some (job_of id)
        → Protects view w (handle_fields c id fields o w)
    handle_fields-Protects id fields none w about = absurd (cc)
    handle_fields-Protects id fields (some job_id) w about =
        in_span-Protects (trace_carrier fields) (process_job c job_id id) w
          (λ v. process_job-Protects job_id id v (cc))

    pub handle_message-Protects :
        (message : Message) (w : W)
        → IsAbout view message
        → Protects view w (handle_message c message w)
    unfolding handle_message
    handle_message-Protects (id, fields) w about =
        handle_fields-Protects id fields (lookup "job_id" fields) w about
