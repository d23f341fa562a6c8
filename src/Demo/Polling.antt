-- ===== src/Demo/Polling.antt =====
-- How a run of the demonstration ends, and how often it polls.
use project4_sentinel_ai_scr.Base.{
  ℕ, zero, suc, ◌+◌, String, ◌==◌, eq_iff, ◌≡◌, refl, sym, ap, ◌∙◌, ◌≢◌, ◌⊎◌, inl, inr, true, false,
  Option, none, some, List, [], ◌∷◌, ◌++◌, Bool-cases,
}
use project4_sentinel_ai_scr.Base.Exec.{
  Exec, Exception, Result, ok, err, continue-eq-ok, ok-ne-err, item,
}
use project4_sentinel_ai_scr.Demo.{
  Body, Client, poll_attempts, Shown, yield, during, lift, decoded, recovered_text, flagged_text,
  pending_text, timed_out_text, waiting_text, immediate_text, refused_text, unreachable_text,
  succeeded, flagged, waits, verdict_of, poll, is_status, follow, respond, after_submit,
  submit_and_poll,
}

-- A last text of a run, and the answer of the gateway that it is about.
pub data IsFinal {W : Type 0} (client : Client W) (url domain : String) (fields : List String)
    : String → Type 0 where
  timed_out : IsFinal client url domain fields timed_out_text
  recovered :
      (job_id : String) (body : Body) (u v : W)
      → client.get_job job_id u ≡ (ok (some body), v)
      → body.status ≡ some "success"
      → IsFinal client url domain fields (recovered_text body)
  flagged_final :
      (job_id : String) (body : Body) (u v : W)
      → client.get_job job_id u ≡ (ok (some body), v)
      → body.status ≡ some "needs_human_review"
      → IsFinal client url domain fields (flagged_text body)
  immediate :
      (body : Body) (u v : W)
      → client.post_job url domain fields u ≡ (ok (some body), v)
      → body.status ≡ some "success"
      → IsFinal client url domain fields (immediate_text body)
  refused :
      (body : Body) (u v : W)
      → client.post_job url domain fields u ≡ (ok (some body), v)
      → body.status ≢ some "success"
      → body.status ≢ some "recovery_pending"
      → IsFinal client url domain fields (refused_text body)
  unreachable :
      (u v : W)
      → client.post_job url domain fields u ≡ (err Exception.http_error, v)
      → IsFinal client url domain fields (unreachable_text (client.describe Exception.http_error))

is_status-eq : (value : String) (o : Option String) → is_status value o ≡ true → o ≡ some value
is_status-eq value none h = absurd (cc h)
is_status-eq value (some status) h = ap some ((eq_iff status value).0 h)

is_status-ne : (value : String) (o : Option String) → is_status value o ≡ false → o ≢ some value
is_status-ne value none h e = cc e
is_status-ne value (some status) h e =
    let same : status ≡ value = cc e in let back = (eq_iff status value).1 same in cc (h, back)

during-eq-ok :
    {W A : Type 0} (m : Exec W A) (s t : Shown W) (a : A)
    → during m s ≡ (ok a, t)
    → m s.0 ≡ (ok a, t.0)
during-eq-ok m (w, log) t a h = ap (λ x. (x.0, x.1.0)) h

decoded-eq-ok : (o : Option Body) (body : Body) → decoded o ≡ ok body → o ≡ some body
decoded-eq-ok none body h = absurd (cc h)
decoded-eq-ok (some found) body h = let e : found ≡ body = cc h in ap some e

verdict-cases :
    (o : Option String)
    → ((verdict_of o ≡ succeeded) × (o ≡ some "success"))
      ⊎ ((verdict_of o ≡ flagged) × (o ≡ some "needs_human_review"))
      ⊎ (verdict_of o ≡ waits)
unfolding verdict_of
verdict-cases none = inr (inr refl)
verdict-cases (some status) = elim (Bool-cases (status == "success")) [
  | inl e ↦ inl (rw e refl, ap some ((eq_iff status "success").0 e))
  | inr e ↦ elim (Bool-cases (status == "needs_human_review")) [
    | inl e' ↦ inr (inl (rw (e, e') refl, ap some ((eq_iff status "needs_human_review").0 e')))
    | inr e' ↦ inr (inr (rw (e, e') refl))
  ]
]

module _ {W : Type 0} (client : Client W) (url domain : String) (fields : List String) where
  -- The run ended with a final text.
  abbrev pub EndsWith : Shown W → Type 0
  EndsWith (v, log) =
      (before : List String) × (last : String) × (log ≡ before ++ (last ∷ []))
      × IsFinal client url domain fields last

  yield-ends :
      (text : String) (s t : Shown W)
      → IsFinal client url domain fields text
      → yield text s ≡ (ok tt, t)
      → EndsWith t
  yield-ends text (w, log) t final h = (log, text, ap (λ x. x.1.1) (sym h), final)

  poll-ends :
      (left attempt : ℕ) (job_id : String) (s t : Shown W)
      → poll client left attempt job_id s ≡ (ok tt, t)
      → EndsWith t
  unfolding poll
  poll-ends zero attempt job_id s t h = yield-ends timed_out_text s t timed_out h
  poll-ends (suc left) attempt job_id (w, log) t h =
      let (answer, s₂, got, h₂) =
        continue-eq-ok (during (client.get_job job_id) (client.sleep w, log)) _ h in
      let (body, s₃, read, h₃) = continue-eq-ok (lift (decoded answer) s₂) _ h₂ in
      let there = decoded-eq-ok answer body (ap (λ x. x.0) read) in
      let call : client.get_job job_id (client.sleep w) ≡ (ok (some body), s₂.0) =
        during-eq-ok (client.get_job job_id) (client.sleep w, log) s₂ answer got
        ∙ ap (λ o. (ok o, s₂.0)) there in
      elim (verdict-cases body.status) [
        | inl (v, e) ↦
            yield-ends (recovered_text body) s₃ t
              (recovered job_id body (client.sleep w) s₂.0 call e) (rw v at h₃)
        | inr (inl (v, e)) ↦
            yield-ends (flagged_text body) s₃ t
              (flagged_final job_id body (client.sleep w) s₂.0 call e) (rw v at h₃)
        | inr (inr v) ↦
            let (_, s₄, _, h₄) =
              continue-eq-ok (yield (waiting_text attempt body) s₃)
                (λ _. poll client left (attempt + 1) job_id) (rw v at h₃) in
            poll-ends left (attempt + 1) job_id s₄ t h₄
      ]

  follow-ends : (body : Body) (s t : Shown W) → follow client body s ≡ (ok tt, t) → EndsWith t
  follow-ends body s t h =
      let (job_id, s₁, _, h₁) = continue-eq-ok (lift (item body.job_id) s) _ h in
      let (_, s₂, _, h₂) =
        continue-eq-ok (yield (pending_text client job_id) s₁)
          (λ _. poll client poll_attempts 1 job_id) h₁ in
      poll-ends poll_attempts 1 job_id s₂ t h₂

  after_submit-ends :
      (r : Result (Option Body) × Shown W) (s t : Shown W)
      → during (client.post_job url domain fields) s ≡ r
      → after_submit client r ≡ (ok tt, t)
      → EndsWith t
  after_submit-ends (ok answer, s₁) s t posted h =
      let (body, s₂, read, h₂) = continue-eq-ok (lift (decoded answer) s₁) (respond client) h in
      let there = decoded-eq-ok answer body (ap (λ x. x.0) read) in
      let call : client.post_job url domain fields s.0 ≡ (ok (some body), s₁.0) =
        during-eq-ok (client.post_job url domain fields) s s₁ answer posted
        ∙ ap (λ o. (ok o, s₁.0)) there in
      elim (Bool-cases (is_status "success" body.status)) [
        | inl e ↦
            yield-ends (immediate_text body) s₂ t
              (immediate body s.0 s₁.0 call (is_status-eq "success" body.status e)) (rw e at h₂)
        | inr e ↦ elim (Bool-cases (is_status "recovery_pending" body.status)) [
          | inl e' ↦ follow-ends body s₂ t (rw (e, e') at h₂)
          | inr e' ↦
              yield-ends (refused_text body) s₂ t
                (refused body s.0 s₁.0 call (is_status-ne "success" body.status e)
                  (is_status-ne "recovery_pending" body.status e'))
                (rw (e, e') at h₂)
        ]
      ]
  after_submit-ends (err Exception.http_error, s₁) s t posted h =
      yield-ends _ s₁ t (unreachable s.0 s₁.0 (ap (λ x. (x.0, x.1.0)) posted)) h
  after_submit-ends (err _, s₁) s t posted h = absurd (ok-ne-err h)

  -- A run of the demonstration that returns has a last text which is true of an answer of the
  -- gateway: recovered or extracted only of a success, flagged only of a job for review, failed
  -- only of an answer to the request whose status is neither success nor recovery_pending,
  -- unreachable only of an HTTP error. Otherwise it says that it timed out.
  pub submit_and_poll-ends :
      (s t : Shown W) → submit_and_poll client url domain fields s ≡ (ok tt, t) → EndsWith t
  unfolding submit_and_poll
  submit_and_poll-ends s t h =
      let (_, s₁, _, h₁) =
        continue-eq-ok (yield "Submitting request..." s)
          (λ _ x. after_submit client (during (client.post_job url domain fields) x)) h in
      after_submit-ends (during (client.post_job url domain fields) s₁) s₁ t refl h₁
