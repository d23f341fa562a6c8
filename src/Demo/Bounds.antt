-- ===== src/Demo/Bounds.antt =====
-- How much a run of the demonstration asks of the gateway and shows, whatever raises.
use project4_sentinel_ai_scr.Base.{
  ℕ, zero, suc, ◌+◌, ◌≤◌, String, ◌≡◌, Option, List, [], ◌∷◌, Bool-cases, inl, inr, arith, length,
  length-append,
}
use project4_sentinel_ai_scr.Base.Text.{is_blank}
use project4_sentinel_ai_scr.Base.Exec.{Exec, Exception, Result, ok, err, continue, item}
use project4_sentinel_ai_scr.Demo.{
  Body, Client, poll_attempts, Shown, yield, during, lift, decoded, waiting_text, pending_text,
  Verdict, succeeded, flagged, waits, verdict_of, after_poll, poll, is_status, follow, respond,
  after_submit, submit_and_poll, custom_fields, with_fields, run_custom_url,
}

-- The numbers of requests and of lookups that the gateway was sent.
pub record View (W : Type 0) : Type 0 where
  pub posts : W → ℕ
  pub gets : W → ℕ

module _ {W : Type 0} (view : View W) where
  open view use {posts, gets}

  -- A request and a lookup are counted, and nothing else is, whether they return or raise.
  pub record Counts (client : Client W) : Type 0 where
    pub posted :
        (url domain : String) (fields : List String) (w : W)
        → let v = (client.post_job url domain fields w).1 in
          (posts v ≡ posts w + 1) × (gets v ≡ gets w)
    pub got :
        (job_id : String) (w : W)
        → let v = (client.get_job job_id w).1 in (posts v ≡ posts w) × (gets v ≡ gets w + 1)
    pub slept : (w : W) → (posts (client.sleep w) ≡ posts w) × (gets (client.sleep w) ≡ gets w)

  -- At most so many lookups and texts more, and as many requests as said.
  abbrev pub Within : ℕ → ℕ → ℕ → Shown W → Shown W → Type 0
  Within p g n (w, log) (v, log') =
      (posts v ≤ posts w + p) × (gets v ≤ gets w + g) × (length log' ≤ length log + n)

  Within-trans :
      (p g n p' g' n' : ℕ) (r s t : Shown W)
      → Within p g n r s
      → Within p' g' n' s t
      → Within (p + p') (g + g') (n + n') r t
  Within-trans p g n p' g' n' r s t (a, b, c) (a', b', c') =
      (omega (arith, a, a'), omega (arith, b, b'), omega (arith, c, c'))

  Within-more :
      (p g n p' g' n' : ℕ) (r s : Shown W)
      → p ≤ p'
      → g ≤ g'
      → n ≤ n'
      → Within p g n r s
      → Within p' g' n' r s
  Within-more p g n p' g' n' r s hp hg hn (a, b, c) =
      (omega (arith, a, hp), omega (arith, b, hg), omega (arith, c, hn))

  -- What comes after a part that stays within its share.
  Within-then :
      {A B : Type 0} (p g n p' g' n' : ℕ) (s : Shown W) (r : Result A × Shown W)
      (f : A → Exec (Shown W) B)
      → Within p g n s r.1
      → ((a : A) (t : Shown W) → Within p' g' n' t (f a t).1)
      → Within (p + p') (g + g') (n + n') s (continue r f).1
  Within-then p g n p' g' n' s (ok a, t) f h k = Within-trans p g n p' g' n' s t (f a t).1 h (k a t)
  Within-then p g n p' g' n' s (err e, t) f h k =
      Within-more p g n (p + p') (g + g') (n + n') s t (omega arith) (omega arith) (omega arith) h

  Within-refl : (s : Shown W) → Within 0 0 0 s s
  Within-refl s = (omega arith, omega arith, omega arith)

  yield-Within : (text : String) (s : Shown W) → Within 0 0 1 s (yield text s).1
  yield-Within text (w, log) =
      (omega arith, omega arith, omega (arith, length-append log (text ∷ [])))

  module _ (client : Client W) (counts : Counts client) where
    after_poll-Within :
        (left attempt : ℕ) (v : Verdict) (body : Body) (onward : Exec (Shown W) (Unit {0}))
        (u : Shown W)
        → ((t : Shown W) → Within 0 left (left + 1) t (onward t).1)
        → Within 0 left (left + 2) u (after_poll client v attempt body onward u).1
    after_poll-Within left attempt succeeded body onward u h =
        Within-more 0 0 1 0 left (left + 2) u _ (omega arith) (omega arith) (omega arith)
          (yield-Within _ u)
    after_poll-Within left attempt flagged body onward u h =
        Within-more 0 0 1 0 left (left + 2) u _ (omega arith) (omega arith) (omega arith)
          (yield-Within _ u)
    after_poll-Within left attempt waits body onward u h =
        Within-more 0 (0 + left) (1 + (left + 1)) 0 left (left + 2) u _ (omega arith) (omega arith)
          (omega arith)
          (Within-then 0 0 1 0 left (left + 1) u (yield (waiting_text attempt body) u) (λ _. onward)
            (yield-Within (waiting_text attempt body) u) (λ _ t. h t))

    poll-Within :
        (left attempt : ℕ) (job_id : String) (s : Shown W)
        → Within 0 left (left + 1) s (poll client left attempt job_id s).1
    unfolding poll
    poll-Within zero attempt job_id s = yield-Within _ s
    poll-Within (suc left) attempt job_id (w, log) =
        let asked = during (client.get_job job_id) (client.sleep w, log) in
        let one : Within 0 1 0 (w, log) asked.1 = (
          omega (arith, (counts.slept w).0, (counts.got job_id (client.sleep w)).0),
          omega (arith, (counts.slept w).1, (counts.got job_id (client.sleep w)).1),
          omega arith,
        ) in
        Within-more 0 (1 + (0 + left)) (0 + (0 + (left + 2))) 0 (suc left) (suc left + 1) (w, log) _
          (omega arith) (omega arith) (omega arith)
          (Within-then 0 1 0 0 (0 + left) (0 + (left + 2)) (w, log) asked _ one
            (λ answer t.
              Within-then 0 0 0 0 left (left + 2) t (lift (decoded answer) t) _ (Within-refl t)
                (λ body u.
                  after_poll-Within left attempt (verdict_of body.status) body _ u
                    (poll-Within left (attempt + 1) job_id))))

    follow-Within : (body : Body) (s : Shown W) → Within 0 20 22 s (follow client body s).1
    follow-Within body s =
        Within-then 0 0 0 0 20 22 s (lift (item body.job_id) s) _ (Within-refl s) (λ job_id t.
          Within-then 0 0 1 0 20 21 t (yield (pending_text client job_id) t)
            (λ _. poll client poll_attempts 1 job_id) (yield-Within _ t)
            (λ _ u. poll-Within 20 1 job_id u))

    respond-Within : (body : Body) (s : Shown W) → Within 0 20 22 s (respond client body s).1
    respond-Within body s = elim (Bool-cases (is_status "success" body.status)) [
      | inl e ↦ rw e (
          Within-more 0 0 1 0 20 22 s _ (omega arith) (omega arith) (omega arith)
            (yield-Within _ s))
      | inr e ↦ elim (Bool-cases (is_status "recovery_pending" body.status)) [
        | inl e' ↦ rw (e, e') (follow-Within body s)
        | inr e' ↦
            rw (e, e')
              (Within-more 0 0 1 0 20 22 s _ (omega arith) (omega arith) (omega arith)
                (yield-Within _ s))
      ]
    ]

    after_submit-Within :
        (r : Result (Option Body) × Shown W) → Within 0 20 22 r.1 (after_submit client r).1
    after_submit-Within (ok answer, s) =
        Within-then 0 0 0 0 20 22 s (lift (decoded answer) s) (respond client) (Within-refl s)
          (respond-Within)
    after_submit-Within (err Exception.http_error, s) =
        Within-more 0 0 1 0 20 22 s _ (omega arith) (omega arith) (omega arith) (yield-Within _ s)
    after_submit-Within (err _, s) =
        Within-more 0 0 0 0 20 22 s s (omega arith) (omega arith) (omega arith) (Within-refl s)

    -- However the gateway answers, and whatever raises, a run sends it one request at most and twenty
    -- lookups at most, and shows at most twenty-three texts.
    pub submit_and_poll-Within :
        (url domain : String) (fields : List String) (s : Shown W)
        → Within 1 20 23 s (submit_and_poll client url domain fields s).1
    unfolding submit_and_poll
    submit_and_poll-Within url domain fields s =
        Within-then 0 0 1 1 20 22 s (yield "Submitting request..." s)
          (λ _ x. after_submit client (during (client.post_job url domain fields) x))
          (yield-Within "Submitting request..." s)
          (λ _ (w, log).
            let asked = during (client.post_job url domain fields) (w, log) in
            let one : Within 1 0 0 (w, log) asked.1 = (
              omega (arith, (counts.posted url domain fields w).0),
              omega (arith, (counts.posted url domain fields w).1),
              omega arith,
            ) in
            Within-trans 1 0 0 0 20 22 (w, log) asked.1 _ one (after_submit-Within asked))

    with_fields-Within :
        (url : String) (fields : List String) (s : Shown W)
        → Within 1 20 23 s (with_fields client url fields s).1
    with_fields-Within url [] s =
        Within-more 0 0 1 1 20 23 s _ (omega arith) (omega arith) (omega arith) (yield-Within _ s)
    with_fields-Within url (field ∷ fields) s =
        Within-then 0 0 0 1 20 23 s (lift (client.netloc url) s) _ (Within-refl s)
          (λ netloc t. submit_and_poll-Within url _ (field ∷ fields) t)

    -- Let each request and lookup be counted. However the gateway answers, and whatever raises, a
    -- run of a visitor's address and fields sends one request at most and twenty lookups at most,
    -- and shows at most twenty-three texts.
    pub run_custom_url-Within :
        (url fields_csv : String) (s : Shown W)
        → Within 1 20 23 s (run_custom_url client url fields_csv s).1
    unfolding run_custom_url
    run_custom_url-Within url fields_csv s = elim (Bool-cases (is_blank url)) [
      | inl e ↦ rw e (
          Within-more 0 0 1 1 20 23 s _ (omega arith) (omega arith) (omega arith)
            (yield-Within _ s))
      | inr e ↦ rw e (with_fields-Within url (custom_fields fields_csv) s)
    ]
