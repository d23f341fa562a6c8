-- ===== src/Recovery/Consumer/Delivery.antt =====
-- No message is lost: what polling and reclaiming do, whatever raises.
use project4_sentinel_ai_scr.Base.{
  ℕ, zero, suc, String, ◌≡◌, refl, sym, subst, inl, inr, List, [], ◌∷◌, All, Bool-cases,
}
use project4_sentinel_ai_scr.Base.Text.{has_part}
use project4_sentinel_ai_scr.Base.Exec.{Result, ok, err, pure, response_error}
use project4_sentinel_ai_scr.Recovery.Consumer.{
  Message, Consumer, handle_message, tolerate_busy_group, ensure_group_exists, handle_response,
  process_next_job, keep_id, handle_claimed, reclaim_stale_messages, consume,
}
use project4_sentinel_ai_scr.Recovery.Consumer.View.{
  View, IsAbout, AreAbout, IsLawful, IsSafe, same-IsSafe, Protects, Protects-then,
}
use project4_sentinel_ai_scr.Recovery.Consumer.Handling.{handle_message-Protects}

module _ {W : Type 0} (c : Consumer W) where
  pub tolerate-world : (r : Result (Unit {0}) × W) → (tolerate_busy_group c r).1 ≡ r.1
  tolerate-world (ok a, w) = refl
  tolerate-world (err (response_error text), w) = elim (Bool-cases (has_part "BUSYGROUP" text)) [
    | inl busy ↦ rw busy
    | inr other ↦ rw other
  ]
  tolerate-world (err _, w) = refl

module _ {W : Type 0} (view : View W) where
  open view use {is_waiting, is_pending, status, job_of}

  module _ (c : Consumer W) (lawful : IsLawful view c) where
    tolerate-Protects :
        (w : W) (r : Result (Unit {0}) × W)
        → Protects view w r
        → Protects view w (tolerate_busy_group c r)
    tolerate-Protects w r p m h = subst (λ v. IsSafe view v m) (sym (tolerate-world c r)) (p m h)

    ensure_group_exists-Protects : (w : W) → Protects view w (ensure_group_exists c w)
    unfolding ensure_group_exists
    ensure_group_exists-Protects w =
        tolerate-Protects w (c.redis.xgroup_create c.stream_key c.group_name w)
          (λ m. same-IsSafe view w _ m (lawful.create w))

    handle_response-Protects :
        (response : List (String × List Message)) (w : W)
        → AreAbout view response
        → Protects view w (handle_response c response w)
    handle_response-Protects [] w about m h = h
    handle_response-Protects ((stream, []) ∷ others) w about m h = h
    handle_response-Protects ((stream, message ∷ messages) ∷ others) w about m h =
        handle_message-Protects view c lawful message w about.0.0 m h

    -- Let the services behave as documented. Whatever one poll of the stream does or raises, a
    -- message that was safe before it is safe after it: it still waits or is pending, or its job
    -- is gone, succeeded or flagged for review.
    process_next_job-Protects :
        (block_ms : ℕ) (w : W) (m : String)
        → IsSafe view w m
        → IsSafe view (process_next_job c block_ms w).1 m
    unfolding process_next_job
    process_next_job-Protects block w =
        Protects-then view w (ensure_group_exists c w) _ (ensure_group_exists-Protects w) (λ _ v _.
          Protects-then view v
            (c.redis.xreadgroup c.stream_key c.group_name c.consumer_name block v)
            (handle_response c) (λ m. same-IsSafe view v _ m (lawful.read block v))
            (λ response u call.
              handle_response-Protects response u (lawful.read_about block v u response call)))

    handle_claimed-Protects :
        (messages : List Message) (w : W)
        → All (IsAbout view) messages
        → Protects view w (handle_claimed c messages w)
    unfolding handle_claimed
    handle_claimed-Protects [] w about m h = h
    handle_claimed-Protects (message ∷ messages) w (here, rest) m h =
        Protects-then view w (handle_message c message w) _
          (handle_message-Protects view c lawful message w here)
          (λ job_id v _.
            Protects-then view v (handle_claimed c messages v) (λ ids. pure (keep_id c job_id ids))
              (handle_claimed-Protects messages v rest) (λ _ u _ m h. h))
          m h

    -- Let the services behave as documented. Whatever a reclaim of stale messages does or raises,
    -- also where the handling of one message ends it early, a message that was safe before it is
    -- safe after it.
    pub reclaim-Protects :
        (min_idle_time_ms : ℕ) (w : W) (m : String)
        → IsSafe view w m
        → IsSafe view (reclaim_stale_messages c min_idle_time_ms w).1 m
    unfolding reclaim_stale_messages
    reclaim-Protects idle w =
        Protects-then view w (ensure_group_exists c w) _ (ensure_group_exists-Protects w) (λ _ v _.
          Protects-then view v (c.redis.xautoclaim c.stream_key c.group_name c.consumer_name idle v)
            (handle_claimed c) (λ m. same-IsSafe view v _ m (lawful.claim idle v))
            (λ messages u call.
              handle_claimed-Protects messages u (lawful.claim_about idle v u messages call)))

    -- Let the services behave as documented. However often the loop polls, and whatever exceptions
    -- it swallows, a message that was safe is still safe: it waits or is pending, or its job is
    -- gone, succeeded or flagged for review.
    pub consume-IsSafe :
        (rounds : ℕ) (w : W) (m : String) → IsSafe view w m → IsSafe view (consume c rounds w) m
    unfolding consume
    consume-IsSafe zero w m h = h
    consume-IsSafe (suc rounds) w m h =
        consume-IsSafe rounds (process_next_job c 5000 w).1 m (process_next_job-Protects 5000 w m h)
