-- ===== src/Contract/Stream.antt =====
-- The messages of the recovery stream: api_gateway/infrastructure/redis/redis_recovery_queue.py writes them,
-- and the consumer of the recovery engine takes them apart. Redis and OpenTelemetry are parameters.
use mathlib.Core.List.{append-nil, append_assoc}
use project4_sentinel_ai_scr.Base.{
  String, ◌==◌, eq_iff, ◌≡◌, refl, sym, ap, ◌∙◌, false, [], ◌∷◌, ◌++◌, Bool-cases, inl, inr, arith,
}
use project4_sentinel_ai_scr.Base.Dict.{Dict, lookup, insert, has_key}
use project4_sentinel_ai_scr.Base.Exec.{Exec}
use project4_sentinel_ai_scr.Recovery.Consumer.{
  Consumer, trace_carrier, handle_message, process_job, in_span,
}

-- `{**d, **more}`
unfoldable pub merge_onto : Dict String → Dict String → Dict String
unfolding insert
merge_onto d [] = d
merge_onto d ((k, v) ∷ more) = merge_onto (insert k v d) more

-- `{"job_id": job_id, **trace_context}`
unfoldable pub message_fields : String → Dict String → Dict String
unfolding merge_onto
message_fields job_id trace_context = merge_onto (("job_id", job_id) ∷ []) trace_context

-- `XADD`, and the injection of the active trace context into an empty carrier.
pub record Stream (W : Type 0) : Type 0 where
  pub xadd : String → Dict String → Exec W (Unit {0})
  pub inject_trace_context : W → Dict String

module _ {W : Type 0} (stream : Stream W) (stream_key : String) where
  unfoldable pub enqueue : String → Exec W (Unit {0})
  unfolding message_fields
  enqueue job_id w =
      stream.xadd stream_key (message_fields job_id (stream.inject_trace_context w)) w

-- The keys of a dictionary differ.
abbrev pub IsDistinct : Dict String → Type 0
IsDistinct [] = Unit
IsDistinct ((k, v) ∷ d) = (has_key k d ≡ false) × IsDistinct d

-- No key of the second is one of the first.
abbrev IsApart : Dict String → Dict String → Type 0
IsApart d [] = Unit
IsApart d ((k, v) ∷ more) = (has_key k d ≡ false) × IsApart d more

pub differ_sym : (j k : String) → (j == k) ≡ false → (k == j) ≡ false
differ_sym j k h = elim (Bool-cases (k == j)) [
  | inl e ↦ let back = (eq_iff j k).1 (sym ((eq_iff k j).0 e)) in absurd (cc)
  | inr e ↦ e
]

insert_new :
    (k v : String) (d : Dict String) → has_key k d ≡ false → insert k v d ≡ d ++ ((k, v) ∷ [])
unfolding has_key insert
insert_new k v [] h = refl
insert_new k v ((j, w) ∷ d) h = ground (arith, insert_new k v d)

has_key-append :
    (k j v : String) (d : Dict String)
    → has_key k d ≡ false
    → (j == k) ≡ false
    → has_key k (d ++ ((j, v) ∷ [])) ≡ false
unfolding has_key
has_key-append k j v [] h e = ground arith
has_key-append k j v ((i, w) ∷ d) h e = ground (arith, has_key-append k j v d)

IsApart-append :
    (d more : Dict String) (k v : String)
    → IsApart d more
    → has_key k more ≡ false
    → IsApart (d ++ ((k, v) ∷ [])) more
unfolding has_key
IsApart-append d [] k v h fresh = tt
IsApart-append d ((j, w) ∷ more) k v (here, rest) fresh = (
  has_key-append j k v d here (differ_sym j k (ground arith)),
  IsApart-append d more k v rest (ground arith),
)

merge_apart :
    (d more : Dict String) → IsApart d more → IsDistinct more → merge_onto d more ≡ d ++ more
unfolding merge_onto
merge_apart d [] apart distinct = sym (append-nil d)
merge_apart d ((k, v) ∷ more) (here, rest) (fresh, distinct) =
    ap (λ x. merge_onto x more) (insert_new k v d here)
    ∙ merge_apart (d ++ ((k, v) ∷ [])) more (IsApart-append d more k v rest fresh) distinct
    ∙ append_assoc d ((k, v) ∷ []) more

IsApart-job_id :
    (job_id : String) (context : Dict String)
    → has_key "job_id" context ≡ false
    → IsApart (("job_id", job_id) ∷ []) context
unfolding has_key
IsApart-job_id job_id [] h = tt
IsApart-job_id job_id ((k, v) ∷ context) h =
    (ground (arith, differ_sym k "job_id"), IsApart-job_id job_id context (ground arith))

message_fields_lem :
    (job_id : String) (context : Dict String)
    → IsDistinct context
    → has_key "job_id" context ≡ false
    → message_fields job_id context ≡ ("job_id", job_id) ∷ context
unfolding message_fields
message_fields_lem job_id context distinct free =
    merge_apart (("job_id", job_id) ∷ []) context (IsApart-job_id job_id context free) distinct

trace_carrier_free : (d : Dict String) → has_key "job_id" d ≡ false → trace_carrier d ≡ d
unfolding has_key trace_carrier
trace_carrier_free [] h = refl
trace_carrier_free ((k, v) ∷ d) h = ground (arith, trace_carrier_free d)

-- If the keys of the trace context differ and none is `job_id`, the consumer takes a message that the gateway
-- wrote apart again: it processes the job with that identifier, in a span of just that context.
pub handle_message-message_fields :
    {W : Type 0} (c : Consumer W) (message_id job_id : String) (context : Dict String)
    → IsDistinct context
    → has_key "job_id" context ≡ false
    → handle_message c (message_id, message_fields job_id context)
      ≡ in_span c context (process_job c job_id message_id)
unfolding handle_message trace_carrier lookup
handle_message-message_fields c message_id job_id context distinct free =
    rw (message_fields_lem job_id context distinct free) (rw (trace_carrier_free context free) refl)
