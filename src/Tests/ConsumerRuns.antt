-- ===== src/Tests/ConsumerRuns.antt =====
-- A stream with one message about one job, whose recovery succeeds.
use project4_sentinel_ai_scr.Base.{
  String, ◌==◌, eq_iff, ◌≡◌, refl, sym, ap, subst, ◌∙◌, ◌⊎◌, inl, inr, Bool, true, false, ◌&&◌,
  Option, none, some, List, [], ◌∷◌, All, Bool-cases, arith, if◌then◌else◌,
}
use project4_sentinel_ai_scr.Base.Dict.{Dict, lookup, has_key}
use project4_sentinel_ai_scr.Base.Exec.{Result, ok, err, ok-eq-ok, ok-ne-err, library_error}
use project4_sentinel_ai_scr.Shared.JobStatus.{JobStatus, recovery_pending}
use project4_sentinel_ai_scr.Shared.Job.{Job}
use project4_sentinel_ai_scr.Recovery.State.{RecoveryState}
use project4_sentinel_ai_scr.Recovery.State
use project4_sentinel_ai_scr.Recovery.Consumer.{
  handle_message, in_span, process_job, Message, Consumer, reclaim_stale_messages, consume,
}
use project4_sentinel_ai_scr.Contract.Stream.{
  message_fields, IsDistinct, handle_message-message_fields,
}
use project4_sentinel_ai_scr.Recovery.Consumer.View.{
  View, InStream, IsAbout, AreAbout, IsLawful, IsSafe,
}
use project4_sentinel_ai_scr.Recovery.Consumer.Delivery.{reclaim-Protects, consume-IsSafe}

record World : Type 0 where
  waits : Bool
  delivered : Bool
  row : Option JobStatus

abbrev message_id : String
message_id = "1-0"

abbrev message : Message
message = (message_id, ("job_id", "job-1") ∷ [])

abbrev job_with : JobStatus → Job
job_with status = record {
  id = "job-1";
  url = "https://shop.example/p";
  domain = "shop.example";
  required_fields = "price" ∷ [];
  status = status;
  result = none;
  failure_reason = none;
}

abbrev row_of : Option JobStatus → Option Job
row_of none = none
row_of (some status) = some (job_with status)

abbrev repair : RecoveryState → RecoveryState
repair s = record s {
  recovered_data = some (("price", "42") ∷ []);
  final_status = some State.success;
}

abbrev consumer : Consumer World
consumer = record {
  redis = record {
    xgroup_create = λ stream group w. (ok tt, w);
    xreadgroup = λ stream group name block w.
        if w.waits
        then (ok ((stream, message ∷ []) ∷ []), record w { waits = false; delivered = true })
        else (ok [], w);
    xautoclaim = λ stream group name idle w. (ok (if w.delivered then message ∷ [] else []), w);
    xack = λ stream group id w.
        (ok tt, if id == message_id then record w { delivered = false } else w);
  };
  jobs = record {
    get = λ id w. (ok (if id == "job-1" then row_of w.row else none), w);
    update = λ job w.
        if job.id == "job-1"
        then (ok tt, record w { row = some job.status })
        else (err (library_error "no row"), w);
  };
  ainvoke = λ s w. (ok (repair s), w);
  monitor = record { inc = λ metric amount w. w; observe = λ metric w. w };
  tracer = record { start_span = λ carrier w. w; end_span = λ w. w };
  stream_key = "recovery_jobs";
  group_name = "recovery-engine";
  consumer_name = "consumer-1";
  max_attempts = 3;
}

abbrev view : View World
view = record {
  is_waiting = λ w m. (m == message_id) && w.waits;
  is_pending = λ w m. (m == message_id) && w.delivered;
  status = λ w j. if j == "job-1" then w.row else none;
  job_of = λ m. "job-1";
}

claimed :
    (w v : World) (messages : List Message)
    → consumer.redis.xautoclaim "" "" "" 0 w ≡ (ok messages, v)
    → All (IsAbout view) messages
unfolding lookup
claimed w v messages h = elim (Bool-cases w.delivered) [
  | inl there ↦ let e = ok-eq-ok (rw there at h) in subst (All (IsAbout view)) e.0 (refl, tt)
  | inr gone ↦ let e = ok-eq-ok (rw gone at h) in subst (All (IsAbout view)) e.0 tt
]

InStream-is_message : (w : World) (m : String) → InStream view w m → (m == message_id) ≡ true
InStream-is_message w m h = ground arith

acked_others :
    (id m : String) (w : World)
    → (id == m) ≡ false
    → InStream view w m
    → InStream view (consumer.redis.xack "" "" id w).1 m
acked_others id m w differs there = elim (Bool-cases (id == message_id)) [
  | inl e ↦
      let same = (eq_iff id message_id).0 e in
      let there' = (eq_iff m message_id).0 (InStream-is_message w m there) in
      let clash = (eq_iff id m).1 (same ∙ sym there') in absurd (cc)
  | inr e ↦ rw e there
]

acked_row :
    (id : String) (w : World) (j : String)
    → view.status (consumer.redis.xack "" "" id w).1 j ≡ view.status w j
acked_row id w j = elim (Bool-cases (id == message_id)) [ inl e ↦ rw e refl | inr e ↦ rw e refl ]

got_none :
    (j : String) (w v : World) → consumer.jobs.get j w ≡ (ok none, v) → view.status v j ≡ none
got_none j w v h = elim (Bool-cases (j == "job-1")) [
  | inl e ↦ let (gone, end) = no_row w.row v (rw e at h) in rw e (ap (λ x. x.row) (sym end) ∙ gone)
  | inr e ↦ rw e refl
]
  where
    no_row :
        (row : Option JobStatus) (u : World)
        → Path (Result (Option Job) × World) (ok (row_of row), w) (ok none, u)
        → (row ≡ none) × (w ≡ u)
    no_row none u h = (refl, (ok-eq-ok h).1)
    no_row (some status) u h = let (e, _) = ok-eq-ok h in absurd (cc e)

got_some :
    (j : String) (w v : World) (job : Job) → consumer.jobs.get j w ≡ (ok (some job), v) → job.id ≡ j
got_some j w v job h = elim (Bool-cases (j == "job-1")) [
  | inl e ↦ a_row w.row (ok-eq-ok (rw e at h)).0 ∙ sym ((eq_iff j "job-1").0 e)
  | inr e ↦ let (e', _) = ok-eq-ok (rw e at h) in absurd (cc e')
]
  where
    a_row : (row : Option JobStatus) → row_of row ≡ some job → job.id ≡ "job-1"
    a_row none p = absurd (cc p)
    a_row (some status) p = ground arith

updated_stream :
    (job : Job) (w : World) (m : String)
    → InStream view w m
    → InStream view (consumer.jobs.update job w).1 m
updated_stream job w m h = elim (Bool-cases (job.id == "job-1")) [ inl e ↦ rw e h | inr e ↦ rw e h ]

updated_row :
    (job : Job) (w : World) (j : String)
    → let v = (consumer.jobs.update job w).1 in
      (view.status v j ≡ view.status w j) ⊎ ((j ≡ job.id) × (view.status v j ≡ some job.status))
updated_row job w j = elim (Bool-cases (job.id == "job-1")) [
  | inl e ↦ elim (Bool-cases (j == "job-1")) [
    | inl e' ↦ inr ((eq_iff j "job-1").0 e' ∙ sym ((eq_iff job.id "job-1").0 e), rw (e, e') refl)
    | inr e' ↦ inl (rw (e, e') refl)
  ]
  | inr e ↦ inl (rw e refl)
]

updated :
    (job : Job) (w v : World)
    → consumer.jobs.update job w ≡ (ok tt, v)
    → view.status v job.id ≡ some job.status
updated job w v h = elim (Bool-cases (job.id == "job-1")) [
  | inl e ↦ let (_, end) = ok-eq-ok (rw e at h) in rw e (ap (λ x. x.row) (sym end))
  | inr e ↦ absurd (ok-ne-err (rw e at h))
]

view-IsLawful : IsLawful view consumer
unfolding lookup
view-IsLawful = record {
  create = λ w. (λ m h. h, λ j. refl);
  read = λ block w. elim (Bool-cases w.waits) [
    | inl there ↦ rw there (λ m h. ground arith, λ j. refl)
    | inr gone ↦ rw gone (λ m h. h, λ j. refl)
  ];
  read_about = λ block w v response h. elim (Bool-cases w.waits) [
    | inl there ↦ let e = ok-eq-ok (rw there at h) in subst (AreAbout view) e.0 ((refl, tt), tt)
    | inr gone ↦ let e = ok-eq-ok (rw gone at h) in subst (AreAbout view) e.0 tt
  ];
  claim = λ idle w. (λ m h. h, λ j. refl);
  claim_about = λ idle w v messages h. claimed w v messages h;
  ack_others = λ id m w differs there. acked_others id m w differs there;
  ack_status = λ id w j. acked_row id w j;
  get_same = λ j w. (λ m h. h, λ k. refl);
  get_none = λ j w v h. got_none j w v h;
  get_some = λ j w v job h. got_some j w v job h;
  update_stream = λ job w m h. updated_stream job w m h;
  update_status = λ job w j. updated_row job w j;
  update_done = λ job w v h. updated job w v h;
  graph_same = λ s w. (λ m h. h, λ j. refl);
  observe_same = λ w. (λ m h. h, λ j. refl);
  span_same = λ carrier w. (λ m h. h, λ j. refl);
  end_same = λ w. (λ m h. h, λ j. refl);
}

abbrev queued : World
queued = record { waits = true; delivered = false; row = some recovery_pending }

abbrev stale : World
stale = record { waits = false; delivered = true; row = some recovery_pending }

reclaim-Protects_example : IsSafe view (reclaim_stale_messages consumer 60000 stale).1 message_id
reclaim-Protects_example =
    reclaim-Protects view consumer view-IsLawful 60000 stale message_id (inl (inr refl))

consume-IsSafe_example : IsSafe view (consume consumer 3 queued) message_id
consume-IsSafe_example =
    consume-IsSafe view consumer view-IsLawful 3 queued message_id (inl (inl refl))

abbrev context : Dict String
context = ("traceparent", "00-ab-cd-01") ∷ []

no_job_id : has_key "job_id" context ≡ false
unfolding has_key
no_job_id = refl

trace-IsDistinct : IsDistinct context
unfolding has_key
trace-IsDistinct = (refl, tt)

handle_message-message_fields_example :
    handle_message consumer (message_id, message_fields "job-1" context)
    ≡ in_span consumer context (process_job consumer "job-1" message_id)
handle_message-message_fields_example =
    handle_message-message_fields consumer message_id "job-1" context trace-IsDistinct no_job_id
