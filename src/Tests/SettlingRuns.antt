-- ===== src/Tests/SettlingRuns.antt =====
-- A jobs table in memory, on which no operation raises, and recoveries that flag every job for review.
use project4_sentinel_ai_scr.Base.{
  String, ◌==◌, eq_iff, eq_refl, ◌≡◌, refl, sym, ap, subst, All, ◌∙◌, ◌⊎◌, inl, inr, false, Option,
  none, some, [], ◌∷◌, Bool-cases, if◌then◌else◌,
}
use project4_sentinel_ai_scr.Base.Dict.{lookup}
use project4_sentinel_ai_scr.Base.Exec.{ok, ok-eq-ok}
use project4_sentinel_ai_scr.Shared.JobStatus.{JobStatus, recovery_pending}
use project4_sentinel_ai_scr.Shared.Job.{Job}
use project4_sentinel_ai_scr.Recovery.State.{RecoveryState, needs_human_review}
use project4_sentinel_ai_scr.Recovery.Consumer.{Consumer, build_initial_state, handle_message}
use project4_sentinel_ai_scr.Recovery.Consumer.View.{View, IsAbout, AreAbout, IsLawful, Settled}
use project4_sentinel_ai_scr.Recovery.Consumer.Progress.{Answers, IsFor}
use project4_sentinel_ai_scr.Recovery.Consumer.Settling.{handle_message-settles}

abbrev World : Type 0
World = String → Option JobStatus

abbrev job_with : String → JobStatus → Job
job_with id status = record {
  id = id;
  url = "https://shop.example/p";
  domain = "shop.example";
  required_fields = "price" ∷ [];
  status = status;
  result = none;
  failure_reason = none;
}

abbrev row_of : String → Option JobStatus → Option Job
row_of id none = none
row_of id (some status) = some (job_with id status)

abbrev written : Job → World → World
written job w j = if job.id == j then some job.status else w j

abbrev flag : RecoveryState → RecoveryState
flag s = record s { final_status = some needs_human_review }

abbrev consumer : Consumer World
consumer = record {
  redis = record {
    xgroup_create = λ stream group w. (ok tt, w);
    xreadgroup = λ stream group name block w. (ok [], w);
    xautoclaim = λ stream group name idle w. (ok [], w);
    xack = λ stream group id w. (ok tt, w);
  };
  jobs = record {
    get = λ id w. (ok (row_of id (w id)), w);
    update = λ job w. (ok tt, written job w);
  };
  ainvoke = λ s w. (ok (flag s), w);
  monitor = record { inc = λ metric amount w. w; observe = λ metric w. w };
  tracer = record { start_span = λ carrier w. w; end_span = λ w. w };
  stream_key = "recovery_stream";
  group_name = "recovery_workers";
  consumer_name = "consumer-1";
  max_attempts = 3;
}

abbrev view : View World
view = record {
  is_waiting = λ w m. false;
  is_pending = λ w m. false;
  status = λ w j. w j;
  job_of = λ m. "job-1";
}

consumer-Answers : Answers consumer
consumer-Answers = record {
  gets = λ id w. (row_of id (w id), w, refl, tt);
  updates = λ job w. (tt, written job w, refl, tt);
  acks = λ id w. (tt, w, refl, tt);
  runs = λ job w. (flag (build_initial_state 3 job), w, refl, tt);
}

no_row : (id : String) (o : Option JobStatus) → row_of id o ≡ none → o ≡ none
no_row id none h = refl
no_row id (some status) h = absurd (cc h)

row-id : (id : String) (o : Option JobStatus) (job : Job) → row_of id o ≡ some job → job.id ≡ id
row-id id none job h = absurd (cc h)
row-id id (some status) job h = let e : job_with id status ≡ job = cc h in ap (λ x. x.id) (sym e)

updated_row :
    (job : Job) (w : World) (j : String)
    → (written job w j ≡ w j) ⊎ ((j ≡ job.id) × (written job w j ≡ some job.status))
updated_row job w j = elim (Bool-cases (job.id == j)) [
  | inl e ↦ inr (sym ((eq_iff job.id j).0 e), rw e refl)
  | inr e ↦ inl (rw e refl)
]

consumer-IsLawful : IsLawful view consumer
consumer-IsLawful = record {
  create = λ w. (λ m h. h, λ j. refl);
  read = λ block w. (λ m h. h, λ j. refl);
  read_about = λ block w v response h. subst (AreAbout view) (ok-eq-ok h).0 tt;
  claim = λ idle w. (λ m h. h, λ j. refl);
  claim_about = λ idle w v messages h. subst (All (IsAbout view)) (ok-eq-ok h).0 tt;
  ack_others = λ id m w differs there. there;
  ack_status = λ id w j. refl;
  get_same = λ j w. (λ m h. h, λ k. refl);
  get_none = λ j w v h. let (e, end) = ok-eq-ok h in ap (λ x. x j) (sym end) ∙ no_row j (w j) e;
  get_some = λ j w v job h. row-id j (w j) job (ok-eq-ok h).0;
  update_stream = λ job w m h. h;
  update_status = λ job w j. updated_row job w j;
  update_done = λ job w v h. ap (λ x. x job.id) (sym (ok-eq-ok h).1) ∙ rw (eq_refl job.id) refl;
  graph_same = λ s w. (λ m h. h, λ j. refl);
  observe_same = λ w. (λ m h. h, λ j. refl);
  span_same = λ carrier w. (λ m h. h, λ j. refl);
  end_same = λ w. (λ m h. h, λ j. refl);
}

abbrev waiting : World
waiting j = if j == "job-1" then some recovery_pending else none

handle_message-settles_example :
    (r : Option String) × (v : World) × (handle_message consumer
        ("1-0", ("job_id", "job-1") ∷ [])
        waiting
      ≡ (ok r, v))
    × IsFor "job-1" r
    × Settled (v "job-1")
unfolding lookup
handle_message-settles_example =
    handle_message-settles view consumer consumer-IsLawful "1-0" "job-1" (("job_id", "job-1") ∷ [])
      waiting consumer-Answers refl
