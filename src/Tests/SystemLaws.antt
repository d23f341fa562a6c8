-- ===== src/Tests/SystemLaws.antt =====
-- The whole system of Tests.SystemWorld keeps the laws of its parts.
use project4_sentinel_ai_scr.Base.{
  String, ◌==◌, eq_iff, ◌≡◌, refl, sym, ap, ◌∙◌, ◌⊎◌, inl, inr, Option, none, some, List, [], ◌∷◌,
  Bool-cases,
}
use project4_sentinel_ai_scr.Base.Exec.{Result, ok, err}
use project4_sentinel_ai_scr.Shared.Job.{Job}
use project4_sentinel_ai_scr.Recovery.Engines.{demo_recovery_engine, demo_propose_selectors}
use project4_sentinel_ai_scr.Contract.Http.{Request, Response, screenshot, extract, save_selector}
use project4_sentinel_ai_scr.Contract.Extraction.{answer_of}
use project4_sentinel_ai_scr.Contract.Served.{ServesWorker}
use project4_sentinel_ai_scr.Contract.JobRows.{
  JobModel, job_to_model, model_to_job, outcome_of, assigned,
}
use project4_sentinel_ai_scr.Contract.JobRows.Sharing.{
  model_to_job-job_to_model, stored_row, assigned_row,
}
use project4_sentinel_ai_scr.Worker.Router.{ExtractRequestBody, extract_endpoint}
use project4_sentinel_ai_scr.Worker.Schemas.{ExtractResponseBody}
use project4_sentinel_ai_scr.System.Table.{SameRows}
use project4_sentinel_ai_scr.System.Repositories
use project4_sentinel_ai_scr.System.Requests
use project4_sentinel_ai_scr.System.Recoveries
use project4_sentinel_ai_scr.System.History.{IsLawful}
use project4_sentinel_ai_scr.Tests.SystemWorld.{
  World, find, view, decoded, amend, entered, session, worker, reply, post, client, mint, state,
  process, sys,
}

find-id : (jobs : List Job) (j : String) (job : Job) → find jobs j ≡ some job → job.id ≡ j
find-id [] j job h = absurd (cc h)
find-id (first ∷ jobs) j job h = elim (Bool-cases (first.id == j)) [
  | inl e ↦
      let same : some first ≡ some job = rw e at h in
      let same' : first ≡ job = cc same in ap (λ x. x.id) (sym same') ∙ (eq_iff first.id j).0 e
  | inr e ↦ find-id jobs j job (rw e at h)
]

abbrev settled : Job → Job → Job
settled k job = record job {
  status = k.status;
  result = k.result;
  failure_reason = k.failure_reason;
}

decoded_lem :
    (k job : Job)
    → decoded job (model_to_job (assigned (outcome_of k) (job_to_model job))) ≡ settled k job
unfolding outcome_of job_to_model
decoded_lem k job = ap (decoded job) (model_to_job-job_to_model (settled k job))

written :
    (k job : Job)
    → Path
        (Option JobModel)
        (some (job_to_model (settled k job)))
        (some (assigned (outcome_of k) (job_to_model job)))
unfolding outcome_of job_to_model
written k job = refl

amended :
    (id : String) (k : Job) (jobs : List Job) (j : String)
    → let after = find (amend id (outcome_of k) jobs) j in
      (stored_row after ≡ stored_row (find jobs j))
      ⊎ ((j ≡ id) × (stored_row after ≡ assigned_row (outcome_of k) (stored_row (find jobs j))))
amended id k [] j = inl refl
amended id k (job ∷ jobs) j = elim (Bool-cases (job.id == id)) [
  | inl e ↦ elim (Bool-cases (job.id == j)) [
    | inl e' ↦ inr (
      sym ((eq_iff job.id j).0 e') ∙ (eq_iff job.id id).0 e,
      rw (e, decoded_lem k job, e') (written k job),
    )
    | inr e' ↦ inl (rw (e, decoded_lem k job, e') refl)
  ]
  | inr e ↦ elim (Bool-cases (job.id == j)) [
    | inl e' ↦ inl (rw (e, e') refl)
    | inr e' ↦ rw (e, e') (amended id k jobs j)
  ]
]

added :
    (job : Job) (jobs : List Job) (j : String)
    → (stored_row (find (entered (model_to_job (job_to_model job)) jobs) j)
        ≡ stored_row (find jobs j))
      ⊎ ((j ≡ job.id)
          × (stored_row (find (entered (model_to_job (job_to_model job)) jobs) j)
              ≡ some (job_to_model job)))
added job jobs j = elim (Bool-cases (job.id == j)) [
  | inl e ↦ inr (sym ((eq_iff job.id j).0 e), rw (model_to_job-job_to_model job, e) refl)
  | inr e ↦ inl (rw (model_to_job-job_to_model job, e) refl)
]

pub session-IsLawful : Repositories.IsLawful view session
session-IsLawful = record {
  get_rows = λ id w j. refl;
  get_done = λ id w v found h.
      let e : ok (stored_row (find w.jobs id)) ≡ ok found = ap (λ x. x.0) h in sym (cc e);
  add_commit = λ job w j absent. added job w.jobs j;
  assign_commit = λ id job w j. amended id job w.jobs j;
}

mint-fresh : (o : Option Job) (id : String) → mint o ≡ ok id → (o ≡ none) × (id ≡ "job-1")
mint-fresh none id h = (refl, sym (cc h))
mint-fresh (some job) id h = absurd (cc h)

post_same : (url : String) (request : Request) (w : World) → SameRows view w (post url request w).1
post_same url (screenshot page) w j = refl
post_same url (save_selector _ _ _ _) w j = refl
post_same url (extract page domain fields candidates) w j = refl

requests-IsLawful : Requests.IsLawful view state
requests-IsLawful = record {
  uuid_rows = λ w j. refl;
  uuid_fresh = λ w v id h.
      let (absent, e) = mint-fresh (find w.jobs "job-1") id (ap (λ x. x.0) h) in
      ap (find w.jobs) e ∙ absent;
  inc_rows = λ m n w j. refl;
  post_rows = post_same;
  incr_rows = λ key w j. refl;
  expire_rows = λ key seconds w j. refl;
  xadd_rows = λ key fields w j. refl;
}

recoveries-IsLawful : Recoveries.IsLawful view process demo_recovery_engine
unfolding demo_recovery_engine demo_propose_selectors
recoveries-IsLawful = record {
  create_rows = λ key group w j. refl;
  read_rows = λ key group name block w j. refl;
  claim_rows = λ key group name idle w j. refl;
  ack_rows = λ key group id w j. refl;
  post_rows = post_same;
  propose_rows = λ shot schema history w j. refl;
  inc_rows = λ m n w j. refl;
  observe_rows = λ m w j. refl;
  start_rows = λ carrier w j. refl;
  end_rows = λ w j. refl;
}

replied :
    (r : Result ExtractResponseBody) (response : Response)
    → reply r ≡ ok response
    → (body : ExtractResponseBody) × (r ≡ ok body) × (response.json ≡ (answer_of body).json)
replied (ok body) response h =
    let e : record { status_code = 200; json = (answer_of body).json } ≡ response = cc h in
    (body, refl, ap (λ x. x.json) (sym e))
replied (err _) response h = absurd (cc h)

serves : (base_url : String) → ServesWorker client base_url worker
serves base_url url domain fields candidates w v response h good =
    let request : ExtractRequestBody = record {
      url = url;
      domain = domain;
      required_fields = fields;
      selectors = candidates;
    } in
    let r = extract_endpoint worker request w in
    let (body, ran, json) = replied r.0 response (ap (λ x. x.0) h) in
    (body, w, r.1, ap (λ x. (x, r.1)) ran, json)

pub sys-IsLawful : IsLawful view sys
sys-IsLawful = record {
  keyed = λ w j job h. find-id w.jobs j job h;
  gateway_session = session-IsLawful;
  recovery_session = session-IsLawful;
  requests = requests-IsLawful;
  recoveries = recoveries-IsLawful;
  serves_gateway = serves "http://worker:8000";
  serves_recovery = serves "http://worker:8000";
  executes = λ g s w. refl;
}
