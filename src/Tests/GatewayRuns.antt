-- ===== src/Tests/GatewayRuns.antt =====
-- A gateway in memory: a jobs table, a queue and rate counters.
use project4_sentinel_ai_scr.Base.{
  leb, ℕ, ◌+◌, String, ◌==◌, eq_refl, ◌≡◌, refl, sym, ap, ◌∙◌, Bool-cases, true, false, Option,
  none, some, List, [], ◌∷◌, ◌++◌, inl, inr, if◌then◌else◌, eqb,
}
use project4_sentinel_ai_scr.Base.Exec.{
  Returns, Exec, Result, ok-eq-ok, ok-ne-err, ok, err, library_error,
}
use project4_sentinel_ai_scr.Shared.FailureReason.{missing_required_field}
use project4_sentinel_ai_scr.Shared.JobStatus.{recovery_pending}
use project4_sentinel_ai_scr.Shared.Job.{Job, create, mark_recovery_pending}
use project4_sentinel_ai_scr.Gateway.Ports.{ExtractionResult}
use project4_sentinel_ai_scr.Gateway.Policy.{should_trigger_recovery}
use project4_sentinel_ai_scr.Gateway.UseCase.{
  UseCase, is_recovery_pending, apply_extraction_result, finish, execute,
}
use project4_sentinel_ai_scr.Gateway.UseCase.Progress
use project4_sentinel_ai_scr.Gateway.UseCase.Progress.{execute-Returns}
use project4_sentinel_ai_scr.Gateway.UseCase.Effects.{
  View, Same, IsLawful, IsRecorded, IsDecided, execute-IsRecorded,
}
use project4_sentinel_ai_scr.Gateway.RateLimiter.{RateLimiter, rate_key, is_allowed}
use project4_sentinel_ai_scr.Gateway.RateLimiter.Window
use project4_sentinel_ai_scr.Gateway.RateLimiter.Window.{
  is_allowed_lem, passed, burst, passed-burst,
}
use project4_sentinel_ai_scr.Gateway.Router.{
  get_job, CreateScrapeRequestBody, from_job, respond, client_ip, create_scrape_job,
}
use project4_sentinel_ai_scr.Gateway.Router.Responses.{code_of, create_scrape_job-answers}

record World : Type 0 where
  rows : String → Option Job
  queue : List String
  counts : String → ℕ
  ttls : String → Option ℕ

abbrev fill : Job → (String → Option Job) → String → Option Job
fill job rows j = if job.id == j then some job else rows j

abbrev mint : Option Job → Exec World String
mint none w = (ok "job-1", w)
mint (some _) w = (err (library_error "taken"), w)

abbrev failing_extraction : ExtractionResult
failing_extraction = record {
  success = false;
  extracted = [];
  failure_reason = some missing_required_field;
}

abbrev use_case : UseCase World
use_case = record {
  extraction_service = record { extract = λ url domain fields w. (ok failing_extraction, w) };
  job_repository = record {
    save = λ job w. (ok tt, record w { rows = fill job w.rows });
    get = λ id w. (ok (w.rows id), w);
  };
  recovery_queue = record { enqueue = λ id w. (ok tt, record w { queue = w.queue ++ (id ∷ []) }) };
  monitor = record { inc = λ metric amount w. w; observe = λ metric w. w };
  uuid4 = λ w. mint (w.rows "job-1") w;
}

abbrev view : View World
view = record { stored = λ w. w.rows; queued = λ w. w.queue }

mint_lem :
    (o : Option Job) (w v : World) (id : String)
    → mint o w ≡ (ok id, v)
    → (id ≡ "job-1") × (o ≡ none) × (w ≡ v)
mint_lem none w v id h = let (e, end) = ok-eq-ok h in (sym e, refl, end)
mint_lem (some _) w v id h = absurd (ok-ne-err h)

unmoved :
    {A : Type 0} (a b : A) (w v : World)
    → Path (Result A × World) (ok a, w) (ok b, v)
    → Same view w v
unmoved a b w v h =
    let (_, end) = ok-eq-ok h in (λ j. ap (λ x. x.rows j) (sym end), ap (λ x. x.queue) (sym end))

view-IsLawful : IsLawful view use_case
view-IsLawful = record {
  uuid_same = λ w v id h.
      let (_, _, end) = mint_lem (w.rows "job-1") w v id h in
      (λ j. ap (λ x. x.rows j) (sym end), ap (λ x. x.queue) (sym end));
  uuid_fresh =
      λ w v id h. let (e, fresh, _) = mint_lem (w.rows "job-1") w v id h in ap w.rows e ∙ fresh;
  extract_same = λ url domain fields w v r h. unmoved failing_extraction r w v h;
  inc_same = λ m w. (λ j. refl, refl);
  save_new = λ job w v h fresh. saved job w v h;
  save_again = λ old job w v h there same. saved job w v h;
  save_others = λ job w v h.
      let (_, end) = ok-eq-ok h in
      (
        λ j differs. ap (λ x. x.rows j) (sym end) ∙ other job w j differs,
        ap (λ x. x.queue) (sym end),
      );
  enqueue_done = λ id w v h.
      let (_, end) = ok-eq-ok h in (λ j. ap (λ x. x.rows j) (sym end), ap (λ x. x.queue) (sym end));
}
  where
    saved :
        (job : Job) (w v : World)
        → use_case.job_repository.save job w ≡ (ok tt, v)
        → v.rows job.id ≡ some job
    saved job w v h =
        let (_, end) = ok-eq-ok h in ap (λ x. x.rows job.id) (sym end) ∙ rw (eq_refl job.id) refl

    other :
        (job : Job) (w : World) (j : String) → (job.id == j) ≡ false → fill job w.rows j ≡ w.rows j
    other job w j differs = rw differs refl

abbrev empty_world : World
empty_world = record { rows = λ j. none; queue = []; counts = λ j. 0; ttls = λ j. none }

abbrev queued_job : Job
queued_job =
    mark_recovery_pending (create "job-1" "https://shop.example/p" "shop.example" ("price" ∷ []))

abbrev after_request : World → World
after_request w = (execute use_case "https://shop.example/p" "shop.example" ("price" ∷ []) w).1

execute-IsRecorded_example :
    IsRecorded view empty_world (after_request empty_world) queued_job
    × (queued_job.url ≡ "https://shop.example/p")
    × (queued_job.domain ≡ "shop.example")
    × (queued_job.required_fields ≡ "price" ∷ [])
    × IsDecided queued_job.status
unfolding execute finish apply_extraction_result should_trigger_recovery create
    mark_recovery_pending
execute-IsRecorded_example =
    execute-IsRecorded view use_case view-IsLawful "https://shop.example/p" "shop.example"
      ("price" ∷ []) empty_world (after_request empty_world) queued_job refl

abbrev limiter : RateLimiter World
limiter = record {
  redis = record {
    incr = λ key w. (
      ok (w.counts key + 1),
      record w { counts = λ k. if key == k then w.counts key + 1 else w.counts k },
    );
    expire = λ key seconds w.
        (ok tt, record w { ttls = λ k. if key == k then some seconds else w.ttls k });
  };
  limit = 2;
  window_seconds = 60;
}

abbrev counters : Window.View World
counters = record { count = λ w. w.counts; ttl = λ w. w.ttls }

counters-IsLawful : Window.IsLawful counters limiter
counters-IsLawful = record {
  incr_done = λ key w v n h.
      let (e, end) = ok-eq-ok h in
      (
        sym e,
        ap (λ x. x.counts key) (sym end) ∙ rw (eq_refl key) e,
        ap (λ x. x.ttls key) (sym end),
      );
  expire_done = λ key seconds w v h.
      let (_, end) = ok-eq-ok h in
      (ap (λ x. x.counts key) (sym end), ap (λ x. x.ttls key) (sym end) ∙ rw (eq_refl key) refl);
}

abbrev key : String
key = "ratelimit:10.0.0.7"

is_allowed_example :
    let v = (is_allowed limiter "10.0.0.7" empty_world).1 in
    (v.counts key ≡ 1) × (true ≡ leb 1 2) × (v.ttls key ≡ some 60)
unfolding is_allowed rate_key
is_allowed_example =
    is_allowed_lem counters limiter counters-IsLawful "10.0.0.7" empty_world
      (is_allowed limiter "10.0.0.7" empty_world).1 true refl

passed-burst_example :
    let w = (burst limiter 3 "10.0.0.7" empty_world).1 in
    (passed (true ∷ true ∷ false ∷ []) ≡ 2) × (w.counts key ≡ 3)
unfolding is_allowed rate_key burst
passed-burst_example =
    passed-burst counters limiter counters-IsLawful 3 "10.0.0.7" empty_world
      (burst limiter 3 "10.0.0.7" empty_world).1 (true ∷ true ∷ false ∷ []) refl

limits : (identifier : String) (w : World) → Same view w (is_allowed limiter identifier w).1
unfolding is_allowed
limits identifier w = elim (Bool-cases (eqb (w.counts (rate_key identifier) + 1) 1)) [
  | inl first ↦ rw first (λ j. refl, refl)
  | inr later ↦ rw later (λ j. refl, refl)
]

abbrev body : CreateScrapeRequestBody
body = record {
  url = "https://shop.example/p";
  domain = "shop.example";
  required_fields = "price" ∷ [];
}

abbrev posted : World
posted = (create_scrape_job limiter use_case (some "10.0.0.7") body empty_world).1

create_scrape_job-answers_example :
    let response = respond queued_job recovery_pending in
    (job : Job) × (w₁ : World) × (is_allowed limiter (client_ip (some "10.0.0.7")) empty_world
      ≡ (ok true, w₁))
    × (response ≡ respond job job.status)
    × (response.status_code ≡ code_of job.status)
    × (job.url ≡ body.url)
    × (Path (Option Job) none none)
    × (posted.rows job.id ≡ some job)
    × (posted.queue ≡ (if is_recovery_pending job.status then [] ++ (job.id ∷ []) else []))
unfolding create_scrape_job execute finish apply_extraction_result should_trigger_recovery create
    mark_recovery_pending is_allowed rate_key respond from_job
create_scrape_job-answers_example =
    create_scrape_job-answers view limiter use_case view-IsLawful limits (some "10.0.0.7") body
      empty_world posted (respond queued_job recovery_pending) refl

got_job : get_job use_case "job-1" posted ≡ (ok (from_job queued_job), posted)
unfolding create_scrape_job execute finish apply_extraction_result should_trigger_recovery create
    mark_recovery_pending is_allowed rate_key get_job
got_job = refl

-- The use case with a source of identifiers that never fails.
abbrev minting : UseCase World
minting = record use_case { uuid4 = λ w. (ok "job-1", w) }

minting-Answers : Progress.Answers minting
minting-Answers = record {
  mints = λ w. ("job-1", w, refl, tt);
  saves = λ job w. (tt, record w { rows = fill job w.rows }, refl, tt);
  extracts =
      λ url domain fields w. (failing_extraction, w, refl, inr (missing_required_field, refl));
  queues = λ id w. (tt, record w { queue = w.queue ++ (id ∷ []) }, refl, tt);
}

execute-Returns_example :
    Returns (λ _. Unit) (execute minting "https://shop.example/p" "shop.example" ("price" ∷ []))
execute-Returns_example =
    execute-Returns minting minting-Answers "https://shop.example/p" "shop.example" ("price" ∷ [])
