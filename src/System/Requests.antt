-- ===== src/System/Requests.antt =====
-- What the gateway does to the jobs table when it serves its two routes, whatever raises.
use project4_sentinel_ai_scr.Base.{
  ℕ, String, ◌≡◌, refl, ap, subst, ◌∙◌, inl, inr, Bool, true, false, Option, none, some, List,
  Bool-cases, eqb,
}
use project4_sentinel_ai_scr.Base.Dict.{Dict}
use project4_sentinel_ai_scr.Base.Exec.{ok, pure}
use project4_sentinel_ai_scr.Base.Keeps.{Keeps-continue, Keeps-continue_known}
use project4_sentinel_ai_scr.Shared.JobStatus
use project4_sentinel_ai_scr.Shared.Metrics.{Metric, job_status}
use project4_sentinel_ai_scr.Shared.Job.{Job, create}
use project4_sentinel_ai_scr.Gateway.Ports.{JobRepository}
use project4_sentinel_ai_scr.Gateway.RateLimiter.{is_allowed, start_window, rate_key}
use project4_sentinel_ai_scr.Gateway.UseCase.{
  UseCase, apply_extraction_result, enqueue_if, is_recovery_pending, finish, execute, lift,
}
use project4_sentinel_ai_scr.Gateway.Router.{
  CreateScrapeRequestBody, create_scrape_job, admitted, client_ip, get_job, found_job,
}
use project4_sentinel_ai_scr.Gateway.Dependencies.{
  AppState, get_rate_limiter, get_extraction_service, get_recovery_queue, use_case_with,
}
use project4_sentinel_ai_scr.Contract.Http.{Request, http_extract, http_extraction_service}
use project4_sentinel_ai_scr.Contract.Stream.{enqueue}
use project4_sentinel_ai_scr.Contract.Served.{ServesWorker, http_extract_complete}
use project4_sentinel_ai_scr.Worker.Extract.{ExtractData}
use project4_sentinel_ai_scr.System.Table.{View, SameRows, Evolves, SameRows-Evolves, Evolves-trans}
use project4_sentinel_ai_scr.System.Additions.{
  SavesJobs, IsGood, applied-IsGood, Adds, Adds-same, Adds-Evolves, save-Adds,
}
use project4_sentinel_ai_scr.System.Clients.{http_extract-Keeps}

module _ {W : Type 0} (view : View W) (state : AppState W) where
  open view use {stored}

  -- The documented behaviour of what the gateway calls: a new identifier is unused,
  -- and nothing but the repository changes the jobs table.
  pub record IsLawful : Type 0 where
    pub uuid_rows : (w : W) → SameRows view w (state.uuid4 w).1
    pub uuid_fresh : (w v : W) (id : String) → state.uuid4 w ≡ (ok id, v) → stored w id ≡ none
    pub inc_rows : (m : Metric) (n : ℕ) (w : W) → SameRows view w (state.monitor.inc m n w)
    pub post_rows :
        (url : String) (request : Request) (w : W)
        → SameRows view w (state.http_client.post url request w).1
    pub incr_rows : (key : String) (w : W) → SameRows view w (state.counters.incr key w).1
    pub expire_rows :
        (key : String) (seconds : ℕ) (w : W)
        → SameRows view w (state.counters.expire key seconds w).1
    pub xadd_rows :
        (key : String) (fields : Dict String) (w : W)
        → SameRows view w (state.stream.xadd key fields w).1

module _ {W : Type 0} (view : View W) (state : AppState W) (repository : JobRepository W) where
  open view use {stored}

  module _ (lawful : IsLawful view state) (table : SavesJobs view repository) where
    abbrev u : UseCase W
    u = use_case_with state repository

    enqueue_if-rows : (b : Bool) (id : String) (w : W) → SameRows view w (enqueue_if u b id w).1
    unfolding use_case_with get_recovery_queue enqueue
    enqueue_if-rows true id w j = lawful.xadd_rows _ _ w j
    enqueue_if-rows false id w j = refl

    finish-Adds :
        (job₀ job : Job) (w v : W)
        → stored w job₀.id ≡ none
        → IsGood job₀ job
        → Adds view repository job₀ w v
        → Adds view repository job₀ w (finish u job v).1
    unfolding finish use_case_with
    finish-Adds job₀ job w v fresh good h =
        Keeps-continue (Adds view repository job₀ w) (repository.save job v) _
          (save-Adds view repository table job₀ job w v fresh good h)
          (λ _ v₁ h₁.
            let counted = state.monitor.inc (job_status (JobStatus.value job.status)) 1 v₁ in
            Keeps-continue (Adds view repository job₀ w)
              (enqueue_if u (is_recovery_pending job.status) job.id counted) (λ _. pure job)
              (Adds-same view repository job₀ w counted _
                (enqueue_if-rows (is_recovery_pending job.status) job.id counted)
                (Adds-same view repository job₀ w v₁ counted (lawful.inc_rows _ 1 v₁) h₁))
              (λ _ _ h₂. h₂))

    execute-Evolves :
        (worker : ExtractData W)
        → ServesWorker state.http_client state.extraction_worker_base_url worker
        → (url domain : String) (fields : List String) (w : W)
        → Evolves view w (execute u url domain fields w).1
    unfolding execute use_case_with get_extraction_service http_extraction_service create
    execute-Evolves worker serves url domain fields w =
        Keeps-continue_known (Evolves view w) (state.uuid4 w) _
          (SameRows-Evolves view w _ (lawful.uuid_rows w))
          (λ id w₁ minted _.
            let job₀ = create id url domain fields in
            let rows = subst (λ x. SameRows view w x.1) minted (lawful.uuid_rows w) in
            let fresh = lawful.uuid_fresh w w₁ id minted in
            let start : Adds view repository job₀ w w₁ = λ j. inl (rows j) in
            Adds-Evolves view repository job₀ w _ fresh (
              Keeps-continue (Adds view repository job₀ w) (repository.save job₀ w₁) _
                (save-Adds view repository table job₀ job₀ w w₁ fresh ((refl, refl, refl, refl), tt)
                  start)
                (λ _ w₂ h₂.
                  let answer =
                    http_extract state.http_client state.extraction_worker_base_url url domain
                      fields w₂ in
                  Keeps-continue_known (Adds view repository job₀ w) answer _
                    (Adds-same view repository job₀ w w₂ answer.1
                      (http_extract-Keeps (SameRows view w₂) state.http_client
                        (λ url request v h j. lawful.post_rows url request v j ∙ h j)
                        state.extraction_worker_base_url url domain fields w₂ (λ j. refl))
                      h₂)
                    (λ r w₃ answered h₃.
                      Keeps-continue_known (Adds view repository job₀ w)
                        (lift u (apply_extraction_result job₀ r) w₃) (finish u) h₃
                        (λ job w₄ decided h₄.
                          finish-Adds job₀ job w w₄ fresh
                            (applied-IsGood job₀ job r
                              (http_extract_complete state.http_client
                                state.extraction_worker_base_url worker serves url domain fields w₂
                                w₃ r answered)
                              (ap (λ x. x.0) decided))
                            h₄)))))

    is_allowed-rows :
        (id : String) (w : W) → SameRows view w (is_allowed (get_rate_limiter state) id w).1
    unfolding is_allowed get_rate_limiter
    is_allowed-rows id w =
        Keeps-continue (SameRows view w) (state.counters.incr (rate_key id) w) _
          (lawful.incr_rows (rate_key id) w)
          (λ count v h.
            Keeps-continue (SameRows view w)
              (start_window (get_rate_limiter state) count (rate_key id) v) _
              (elim (Bool-cases (eqb count 1)) [
                | inl e ↦ rw e (λ j. lawful.expire_rows (rate_key id) 60 v j ∙ h j)
                | inr e ↦ rw e h
              ])
              (λ _ _ k. k))

    -- Let the services behave as documented and the Worker serve the requests. Whatever
    -- `POST /api/v1/jobs` returns or raises, each row of the jobs table has changed as it may.
    pub create_scrape_job-Evolves :
        (worker : ExtractData W)
        → ServesWorker state.http_client state.extraction_worker_base_url worker
        → (client : Option String) (body : CreateScrapeRequestBody) (w : W)
        → Evolves view w (create_scrape_job (get_rate_limiter state) u client body w).1
    unfolding create_scrape_job
    create_scrape_job-Evolves worker serves client body w =
        let limiter = get_rate_limiter state in
        Keeps-continue (Evolves view w) (is_allowed limiter (client_ip client) w)
          (admitted limiter u body)
          (SameRows-Evolves view w _ (is_allowed-rows (client_ip client) w))
          (λ allowed v h. elim (Bool-cases allowed) [
            | inl e ↦ rw e (
                Evolves-trans view w v _ h (
                  Keeps-continue (Evolves view v)
                    (execute u body.url body.domain body.required_fields v) _
                    (execute-Evolves worker serves body.url body.domain body.required_fields v)
                    (λ _ _ k. k)))
            | inr e ↦ rw e h
          ])

    pub get_job-rows : (id : String) (w : W) → SameRows view w (get_job u id w).1
    unfolding get_job use_case_with
    get_job-rows id w =
        Keeps-continue (SameRows view w) (repository.get id w) (found_job u) (table.get_rows id w)
          (λ found v h. elim found as (λ o. SameRows view w (found_job u o v).1) [
            | none ↦ h
            | some job ↦ h
          ])
