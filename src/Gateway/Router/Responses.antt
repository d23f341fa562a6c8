-- ===== src/Gateway/Router/Responses.antt =====
-- What the answers of the API promise about the stored jobs.
use project4_sentinel_ai_scr.Base.{
  ℕ, String, ◌≡◌, refl, sym, ap, ◌∙◌, Bool, true, false, Option, none, some, [], ◌∷◌, ◌++◌,
  if◌then◌else◌,
}
use project4_sentinel_ai_scr.Base.Exec.{ok, continue-eq-ok, ok-eq-ok, ok-ne-err}
use project4_sentinel_ai_scr.Shared.JobStatus.{JobStatus, recovery_pending, success}
use project4_sentinel_ai_scr.Shared.Job.{Job}
use project4_sentinel_ai_scr.Gateway.UseCase.{UseCase, is_recovery_pending, execute}
use project4_sentinel_ai_scr.Gateway.UseCase.Effects.{
  View, Same, IsLawful, IsDecided, execute-IsRecorded,
}
use project4_sentinel_ai_scr.Gateway.RateLimiter.{RateLimiter, is_allowed}
use project4_sentinel_ai_scr.Gateway.Router.{
  CreateScrapeRequestBody, ScrapeResponseBody, JsonResponse, from_job, found_job, get_job, respond,
  client_ip, admitted, create_scrape_job,
}

-- The status code of an answer about a job.
abbrev pub code_of : JobStatus → ℕ
code_of success = 200
code_of recovery_pending = 202
code_of _ = 422

respond-status_code :
    (job : Job) (s : JobStatus) → IsDecided s → (respond job s).status_code ≡ code_of s
unfolding respond
respond-status_code job success h = refl
respond-status_code job recovery_pending h = refl
respond-status_code job _ h = refl

module _ {W : Type 0} (view : View W) (limiter : RateLimiter W) (u : UseCase W)
    (lawful : IsLawful view u)
    (limits : (identifier : String) (w : W) → Same view w (is_allowed limiter identifier w).1) where
  open view use {stored, queued}

  create_inversion :
      (client : Option String) (body : CreateScrapeRequestBody) (w v : W) (response : JsonResponse)
      → create_scrape_job limiter u client body w ≡ (ok response, v)
      → (job : Job) × (w₁ : W) × (is_allowed limiter (client_ip client) w ≡ (ok true, w₁))
        × (execute u body.url body.domain body.required_fields w₁ ≡ (ok job, v))
        × (response ≡ respond job job.status)
  unfolding create_scrape_job
  create_inversion client body w v response h =
      let (allowed, w₁, asked, h₁) = continue-eq-ok (is_allowed limiter (client_ip client) w) _ h in
      by_verdict allowed w₁ asked h₁
    where
      by_verdict :
          (allowed : Bool) (w₁ : W)
          → is_allowed limiter (client_ip client) w ≡ (ok allowed, w₁)
          → admitted limiter u body allowed w₁ ≡ (ok response, v)
          → (job : Job) × (w₁ : W) × (is_allowed limiter (client_ip client) w ≡ (ok true, w₁))
            × (execute u body.url body.domain body.required_fields w₁ ≡ (ok job, v))
            × (response ≡ respond job job.status)
      by_verdict false w₁ asked h₁ = absurd (ok-ne-err h₁)
      by_verdict true w₁ asked h₁ =
          let (job, w₂, done, h₂) =
            continue-eq-ok (execute u body.url body.domain body.required_fields w₁) _ h₁ in
          let (said, end) = ok-eq-ok h₂ in
          (job, w₁, asked, done ∙ ap (λ x. (ok job, x)) end, sym said)

  -- Let the ports behave as documented, and the rate limiter touch neither rows nor queue. An
  -- answer of a scrape request stands for a job that is stored as a new row with the request's
  -- address, and in the queue exactly if it waits for a recovery: 200 for a success, 202 for a
  -- recovery and 422 for a failure. The rate limiter had let the client pass.
  pub create_scrape_job-answers :
      (client : Option String) (body : CreateScrapeRequestBody) (w v : W) (response : JsonResponse)
      → create_scrape_job limiter u client body w ≡ (ok response, v)
      → (job : Job) × (w₁ : W) × (is_allowed limiter (client_ip client) w ≡ (ok true, w₁))
        × (response ≡ respond job job.status)
        × (response.status_code ≡ code_of job.status)
        × (job.url ≡ body.url)
        × (stored w job.id ≡ none)
        × (stored v job.id ≡ some job)
        × (queued v
            ≡ (if is_recovery_pending job.status then queued w ++ (job.id ∷ []) else queued w))
  create_scrape_job-answers client body w v response h =
      let (job, w₁, asked, done, said) = create_inversion client body w v response h in
      let (recorded, url, _, _, decided) =
        execute-IsRecorded view u lawful body.url body.domain body.required_fields w₁ v job done in
      let (rows, log) = limits (client_ip client) w in
      let there : w₁ ≡ (is_allowed limiter (client_ip client) w).1 = sym (ap (λ x. x.1) asked) in
      (
        job,
        w₁,
        asked,
        said,
        ap (λ x. x.status_code) said ∙ respond-status_code job job.status decided,
        url,
        sym (ap (λ x. stored x job.id) there ∙ rows job.id) ∙ recorded.new,
        recorded.row,
        recorded.queue
            ∙ ap (λ q. if is_recovery_pending job.status then q ++ (job.id ∷ []) else q)
                (ap queued there ∙ log),
      )

module _ {W : Type 0} (view : View W) (u : UseCase W) where
  open view use {stored}

  -- The documented behaviour of a lookup that returns: it gives the row.
  abbrev pub FindsRows : Type 0
  FindsRows =
      (id : String) (w v : W) (found : Option Job)
      → u.job_repository.get id w ≡ (ok found, v)
      → found ≡ stored w id

  found_inversion :
      (found : Option Job) (w v : W) (body : ScrapeResponseBody)
      → found_job u found w ≡ (ok body, v)
      → (job : Job) × (found ≡ some job) × (body ≡ from_job job)
  found_inversion none w v body h = absurd (ok-ne-err h)
  found_inversion (some job) w v body h = let (said, _) = ok-eq-ok h in (job, refl, sym said)

  -- If a lookup of the repository that returns gives the row, an answer about a job shows the stored row of
  -- that identifier.
  pub get_job-shows :
      FindsRows
      → (job_id : String) (w v : W) (body : ScrapeResponseBody) → get_job u job_id w ≡ (ok body, v)
      → (job : Job) × (stored w job_id ≡ some job) × (body ≡ from_job job)
  unfolding get_job
  get_job-shows finds job_id w v body h =
      let (found, w₁, got, h₁) = continue-eq-ok (u.job_repository.get job_id w) _ h in
      let (job, e, said) = found_inversion found w₁ v body h₁ in
      (job, sym (finds job_id w w₁ found got) ∙ e, said)
