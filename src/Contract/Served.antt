-- ===== src/Contract/Served.antt =====
-- The Worker behind its HTTP clients: an answer that reports a success carries every required field.
use project4_sentinel_ai_scr.Base.{
  String, ◌<>◌, ◌≡◌, refl, sym, ap, ◌∙◌, subst, true, false, Option, none, some, List, Bool-cases,
  ◌⊎◌, inl, inr, All,
}
use project4_sentinel_ai_scr.Base.Dict.{Dict}
use project4_sentinel_ai_scr.Base.Exec.{
  Exception, Result, ok, err, continue-eq-ok, ok-eq-ok, ok-ne-err, and_then,
}
use project4_sentinel_ai_scr.Shared.Validator.{validate}
use project4_sentinel_ai_scr.Shared.Validator.Rules.{IsFilled, validate-is_success_iff}
use project4_sentinel_ai_scr.Gateway.Ports.{ExtractionResult}
use project4_sentinel_ai_scr.Recovery.Ports.{WorkerExtractionResult}
use project4_sentinel_ai_scr.Worker.Extract.{
  ExtractData, ExtractionAttemptResult, selectors_for, execute,
}
use project4_sentinel_ai_scr.Worker.Schemas.{ExtractResponseBody}
use project4_sentinel_ai_scr.Worker.Router.{ExtractRequestBody, extract_endpoint}
use project4_sentinel_ai_scr.Contract.Http.{
  HttpClient, Request, Response, Answer, extract, read_answer, as_extraction, as_result,
  as_worker_result, post_checked, after_post, http_extract, http_validate_selectors,
}
use project4_sentinel_ai_scr.Contract.Extraction.{answer_of, read_answer-from_attempt_result}
use project4_sentinel_ai_scr.Contract.Endpoint.{verdict}

-- What FastAPI and the HTTP client do with a request that the Worker serves: an answer without an error
-- status holds the body that the endpoint returned, in some world between.
abbrev pub ServesWorker : {W : Type 0} → HttpClient W → String → ExtractData W → Type 0
ServesWorker {W} client base_url worker =
    (url domain : String) (fields : List String) (candidates : Option (Dict String)) (w v : W)
    (response : Response)
    → client.post (base_url <> "/internal/extract") (extract url domain fields candidates) w
      ≡ (ok response, v)
    → client.is_error response.status_code ≡ false
    → (body : ExtractResponseBody) × (w₀ : W) × (w₁ : W) × (extract_endpoint worker
          (record { url = url; domain = domain; required_fields = fields; selectors = candidates })
          w₀
        ≡ (ok body, w₁))
      × (response.json ≡ (answer_of body).json)

module _ {W : Type 0} (worker : ExtractData W) where
  execute-outcome :
      (url domain : String) (fields : List String) (candidates : Option (Dict String)) (w v : W)
      (result : ExtractionAttemptResult)
      → execute worker url domain fields candidates w ≡ (ok result, v)
      → result.outcome ≡ validate fields result.extracted_data
  unfolding execute
  execute-outcome url domain fields candidates w v result h =
      let (selectors, w₁, _, h₁) =
        continue-eq-ok (selectors_for worker domain fields candidates w) _ h in
      let (extracted, w₂, _, h₂) =
        continue-eq-ok (worker.browser.extract_fields url selectors w₁) _ h₁ in
      let (said, _) = ok-eq-ok h₂ in
      ap (λ x. x.outcome) (sym said) ∙ ap (λ x. validate fields x.extracted_data) said

  -- Whatever selectors a request has, a client reads from its answer a validation of all its fields.
  pub read_answer-served :
      (request : ExtractRequestBody) (w v : W) (body : ExtractResponseBody)
      → extract_endpoint worker request w ≡ (ok body, v)
      → (extracted : Dict String) × (read_answer (answer_of body)
          ≡ ok (verdict request.required_fields extracted))
  unfolding extract_endpoint
  read_answer-served request w v body h =
      let (result, w₁, ran, h₁) =
        continue-eq-ok
          (execute worker request.url request.domain request.required_fields request.selectors w) _
          h in
      let outcome =
        execute-outcome request.url request.domain request.required_fields request.selectors w w₁
          result ran in
      let (said, _) = ok-eq-ok h₁ in
      (
        result.extracted_data,
        ap (λ x. read_answer (answer_of x)) (sym said)
            ∙ read_answer-from_attempt_result result
            ∙ ap
                (λ o. ok (record {
                  success = o.is_success;
                  extracted = result.extracted_data;
                  failure_reason = o.failure_reason;
                }))
                outcome,
      )

-- An answer says that all fields are there only if they are.
abbrev pub IsHonest : List String → Answer → Type 0
IsHonest fields a = (a.success ≡ false) ⊎ All (IsFilled a.extracted) fields

verdict-IsHonest : (fields : List String) (d : Dict String) → IsHonest fields (verdict fields d)
verdict-IsHonest fields d = elim (Bool-cases (validate fields d).is_success) [
  | inl good ↦ inr ((validate-is_success_iff fields d).0 good)
  | inr bad ↦ inl bad
]

extracted_from :
    {W : Type 0} (fields : List String) (r : Result Response × W) (v : W)
    (result : ExtractionResult)
    → ((response : Response) (u : W)
        → r ≡ (ok response, u)
        → (a : Answer) × (read_answer response ≡ ok a) × IsHonest fields a)
    → after_post r ≡ (ok result, v)
    → result.success ≡ true
    → All (IsFilled result.extracted) fields
extracted_from fields (ok response, w) v result honest h good =
    let (a, read, truth) = honest response w refl in
    let same : ok (as_result a) ≡ ok result = sym (ap as_extraction read) ∙ ap (λ x. x.0) h in
    let e : as_result a ≡ result = cc same in
    elim truth [
      | inl bad ↦ let clash = sym bad ∙ ap (λ x. x.success) e ∙ good in absurd (cc clash)
      | inr full ↦ subst (λ x. All (IsFilled x.extracted) fields) e full
    ]
extracted_from fields (err Exception.http_error, w) v result honest h good =
    let (said, _) = ok-eq-ok h in let clash = ap (λ x. x.success) said ∙ good in absurd (cc clash)
extracted_from fields (err _, w) v result honest h good = absurd (ok-ne-err h)

module _ {W : Type 0} (client : HttpClient W) (base_url : String) (worker : ExtractData W)
    (serves : ServesWorker client base_url worker) where
  post_checked_inversion :
      (url : String) (request : Request) (w v : W) (response : Response)
      → post_checked client url request w ≡ (ok response, v)
      → (client.post url request w ≡ (ok response, v))
        × (client.is_error response.status_code ≡ false)
  unfolding post_checked
  post_checked_inversion url request w v response h =
      let (answer, w₁, posted, h₁) = continue-eq-ok (client.post url request w) _ h in
      elim (Bool-cases (client.is_error answer.status_code)) [
        | inl bad ↦ absurd (ok-ne-err (rw bad at h₁))
        | inr good ↦
            let (said, end) = ok-eq-ok (rw good at h₁) in
            (
              posted ∙ ap (λ x. (ok answer, x)) end ∙ ap (λ x. (ok x, v)) said,
              subst (λ x. client.is_error x.status_code ≡ false) said good,
            )
      ]

  same_json : (r s : Response) → r.json ≡ s.json → read_answer r ≡ read_answer s
  unfolding read_answer
  same_json r s e = ap (λ j. read_answer (record { status_code = 0; json = j })) e

  answered :
      (url domain : String) (fields : List String) (candidates : Option (Dict String)) (w v : W)
      (response : Response)
      → post_checked client
          (base_url <> "/internal/extract")
          (extract url domain fields candidates)
          w
        ≡ (ok response, v)
      → (a : Answer) × (read_answer response ≡ ok a) × IsHonest fields a
  answered url domain fields candidates w v response h =
      let (posted, good) = post_checked_inversion _ _ w v response h in
      let (body, w₀, w₁, ran, json) =
        serves url domain fields candidates w v response posted good in
      let (extracted, said) =
        read_answer-served worker
          (record { url = url; domain = domain; required_fields = fields; selectors = candidates })
          w₀ w₁ body ran in
      (
        verdict fields extracted,
        same_json response (answer_of body) json ∙ said,
        verdict-IsHonest fields extracted,
      )

  -- If the Worker serves the requests, an extraction that the gateway's client reports as a success has a
  -- value that is not blank for every field that was asked for.
  pub http_extract_complete :
      (url domain : String) (fields : List String) (w v : W) (result : ExtractionResult)
      → http_extract client base_url url domain fields w ≡ (ok result, v)
      → result.success ≡ true
      → All (IsFilled result.extracted) fields
  unfolding http_extract
  http_extract_complete url domain fields w v result h good =
      extracted_from fields
        (post_checked client (base_url <> "/internal/extract") (extract url domain fields none) w) v
        result (λ response u posted. answered url domain fields none w u response posted) h good

  -- The same of a validation that the recovery engine's client reports as a success.
  pub http_validate_selectors_complete :
      (url domain : String) (fields : List String) (candidates : Dict String) (w v : W)
      (result : WorkerExtractionResult)
      → http_validate_selectors client base_url url domain fields candidates w ≡ (ok result, v)
      → result.success ≡ true
      → All (IsFilled result.extracted) fields
  unfolding http_validate_selectors
  http_validate_selectors_complete url domain fields candidates w v result h good =
      let (response, w₁, posted, h₁) =
        continue-eq-ok
          (post_checked client (base_url <> "/internal/extract")
            (extract url domain fields (some candidates)) w)
          _ h in
      let (a, read, honest) = answered url domain fields (some candidates) w w₁ response posted in
      let same : ok (as_worker_result a) ≡ ok result =
        sym (ap (λ x. and_then x (λ y. ok (as_worker_result y))) read) ∙ ap (λ x. x.0) h₁ in
      let e : as_worker_result a ≡ result = cc same in
      elim honest [
        | inl bad ↦ let clash = sym bad ∙ ap (λ x. x.success) e ∙ good in absurd (cc clash)
        | inr full ↦ subst (λ x. All (IsFilled x.extracted) fields) e full
      ]
