-- ===== src/Contract/Endpoint.antt =====
-- The endpoint of the Worker as the clients read it.
use project4_sentinel_ai_scr.Base.{String, ◌≡◌, sym, ap, ◌∙◌, some, List}
use project4_sentinel_ai_scr.Base.Dict.{Dict}
use project4_sentinel_ai_scr.Base.Exec.{ok, continue-eq-ok, ok-eq-ok}
use project4_sentinel_ai_scr.Shared.Validator.{validate}
use project4_sentinel_ai_scr.Worker.Extract.{ExtractData, execute}
use project4_sentinel_ai_scr.Worker.Extract.Resolution.{execute-candidates}
use project4_sentinel_ai_scr.Worker.Schemas.{ExtractResponseBody}
use project4_sentinel_ai_scr.Worker.Router.{extract_endpoint}
use project4_sentinel_ai_scr.Contract.Http.{Answer, read_answer}
use project4_sentinel_ai_scr.Contract.Extraction.{answer_of, read_answer-from_attempt_result}

-- What a client should read about the data that a page gave.
abbrev pub verdict : List String → Dict String → Answer
verdict fields extracted =
    let outcome = validate fields extracted in
    record {
      success = outcome.is_success;
      extracted = extracted;
      failure_reason = outcome.failure_reason;
    }

module _ {W : Type 0} (u : ExtractData W) where
  -- If the endpoint answers a request with candidate selectors, the browser was asked for just these, and
  -- the client reads from the answer the validation of what the browser gave.
  pub read_answer-extract_endpoint :
      (url domain : String) (fields : List String) (candidates : Dict String) (w v : W)
      (body : ExtractResponseBody)
      → extract_endpoint u
          (record {
            url = url;
            domain = domain;
            required_fields = fields;
            selectors = some candidates;
          })
          w
        ≡ (ok body, v)
      → (extracted : Dict String) × (w₂ : W) × (u.browser.extract_fields url candidates w
          ≡ (ok extracted, w₂))
        × (read_answer (answer_of body) ≡ ok (verdict fields extracted))
  unfolding extract_endpoint
  read_answer-extract_endpoint url domain fields candidates w v body h =
      let (result, w₁, ran, h₁) =
        continue-eq-ok (execute u url domain fields (some candidates) w) _ h in
      let (w₂, tried, outcome, _) =
        execute-candidates u url domain fields candidates w w₁ result ran in
      let (said, _) = ok-eq-ok h₁ in
      (
        result.extracted_data,
        w₂,
        tried,
        ap (λ x. read_answer (answer_of x)) (sym said)
            ∙ read_answer-from_attempt_result result
            ∙ ap
                (λ o. ok (record {
                  success = o.is_success;
                  extracted = result.extracted_data;
                  failure_reason = o.failure_reason;
                }))
                outcome,
      )
