-- ===== src/Tests/ContractRuns.antt =====
-- The validation of extracted fields, and the Worker's answers to the gateway.
use project4_sentinel_ai_scr.Base.{
  ℕ, ◌+◌, leb, inr, String, ◌≡◌, refl, ◌↔◌, ◌≢◌, true, false, none, some, List, [], ◌∷◌, All,
  select, if◌then◌else◌,
}
use project4_sentinel_ai_scr.Base.Dict.{Dict, lookup}
use project4_sentinel_ai_scr.Base.Exec.{Exec, ok, err, and_then}
use project4_sentinel_ai_scr.Base.Exec
use project4_sentinel_ai_scr.Base.Text.{is_blank, is_space}
use project4_sentinel_ai_scr.Shared.FailureReason.{
  FailureReason, missing_required_field, empty_required_field, http_error,
}
use project4_sentinel_ai_scr.Shared.FailureReason
use project4_sentinel_ai_scr.Shared.Job.{
  Job, create, mark_succeeded, mark_failed, mark_recovery_pending,
}
use project4_sentinel_ai_scr.Shared.Validator.{is_missing_or_empty, validate}
use project4_sentinel_ai_scr.Shared.Validator.Rules.{
  IsFilled, Reports, reason_of, validate-is_success_iff, validate_report,
}
use project4_sentinel_ai_scr.Gateway.UseCase.{apply_extraction_result}
use project4_sentinel_ai_scr.Worker.Extract.{ExtractionAttemptResult}
use project4_sentinel_ai_scr.Worker.Schemas.{from_attempt_result}
use project4_sentinel_ai_scr.Contract.Http.{
  Payload, Response, HttpClient, read_answer, as_extraction, http_extract,
}
use project4_sentinel_ai_scr.Contract.Extraction.{
  answer_of, read_answer-from_attempt_result, worker_answer_decides, unknown_reason_fails,
  http_extract-ne-http_error, unreachable_fails,
}

abbrev fields : List String
fields = "title" ∷ "price" ∷ []

-- A page with a title whose price is blank.
abbrev blank_price : Dict String
blank_price = ("title", "Lamp") ∷ ("price", "  ") ∷ []

validate-is_success_iff_example :
    ((validate fields blank_price).is_success ≡ true) ↔ All (IsFilled blank_price) fields
validate-is_success_iff_example = validate-is_success_iff fields blank_price

validate_report_example :
    let outcome = validate fields blank_price in
    Reports blank_price fields outcome.missing_fields
    × (outcome.failure_reason ≡ reason_of blank_price outcome.missing_fields)
    × ((outcome.is_success ≡ false) ↔ (outcome.missing_fields ≢ []))
validate_report_example = validate_report fields blank_price

blank_price_fails : (validate fields blank_price).is_success ≡ false
unfolding validate is_missing_or_empty select lookup is_blank is_space
blank_price_fails = refl

abbrev job : Job
job = create "job-1" "https://shop.example/p" "shop.example" fields

worker_answer_decides_example :
    let outcome = validate fields blank_price in
    and_then
      (as_extraction (
        read_answer (
          answer_of
            (from_attempt_result (record { outcome = outcome; extracted_data = blank_price })))))
      (apply_extraction_result job)
    ≡ ok (if outcome.is_success then mark_succeeded job blank_price else mark_recovery_pending job)
worker_answer_decides_example = worker_answer_decides job fields blank_price

abbrev attempt : ExtractionAttemptResult
attempt = record { outcome = validate fields blank_price; extracted_data = blank_price }

read_answer-from_attempt_result_example :
    read_answer (answer_of (from_attempt_result attempt))
    ≡ ok (record {
      success = attempt.outcome.is_success;
      extracted = blank_price;
      failure_reason = attempt.outcome.failure_reason;
    })
read_answer-from_attempt_result_example = read_answer-from_attempt_result attempt

-- An answer of a newer Worker.
abbrev newer : Payload
newer = record {
  success = some true;
  extracted = some [];
  failure_reason = some (some "captcha");
  screenshot_base64 = none;
}

unknown_captcha : FailureReason.of_value "captcha" ≡ none
unfolding FailureReason.of_value
unknown_captcha = refl

unknown_reason_fails_example :
    and_then
      (as_extraction (read_answer (record { status_code = 200; json = some newer })))
      (apply_extraction_result job)
    ≡ ok (mark_failed job http_error)
unknown_reason_fails_example =
    unknown_reason_fails job 200 newer "captcha" refl refl unknown_captcha

-- A network on which nothing is reached.
abbrev offline : HttpClient ℕ
offline = record { post = λ url request w. (err Exec.http_error, w); is_error = λ code. false }

http_extract-ne-http_error_example :
    (http_extract offline "http://worker" "https://shop.example/p" "shop.example" fields 0).0
    ≢ err Exec.http_error
http_extract-ne-http_error_example =
    http_extract-ne-http_error offline "http://worker" "https://shop.example/p" "shop.example"
      fields 0

-- A Worker that answers every request with an internal error.
abbrev crashed : Response
crashed = record { status_code = 500; json = none }

abbrev crashing : HttpClient ℕ
crashing = record { post = λ url request w. (ok crashed, w + 1); is_error = λ code. leb 400 code }

unreachable_fails_example :
    and_then
      (http_extract crashing "http://worker" "https://shop.example/p" "shop.example" fields 0).0
      (apply_extraction_result job)
    ≡ ok (mark_failed job http_error)
unreachable_fails_example =
    unreachable_fails crashing "http://worker" "https://shop.example/p" "shop.example" fields 0 1
      job (inr (crashed, refl, refl))
