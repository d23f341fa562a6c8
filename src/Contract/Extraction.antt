-- ===== src/Contract/Extraction.antt =====
-- The clients' reading of the Worker's answers agrees with what the Worker meant, and decides the job.
use project4_sentinel_ai_scr.Base.{
  ℕ, String, ◌<>◌, ◌==◌, ◌≡◌, refl, ◌≢◌, ◌⊎◌, inl, inr, true, false, Option, none, some, List,
  arith, Bool-cases, if◌then◌else◌,
}
use project4_sentinel_ai_scr.Base.Dict.{Dict}
use project4_sentinel_ai_scr.Base.Exec.{
  Exception, Result, ok, err, and_then, key_error, json_decode_error,
}
use project4_sentinel_ai_scr.Shared.FailureReason
use project4_sentinel_ai_scr.Shared.FailureReason.{
  FailureReason, missing_required_field, empty_required_field, navigation_error, http_error,
}
use project4_sentinel_ai_scr.Shared.Job.{Job, mark_succeeded, mark_recovery_pending, mark_failed}
use project4_sentinel_ai_scr.Shared.Validator.{ExtractionOutcome, validate}
use project4_sentinel_ai_scr.Shared.Validator.Rules.{validate-reason_of_failure}
use project4_sentinel_ai_scr.Gateway.Policy.{should_trigger_recovery}
use project4_sentinel_ai_scr.Gateway.UseCase.{apply_extraction_result}
use project4_sentinel_ai_scr.Worker.Extract.{ExtractionAttemptResult}
use project4_sentinel_ai_scr.Worker.Schemas.{ExtractResponseBody, reason_value, from_attempt_result}
use project4_sentinel_ai_scr.Contract.Http.{
  Payload, Request, Response, Answer, read_reason, read_answer, HttpClient, extract, post_checked,
  as_extraction, after_post, http_extract,
}

-- The answer that FastAPI makes of a response body.
abbrev pub answer_of : ExtractResponseBody → Response
answer_of body = record {
  status_code = 200;
  json = some (record {
    success = some body.success;
    extracted = some body.extracted;
    failure_reason = some body.failure_reason;
    screenshot_base64 = none;
  });
}

read_reason-reason_value : (o : Option FailureReason) → read_reason (reason_value o) ≡ some o
unfolding read_reason FailureReason.value FailureReason.of_value
read_reason-reason_value none = refl
read_reason-reason_value (some missing_required_field) = refl
read_reason-reason_value (some empty_required_field) = refl
read_reason-reason_value (some navigation_error) = refl
read_reason-reason_value (some http_error) = refl

-- The client reads from the Worker's answer just the verdict, the data and the reason of the attempt.
pub read_answer-from_attempt_result :
    (r : ExtractionAttemptResult)
    → read_answer (answer_of (from_attempt_result r))
      ≡ ok (record {
        success = r.outcome.is_success;
        extracted = r.extracted_data;
        failure_reason = r.outcome.failure_reason;
      })
unfolding read_answer from_attempt_result
read_answer-from_attempt_result r = rw (read_reason-reason_value r.outcome.failure_reason)

-- An answer about a validation of the required fields completes the job with the extracted data if the
-- validation succeeded, and sends it to recovery otherwise. It never fails the job, and the
-- assertion of the use case holds.
pub worker_answer_decides :
    (job : Job) (required_fields : List String) (extracted : Dict String)
    → let outcome = validate required_fields extracted in
      and_then
        (as_extraction (
          read_answer (
            answer_of
              (from_attempt_result (record { outcome = outcome; extracted_data = extracted })))))
        (apply_extraction_result job)
      ≡ ok (if outcome.is_success then mark_succeeded job extracted else mark_recovery_pending job)
unfolding apply_extraction_result should_trigger_recovery
worker_answer_decides job fields d =
    rw read_answer-from_attempt_result
      (decided (validate fields d) (validate-reason_of_failure fields d))
  where
    decided :
        (o : ExtractionOutcome)
        → (o.is_success ≡ false
            → (o.failure_reason ≡ some missing_required_field)
              ⊎ (o.failure_reason ≡ some empty_required_field))
        → apply_extraction_result job
            (record { success = o.is_success; extracted = d; failure_reason = o.failure_reason })
          ≡ ok (if o.is_success then mark_succeeded job d else mark_recovery_pending job)
    decided o reason = elim (Bool-cases o.is_success) [
      | inl good ↦ ground arith
      | inr bad ↦ elim (reason bad) [ inl e ↦ ground arith | inr e ↦ ground arith ]
    ]

-- An unknown reason in an answer is a failure of the infrastructure, whatever else the answer holds.
pub unknown_reason_fails :
    (job : Job) (status : ℕ) (payload : Payload) (raw : String)
    → payload.failure_reason ≡ some (some raw)
    → (raw == "") ≡ false
    → FailureReason.of_value raw ≡ none
    → and_then
        (as_extraction (read_answer (record { status_code = status; json = some payload })))
        (apply_extraction_result job)
      ≡ ok (mark_failed job http_error)
unfolding read_answer apply_extraction_result should_trigger_recovery
unknown_reason_fails job status payload raw there filled unknown = ground arith

read_answer_errors :
    (response : Response) (e : Exception)
    → read_answer response ≡ err e
    → (e ≡ key_error) ⊎ (e ≡ json_decode_error)
unfolding read_answer
read_answer_errors response e h = ground arith

as_extraction-err : (r : Result Answer) (e : Exception) → as_extraction r ≡ err e → r ≡ err e
as_extraction-err (ok a) e h = absurd (cc)
as_extraction-err (err x) e h = cc

module _ {W : Type 0} (client : HttpClient W) where
  -- A request that finds no server, or to which a server answers with an error status.
  abbrev pub PostFails : String → Request → W → W → Type 0
  PostFails url request w v =
      (client.post url request w ≡ (err Exception.http_error, v))
      ⊎ ((response : Response) × (client.post url request w ≡ (ok response, v))
          × (client.is_error response.status_code ≡ true))

  post_checked-fails :
      (url : String) (request : Request) (w v : W)
      → PostFails url request w v
      → post_checked client url request w ≡ (err Exception.http_error, v)
  unfolding post_checked
  post_checked-fails url request w v (inl e) = rw e refl
  post_checked-fails url request w v (inr (response, e, bad)) = rw (e, bad) refl

  after_post-ne-http_error : (r : Result Response × W) → (after_post r).0 ≢ err Exception.http_error
  after_post-ne-http_error (ok response, w) h =
      elim (read_answer_errors response Exception.http_error
        (as_extraction-err (read_answer response) Exception.http_error h)) [
          | inl e ↦ cc
          | inr e ↦ cc
        ]
  after_post-ne-http_error (err Exception.http_error, w) h = cc
  after_post-ne-http_error (err _, w) h = cc

  -- The gateway's client never raises an HTTP error, whatever the network does.
  pub http_extract-ne-http_error :
      (base_url url domain : String) (fields : List String) (w : W)
      → (http_extract client base_url url domain fields w).0 ≢ err Exception.http_error
  unfolding http_extract
  http_extract-ne-http_error base_url url domain fields w = after_post-ne-http_error _

  -- A Worker that cannot be reached, or that answers with an error status, fails the job with an HTTP
  -- error, and asks for no recovery.
  pub unreachable_fails :
      (base_url url domain : String) (fields : List String) (w v : W) (job : Job)
      → PostFails (base_url <> "/internal/extract") (extract url domain fields none) w v
      → and_then (http_extract client base_url url domain fields w).0 (apply_extraction_result job)
        ≡ ok (mark_failed job http_error)
  unfolding http_extract apply_extraction_result should_trigger_recovery
  unreachable_fails base_url url domain fields w v job h =
      rw (
        post_checked-fails (base_url <> "/internal/extract") (extract url domain fields none) w v h)
