-- ===== src/Contract/Http.antt =====
-- The clients of /internal/extract: api_gateway/infrastructure/http_extraction_service.py and
-- recovery_engine/infrastructure/http_worker_service.py. The `httpx` client is a parameter.
use project4_sentinel_ai_scr.Base.{
  ℕ, String, ◌<>◌, ◌==◌, Bool, false, Option, none, some, List, [], if◌then◌else◌,
}
use project4_sentinel_ai_scr.Base.Dict.{Dict}
use project4_sentinel_ai_scr.Base.Exec.{
  Exec, Exception, Result, ok, err, pure, raise, and_then, item, ◌>>=◌, ◌>>◌, json_decode_error,
}
use project4_sentinel_ai_scr.Shared.FailureReason
use project4_sentinel_ai_scr.Shared.FailureReason.{FailureReason}
use project4_sentinel_ai_scr.Gateway.Ports.{ExtractionResult, ExtractionService}
use project4_sentinel_ai_scr.Recovery.Ports.{WorkerExtractionResult, WorkerServicePort}

-- The JSON object of an answer as the clients read it: a key that is missing is `none`.
pub record Payload : Type 0 where
  pub success : Option Bool
  pub extracted : Option (Dict String)
  pub failure_reason : Option (Option String)
  pub screenshot_base64 : Option String

-- A body that is no JSON is `none`.
pub record Response : Type 0 where
  pub status_code : ℕ
  pub json : Option Payload

pub data Request : Type 0 where
  screenshot : String → Request  -- url
  extract : String → String → List String → Option (Dict String) → Request  -- with `selectors`
  save_selector : String → String → String → String → Request  -- with `source`

-- `client.post`, and whether `raise_for_status` raises on a status code.
pub record HttpClient (W : Type 0) : Type 0 where
  pub post : String → Request → Exec W Response
  pub is_error : ℕ → Bool

abbrev pub decode : Response → Result Payload
decode response = elim response.json [ none ↦ err json_decode_error | some payload ↦ ok payload ]

-- `FailureReason(raw) if raw else None`, where an unknown value is a broken contract, `none`.
unfoldable pub read_reason : Option String → Option (Option FailureReason)
read_reason none = some none
read_reason (some raw) =
    if raw == ""
    then some none
    else elim (FailureReason.of_value raw) [ none ↦ none | some reason ↦ some (some reason) ]

-- The parts of an answer, of which a broken contract makes an HTTP error.
pub record Answer : Type 0 where
  pub success : Bool
  pub extracted : Dict String
  pub failure_reason : Option FailureReason

abbrev pub broken : Answer
broken = record { success = false; extracted = []; failure_reason = some FailureReason.http_error }

abbrev answer_with : Payload → Option (Option FailureReason) → Result Answer
answer_with payload none = ok broken
answer_with payload (some reason) = and_then (item payload.success) λ success.
    and_then (item payload.extracted)
      λ extracted. ok (record { success = success; extracted = extracted; failure_reason = reason })

unfoldable pub read_answer : Response → Result Answer
unfolding read_reason
read_answer response =
    and_then (decode response)
      λ payload. and_then (item payload.failure_reason) λ raw. answer_with payload (read_reason raw)

abbrev pub as_result : Answer → ExtractionResult
as_result a = record {
  success = a.success;
  extracted = a.extracted;
  failure_reason = a.failure_reason;
}

abbrev pub as_extraction : Result Answer → Result ExtractionResult
as_extraction r = and_then r λ a. ok (as_result a)

-- The `except httpx.HTTPError` of `extract`, and the parsing after it.
abbrev pub after_post : {W : Type 0} → Result Response × W → Result ExtractionResult × W
after_post (ok response, w) = (as_extraction (read_answer response), w)
after_post (err Exception.http_error, w) = (ok (as_result broken), w)
after_post (err e, w) = (err e, w)

abbrev pub as_worker_result : Answer → WorkerExtractionResult
as_worker_result a = record {
  success = a.success;
  extracted = a.extracted;
  failure_reason = a.failure_reason;
}

module _ {W : Type 0} (client : HttpClient W) where
  -- `client.post(…)` with `response.raise_for_status()`
  unfoldable pub post_checked : String → Request → Exec W Response
  post_checked url request = do
    response ← client.post url request
    if client.is_error response.status_code then raise Exception.http_error else pure response

  abbrev lift : {A : Type 0} → Result A → Exec W A
  lift r w = (r, w)

  -- HttpExtractionService
  unfoldable pub http_extract : String → String → String → List String → Exec W ExtractionResult
  http_extract base_url url domain required_fields w =
      after_post
        (post_checked (base_url <> "/internal/extract") (extract url domain required_fields none) w)

  unfoldable pub http_extraction_service : String → ExtractionService W
  unfolding http_extract
  http_extraction_service base_url = record { extract = http_extract base_url }

  -- HttpWorkerService
  unfoldable pub http_capture_screenshot : String → String → Exec W String
  http_capture_screenshot base_url url = do
    response ← post_checked (base_url <> "/internal/screenshot") (screenshot url)
    lift (and_then (decode response) λ payload. item payload.screenshot_base64)

  unfoldable pub http_validate_selectors :
      String → String → String → List String → Dict String → Exec W WorkerExtractionResult
  http_validate_selectors base_url url domain required_fields selectors = do
    response ←
        post_checked (base_url <> "/internal/extract")
          (extract url domain required_fields (some selectors))
    lift (and_then (read_answer response) λ a. ok (as_worker_result a))

  unfoldable pub http_save_approved_selector : String → String → String → String → Exec W (Unit {0})
  http_save_approved_selector base_url domain field_name selector_value = do
    post_checked (base_url <> "/internal/selectors")
        (save_selector domain field_name selector_value "ai_generated")
    pure tt

  unfoldable pub http_worker_service : String → WorkerServicePort W
  unfolding http_capture_screenshot http_validate_selectors http_save_approved_selector
  http_worker_service base_url = record {
    capture_screenshot = http_capture_screenshot base_url;
    validate_selectors = http_validate_selectors base_url;
    save_approved_selector = http_save_approved_selector base_url;
  }
