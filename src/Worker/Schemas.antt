-- ===== src/Worker/Schemas.antt =====
-- extraction_worker/interfaces/http/schemas.py: the body of the answer of /internal/extract.
use project4_sentinel_ai_scr.Base.{String, Bool, Option, none, some}
use project4_sentinel_ai_scr.Base.Dict.{Dict}
use project4_sentinel_ai_scr.Shared.FailureReason
use project4_sentinel_ai_scr.Shared.FailureReason.{FailureReason}
use project4_sentinel_ai_scr.Worker.Extract.{ExtractionAttemptResult}

pub record ExtractResponseBody : Type 0 where
  pub success : Bool
  pub extracted : Dict String  -- the source's `data`
  pub failure_reason : Option String

-- `reason.value if reason else None`; no member of the enumeration is falsy
abbrev pub reason_value : Option FailureReason → Option String
reason_value none = none
reason_value (some reason) = some (FailureReason.value reason)

unfoldable pub from_attempt_result : ExtractionAttemptResult → ExtractResponseBody
from_attempt_result result = record {
  success = result.outcome.is_success;
  extracted = result.extracted_data;
  failure_reason = reason_value result.outcome.failure_reason;
}
