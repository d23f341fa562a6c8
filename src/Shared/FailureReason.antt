-- ===== src/Shared/FailureReason.antt =====
-- sentinel_shared/enums/failure_reason.py: why an extraction failed, with the wire values.
use project4_sentinel_ai_scr.Base.{
  String, ◌≡◌, refl, false, Option, none, some, ◌==◌, if◌then◌else◌,
}

pub data FailureReason : Type 0 where
  missing_required_field empty_required_field navigation_error http_error : FailureReason

-- `reason.value`
unfoldable pub value : FailureReason → String
value missing_required_field = "missing_required_field"
value empty_required_field = "empty_required_field"
value navigation_error = "navigation_error"
value http_error = "http_error"

-- `FailureReason(text)`; `none` is its ValueError
unfoldable pub of_value : String → Option FailureReason
of_value s =
    if s == "missing_required_field"
    then some missing_required_field
    else if s == "empty_required_field"
    then some empty_required_field
    else if s == "navigation_error"
    then some navigation_error
    else if s == "http_error"
    then some http_error
    else none

pub of_value-value : (r : FailureReason) → of_value (value r) ≡ some r
unfolding of_value value
of_value-value missing_required_field = refl
of_value-value empty_required_field = refl
of_value-value navigation_error = refl
of_value-value http_error = refl

-- No wire value is the empty text, which the clients read as "no reason".
pub value-ne-empty : (r : FailureReason) → (value r == "") ≡ false
unfolding value
value-ne-empty missing_required_field = refl
value-ne-empty empty_required_field = refl
value-ne-empty navigation_error = refl
value-ne-empty http_error = refl
