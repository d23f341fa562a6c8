-- ===== src/Gateway/Policy.antt =====
-- api_gateway/domain/policies/recovery_decision_policy.py
use project4_sentinel_ai_scr.Base.{Bool, true, false, Option, none, some}
use project4_sentinel_ai_scr.Shared.FailureReason.{
  FailureReason, missing_required_field, empty_required_field, navigation_error, http_error,
}

-- membership in `_RECOVERABLE_FAILURE_REASONS`
abbrev recoverable : FailureReason → Bool
recoverable missing_required_field = true
recoverable empty_required_field = true
recoverable navigation_error = false
recoverable http_error = false

unfoldable pub should_trigger_recovery : Option FailureReason → Bool
should_trigger_recovery none = false
should_trigger_recovery (some reason) = recoverable reason
