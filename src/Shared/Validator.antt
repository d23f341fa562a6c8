-- ===== src/Shared/Validator.antt =====
-- sentinel_shared/domain/extraction_validator.py: the rule that tells whether an extraction succeeded.
pub mod Rules
use project4_sentinel_ai_scr.Base.{
  String, Bool, true, false, Option, none, some, List, [], ◌∷◌, select, if◌then◌else◌,
}
use project4_sentinel_ai_scr.Base.Dict.{Dict, lookup, has_key}
use project4_sentinel_ai_scr.Base.Text.{is_blank}
use project4_sentinel_ai_scr.Shared.FailureReason.{
  FailureReason, missing_required_field, empty_required_field,
}

pub record ExtractionOutcome : Type 0 where
  pub is_success : Bool
  pub failure_reason : Option FailureReason
  pub missing_fields : List String

-- an absent value stands for an absent key, `field_name not in extracted_data`
unfoldable pub is_missing_or_empty : Dict String → String → Bool
is_missing_or_empty extracted field_name = elim (lookup field_name extracted) [
  | none ↦ true
  | some value ↦ is_blank value
]

-- `missing_fields` is not empty where it is called: it is given by its first item.
unfoldable pub determine_failure_reason : Dict String → String → FailureReason
determine_failure_reason extracted first_missing =
    if has_key first_missing extracted then empty_required_field else missing_required_field

conclude : Dict String → List String → ExtractionOutcome
conclude extracted [] = record { is_success = true; failure_reason = none; missing_fields = [] }
conclude extracted (first_missing ∷ others) = record {
  is_success = false;
  failure_reason = some (determine_failure_reason extracted first_missing);
  missing_fields = first_missing ∷ others;
}

unfoldable pub validate : List String → Dict String → ExtractionOutcome
unfolding conclude
validate required_fields extracted =
    conclude extracted (select (is_missing_or_empty extracted) required_fields)
