-- ===== src/Recovery/State.antt =====
-- recovery_engine/application/recovery_state.py: the state of the LangGraph graph. A node returns a
-- dict of updates, here the list of its entries, and LangGraph merges them into the state.
use project4_sentinel_ai_scr.Base.{ℕ, String, Option, List, [], ◌∷◌}
use project4_sentinel_ai_scr.Base.Dict.{Dict}

-- The values of `expected_schema` are Python types; the code only ever puts `str` there.
pub data FieldType : Type 0 where
  str : FieldType

pub data ValidationResult : Type 0 where
  valid invalid pending : ValidationResult

pub data FinalStatus : Type 0 where
  success needs_human_review : FinalStatus

pub record RecoveryState : Type 0 where
  pub job_id : String
  pub url : String
  pub domain : String
  pub expected_schema : Dict FieldType
  pub screenshot_base64 : Option String
  pub attempt_number : ℕ
  pub max_attempts : ℕ
  pub proposed_selectors : Option (Dict String)
  pub recovered_data : Option (Dict String)
  pub rejection_history : List String
  pub validation_result : ValidationResult
  pub final_status : Option FinalStatus

pub data Update : Type 0 where
  set_screenshot_base64 : Option String → Update
  set_attempt_number : ℕ → Update
  set_proposed_selectors set_recovered_data : Option (Dict String) → Update
  set_rejection_history : List String → Update
  set_validation_result : ValidationResult → Update
  set_final_status : Option FinalStatus → Update

abbrev pub apply : RecoveryState → Update → RecoveryState
apply s (set_screenshot_base64 v) = record s { screenshot_base64 = v }
apply s (set_attempt_number v) = record s { attempt_number = v }
apply s (set_proposed_selectors v) = record s { proposed_selectors = v }
apply s (set_recovered_data v) = record s { recovered_data = v }
apply s (set_rejection_history v) = record s { rejection_history = v }
apply s (set_validation_result v) = record s { validation_result = v }
apply s (set_final_status v) = record s { final_status = v }

abbrev pub merge : RecoveryState → List Update → RecoveryState
merge s [] = s
merge s (u ∷ us) = merge (apply s u) us
