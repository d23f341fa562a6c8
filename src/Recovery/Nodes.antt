-- ===== src/Recovery/Nodes.antt =====
-- recovery_engine/application/nodes: the nodes of the graph, and the router `decide_next_step`.
use project4_sentinel_ai_scr.Base.{
  ℕ, ◌+◌, String, ◌<>◌, Option, none, some, List, [], ◌∷◌, ◌++◌, leb, if◌then◌else◌,
}
use project4_sentinel_ai_scr.Base.Dict.{Dict, keys}
use project4_sentinel_ai_scr.Base.Text.{decimal, repr_dict}
use project4_sentinel_ai_scr.Base.Exec.{
  Exec, pure, raise, modify, ◌>>=◌, ◌>>◌, value_error, assertion_error,
}
use project4_sentinel_ai_scr.Shared.FailureReason
use project4_sentinel_ai_scr.Shared.FailureReason.{FailureReason}
use project4_sentinel_ai_scr.Shared.Metrics.{Monitor, recovery_attempt}
use project4_sentinel_ai_scr.Recovery.State.{
  RecoveryState, valid, invalid, success, needs_human_review, Update, set_screenshot_base64,
  set_attempt_number, set_proposed_selectors, set_recovered_data, set_rejection_history,
  set_validation_result, set_final_status,
}
use project4_sentinel_ai_scr.Recovery.Ports.{
  SelectorProposal, WorkerExtractionResult, RecoveryEnginePort, WorkerServicePort,
}

-- The names of the nodes.
pub data Node : Type 0 where
  capture_screenshot analyze_and_propose validate_selectors_live : Node
  handle_no_confident_proposal persist_selector escalate_human : Node

unfoldable pub decide_next_step : RecoveryState → Node
decide_next_step s = elim s.validation_result [
  | valid ↦ persist_selector
  | _ ↦ if leb s.attempt_number s.max_attempts then analyze_and_propose else escalate_human
]

unfoldable pub escalate_human_node : RecoveryState → List Update
escalate_human_node s = set_final_status (some needs_human_review) ∷ []

unfoldable pub no_proposal : ℕ → String
no_proposal attempt_number =
    "attempt " <> (decimal attempt_number <> ": no confident proposal from the recovery engine")

unfoldable pub handle_no_confident_proposal_node : RecoveryState → List Update
handle_no_confident_proposal_node s =
    set_validation_result invalid
    ∷ set_rejection_history (s.rejection_history ++ (no_proposal s.attempt_number ∷ []))
    ∷ set_attempt_number (s.attempt_number + 1)
    ∷ []

-- `result.failure_reason.value if result.failure_reason else 'unknown'`
abbrev reason_text : Option FailureReason → String
reason_text none = "unknown"
reason_text (some reason) = FailureReason.value reason

unfoldable pub rejection : ℕ → Dict String → Option FailureReason → String
rejection attempt_number selectors reason =
    "attempt "
    <> (decimal attempt_number
        <> (": selectors "
            <> (repr_dict selectors <> (" rejected - reason: " <> reason_text reason))))

abbrev pub proposed : SelectorProposal → List Update
proposed proposal =
    if proposal.is_confident
    then set_proposed_selectors (some proposal.selectors) ∷ []
    else set_proposed_selectors none ∷ []

module _ {W : Type 0} where
  unfoldable pub capture_screenshot_node :
      WorkerServicePort W → RecoveryState → Exec W (List Update)
  capture_screenshot_node worker s = do
    screenshot ← worker.capture_screenshot s.url
    pure (set_screenshot_base64 (some screenshot) ∷ [])

  -- The node at the screenshot that it finds in the state.
  abbrev pub analyze_screenshot :
      RecoveryEnginePort W → RecoveryState → Option String → Exec W (List Update)
  analyze_screenshot engine s none = raise value_error
  analyze_screenshot engine s (some screenshot) = do
    proposal ← engine.propose_selectors screenshot s.expected_schema s.rejection_history
    pure (proposed proposal)

  unfoldable pub analyze_and_propose_node :
      RecoveryEnginePort W → RecoveryState → Exec W (List Update)
  analyze_and_propose_node engine s = analyze_screenshot engine s s.screenshot_base64

  -- The node after the Worker's answer.
  unfoldable pub conclude_validation :
      Monitor W → RecoveryState → Dict String → WorkerExtractionResult → Exec W (List Update)
  conclude_validation monitor s selectors result =
      if result.success
      then modify (monitor.inc (recovery_attempt "valid") 1)
          (set_validation_result valid ∷ set_recovered_data (some result.extracted) ∷ [])
      else modify (monitor.inc (recovery_attempt "invalid") 1) (
          set_validation_result invalid
          ∷ set_rejection_history (
              s.rejection_history
              ++ (rejection s.attempt_number selectors result.failure_reason ∷ []))
          ∷ set_proposed_selectors none
          ∷ set_attempt_number (s.attempt_number + 1)
          ∷ [])

  -- The node at the selectors that it finds in the state.
  abbrev pub validate_proposed :
      WorkerServicePort W → Monitor W → RecoveryState → Option (Dict String) → Exec W (List Update)
  validate_proposed worker monitor s none = raise assertion_error
  validate_proposed worker monitor s (some selectors) = do
    result ← worker.validate_selectors s.url s.domain (keys s.expected_schema) selectors
    conclude_validation monitor s selectors result

  unfoldable pub validate_selectors_live_node :
      WorkerServicePort W → Monitor W → RecoveryState → Exec W (List Update)
  validate_selectors_live_node worker monitor s =
      validate_proposed worker monitor s s.proposed_selectors

  -- `for field_name, selector_value in proposed_selectors.items()`
  unfoldable pub save_all : WorkerServicePort W → String → Dict String → Exec W (Unit {0})
  save_all worker domain [] = pure tt
  save_all worker domain ((field_name, selector_value) ∷ rest) = do
    worker.save_approved_selector domain field_name selector_value
    save_all worker domain rest

  abbrev pub persist_proposed :
      WorkerServicePort W → RecoveryState → Option (Dict String) → Exec W (List Update)
  persist_proposed worker s none = raise assertion_error
  persist_proposed worker s (some selectors) = do
    save_all worker s.domain selectors
    pure (set_final_status (some success) ∷ [])

  unfoldable pub persist_selector_node : WorkerServicePort W → RecoveryState → Exec W (List Update)
  persist_selector_node worker s = persist_proposed worker s s.proposed_selectors
