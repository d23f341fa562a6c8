-- ===== src/Recovery/Graph/Obligations.antt =====
-- What an invariant of the recovery graph owes at each node, in terms of its ports.
use project4_sentinel_ai_scr.Base.{
  ℕ, zero, suc, ◌+◌, ◌≤◌, ◌<◌, String, ◌≡◌, true, false, Option, none, some, [], ◌∷◌, ◌++◌,
}
use project4_sentinel_ai_scr.Base.Dict.{Dict, keys}
use project4_sentinel_ai_scr.Base.Exec.{Exception, Wp, graph_recursion_error}
use project4_sentinel_ai_scr.Shared.FailureReason.{FailureReason}
use project4_sentinel_ai_scr.Shared.Metrics.{Monitor, recovery_attempt}
use project4_sentinel_ai_scr.Recovery.State.{
  RecoveryState, success, needs_human_review, valid, invalid,
}
use project4_sentinel_ai_scr.Recovery.Ports.{
  SelectorProposal, WorkerExtractionResult, RecoveryEnginePort, WorkerServicePort,
}
use project4_sentinel_ai_scr.Recovery.Nodes.{
  Node, capture_screenshot, analyze_and_propose, validate_selectors_live,
  handle_no_confident_proposal, persist_selector, escalate_human, save_all, no_proposal, rejection,
}

-- The states that the nodes leave.
abbrev pub captured : RecoveryState → String → RecoveryState
captured s shot = record s { screenshot_base64 = some shot }

abbrev pub confident : RecoveryState → Dict String → RecoveryState
confident s selectors = record s { proposed_selectors = some selectors }

abbrev pub unconfident : RecoveryState → RecoveryState
unconfident s = record s { proposed_selectors = none }

abbrev pub validated : RecoveryState → Dict String → RecoveryState
validated s extracted = record s { validation_result = valid; recovered_data = some extracted }

abbrev pub refused : RecoveryState → Dict String → Option FailureReason → RecoveryState
refused s selectors reason = record s {
  validation_result = invalid;
  rejection_history = s.rejection_history ++ (rejection s.attempt_number selectors reason ∷ []);
  proposed_selectors = none;
  attempt_number = s.attempt_number + 1;
}

abbrev pub given_up : RecoveryState → RecoveryState
given_up s = record s {
  validation_result = invalid;
  rejection_history = s.rejection_history ++ (no_proposal s.attempt_number ∷ []);
  attempt_number = s.attempt_number + 1;
}

abbrev pub persisted : RecoveryState → RecoveryState
persisted s = record s { final_status = some success }

abbrev pub escalated : RecoveryState → RecoveryState
escalated s = record s { final_status = some needs_human_review }

module _ {W : Type 0} (engine : RecoveryEnginePort W) (worker : WorkerServicePort W)
    (monitor : Monitor W) (Run : ℕ → Node → RecoveryState → W → Type 0)
    (Done : RecoveryState → W → Type 0) (Fail : Exception → W → Type 0) where
  -- After a rejection: another attempt, or the escalation.
  abbrev pub Rejected : ℕ → RecoveryState → W → Type 0
  Rejected f s w =
      (s.attempt_number ≤ s.max_attempts → Run f analyze_and_propose s w)
      × (s.max_attempts < s.attempt_number → Run f escalate_human s w)

  abbrev pub Answered : ℕ → RecoveryState → Dict String → WorkerExtractionResult → W → Type 0
  Answered f s selectors result w =
      (result.success ≡ true
        → Run f persist_selector (validated s result.extracted)
            (monitor.inc (recovery_attempt "valid") 1 w))
      × (result.success ≡ false
          → Rejected f (refused s selectors result.failure_reason)
              (monitor.inc (recovery_attempt "invalid") 1 w))

  abbrev pub Analysed : ℕ → RecoveryState → SelectorProposal → W → Type 0
  Analysed f s proposal w =
      (proposal.is_confident ≡ true
        → Run f validate_selectors_live (confident s proposal.selectors) w)
      × (proposal.is_confident ≡ false → Run f handle_no_confident_proposal (unconfident s) w)

  pub record Obeys : Type 0 where
    pub at_limit :
        (n : Node) (s : RecoveryState) (w : W) → Run zero n s w → Fail graph_recursion_error w
    pub at_capture :
        (f : ℕ) (s : RecoveryState) (w : W)
        → Run (suc f) capture_screenshot s w
        → Wp
            (worker.capture_screenshot s.url w)
            (λ shot v. Run f analyze_and_propose (captured s shot) v)
            Fail
    pub at_analyze :
        (f : ℕ) (s : RecoveryState) (w : W)
        → Run (suc f) analyze_and_propose s w
        → (shot : String) × (s.screenshot_base64 ≡ some shot)
          × Wp
              (engine.propose_selectors shot s.expected_schema s.rejection_history w)
              (λ proposal v. Analysed f s proposal v)
              Fail
    pub at_validate :
        (f : ℕ) (s : RecoveryState) (w : W)
        → Run (suc f) validate_selectors_live s w
        → (selectors : Dict String) × (s.proposed_selectors ≡ some selectors)
          × Wp
              (worker.validate_selectors s.url s.domain (keys s.expected_schema) selectors w)
              (λ result v. Answered f s selectors result v)
              Fail
    pub at_handle :
        (f : ℕ) (s : RecoveryState) (w : W)
        → Run (suc f) handle_no_confident_proposal s w
        → Rejected f (given_up s) w
    pub at_persist :
        (f : ℕ) (s : RecoveryState) (w : W)
        → Run (suc f) persist_selector s w
        → (selectors : Dict String) × (s.proposed_selectors ≡ some selectors)
          × Wp (save_all worker s.domain selectors w) (λ _ v. Done (persisted s) v) Fail
    pub at_escalate :
        (f : ℕ) (s : RecoveryState) (w : W) → Run (suc f) escalate_human s w → Done (escalated s) w
