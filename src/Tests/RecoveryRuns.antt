-- ===== src/Tests/RecoveryRuns.antt =====
-- Runs of the recovery graph against a page whose price moved to `.new`.
use project4_sentinel_ai_scr.Base.{
  ℕ, String, ◌==◌, ◌≡◌, refl, true, false, Option, none, some, List, [], ◌∷◌, arith, if◌then◌else◌,
}
use project4_sentinel_ai_scr.Base.Dict.{lookup}
use project4_sentinel_ai_scr.Base.Text.{decimal, repr_dict}
use project4_sentinel_ai_scr.Base.Exec.{Wp, ok, err, graph_recursion_error}
use project4_sentinel_ai_scr.Shared.FailureReason.{missing_required_field}
use project4_sentinel_ai_scr.Shared.FailureReason
use project4_sentinel_ai_scr.Shared.Metrics.{Monitor}
use project4_sentinel_ai_scr.Recovery.State.{
  RecoveryState, str, valid, invalid, success, needs_human_review,
}
use project4_sentinel_ai_scr.Recovery.State
use project4_sentinel_ai_scr.Recovery.Ports.{
  SelectorProposal, WorkerExtractionResult, RecoveryEnginePort, WorkerServicePort,
}
use project4_sentinel_ai_scr.Recovery.Nodes.{save_all, decide_next_step}
use project4_sentinel_ai_scr.Recovery.Nodes
use project4_sentinel_ai_scr.Recovery.Graph.{
  Runtime, build_recovery_graph, recovery_node, recovery_edge, next, route_after_proposal,
  supersteps,
}
use project4_sentinel_ai_scr.Recovery.Graph.Outcomes.{
  PortsRaiseOnly, EndsWithin, ainvoke-EndsWithin,
}
use project4_sentinel_ai_scr.Recovery.Graph.Limit.{NeverRepairs, ainvoke_starves}
use project4_sentinel_ai_scr.Recovery.Graph.Approval.{
  KeptBySteps, SameTarget, Approved, success-Approved, escalation_keeps,
}

-- The world: the selectors that were saved.
abbrev Saved : Type 0
Saved = List (String × String)

abbrev propose : List String → SelectorProposal
propose [] = record { is_confident = true; selectors = ("price", ".old") ∷ [] }
propose (_ ∷ _) = record { is_confident = true; selectors = ("price", ".new") ∷ [] }

abbrev engine : RecoveryEnginePort Saved
engine = record { propose_selectors = λ shot schema history w. (ok (propose history), w) }

-- The page has a price at `accepted` alone.
abbrev page : String → Option String → WorkerExtractionResult
page accepted none = record {
  success = false;
  extracted = [];
  failure_reason = some missing_required_field;
}
page accepted (some selector) = record {
  success = selector == accepted;
  extracted = if selector == accepted then ("price", "42") ∷ [] else [];
  failure_reason = if selector == accepted then none else some missing_required_field;
}

abbrev worker : String → WorkerServicePort Saved
worker accepted = record {
  capture_screenshot = λ url w. (ok "png", w);
  validate_selectors =
      λ url domain fields selectors w. (ok (page accepted (lookup "price" selectors)), w);
  save_approved_selector = λ domain field_name value w. (ok tt, (field_name, value) ∷ w);
}

abbrev monitor : Monitor Saved
monitor = record { inc = λ metric amount w. w; observe = λ metric w. w }

abbrev runtime : Runtime Saved
runtime = record { recursion_limit = 25; ainvoke = λ g s. supersteps 25 g g.entry s }

abbrev start : ℕ → RecoveryState
start max_attempts = record {
  job_id = "job-1";
  url = "https://shop.example/p";
  domain = "shop.example";
  expected_schema = ("price", str) ∷ [];
  screenshot_base64 = none;
  attempt_number = 1;
  max_attempts = max_attempts;
  proposed_selectors = none;
  recovered_data = none;
  rejection_history = [];
  validation_result = State.pending;
  final_status = none;
}

abbrev ports-PortsRaiseOnly : (accepted : String) → PortsRaiseOnly (λ _. ⊥) engine (worker accepted)
ports-PortsRaiseOnly accepted = record {
  propose = λ shot schema history w. tt;
  capture = λ url w. tt;
  validate = λ url domain fields selectors w. tt;
  save = λ domain field_name value w. tt;
}

ainvoke-EndsWithin_example :
    Wp
      (runtime.ainvoke (build_recovery_graph engine (worker ".new") monitor) (start 3) [])
      (λ t _. EndsWithin 3 t)
      (λ _ _. ⊥)
ainvoke-EndsWithin_example =
    ainvoke-EndsWithin engine (worker ".new") monitor (λ _. ⊥) (ports-PortsRaiseOnly ".new") runtime
      (λ g s w. refl) (start 3) [] refl refl (omega arith)

-- Nothing is saved until a proposal is approved.
abbrev NothingSaved : Saved → Type 0
NothingSaved w = w ≡ []

kept : (accepted : String) → KeptBySteps engine (worker accepted) monitor NothingSaved
kept accepted = record {
  capture = λ url w h. h;
  propose = λ shot schema history w h. h;
  validate = λ url domain fields selectors w h. h;
  count = λ outcome w h. h;
}

abbrev repaired : RecoveryState
repaired = record (start 3) {
  screenshot_base64 = some "png";
  attempt_number = 2;
  proposed_selectors = some (("price", ".new") ∷ []);
  recovered_data = some (("price", "42") ∷ []);
  rejection_history =
      "attempt 1: selectors {'price': '.old'} rejected - reason: missing_required_field" ∷ [];
  validation_result = valid;
  final_status = some success;
}

repaired_run :
    runtime.ainvoke (build_recovery_graph engine (worker ".new") monitor) (start 3) []
    ≡ (ok repaired, ("price", ".new") ∷ [])
unfolding build_recovery_graph recovery_node recovery_edge next route_after_proposal supersteps
    decide_next_step Nodes.capture_screenshot_node Nodes.analyze_and_propose_node
    Nodes.conclude_validation Nodes.validate_selectors_live_node Nodes.persist_selector_node
    save_all Nodes.rejection Nodes.escalate_human_node FailureReason.value lookup decimal repr_dict
repaired_run = refl

success-Approved_example :
    SameTarget (start 3) repaired
    × Approved engine (worker ".new") monitor NothingSaved repaired (("price", ".new") ∷ [])
success-Approved_example =
    success-Approved engine (worker ".new") monitor NothingSaved (kept ".new") (start 3) runtime
      (λ g s w. refl) [] refl repaired (("price", ".new") ∷ []) repaired_run refl

-- A page that no selector finds the price on.
abbrev refusing : WorkerServicePort Saved
refusing = record {
  capture_screenshot = λ url w. (ok "png", w);
  validate_selectors = λ url domain fields selectors w. (ok (page "" none), w);
  save_approved_selector = λ domain field_name value w. (ok tt, (field_name, value) ∷ w);
}

refusing-kept : KeptBySteps engine refusing monitor NothingSaved
refusing-kept = record {
  capture = λ url w h. h;
  propose = λ shot schema history w h. h;
  validate = λ url domain fields selectors w h. h;
  count = λ outcome w h. h;
}

abbrev escalated : RecoveryState
escalated = record (start 1) {
  screenshot_base64 = some "png";
  attempt_number = 2;
  proposed_selectors = none;
  rejection_history =
      "attempt 1: selectors {'price': '.old'} rejected - reason: missing_required_field" ∷ [];
  validation_result = invalid;
  final_status = some needs_human_review;
}

escalated_run :
    runtime.ainvoke (build_recovery_graph engine refusing monitor) (start 1) [] ≡ (ok escalated, [])
unfolding build_recovery_graph recovery_node recovery_edge next route_after_proposal supersteps
    decide_next_step Nodes.capture_screenshot_node Nodes.analyze_and_propose_node
    Nodes.conclude_validation Nodes.validate_selectors_live_node Nodes.persist_selector_node
    save_all Nodes.rejection Nodes.escalate_human_node FailureReason.value lookup decimal repr_dict
escalated_run = refl

escalation_keeps_example : NothingSaved []
escalation_keeps_example =
    escalation_keeps engine refusing monitor NothingSaved refusing-kept (start 1) runtime
      (λ g s w. refl) [] refl escalated [] escalated_run refl

never : NeverRepairs engine refusing
never = record {
  capture = λ url w. tt;
  propose = λ shot schema history w. tt;
  refuse = λ url domain fields selectors w. refl;
}

-- `RECOVERY_MAX_ATTEMPTS=12` needs 26 supersteps.
ainvoke_starves_example :
    (v : Saved) × (runtime.ainvoke (build_recovery_graph engine refusing monitor) (start 12) []
      ≡ (err graph_recursion_error, v))
ainvoke_starves_example =
    ainvoke_starves engine refusing monitor never runtime (λ g s w. refl) (start 12) [] refl refl
      (omega arith)
