-- ===== src/Recovery/Graph/Limit.antt =====
-- What LangGraph's recursion limit does to a run that is configured with many attempts.
use project4_sentinel_ai_scr.Base.{
  ℕ, suc, ◌+◌, ◌-◌, ◌*◌, ◌≤◌, ◌<◌, String, ◌≡◌, refl, ap, false, some, List, [], ◌∷◌, ◌++◌, arith,
  length, length-append,
}
use project4_sentinel_ai_scr.Base.Dict.{Dict, keys}
use project4_sentinel_ai_scr.Base.Exec.{
  Exception, Result, ok, err, graph_recursion_error, Wp, Wp-map,
}
use project4_sentinel_ai_scr.Shared.Metrics.{Monitor}
use project4_sentinel_ai_scr.Recovery.State.{RecoveryState, FieldType}
use project4_sentinel_ai_scr.Recovery.Ports.{RecoveryEnginePort, WorkerServicePort}
use project4_sentinel_ai_scr.Recovery.Nodes.{
  Node, capture_screenshot, analyze_and_propose, validate_selectors_live,
  handle_no_confident_proposal, persist_selector, escalate_human, rejection, no_proposal,
}
use project4_sentinel_ai_scr.Recovery.Graph.{
  Runtime, ExecutesSupersteps, build_recovery_graph, supersteps,
}
use project4_sentinel_ai_scr.Recovery.Graph.Obligations.{Obeys, Answered, Analysed}
use project4_sentinel_ai_scr.Recovery.Graph.Rule.{recovery_rule}
use project4_sentinel_ai_scr.Recovery.Graph.Outcomes.{quota, RaisesOnly}

-- The ports answer, and no attempt succeeds: a proposal is not confident, or the page refuses it.
pub record NeverRepairs {W : Type 0} (engine : RecoveryEnginePort W) (worker : WorkerServicePort W)
    : Type 0 where
  pub capture : (url : String) → RaisesOnly (λ _. ⊥) (worker.capture_screenshot url)
  pub propose :
      (shot : String) (schema : Dict FieldType) (history : List String)
      → RaisesOnly (λ _. ⊥) (engine.propose_selectors shot schema history)
  pub refuse :
      (url domain : String) (fields : List String) (selectors : Dict String) (w : W)
      → Wp
          (worker.validate_selectors url domain fields selectors w)
          (λ r _. r.success ≡ false)
          (λ _ _. ⊥)

abbrev Short : ℕ → ℕ → RecoveryState → ℕ → Type 0
Short m f s k =
    (s.max_attempts ≡ m)
    × (s.attempt_number ≡ length s.rejection_history + 1)
    × (length s.rejection_history < quota m)
    × (f < 2 * (quota m - length s.rejection_history) + k)

-- Too few supersteps are left to reach an end.
abbrev Starved : {W : Type 0} → ℕ → ℕ → Node → RecoveryState → W → Type 0
Starved m f capture_screenshot s w = Short m f s 2
Starved m f analyze_and_propose s w =
    ((shot : String) × (s.screenshot_base64 ≡ some shot)) × Short m f s 1
Starved m f validate_selectors_live s w =
    ((shot : String) × (s.screenshot_base64 ≡ some shot))
    × Short m f s 0
    × ((selectors : Dict String) × (s.proposed_selectors ≡ some selectors))
Starved m f handle_no_confident_proposal s w =
    ((shot : String) × (s.screenshot_base64 ≡ some shot)) × Short m f s 0
Starved m f persist_selector s w = ⊥
Starved m f escalate_human s w = f ≡ 0

module _ {W : Type 0} (engine : RecoveryEnginePort W) (worker : WorkerServicePort W)
    (monitor : Monitor W) (never : NeverRepairs engine worker) where
  abbrev OutOfSteps : Exception → W → Type 0
  OutOfSteps e w = e ≡ graph_recursion_error

  reject_starves :
      (m f : ℕ) (s : RecoveryState) (reason : String)
      → Short m (suc f) s 0
      → let n = length (s.rejection_history ++ (reason ∷ [])) in
        (s.attempt_number + 1 ≤ s.max_attempts
          → (s.max_attempts ≡ m)
            × (s.attempt_number + 1 ≡ n + 1)
            × (n < quota m)
            × (f < 2 * (quota m - n) + 1))
        × (s.max_attempts < s.attempt_number + 1 → f ≡ 0)
  reject_starves m f s reason (a, b, c, h) = (
    λ more. omega (arith, length-append s.rejection_history (reason ∷ [])),
    λ enough. omega (arith, length-append s.rejection_history (reason ∷ [])),
  )

  Starved-Obeys : (m : ℕ) → Obeys engine worker monitor (Starved m) (λ _ _. ⊥) OutOfSteps
  Starved-Obeys m = record {
    at_limit = λ n s w h. refl;
    at_capture = λ f s w h.
        Wp-map (worker.capture_screenshot s.url w) (λ _ _. Unit {0})
          (λ shot v. Starved m f analyze_and_propose (record s { screenshot_base64 = some shot }) v)
          (λ _ _. ⊥) OutOfSteps (never.capture s.url w)
          (λ shot v _. ((shot, refl), omega (arith, h))) (λ e v x. absurd x);
    at_analyze = λ f s w ((shot, e), h). (
      shot,
      e,
      Wp-map (engine.propose_selectors shot s.expected_schema s.rejection_history w)
          (λ _ _. Unit {0}) (Analysed engine worker monitor (Starved m) (λ _ _. ⊥) OutOfSteps f s)
          (λ _ _. ⊥) OutOfSteps (never.propose shot s.expected_schema s.rejection_history w)
          (λ proposal v _. (
            λ _. ((shot, e), omega (arith, h), (proposal.selectors, refl)),
            λ _. ((shot, e), omega (arith, h)),
          ))
          (λ x v y. absurd y),
    );
    at_validate = λ f s w (shot, h, (selectors, e)). (
      selectors,
      e,
      Wp-map (worker.validate_selectors s.url s.domain (keys s.expected_schema) selectors w)
          (λ r _. r.success ≡ false)
          (Answered engine worker monitor (Starved m) (λ _ _. ⊥) OutOfSteps f s selectors)
          (λ _ _. ⊥) OutOfSteps (never.refuse s.url s.domain (keys s.expected_schema) selectors w)
          (λ result v bad. (
            λ good. cc,
            λ _.
                let (again, stop) =
                  reject_starves m f s (rejection s.attempt_number selectors result.failure_reason)
                    h in
                (λ more. (shot, again more), stop),
          ))
          (λ x v y. absurd y),
    );
    at_handle = λ f s w (shot, h).
        let (again, stop) = reject_starves m f s (no_proposal s.attempt_number) h in
        (λ more. (shot, again more), stop);
    at_persist = λ f s w h. absurd h;
    at_escalate = λ f s w h. absurd (omega arith);
  }

  -- Let LangGraph run by supersteps, let the ports always answer, and let no attempt ever succeed.
  -- A run from a state that counts its first attempt and has no rejections, whose recursion limit
  -- is below twice the quota of attempts and two, does not escalate: it raises
  -- GraphRecursionError.
  pub ainvoke_starves :
      (runtime : Runtime W)
      → ExecutesSupersteps runtime
      → (s : RecoveryState) (w : W) → s.attempt_number ≡ 1
      → s.rejection_history ≡ []
      → runtime.recursion_limit < 2 * quota s.max_attempts + 2
      → (v : W) × (runtime.ainvoke (build_recovery_graph engine worker monitor) s w
          ≡ (err graph_recursion_error, v))
  unfolding build_recovery_graph
  ainvoke_starves runtime executes s w first fresh few =
      let run =
        supersteps runtime.recursion_limit (build_recovery_graph engine worker monitor)
          capture_screenshot s w in
      let wp =
        recovery_rule engine worker monitor (Starved s.max_attempts) (λ _ _. ⊥) OutOfSteps
          (Starved-Obeys s.max_attempts) runtime.recursion_limit capture_screenshot s w
          (omega (arith, ap {B = ℕ} length fresh)) in
      rw executes (raised run wp)
    where
      raised :
          (r : Result RecoveryState × W)
          → Wp r (λ _ _. ⊥) OutOfSteps
          → (v : W) × (r ≡ (err graph_recursion_error, v))
      raised (ok t, v) h = absurd h
      raised (err e, v) h = (v, ap (λ x. (err x, v)) h)
