-- ===== src/Recovery/Graph/Outcomes.antt =====
-- How a run of the recovery graph ends: within the recursion limit, after at most the allowed number of
-- rejections, and raising nothing but what its ports raise.
use Prim.Native.Nat.{max}
use project4_sentinel_ai_scr.Base.{
  ℕ, zero, suc, ◌+◌, ◌-◌, ◌*◌, ◌≤◌, ◌<◌, String, ◌≡◌, refl, ap, ◌⊎◌, inl, inr, some, List, [], ◌∷◌,
  ◌++◌, arith, length, length-append,
}
use project4_sentinel_ai_scr.Base.Dict.{Dict, keys}
use project4_sentinel_ai_scr.Base.Exec.{Exec, Exception, Wp, Wp-continue, Wp-map}
use project4_sentinel_ai_scr.Shared.Metrics.{Monitor}
use project4_sentinel_ai_scr.Recovery.State.{RecoveryState, FieldType, success, needs_human_review}
use project4_sentinel_ai_scr.Recovery.Ports.{RecoveryEnginePort, WorkerServicePort}
use project4_sentinel_ai_scr.Recovery.Nodes.{
  Node, capture_screenshot, analyze_and_propose, validate_selectors_live,
  handle_no_confident_proposal, persist_selector, escalate_human, save_all, rejection, no_proposal,
}
use project4_sentinel_ai_scr.Recovery.Graph.{Runtime, ExecutesSupersteps, build_recovery_graph}
use project4_sentinel_ai_scr.Recovery.Graph.Obligations.{Obeys, Answered, Analysed}
use project4_sentinel_ai_scr.Recovery.Graph.Rule.{recovery_rule}

-- Whatever the world, an exception of `m` satisfies `P`.
abbrev pub RaisesOnly : {W A : Type 0} → (Exception → Type 0) → Exec W A → Type 0
RaisesOnly {W} P m = (w : W) → Wp (m w) (λ _ _. Unit {0}) (λ e _. P e)

pub record PortsRaiseOnly {W : Type 0} (P : Exception → Type 0) (engine : RecoveryEnginePort W)
    (worker : WorkerServicePort W) : Type 0 where
  pub propose :
      (shot : String) (schema : Dict FieldType) (history : List String)
      → RaisesOnly P (engine.propose_selectors shot schema history)
  pub capture : (url : String) → RaisesOnly P (worker.capture_screenshot url)
  pub validate :
      (url domain : String) (fields : List String) (selectors : Dict String)
      → RaisesOnly P (worker.validate_selectors url domain fields selectors)
  pub save :
      (domain field_name value : String)
      → RaisesOnly P (worker.save_approved_selector domain field_name value)

-- The rejections that are allowed: one attempt is made even if none is configured.
abbrev pub quota : ℕ → ℕ
quota max_attempts = max 1 max_attempts

abbrev rejections : RecoveryState → ℕ
rejections s = length s.rejection_history

-- The counters agree with the history, and an attempt is left.
abbrev Counted : ℕ → RecoveryState → Type 0
Counted m s =
    (s.max_attempts ≡ m) × (s.attempt_number ≡ rejections s + 1) × (rejections s < quota m)

abbrev pub Captured : RecoveryState → Type 0
Captured s = (shot : String) × (s.screenshot_base64 ≡ some shot)

abbrev pub Proposed : RecoveryState → Type 0
Proposed s = (selectors : Dict String) × (s.proposed_selectors ≡ some selectors)

-- Enough supersteps are left, and what the node reads is there.
abbrev Ready : {W : Type 0} → ℕ → ℕ → Node → RecoveryState → W → Type 0
Ready m f capture_screenshot s w = Counted m s × (2 * (quota m - rejections s) + 2 ≤ f)
Ready m f analyze_and_propose s w =
    Captured s × Counted m s × (2 * (quota m - rejections s) + 1 ≤ f)
Ready m f validate_selectors_live s w =
    Captured s × Counted m s × (2 * (quota m - rejections s) ≤ f) × Proposed s
Ready m f handle_no_confident_proposal s w =
    Captured s × Counted m s × (2 * (quota m - rejections s) ≤ f)
Ready m f persist_selector s w = Proposed s × (rejections s < quota m) × (1 ≤ f)
Ready m f escalate_human s w = (rejections s ≡ quota m) × (1 ≤ f)

-- A success after fewer rejections than are allowed, or an escalation after exactly as many.
abbrev pub EndsWithin : ℕ → RecoveryState → Type 0
EndsWithin m t =
    ((t.final_status ≡ some success) × (length t.rejection_history < quota m))
    ⊎ ((t.final_status ≡ some needs_human_review) × (length t.rejection_history ≡ quota m))

module _ {W : Type 0} (engine : RecoveryEnginePort W) (worker : WorkerServicePort W)
    (monitor : Monitor W) (P : Exception → Type 0) (ports : PortsRaiseOnly P engine worker) where
  pub save_all-RaisesOnly :
      (domain : String) (d : Dict String) → RaisesOnly P (save_all worker domain d)
  unfolding save_all
  save_all-RaisesOnly domain [] w = tt
  save_all-RaisesOnly domain ((field_name, value) ∷ d) w =
      Wp-continue (worker.save_approved_selector domain field_name value w)
        (λ _. save_all worker domain d) (λ _ _. Unit {0}) (λ e _. P e)
        (Wp-map (worker.save_approved_selector domain field_name value w) (λ _ _. Unit {0})
          (λ _ v. Wp (save_all worker domain d v) (λ _ _. Unit {0}) (λ e _. P e)) (λ e _. P e)
          (λ e _. P e) (ports.save domain field_name value w)
          (λ _ v _. save_all-RaisesOnly domain d v) (λ e v h. h))

  -- A rejection leaves another attempt with enough supersteps, or the quota is used up.
  reject_counts :
      (m f : ℕ) (s : RecoveryState) (reason : String)
      → Counted m s
      → 2 * (quota m - rejections s) ≤ suc f
      → let n = length (s.rejection_history ++ (reason ∷ [])) in
        (s.attempt_number + 1 ≤ s.max_attempts
          → (s.max_attempts ≡ m)
            × (s.attempt_number + 1 ≡ n + 1)
            × (n < quota m)
            × (2 * (quota m - n) + 1 ≤ f))
        × (s.max_attempts < s.attempt_number + 1 → (n ≡ quota m) × (1 ≤ f))
  reject_counts m f s reason (a, b, c) h = (
    λ more. omega (arith, length-append s.rejection_history (reason ∷ [])),
    λ enough. omega (arith, length-append s.rejection_history (reason ∷ [])),
  )

  Ready-Obeys : (m : ℕ) → Obeys engine worker monitor (Ready m) (λ t _. EndsWithin m t) (λ e _. P e)
  Ready-Obeys m = record {
    at_limit = λ n s w h. absurd (never_zero n s w h);
    at_capture = λ f s w (c, h).
        Wp-map (worker.capture_screenshot s.url w) (λ _ _. Unit {0})
          (λ shot v. Ready m f analyze_and_propose (record s { screenshot_base64 = some shot }) v)
          (λ e _. P e) (λ e _. P e) (ports.capture s.url w)
          (λ shot v _. ((shot, refl), c, omega arith)) (λ e v x. x);
    at_analyze = λ f s w ((shot, e), c, h). (
      shot,
      e,
      Wp-map (engine.propose_selectors shot s.expected_schema s.rejection_history w)
          (λ _ _. Unit {0})
          (Analysed engine worker monitor (Ready m) (λ t _. EndsWithin m t) (λ e _. P e) f s)
          (λ e _. P e) (λ e _. P e) (ports.propose shot s.expected_schema s.rejection_history w)
          (λ proposal v _. (
            λ _. ((shot, e), c, omega arith, (proposal.selectors, refl)),
            λ _. ((shot, e), c, omega arith),
          ))
          (λ e v x. x),
    );
    at_validate = λ f s w (shot, c, h, (selectors, e)). (
      selectors,
      e,
      Wp-map (worker.validate_selectors s.url s.domain (keys s.expected_schema) selectors w)
          (λ _ _. Unit {0})
          (Answered engine worker monitor (Ready m) (λ t _. EndsWithin m t) (λ e _. P e) f s
            selectors)
          (λ e _. P e) (λ e _. P e)
          (ports.validate s.url s.domain (keys s.expected_schema) selectors w)
          (λ result v _. (
            λ _. ((selectors, e), c.2, omega (arith, c.2)),
            λ _.
                let (again, stop) =
                  reject_counts m f s (rejection s.attempt_number selectors result.failure_reason) c
                    h in
                (λ more. let (x, y, z, u) = again more in (shot, (x, y, z), u), stop),
          ))
          (λ e v x. x),
    );
    at_handle = λ f s w (shot, c, h).
        let (again, stop) = reject_counts m f s (no_proposal s.attempt_number) c h in
        (λ more. let (x, y, z, u) = again more in (shot, (x, y, z), u), stop);
    at_persist = λ f s w ((selectors, e), c, h). (
      selectors,
      e,
      Wp-map (save_all worker s.domain selectors w) (λ _ _. Unit {0})
          (λ _ v. EndsWithin m (record s { final_status = some success })) (λ e _. P e) (λ e _. P e)
          (save_all-RaisesOnly s.domain selectors w) (λ _ v _. inl (refl, c)) (λ e v x. x),
    );
    at_escalate = λ f s w (c, h). inr (refl, c);
  }
    where
      never_zero : (n : Node) (s : RecoveryState) (w : W) → Ready m zero n s w → ⊥
      never_zero capture_screenshot s w h = omega arith
      never_zero analyze_and_propose s w h = omega arith
      never_zero validate_selectors_live s w h = omega arith
      never_zero handle_no_confident_proposal s w h = omega arith
      never_zero persist_selector s w h = omega arith
      never_zero escalate_human s w h = omega arith

  -- Let LangGraph run by supersteps, let `P` cover whatever the ports raise, and let the recursion
  -- limit be at least twice the quota of attempts, and two. A run from a state that counts its
  -- first attempt and has no rejections then raises an exception of `P`, or it returns a state
  -- with a final status: a success with fewer rejections in its history than the quota, or an
  -- escalation with exactly as many.
  pub ainvoke-EndsWithin :
      (runtime : Runtime W)
      → ExecutesSupersteps runtime
      → (s : RecoveryState) (w : W) → s.attempt_number ≡ 1
      → s.rejection_history ≡ []
      → 2 * quota s.max_attempts + 2 ≤ runtime.recursion_limit
      → Wp
          (runtime.ainvoke (build_recovery_graph engine worker monitor) s w)
          (λ t _. EndsWithin s.max_attempts t)
          (λ e _. P e)
  unfolding build_recovery_graph
  ainvoke-EndsWithin runtime executes s w first fresh enough = rw executes (
      recovery_rule engine worker monitor (Ready s.max_attempts)
        (λ t _. EndsWithin s.max_attempts t) (λ e _. P e) (Ready-Obeys s.max_attempts)
        runtime.recursion_limit capture_screenshot s w (omega (arith, ap {B = ℕ} length fresh)))
