-- ===== src/Recovery/Graph/Approval.antt =====
-- What a run does to the world: selectors are saved only after the live page accepted them.
use project4_sentinel_ai_scr.Base.{ℕ, String, ◌≡◌, refl, ◌⊎◌, inl, inr, true, some, List, subst}
use project4_sentinel_ai_scr.Base.Dict.{Dict, keys}
use project4_sentinel_ai_scr.Base.Exec.{Exception, Result, ok, Wp, Wp-intro, Wp-ok}
use project4_sentinel_ai_scr.Shared.Metrics.{Monitor, recovery_attempt}
use project4_sentinel_ai_scr.Recovery.State.{RecoveryState, FieldType, success, needs_human_review}
use project4_sentinel_ai_scr.Recovery.Ports.{
  WorkerExtractionResult, RecoveryEnginePort, WorkerServicePort,
}
use project4_sentinel_ai_scr.Recovery.Nodes.{
  Node, capture_screenshot, analyze_and_propose, validate_selectors_live,
  handle_no_confident_proposal, persist_selector, escalate_human, save_all,
}
use project4_sentinel_ai_scr.Recovery.Graph.{Runtime, ExecutesSupersteps, build_recovery_graph}
use project4_sentinel_ai_scr.Recovery.Graph.Obligations.{Obeys, Answered, Analysed}
use project4_sentinel_ai_scr.Recovery.Graph.Rule.{recovery_rule}
use project4_sentinel_ai_scr.Recovery.Graph.Outcomes.{Captured, Proposed}

-- The job's target is the same in both states.
abbrev pub SameTarget : RecoveryState → RecoveryState → Type 0
SameTarget s t = (t.url ≡ s.url) × (t.domain ≡ s.domain) × (t.expected_schema ≡ s.expected_schema)

module _ {W : Type 0} (engine : RecoveryEnginePort W) (worker : WorkerServicePort W)
    (monitor : Monitor W) where
  -- A property of the world that only a saved selector can break.
  pub record KeptBySteps (K : W → Type 0) : Type 0 where
    pub capture : (url : String) (w : W) → K w → K (worker.capture_screenshot url w).1
    pub propose :
        (shot : String) (schema : Dict FieldType) (history : List String) (w : W)
        → K w
        → K (engine.propose_selectors shot schema history w).1
    pub validate :
        (url domain : String) (fields : List String) (selectors : Dict String) (w : W)
        → K w
        → K (worker.validate_selectors url domain fields selectors w).1
    pub count : (outcome : String) (w : W) → K w → K (monitor.inc (recovery_attempt outcome) 1 w)

  -- The page accepted the proposed selectors in a world of `K`, the result of that call is the
  -- recovered data, and `w` is the world after it.
  abbrev pub Accepted : (W → Type 0) → RecoveryState → W → Type 0
  Accepted K t w =
      (selectors : Dict String) × (result : WorkerExtractionResult) × (u v : W) × K u
      × (t.proposed_selectors ≡ some selectors)
      × (worker.validate_selectors t.url t.domain (keys t.expected_schema) selectors u
          ≡ (ok result, v))
      × (result.success ≡ true)
      × (t.recovered_data ≡ some result.extracted)
      × (w ≡ monitor.inc (recovery_attempt "valid") 1 v)

  -- After that, exactly the proposed selectors were saved, and `w` is the world after the last.
  abbrev pub Approved : (W → Type 0) → RecoveryState → W → Type 0
  Approved K t w =
      (selectors : Dict String) × (before : W) × Accepted K t before
      × (t.proposed_selectors ≡ some selectors)
      × (save_all worker t.domain selectors before ≡ (ok tt, w))

  abbrev Clean : (W → Type 0) → RecoveryState → ℕ → Node → RecoveryState → W → Type 0
  Clean K o f capture_screenshot s w = SameTarget o s × K w
  Clean K o f analyze_and_propose s w = SameTarget o s × K w × Captured s
  Clean K o f validate_selectors_live s w = SameTarget o s × K w × Captured s × Proposed s
  Clean K o f handle_no_confident_proposal s w = SameTarget o s × K w × Captured s
  Clean K o f persist_selector s w = SameTarget o s × Proposed s × Accepted K s w
  Clean K o f escalate_human s w = SameTarget o s × K w

  abbrev pub Ending : (W → Type 0) → RecoveryState → RecoveryState → W → Type 0
  Ending K o t w =
      SameTarget o t
      × (((t.final_status ≡ some success) × Approved K t w)
          ⊎ ((t.final_status ≡ some needs_human_review) × K w))

  AnyFailure : Exception → W → Type 0
  AnyFailure e w = Unit

  module _ (K : W → Type 0) (kept : KeptBySteps K) (o : RecoveryState) where
    -- What an operation returns, and that it kept `K`.
    keeping :
        {A : Type 0} (r : Result A × W) (Q : A → W → Type 0)
        → K r.1
        → ((a : A) (v : W) → r ≡ (ok a, v) → K v → Q a v)
        → Wp r Q AnyFailure
    unfolding AnyFailure
    keeping r Q k q =
        Wp-intro r Q AnyFailure (λ a v e. q a v e (subst (λ x. K x.1) e k)) (λ x v e. tt)

    Clean-Obeys : Obeys engine worker monitor (Clean K o) (Ending K o) AnyFailure
    unfolding AnyFailure
    Clean-Obeys = record {
      at_limit = λ n s w h. tt;
      at_capture = λ f s w (same, k).
          keeping (worker.capture_screenshot s.url w)
            (λ shot v.
              Clean K o f analyze_and_propose (record s { screenshot_base64 = some shot }) v)
            (kept.capture s.url w k) (λ shot v e k'. (same, k', (shot, refl)));
      at_analyze = λ f s w (same, k, (shot, e)). (
        shot,
        e,
        keeping (engine.propose_selectors shot s.expected_schema s.rejection_history w)
            (Analysed engine worker monitor (Clean K o) (Ending K o) AnyFailure f s)
            (kept.propose shot s.expected_schema s.rejection_history w k)
            (λ proposal v _ k'.
              (λ _. (same, k', (shot, e), (proposal.selectors, refl)), λ _. (same, k', (shot, e)))),
      );
      at_validate = λ f s w (same, k, c, (selectors, e)). (
        selectors,
        e,
        keeping (worker.validate_selectors s.url s.domain (keys s.expected_schema) selectors w)
            (Answered engine worker monitor (Clean K o) (Ending K o) AnyFailure f s selectors)
            (kept.validate s.url s.domain (keys s.expected_schema) selectors w k)
            (λ result v call k'. (
              λ good.
                  (same, (selectors, e), (selectors, result, w, v, k, e, call, good, refl, refl)),
              λ _. let k'' = kept.count "invalid" v k' in (λ _. (same, k'', c), λ _. (same, k'')),
            )),
      );
      at_handle = λ f s w (same, k, c). (λ _. (same, k, c), λ _. (same, k));
      at_persist = λ f s w (same, (selectors, e), accepted). (
        selectors,
        e,
        Wp-intro (save_all worker s.domain selectors w)
            (λ _ v. Ending K o (record s { final_status = some success }) v) AnyFailure
            (λ _ v call. (same, inl (refl, (selectors, w, accepted, e, call)))) (λ x v e'. tt),
      );
      at_escalate = λ f s w (same, k). (same, inr (refl, k));
    }

    module _ (runtime : Runtime W) (executes : ExecutesSupersteps runtime) (w : W) (k : K w) where
      ending :
          Wp
            (runtime.ainvoke (build_recovery_graph engine worker monitor) o w)
            (Ending K o)
            AnyFailure
      unfolding build_recovery_graph
      ending = rw executes (
          recovery_rule engine worker monitor (Clean K o) (Ending K o) AnyFailure Clean-Obeys
            runtime.recursion_limit capture_screenshot o w ((refl, refl, refl), k))

      -- Let LangGraph run by supersteps, and let `K` hold at the start and be kept by all
      -- operations but the saving of a selector. A run that returns a success kept the job's
      -- target, had the page accept the proposed selectors while `K` still held, recovered what
      -- the page gave, and then saved just those selectors.
      pub success-Approved :
          (t : RecoveryState) (v : W)
          → runtime.ainvoke (build_recovery_graph engine worker monitor) o w ≡ (ok t, v)
          → t.final_status ≡ some success
          → SameTarget o t × Approved K t v
      success-Approved t v call done =
          let (same, end) =
            Wp-ok (runtime.ainvoke (build_recovery_graph engine worker monitor) o w) (Ending K o)
              AnyFailure t v ending call in
          (same, elim end [ inl (_, a) ↦ a | inr (e, _) ↦ absurd (cc) ])

      -- Let LangGraph run by supersteps, and let `K` hold at the start and be kept by all
      -- operations but the saving of a selector. A run that returns an escalation leaves a world
      -- in which `K` still holds.
      pub escalation_keeps :
          (t : RecoveryState) (v : W)
          → runtime.ainvoke (build_recovery_graph engine worker monitor) o w ≡ (ok t, v)
          → t.final_status ≡ some needs_human_review
          → K v
      escalation_keeps t v call done =
          let (same, end) =
            Wp-ok (runtime.ainvoke (build_recovery_graph engine worker monitor) o w) (Ending K o)
              AnyFailure t v ending call in
          elim end [ inl (e, _) ↦ absurd (cc) | inr (_, h) ↦ h ]
