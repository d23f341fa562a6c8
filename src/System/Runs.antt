-- ===== src/System/Runs.antt =====
-- What a run of the recovery graph over the Worker's HTTP client leaves in the jobs table, and what a
-- success of it has recovered.
use project4_sentinel_ai_scr.Base.{
  ℕ, zero, suc, String, ◌≡◌, subst, ◌∙◌, inl, inr, true, Option, none, some, List, [], ◌∷◌, All,
  All-contains, All-of_contains, Bool-cases,
}
use project4_sentinel_ai_scr.Base.Dict.{Dict, keys, from_keys, contains-keys-from_keys}
use project4_sentinel_ai_scr.Base.Exec.{Exec, ok}
use project4_sentinel_ai_scr.Base.Keeps.{Keeps, Keeps-continue}
use project4_sentinel_ai_scr.Shared.Metrics.{Metric, Monitor}
use project4_sentinel_ai_scr.Shared.Validator.Rules.{IsFilled}
use project4_sentinel_ai_scr.Shared.Job.{Job}
use project4_sentinel_ai_scr.Recovery.State.{RecoveryState, FieldType, success}
use project4_sentinel_ai_scr.Recovery.Ports.{
  WorkerExtractionResult, RecoveryEnginePort, WorkerServicePort,
}
use project4_sentinel_ai_scr.Recovery.Nodes.{
  Node, capture_screenshot, analyze_and_propose, validate_selectors_live,
  handle_no_confident_proposal, persist_selector, escalate_human, save_all, capture_screenshot_node,
  analyze_and_propose_node, analyze_screenshot, validate_selectors_live_node, validate_proposed,
  conclude_validation, persist_selector_node, persist_proposed,
}
use project4_sentinel_ai_scr.Recovery.Graph.{
  Next, halt, broken, go, next, arrive, supersteps, Runtime, ExecutesSupersteps, recovery_node,
  build_recovery_graph,
}
use project4_sentinel_ai_scr.Recovery.Graph.Approval.{KeptBySteps, success-Approved}
use project4_sentinel_ai_scr.Recovery.Consumer.{build_initial_state}

module _ {W : Type 0} (I : W → Type 0) (engine : RecoveryEnginePort W)
    (worker : WorkerServicePort W) (monitor : Monitor W) where
  -- A property of the world that no port breaks, whether it returns or raises.
  pub record KeptByPorts : Type 0 where
    pub propose :
        (shot : String) (schema : Dict FieldType) (history : List String)
        → Keeps I (engine.propose_selectors shot schema history)
    pub capture : (url : String) → Keeps I (worker.capture_screenshot url)
    pub validate :
        (url domain : String) (fields : List String) (selectors : Dict String)
        → Keeps I (worker.validate_selectors url domain fields selectors)
    pub save :
        (domain field_name value : String)
        → Keeps I (worker.save_approved_selector domain field_name value)
    pub inc : (m : Metric) (n : ℕ) (w : W) → I w → I (monitor.inc m n w)

  module _ (kept : KeptByPorts) where
    save_all-Keeps : (domain : String) (d : Dict String) → Keeps I (save_all worker domain d)
    unfolding save_all
    save_all-Keeps domain [] w h = h
    save_all-Keeps domain ((field_name, value) ∷ d) w h =
        Keeps-continue I (worker.save_approved_selector domain field_name value w)
          (λ _. save_all worker domain d) (kept.save domain field_name value w h)
          (λ _. save_all-Keeps domain d)

    analyze_screenshot-Keeps :
        (s : RecoveryState) (o : Option String) → Keeps I (analyze_screenshot engine s o)
    analyze_screenshot-Keeps s none w h = h
    analyze_screenshot-Keeps s (some shot) w h =
        Keeps-continue I (engine.propose_selectors shot s.expected_schema s.rejection_history w) _
          (kept.propose shot s.expected_schema s.rejection_history w h) (λ _ _ k. k)

    validate_proposed-Keeps :
        (s : RecoveryState) (o : Option (Dict String))
        → Keeps I (validate_proposed worker monitor s o)
    unfolding conclude_validation
    validate_proposed-Keeps s none w h = h
    validate_proposed-Keeps s (some selectors) w h =
        Keeps-continue I
          (worker.validate_selectors s.url s.domain (keys s.expected_schema) selectors w)
          (conclude_validation monitor s selectors)
          (kept.validate s.url s.domain (keys s.expected_schema) selectors w h)
          (λ result v k. elim (Bool-cases result.success) [
            | inl good ↦ rw good (kept.inc _ 1 v k)
            | inr bad ↦ rw bad (kept.inc _ 1 v k)
          ])

    persist_proposed-Keeps :
        (s : RecoveryState) (o : Option (Dict String)) → Keeps I (persist_proposed worker s o)
    persist_proposed-Keeps s none w h = h
    persist_proposed-Keeps s (some selectors) w h =
        Keeps-continue I (save_all worker s.domain selectors w) _
          (save_all-Keeps s.domain selectors w h) (λ _ _ k. k)

    recovery_node-Keeps :
        (n : Node) (s : RecoveryState) → Keeps I (recovery_node engine worker monitor n s)
    unfolding recovery_node
    recovery_node-Keeps capture_screenshot s w h =
        unfold capture_screenshot_node in
        Keeps-continue I (worker.capture_screenshot s.url w) _ (kept.capture s.url w h) (λ _ _ k. k)
    recovery_node-Keeps analyze_and_propose s w h =
        unfold analyze_and_propose_node in analyze_screenshot-Keeps s s.screenshot_base64 w h
    recovery_node-Keeps validate_selectors_live s w h =
        unfold validate_selectors_live_node in validate_proposed-Keeps s s.proposed_selectors w h
    recovery_node-Keeps handle_no_confident_proposal s w h = h
    recovery_node-Keeps persist_selector s w h =
        unfold persist_selector_node in persist_proposed-Keeps s s.proposed_selectors w h
    recovery_node-Keeps escalate_human s w h = h

    arrive-Keeps :
        (n : Next) (s : RecoveryState) (onward : Node → RecoveryState → Exec W RecoveryState)
        → ((m : Node) (t : RecoveryState) → Keeps I (onward m t))
        → Keeps I (arrive n s onward)
    arrive-Keeps halt s onward ih w h = h
    arrive-Keeps broken s onward ih w h = h
    arrive-Keeps (go m) s onward ih w h = ih m s w h

    supersteps-Keeps :
        (f : ℕ) (n : Node) (s : RecoveryState)
        → Keeps I (supersteps f (build_recovery_graph engine worker monitor) n s)
    unfolding supersteps build_recovery_graph
    supersteps-Keeps zero n s w h = h
    supersteps-Keeps (suc f) n s w h =
        Keeps-continue I (recovery_node engine worker monitor n s w) _ (recovery_node-Keeps n s w h)
          (λ us v k. arrive-Keeps (next _ _) _ _ (λ m t. supersteps-Keeps f m t) v k)

    -- Let LangGraph run by supersteps. A run of the recovery graph keeps what its ports keep,
    -- whether it returns or raises.
    pub ainvoke-Keeps :
        (runtime : Runtime W)
        → ExecutesSupersteps runtime
        → (s : RecoveryState)
        → Keeps I (runtime.ainvoke (build_recovery_graph engine worker monitor) s)
    ainvoke-Keeps runtime executes s w h =
        rw executes (supersteps-Keeps runtime.recursion_limit _ s w h)

-- A validation that succeeds has filled all the fields that were asked for.
abbrev pub ValidatesFields : {W : Type 0} → WorkerServicePort W → Type 0
ValidatesFields {W} worker =
    (url domain : String) (fields : List String) (candidates : Dict String) (w v : W)
    (result : WorkerExtractionResult)
    → worker.validate_selectors url domain fields candidates w ≡ (ok result, v)
    → result.success ≡ true
    → All (IsFilled result.extracted) fields

-- What holds of the keys of an expected schema holds of the fields that it was made of.
All-from_keys :
    (P : String → Type 0) (fields : List String)
    → All P (keys (from_keys fields FieldType.str))
    → All P fields
All-from_keys P fields h = All-of_contains P fields (λ a there.
    All-contains P (keys (from_keys fields FieldType.str)) a h
      (contains-keys-from_keys fields FieldType.str a ∙ there))

module _ {W : Type 0} (engine : RecoveryEnginePort W) (worker : WorkerServicePort W)
    (monitor : Monitor W) (validates : ValidatesFields worker) (runtime : Runtime W)
    (executes : ExecutesSupersteps runtime) where
  Anything : W → Type 0
  Anything w = Unit

  Anything-kept : KeptBySteps engine worker monitor Anything
  unfolding Anything
  Anything-kept = record {
    capture = λ _ _ _. tt;
    propose = λ _ _ _ _ _. tt;
    validate = λ _ _ _ _ _ _. tt;
    count = λ _ _ _. tt;
  }

  -- Let LangGraph run by supersteps, and let a successful validation have filled the fields it was asked
  -- for. A run for a job that returns a success has recovered a value that is not blank for each
  -- of the job's required fields.
  pub success-recovers :
      (max_attempts : ℕ) (job : Job) (t : RecoveryState) (w v : W)
      → runtime.ainvoke
          (build_recovery_graph engine worker monitor)
          (build_initial_state max_attempts job)
          w
        ≡ (ok t, v)
      → t.final_status ≡ some success
      → (recovered : Dict String) × (t.recovered_data ≡ some recovered)
        × All (IsFilled recovered) job.required_fields
  unfolding Anything build_initial_state
  success-recovers max_attempts job t w v call done =
      let o = build_initial_state max_attempts job in
      let ((same_url, same_domain, same_schema), approved) =
        success-Approved engine worker monitor Anything Anything-kept o runtime executes w tt t v
          call done in
      let (
        selectors,
        before,
        (selectors', result, u, u', _, there, said, good, recovered, _),
        _,
        _,
      ) =
        approved in
      let full =
        validates t.url t.domain (keys t.expected_schema) selectors' u u' result said good in
      (
        result.extracted,
        recovered,
        All-from_keys (IsFilled result.extracted) job.required_fields
            (subst (λ schema. All (IsFilled result.extracted) (keys schema)) same_schema full),
      )
