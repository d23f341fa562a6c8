-- ===== src/Recovery/Graph/Rule.antt =====
-- The invariant rule of the recovery graph: nodes that meet their obligations keep an invariant to
-- the end of a run.
use project4_sentinel_ai_scr.Base.{
  ℕ, suc, ◌≤◌, ◌<◌, String, ◌≡◌, refl, ap, some, List, [], ◌∷◌, arith, leb, leb→le, leb→lt,
  Bool-cases, inl, inr,
}
use project4_sentinel_ai_scr.Base.Dict.{Dict, keys}
use project4_sentinel_ai_scr.Base.Exec.{Exception, Wp, Wp-continue, Wp-map, Wp-congr, pure}
use project4_sentinel_ai_scr.Shared.Metrics.{Monitor}
use project4_sentinel_ai_scr.Recovery.State.{
  RecoveryState, success, invalid, merge, Update, set_final_status,
}
use project4_sentinel_ai_scr.Recovery.Ports.{
  SelectorProposal, WorkerExtractionResult, RecoveryEnginePort, WorkerServicePort,
}
use project4_sentinel_ai_scr.Recovery.Nodes.{
  Node, capture_screenshot, analyze_and_propose, validate_selectors_live,
  handle_no_confident_proposal, persist_selector, escalate_human, decide_next_step,
  capture_screenshot_node, analyze_and_propose_node, validate_selectors_live_node,
  conclude_validation, handle_no_confident_proposal_node, persist_selector_node, save_all,
  escalate_human_node, proposed, analyze_screenshot, validate_proposed, persist_proposed,
}
use project4_sentinel_ai_scr.Recovery.Graph.{
  Next, go, build_recovery_graph, recovery_node, recovery_edge, route_after_proposal, next,
  supersteps,
}
use project4_sentinel_ai_scr.Recovery.Graph.Invariants.{Onward, supersteps_rule}
use project4_sentinel_ai_scr.Recovery.Graph.Obligations.{
  refused, given_up, Rejected, Answered, Analysed, Obeys,
}

module _ {W : Type 0} (engine : RecoveryEnginePort W) (worker : WorkerServicePort W)
    (monitor : Monitor W) (Run : ℕ → Node → RecoveryState → W → Type 0)
    (Done : RecoveryState → W → Type 0) (Fail : Exception → W → Type 0)
    (obeys : Obeys engine worker monitor Run Done Fail) where
  abbrev Rejects : ℕ → RecoveryState → W → Type 0
  Rejects = Rejected engine worker monitor Run Done Fail

  abbrev Answers : ℕ → RecoveryState → Dict String → WorkerExtractionResult → W → Type 0
  Answers = Answered engine worker monitor Run Done Fail

  abbrev Analyses : ℕ → RecoveryState → SelectorProposal → W → Type 0
  Analyses = Analysed engine worker monitor Run Done Fail

  abbrev After : ℕ → Next → RecoveryState → W → Type 0
  After = Onward (build_recovery_graph engine worker monitor) Run Done Fail

  -- What the updates of a node lead to.
  abbrev Leads : ℕ → Node → RecoveryState → List Update → W → Type 0
  Leads f n s us v = After f (next (recovery_edge n) (merge s us)) (merge s us) v

  next-again :
      (s : RecoveryState)
      → s.validation_result ≡ invalid
      → s.attempt_number ≤ s.max_attempts
      → next (recovery_edge handle_no_confident_proposal) s ≡ go analyze_and_propose
  unfolding next recovery_edge decide_next_step
  next-again s e h = ground arith

  next-stop :
      (s : RecoveryState)
      → s.validation_result ≡ invalid
      → s.max_attempts < s.attempt_number
      → next (recovery_edge handle_no_confident_proposal) s ≡ go escalate_human
  unfolding next recovery_edge decide_next_step
  next-stop s e h = ground arith

  Rejected-step :
      (f : ℕ) (s : RecoveryState) (w : W)
      → s.validation_result ≡ invalid
      → Rejects f s w
      → After f (next (recovery_edge handle_no_confident_proposal) s) s w
  Rejected-step f s w e (again, stop) = elim (Bool-cases (leb s.attempt_number s.max_attempts)) [
    | inl more ↦
        let m = leb→le s.attempt_number s.max_attempts more in rw (next-again s e m) (again m)
    | inr enough ↦
        let m = leb→lt s.attempt_number s.max_attempts enough in rw (next-stop s e m) (stop m)
  ]

  Answered-step :
      (f : ℕ) (s : RecoveryState) (selectors : Dict String) (result : WorkerExtractionResult)
      (w : W)
      → Answers f s selectors result w
      → Wp
          (conclude_validation monitor s selectors result w)
          (Leads f validate_selectors_live s)
          Fail
  unfolding conclude_validation
  Answered-step f s selectors result w (accept, reject) = elim (Bool-cases result.success) [
    | inl good ↦ rw good (unfold next recovery_edge decide_next_step in accept good)
    | inr bad ↦ rw bad (
        unfold recovery_edge in
        Rejected-step f (refused s selectors result.failure_reason) _ refl (reject bad))
  ]

  Analysed-step :
      (f : ℕ) (s : RecoveryState) (proposal : SelectorProposal) (w : W)
      → Analyses f s proposal w
      → After f
          (next (recovery_edge analyze_and_propose) (merge s (proposed proposal)))
          (merge s (proposed proposal))
          w
  unfolding next recovery_edge route_after_proposal
  Analysed-step f s proposal w (good, bad) = elim (Bool-cases proposal.is_confident) [
    | inl e ↦ rw e (good e)
    | inr e ↦ rw e (bad e)
  ]

  analyze_step :
      (f : ℕ) (s : RecoveryState) (w : W)
      → Run (suc f) analyze_and_propose s w
      → Wp (analyze_and_propose_node engine s w) (Leads f analyze_and_propose s) Fail
  unfolding analyze_and_propose_node
  analyze_step f s w h =
      let (shot, e, wp) = obeys.at_analyze f s w h in
      Wp-congr w (Leads f analyze_and_propose s) Fail (ap (analyze_screenshot engine s) e) (
        Wp-continue (engine.propose_selectors shot s.expected_schema s.rejection_history w)
          (λ proposal. pure (proposed proposal)) (Leads f analyze_and_propose s) Fail
          (Wp-map (engine.propose_selectors shot s.expected_schema s.rejection_history w)
            (Analyses f s) (λ proposal v. Leads f analyze_and_propose s (proposed proposal) v) Fail
            Fail wp (λ proposal v k. Analysed-step f s proposal v k) (λ x v k. k)))

  validate_step :
      (f : ℕ) (s : RecoveryState) (w : W)
      → Run (suc f) validate_selectors_live s w
      → Wp
          (validate_selectors_live_node worker monitor s w)
          (Leads f validate_selectors_live s)
          Fail
  unfolding validate_selectors_live_node
  validate_step f s w h =
      let (selectors, e, wp) = obeys.at_validate f s w h in
      let answer = worker.validate_selectors s.url s.domain (keys s.expected_schema) selectors w in
      Wp-congr w (Leads f validate_selectors_live s) Fail
        (ap (validate_proposed worker monitor s) e)
        (Wp-continue answer (conclude_validation monitor s selectors)
          (Leads f validate_selectors_live s) Fail
          (Wp-map answer (Answers f s selectors)
            (λ result v.
              Wp (conclude_validation monitor s selectors result v)
                (Leads f validate_selectors_live s) Fail)
            Fail Fail wp (λ result v k. Answered-step f s selectors result v k) (λ x v k. k)))

  persist_step :
      (f : ℕ) (s : RecoveryState) (w : W)
      → Run (suc f) persist_selector s w
      → Wp (persist_selector_node worker s w) (Leads f persist_selector s) Fail
  unfolding next recovery_edge persist_selector_node
  persist_step f s w h =
      let (selectors, e, wp) = obeys.at_persist f s w h in
      Wp-congr w (Leads f persist_selector s) Fail (ap (persist_proposed worker s) e) (
        Wp-continue (save_all worker s.domain selectors w)
          (λ _. pure (set_final_status (some success) ∷ [])) (Leads f persist_selector s) Fail wp)

  node_step :
      (f : ℕ) (n : Node) (s : RecoveryState) (w : W)
      → Run (suc f) n s w
      → Wp (recovery_node engine worker monitor n s w) (Leads f n s) Fail
  unfolding recovery_node
  node_step f capture_screenshot s w h =
      unfold capture_screenshot_node next recovery_edge in
      Wp-continue (worker.capture_screenshot s.url w) _ (Leads f capture_screenshot s) Fail
        (obeys.at_capture f s w h)
  node_step f analyze_and_propose s w h = analyze_step f s w h
  node_step f validate_selectors_live s w h = validate_step f s w h
  node_step f handle_no_confident_proposal s w h =
      unfold handle_no_confident_proposal_node in
      Rejected-step f (given_up s) w refl (obeys.at_handle f s w h)
  node_step f persist_selector s w h = persist_step f s w h
  node_step f escalate_human s w h =
      unfold escalate_human_node next recovery_edge in obeys.at_escalate f s w h

  -- A run that starts within the invariant ends within `Done` or `Fail`.
  pub recovery_rule :
      (f : ℕ) (n : Node) (s : RecoveryState) (w : W)
      → Run f n s w
      → Wp (supersteps f (build_recovery_graph engine worker monitor) n s w) Done Fail
  unfolding build_recovery_graph
  recovery_rule = supersteps_rule _ Run Done Fail obeys.at_limit node_step
