-- ===== src/Recovery/Graph.antt =====
-- recovery_engine/application/recovery_graph.py: the wiring of the graph. LangGraph, which runs it, is
-- the parameter `Runtime`; `ExecutesSupersteps` is its documented behaviour.
pub mod Invariants
pub mod Obligations
pub mod Rule
pub mod Outcomes
pub mod Limit
pub mod Approval
use project4_sentinel_ai_scr.Base.{
  ℕ, zero, suc, ◌≡◌, Bool, true, false, Option, none, some, List, [], ◌∷◌, ◌||◌, if◌then◌else◌,
}
use project4_sentinel_ai_scr.Base.Exec.{Exec, pure, raise, ◌>>=◌, key_error, graph_recursion_error}
use project4_sentinel_ai_scr.Shared.Metrics.{Monitor}
use project4_sentinel_ai_scr.Recovery.State.{RecoveryState, Update, merge}
use project4_sentinel_ai_scr.Recovery.Ports.{RecoveryEnginePort, WorkerServicePort}
use project4_sentinel_ai_scr.Recovery.Nodes
use project4_sentinel_ai_scr.Recovery.Nodes.{
  Node, capture_screenshot, analyze_and_propose, validate_selectors_live,
  handle_no_confident_proposal, persist_selector, escalate_human, decide_next_step,
}

-- What leaves a node: an edge, an edge to END, or conditional edges with their path map, whose keys
-- are the names of their targets.
pub data Edge : Type 0 where
  to : Node → Edge
  end : Edge
  choose : (RecoveryState → Node) → List Node → Edge

pub record StateGraph (W : Type 0) : Type 0 where
  pub entry : Node
  pub run_node : Node → RecoveryState → Exec W (List Update)
  pub edge : Node → Edge

unfoldable pub route_after_proposal : RecoveryState → Node
route_after_proposal s = elim s.proposed_selectors [
  | none ↦ handle_no_confident_proposal
  | some _ ↦ validate_selectors_live
]

unfoldable pub recovery_edge : Node → Edge
recovery_edge capture_screenshot = to analyze_and_propose
recovery_edge analyze_and_propose =
    choose route_after_proposal (validate_selectors_live ∷ handle_no_confident_proposal ∷ [])
recovery_edge validate_selectors_live =
    choose decide_next_step (persist_selector ∷ analyze_and_propose ∷ escalate_human ∷ [])
recovery_edge handle_no_confident_proposal =
    choose decide_next_step (persist_selector ∷ analyze_and_propose ∷ escalate_human ∷ [])
recovery_edge persist_selector = end
recovery_edge escalate_human = end

module _ {W : Type 0} where
  unfoldable pub recovery_node :
      RecoveryEnginePort W
      → WorkerServicePort W
      → Monitor W
      → Node
      → RecoveryState
      → Exec W (List Update)
  recovery_node engine worker monitor capture_screenshot s = Nodes.capture_screenshot_node worker s
  recovery_node engine worker monitor analyze_and_propose s =
      Nodes.analyze_and_propose_node engine s
  recovery_node engine worker monitor validate_selectors_live s =
      Nodes.validate_selectors_live_node worker monitor s
  recovery_node engine worker monitor handle_no_confident_proposal s =
      pure (Nodes.handle_no_confident_proposal_node s)
  recovery_node engine worker monitor persist_selector s = Nodes.persist_selector_node worker s
  recovery_node engine worker monitor escalate_human s = pure (Nodes.escalate_human_node s)

  unfoldable pub build_recovery_graph :
      RecoveryEnginePort W → WorkerServicePort W → Monitor W → StateGraph W
  build_recovery_graph engine worker monitor = record {
    entry = capture_screenshot;
    run_node = recovery_node engine worker monitor;
    edge = recovery_edge;
  }

abbrev same_node : Node → Node → Bool
same_node capture_screenshot capture_screenshot = true
same_node analyze_and_propose analyze_and_propose = true
same_node validate_selectors_live validate_selectors_live = true
same_node handle_no_confident_proposal handle_no_confident_proposal = true
same_node persist_selector persist_selector = true
same_node escalate_human escalate_human = true
same_node _ _ = false

abbrev pub has_target : List Node → Node → Bool
has_target [] n = false
has_target (m ∷ ms) n = same_node m n || has_target ms n

pub data Next : Type 0 where
  halt broken : Next
  go : Node → Next

-- A path map that lacks the router's answer is a KeyError.
unfoldable pub next : Edge → RecoveryState → Next
next (to m) s = go m
next end s = halt
next (choose router targets) s = if has_target targets (router s) then go (router s) else broken

module _ {W : Type 0} where
  abbrev pub arrive :
      Next → RecoveryState → (Node → RecoveryState → Exec W RecoveryState) → Exec W RecoveryState
  arrive halt s onward = pure s
  arrive broken s onward = raise key_error
  arrive (go m) s onward = onward m s

  -- One superstep runs a node, merges its updates and follows its edge; at most `limit` of them run.
  unfoldable pub supersteps : ℕ → StateGraph W → Node → RecoveryState → Exec W RecoveryState
  supersteps zero g n s = raise graph_recursion_error
  supersteps (suc limit) g n s = do
    updates ← g.run_node n s
    arrive (next (g.edge n) (merge s updates)) (merge s updates) (supersteps limit g)

-- `ainvoke` of a compiled graph with one argument: the recursion limit is LangGraph's default.
pub record Runtime (W : Type 0) : Type 0 where
  pub recursion_limit : ℕ
  pub ainvoke : StateGraph W → RecoveryState → Exec W RecoveryState

-- LangGraph's documentation: a run starts at the entry point, goes by supersteps, and raises
-- GraphRecursionError if it has not ended after `recursion_limit` of them.
abbrev pub ExecutesSupersteps : {W : Type 0} → Runtime W → Type 0
ExecutesSupersteps {W} runtime =
    (g : StateGraph W) (s : RecoveryState) (w : W)
    → runtime.ainvoke g s w ≡ supersteps runtime.recursion_limit g g.entry s w
