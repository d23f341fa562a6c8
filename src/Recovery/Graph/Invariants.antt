-- ===== src/Recovery/Graph/Invariants.antt =====
-- Invariants of a graph run, by induction on the supersteps that are left.
use project4_sentinel_ai_scr.Base.{ℕ, zero, suc}
use project4_sentinel_ai_scr.Base.Exec.{
  Exec, Exception, Wp, Wp-continue, Wp-map, key_error, graph_recursion_error,
}
use project4_sentinel_ai_scr.Recovery.State.{RecoveryState, merge}
use project4_sentinel_ai_scr.Recovery.Nodes.{Node}
use project4_sentinel_ai_scr.Recovery.Graph.{
  StateGraph, Next, halt, broken, go, next, arrive, supersteps,
}

-- `Run f n s w`: what holds when node `n` is about to run with `f` supersteps left.
module _ {W : Type 0} (g : StateGraph W) (Run : ℕ → Node → RecoveryState → W → Type 0)
    (Done : RecoveryState → W → Type 0) (Fail : Exception → W → Type 0) where
  abbrev pub Onward : ℕ → Next → RecoveryState → W → Type 0
  Onward f halt s w = Done s w
  Onward f broken s w = Fail key_error w
  Onward f (go m) s w = Run f m s w

  arrive_rule :
      (f : ℕ) (n : Next) (s : RecoveryState) (w : W)
      (onward : Node → RecoveryState → Exec W RecoveryState)
      → ((m : Node) (t : RecoveryState) (v : W) → Run f m t v → Wp (onward m t v) Done Fail)
      → Onward f n s w
      → Wp (arrive n s onward w) Done Fail
  arrive_rule f halt s w onward ih h = h
  arrive_rule f broken s w onward ih h = h
  arrive_rule f (go m) s w onward ih h = ih m s w h

  pub supersteps_rule :
      ((n : Node) (s : RecoveryState) (w : W) → Run zero n s w → Fail graph_recursion_error w)
      → ((f : ℕ) (n : Node) (s : RecoveryState) (w : W)
          → Run (suc f) n s w
          → Wp
              (g.run_node n s w)
              (λ us v. Onward f (next (g.edge n) (merge s us)) (merge s us) v)
              Fail)
      → (f : ℕ) (n : Node) (s : RecoveryState) (w : W) → Run f n s w
      → Wp (supersteps f g n s w) Done Fail
  unfolding supersteps
  supersteps_rule stop step zero n s w h = stop n s w h
  supersteps_rule stop step (suc f) n s w h = Wp-continue (g.run_node n s w) _ Done Fail (
      Wp-map (g.run_node n s w) _ _ Fail Fail (step f n s w h)
        (λ us v k.
          arrive_rule f (next (g.edge n) (merge s us)) (merge s us) v (supersteps f g)
            (λ m t u. supersteps_rule stop step f m t u) k)
        (λ e v k. k))
