-- ===== src/Recovery/Engines/Proposals.antt =====
-- What the engines propose, whichever the environment chooses.
use project4_sentinel_ai_scr.Base.{
  String, eq_iff, ◌≡◌, refl, sym, ap, subst, ◌∙◌, Bool, true, false, ◌&&◌, Option, none, some, List,
  [], ◌∷◌, contains, arith,
}
use project4_sentinel_ai_scr.Base.Dict.{Dict, keys, lookup, has_key, has_key-eq-contains-keys}
use project4_sentinel_ai_scr.Base.Exec.{ok, and_then, ok-eq-ok}
use project4_sentinel_ai_scr.Recovery.State.{FieldType}
use project4_sentinel_ai_scr.Recovery.Ports.{SelectorProposal, RecoveryEnginePort}
use project4_sentinel_ai_scr.Recovery.ClaudeVision.{ClaudeVision, claude_vision_engine}
use project4_sentinel_ai_scr.Recovery.ClaudeVision.Answers.{propose_selectors_lem}
use project4_sentinel_ai_scr.Recovery.Engines.{
  MockEngine, placeholders, mock_proposal, mock_propose_selectors, mock_recovery_engine,
  known_selectors, known_of, offer, demo_propose_selectors, demo_recovery_engine, Environment,
  given, rate_text, build_recovery_engine, build_demo_recovery_engine, engine_for, demo_engine_for,
  as_rate,
}

-- Each selector of a proposal is for a field that was asked for.
abbrev pub IsRequested : Dict FieldType → SelectorProposal → Type 0
IsRequested schema proposal =
    (f : String) → contains (keys proposal.selectors) f ≡ true → contains (keys schema) f ≡ true

abbrev pub ProposesRequested : {W : Type 0} → RecoveryEnginePort W → Type 0
ProposesRequested {W} engine =
    (screenshot : String) (schema : Dict FieldType) (history : List String) (w v : W)
    (proposal : SelectorProposal)
    → engine.propose_selectors screenshot schema history w ≡ (ok proposal, v)
    → IsRequested schema proposal

keys-placeholders : (fields : List String) → keys (placeholders fields) ≡ fields
unfolding placeholders keys
keys-placeholders [] = refl
keys-placeholders (f ∷ fields) = ap (λ fs. f ∷ fs) (keys-placeholders fields)

contains-keys-known_of :
    (fields : List String) (f : String)
    → contains (keys (known_of fields)) f ≡ (contains fields f && has_key f known_selectors)
unfolding known_of keys has_key lookup
contains-keys-known_of [] f = refl
contains-keys-known_of (field ∷ fields) f =
    ground (arith, contains-keys-known_of fields f, eq_iff field f)

mock_proposal-IsRequested :
    (schema : Dict FieldType) (b : Bool) → IsRequested schema (mock_proposal schema b)
unfolding mock_proposal keys
mock_proposal-IsRequested schema false f h = absurd (cc h)
mock_proposal-IsRequested schema true f h =
    sym (ap (λ fs. contains fs f) (keys-placeholders (keys schema))) ∙ h

offer-selectors : (d : Dict String) → (offer d).selectors ≡ d
offer-selectors [] = refl
offer-selectors (entry ∷ d) = refl

and_left : (a b : Bool) → (a && b) ≡ true → a ≡ true
and_left true b h = refl
and_left false b h = h

module _ {W : Type 0} where
  claude-ProposesRequested : (c : ClaudeVision W) → ProposesRequested (claude_vision_engine c)
  unfolding claude_vision_engine
  claude-ProposesRequested c shot schema history w v proposal h f there =
      let (_, _, _, _, _, fields, _) = propose_selectors_lem c shot schema history w v proposal h in
      sym (has_key-eq-contains-keys f schema) ∙ and_left _ _ (sym (fields f) ∙ there)

  demo-ProposesRequested : ProposesRequested (demo_recovery_engine {W = W})
  unfolding demo_recovery_engine demo_propose_selectors
  demo-ProposesRequested shot schema history w v proposal h =
      subst (IsRequested schema) (ok-eq-ok h).0 (λ f there. and_left _ _ (
        sym (contains-keys-known_of (keys schema) f)
        ∙ ap (λ d. contains (keys d) f) (sym (offer-selectors (known_of (keys schema))))
        ∙ there))

module _ {W R : Type 0} where
  mock-ProposesRequested : (m : MockEngine W R) → ProposesRequested (mock_recovery_engine m)
  unfolding mock_recovery_engine mock_propose_selectors
  mock-ProposesRequested m shot schema history w v proposal h =
      subst (IsRequested schema) (ok-eq-ok h).0 (mock_proposal-IsRequested schema _)

  mocked :
      (env : Environment W R) (o : Option R) (engine : RecoveryEnginePort W)
      → and_then (as_rate o) (λ rate. ok (mock_recovery_engine (env.mock rate))) ≡ ok engine
      → ProposesRequested engine
  mocked env none engine h = absurd (cc h)
  mocked env (some rate) engine h =
      let e : mock_recovery_engine (env.mock rate) ≡ engine = cc h in
      subst ProposesRequested e (mock-ProposesRequested (env.mock rate))

  chosen :
      (env : Environment W R) (key : Option String) (engine : RecoveryEnginePort W)
      → engine_for env key ≡ ok engine
      → ProposesRequested engine
  chosen env (some key) engine h =
      let e : claude_vision_engine (env.claude key) ≡ engine = cc h in
      subst ProposesRequested e (claude-ProposesRequested (env.claude key))
  chosen env none engine h =
      mocked env (env.float (rate_text env.mock_recovery_success_rate)) engine h

  demo_chosen :
      (env : Environment W R) (key : Option String) → ProposesRequested (demo_engine_for env key)
  demo_chosen env (some key) = claude-ProposesRequested (env.claude key)
  demo_chosen env none = demo-ProposesRequested

  -- Whichever engine `main` chooses from the environment, Claude or the mock, a proposal of it that
  -- returns has selectors only for fields that were asked for.
  pub build_recovery_engine-proposes :
      (env : Environment W R) (engine : RecoveryEnginePort W) (screenshot : String)
      (schema : Dict FieldType) (history : List String) (w v : W) (proposal : SelectorProposal)
      (f : String)
      → build_recovery_engine env ≡ ok engine
      → engine.propose_selectors screenshot schema history w ≡ (ok proposal, v)
      → contains (keys proposal.selectors) f ≡ true
      → contains (keys schema) f ≡ true
  unfolding build_recovery_engine
  build_recovery_engine-proposes env engine screenshot schema history w v proposal f made said
        there =
      chosen env (given env.anthropic_api_key) engine made screenshot schema history w v proposal
        said f there

  -- The same of the engine that the demonstration's worker process chooses.
  pub build_demo_recovery_engine-ProposesRequested :
      (env : Environment W R) → ProposesRequested (build_demo_recovery_engine env)
  unfolding build_demo_recovery_engine
  build_demo_recovery_engine-ProposesRequested env = demo_chosen env (given env.anthropic_api_key)
