-- ===== src/Recovery/Engines.antt =====
-- The stand-ins for Claude and the choice between them: recovery_engine/infrastructure/
-- mock_recovery_engine.py, deployment/huggingface-space/demo_recovery_engine.py, and
-- `_build_recovery_engine` of recovery_engine/main.py and of the demonstration's worker process.
pub mod Proposals
use project4_sentinel_ai_scr.Base.{
  String, ◌<>◌, ◌==◌, Bool, true, false, Option, none, some, List, [], ◌∷◌, if◌then◌else◌,
}
use project4_sentinel_ai_scr.Base.Dict.{Dict, keys, lookup}
use project4_sentinel_ai_scr.Base.Exec.{
  Exec, Result, ok, err, and_then, pure, modify, ◌>>=◌, ◌>>◌, value_error,
}
use project4_sentinel_ai_scr.Shared.Metrics.{Monitor, ai_recovery_cost_usd}
use project4_sentinel_ai_scr.Recovery.State.{FieldType}
use project4_sentinel_ai_scr.Recovery.Ports.{SelectorProposal, RecoveryEnginePort}
use project4_sentinel_ai_scr.Recovery.ClaudeVision.{ClaudeVision, unsure, claude_vision_engine}

-- `random.Random(seed)` of the instance, whose draws are the parameter `random`, and floats with `<`.
pub record MockEngine (W R : Type 0) : Type 0 where
  pub random : W → R × W
  pub is_less : R → R → Bool
  pub success_rate : R
  pub monitor : Monitor W

-- `f".{_PLACEHOLDER_SELECTOR_PREFIX}-{field_name}"`
abbrev pub placeholder : String → String
placeholder field_name = ".css-selector-for-" <> field_name

unfoldable pub placeholders : List String → Dict String
placeholders [] = []
placeholders (field_name ∷ rest) = (field_name, placeholder field_name) ∷ placeholders rest

-- The proposal for a draw.
unfoldable pub mock_proposal : Dict FieldType → Bool → SelectorProposal
mock_proposal expected_schema false = unsure
mock_proposal expected_schema true = record {
  is_confident = true;
  selectors = placeholders (keys expected_schema);
}

module _ {W R : Type 0} (m : MockEngine W R) where
  abbrev draw : Exec W R
  draw w = (ok (m.random w).0, (m.random w).1)

  -- A call costs 0.015 dollars, in millionths.
  unfoldable pub mock_propose_selectors :
      String → Dict FieldType → List String → Exec W SelectorProposal
  mock_propose_selectors screenshot_base64 expected_schema rejection_history = do
    modify (m.monitor.inc ai_recovery_cost_usd 15000) tt
    drawn ← draw
    pure (mock_proposal expected_schema (m.is_less drawn m.success_rate))

  unfoldable pub mock_recovery_engine : RecoveryEnginePort W
  unfolding mock_propose_selectors
  mock_recovery_engine = record { propose_selectors = mock_propose_selectors }

-- `_KNOWN_SELECTORS`
abbrev pub known_selectors : Dict String
known_selectors = ("title", "h1.title") ∷ ("price", "span.price") ∷ []

abbrev pub add_known : String → Option String → Dict String → Dict String
add_known field_name none rest = rest
add_known field_name (some selector) rest = (field_name, selector) ∷ rest

-- `{field_name: _KNOWN_SELECTORS[field_name] for … if field_name in _KNOWN_SELECTORS}`
unfoldable pub known_of : List String → Dict String
known_of [] = []
known_of (field_name ∷ rest) =
    add_known field_name (lookup field_name known_selectors) (known_of rest)

abbrev pub offer : Dict String → SelectorProposal
offer [] = unsure
offer (entry ∷ entries) = record { is_confident = true; selectors = entry ∷ entries }

module _ {W : Type 0} where
  unfoldable pub demo_propose_selectors :
      String → Dict FieldType → List String → Exec W SelectorProposal
  demo_propose_selectors screenshot_base64 expected_schema rejection_history =
      pure (offer (known_of (keys expected_schema)))

  unfoldable pub demo_recovery_engine : RecoveryEnginePort W
  unfolding demo_propose_selectors
  demo_recovery_engine = record { propose_selectors = demo_propose_selectors }

-- What a process reads from its environment, and what it makes of it: a client of Claude for a key, a
-- `float` of a text, and the mock engine for a success rate.
pub record Environment (W R : Type 0) : Type 0 where
  pub anthropic_api_key : Option String
  pub mock_recovery_success_rate : Option String
  pub claude : String → ClaudeVision W
  pub float : String → Option R
  pub mock : R → MockEngine W R

-- `if api_key:`
abbrev pub given : Option String → Option String
given none = none
given (some key) = if key == "" then none else some key

-- `os.environ.get("MOCK_RECOVERY_SUCCESS_RATE", "0.7")`
abbrev pub rate_text : Option String → String
rate_text none = "0.7"
rate_text (some rate) = rate

abbrev pub as_rate : {R : Type 0} → Option R → Result R
as_rate none = err value_error
as_rate (some rate) = ok rate

module _ {W R : Type 0} (env : Environment W R) where
  abbrev pub engine_for : Option String → Result (RecoveryEnginePort W)
  engine_for (some key) = ok (claude_vision_engine (env.claude key))
  engine_for none =
      and_then (as_rate (env.float (rate_text env.mock_recovery_success_rate)))
        λ rate. ok (mock_recovery_engine (env.mock rate))

  unfoldable pub build_recovery_engine : Result (RecoveryEnginePort W)
  build_recovery_engine = engine_for (given env.anthropic_api_key)

  -- The choice of the demonstration's worker process.
  abbrev pub demo_engine_for : Option String → RecoveryEnginePort W
  demo_engine_for (some key) = claude_vision_engine (env.claude key)
  demo_engine_for none = demo_recovery_engine

  unfoldable pub build_demo_recovery_engine : RecoveryEnginePort W
  build_demo_recovery_engine = demo_engine_for (given env.anthropic_api_key)
