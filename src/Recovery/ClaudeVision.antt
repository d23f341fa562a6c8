-- ===== src/Recovery/ClaudeVision.antt =====
-- recovery_engine/infrastructure/claude_vision_recovery_engine.py. The Anthropic client and `json.loads`
-- are parameters.
pub mod Answers
use project4_sentinel_ai_scr.Base.{
  ℕ, ◌+◌, ◌*◌, String, ◌<>◌, Bool, true, false, ◌&&◌, Option, none, some, List, [], ◌∷◌,
  if◌then◌else◌,
}
use project4_sentinel_ai_scr.Base.Dict.{Dict, keys, has_key}
use project4_sentinel_ai_scr.Base.Text.{join}
use project4_sentinel_ai_scr.Base.Exec.{Exec, pure, modify, ◌>>=◌, ◌>>◌}
use project4_sentinel_ai_scr.Shared.Metrics.{Monitor, ai_recovery_cost_usd}
use project4_sentinel_ai_scr.Recovery.State.{FieldType}
use project4_sentinel_ai_scr.Recovery.Ports.{SelectorProposal, RecoveryEnginePort}

-- What `json.loads` makes of a text, as far as the code looks at it.
pub data JsonValue : Type 0 where
  text : String → JsonValue
  other : JsonValue

pub data Parsed : Type 0 where
  object : Dict JsonValue → Parsed
  no_object : Parsed

pub data Block : Type 0 where
  text_block : String → Block
  other_block : Block

pub record Usage : Type 0 where
  pub input_tokens : ℕ
  pub output_tokens : ℕ

pub record Response : Type 0 where
  pub content : List Block
  pub usage : Option Usage

-- The screenshot and the text that the client sends, beside the constants.
pub record Message : Type 0 where
  pub screenshot_base64 : String
  pub prompt : String

pub record ClaudeVision (W : Type 0) : Type 0 where
  pub create : Message → Exec W Response
  pub loads : String → Option Parsed  -- `none` for a JSONDecodeError
  pub monitor : Monitor W

unfoldable pub build_user_prompt : Dict FieldType → List String → String
build_user_prompt expected_schema [] =
    "Requested fields: " <> (join ", " (keys expected_schema) <> ".")
build_user_prompt expected_schema (reason ∷ reasons) =
    "Requested fields: "
    <> (join ", " (keys expected_schema)
        <> ("."
            <> (" Previous rejected attempts (avoid repeating these):\n"
                <> join "\n" (reason ∷ reasons))))

-- Millionths of a dollar: 3 dollars for a million of input tokens, and 15 for a million of output tokens.
unfoldable pub cost_of : Usage → ℕ
cost_of usage = usage.input_tokens * 3 + usage.output_tokens * 15

-- `"".join(block.text for block in response.content if …)`
unfoldable pub text_content : List Block → String
text_content [] = ""
text_content (text_block t ∷ blocks) = t <> text_content blocks
text_content (other_block ∷ blocks) = text_content blocks

-- One entry of the comprehension of `valid_selectors`.
abbrev pub keep_entry : Bool → String → JsonValue → Dict String → Dict String
keep_entry true field_name (text value) rest = (field_name, value) ∷ rest
keep_entry true field_name other rest = rest
keep_entry false field_name value rest = rest

unfoldable pub valid_selectors : Dict FieldType → Dict JsonValue → Dict String
valid_selectors expected_schema [] = []
valid_selectors expected_schema ((field_name, value) ∷ rest) =
    keep_entry (has_key field_name expected_schema) field_name value
      (valid_selectors expected_schema rest)

abbrev pub unsure : SelectorProposal
unsure = record { is_confident = false; selectors = [] }

abbrev pub propose : Dict String → SelectorProposal
propose [] = unsure
propose (entry ∷ entries) = record { is_confident = true; selectors = entry ∷ entries }

abbrev pub of_parsed : Dict FieldType → Option Parsed → SelectorProposal
of_parsed expected_schema none = unsure
of_parsed expected_schema (some no_object) = unsure
of_parsed expected_schema (some (object parsed)) = propose (valid_selectors expected_schema parsed)

module _ {W : Type 0} (c : ClaudeVision W) where
  unfoldable pub parse_response : Response → Dict FieldType → SelectorProposal
  parse_response response expected_schema =
      of_parsed expected_schema (c.loads (text_content response.content))

  abbrev pub record_cost : Option Usage → W → W
  record_cost none w = w
  record_cost (some usage) w = c.monitor.inc ai_recovery_cost_usd (cost_of usage) w

  unfoldable pub propose_selectors : String → Dict FieldType → List String → Exec W SelectorProposal
  propose_selectors screenshot_base64 expected_schema rejection_history = do
    response ← c.create (record {
      screenshot_base64 = screenshot_base64;
      prompt = build_user_prompt expected_schema rejection_history;
    })
    modify (record_cost response.usage) tt
    pure (parse_response response expected_schema)

  unfoldable pub claude_vision_engine : RecoveryEnginePort W
  unfolding propose_selectors
  claude_vision_engine = record { propose_selectors = propose_selectors }
