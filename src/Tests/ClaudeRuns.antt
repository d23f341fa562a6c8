-- ===== src/Tests/ClaudeRuns.antt =====
-- An answer of the model with a field that was not asked for and a value that is no text.
use project4_sentinel_ai_scr.Base.{
  ℕ, ◌+◌, String, ◌≡◌, refl, ◌≢◌, ◌↔◌, true, ◌&&◌, Option, none, some, [], leb, ◌∷◌, contains,
}
use project4_sentinel_ai_scr.Base.Dict.{Dict, keys, has_key}
use project4_sentinel_ai_scr.Base.Exec.{ok}
use project4_sentinel_ai_scr.Recovery.State.{FieldType, str}
use project4_sentinel_ai_scr.Recovery.Ports.{SelectorProposal}
use project4_sentinel_ai_scr.Recovery.ClaudeVision.{
  text, other, Parsed, object, Response, Message, ClaudeVision, text_block, text_content,
  valid_selectors, parse_response, propose_selectors, cost_of,
}
use project4_sentinel_ai_scr.Recovery.ClaudeVision.Answers.{
  has_text, entries_of, propose_selectors_lem,
}
use project4_sentinel_ai_scr.Recovery.Engines.{
  Environment, build_recovery_engine, mock_recovery_engine, mock_propose_selectors, mock_proposal,
  placeholders,
}
use project4_sentinel_ai_scr.Recovery.Engines.Proposals.{build_recovery_engine-proposes}

abbrev answer : Response
answer = record {
  content = text_block "{…}" ∷ [];
  usage = some (record { input_tokens = 1000; output_tokens = 20 });
}

abbrev parsed : Option Parsed
parsed = some (object (("price", text ".new") ∷ ("title", other) ∷ ("author", text ".a") ∷ []))

-- The world is the cost.
abbrev claude : ClaudeVision ℕ
claude = record {
  create = λ message w. (ok answer, w);
  loads = λ t. parsed;
  monitor = record { inc = λ metric amount w. w + amount; observe = λ metric w. w };
}

abbrev schema : Dict FieldType
schema = ("title", str) ∷ ("price", str) ∷ []

abbrev proposal : SelectorProposal
proposal = record { is_confident = true; selectors = ("price", ".new") ∷ [] }

proposed_run : propose_selectors claude "png" schema [] 0 ≡ (ok proposal, 3300)
unfolding propose_selectors parse_response valid_selectors has_key text_content cost_of
proposed_run = refl

propose_selectors_example :
    (message : Message) × (response : Response) × (u : ℕ) × (claude.create message 0
      ≡ (ok response, u))
    × (message.screenshot_base64 ≡ "png")
    × ((f : String)
        → contains (keys proposal.selectors) f ≡ (
            has_key f schema
            && has_text f (entries_of (claude.loads (text_content response.content)))))
    × ((proposal.is_confident ≡ true) ↔ (proposal.selectors ≢ []))
propose_selectors_example =
    propose_selectors_lem claude "png" schema [] 0 3300 proposal proposed_run

-- Without a key the mock is chosen, and the draw 3 is below its rate.
abbrev environment : Environment ℕ ℕ
environment = record {
  anthropic_api_key = some "";
  mock_recovery_success_rate = none;
  claude = λ key. claude;
  float = λ t. some 7;
  mock = λ rate. record {
    random = λ w. (3, w);
    is_less = λ a b. leb (a + 1) b;
    success_rate = rate;
    monitor = claude.monitor;
  };
}

abbrev guess : SelectorProposal
guess = record {
  is_confident = true;
  selectors = ("title", ".css-selector-for-title") ∷ ("price", ".css-selector-for-price") ∷ [];
}

chosen_run : build_recovery_engine environment ≡ ok (mock_recovery_engine (environment.mock 7))
unfolding build_recovery_engine
chosen_run = refl

guessed_run :
    (mock_recovery_engine (environment.mock 7)).propose_selectors "png" schema [] 0
    ≡ (ok guess, 15000)
unfolding mock_recovery_engine mock_propose_selectors mock_proposal placeholders keys
guessed_run = refl

build_recovery_engine-proposes_example : contains (keys schema) "price" ≡ true
unfolding keys
build_recovery_engine-proposes_example =
    build_recovery_engine-proposes environment (mock_recovery_engine (environment.mock 7)) "png"
      schema [] 0 15000 guess "price" chosen_run guessed_run refl
