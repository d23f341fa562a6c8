-- ===== src/Tests/ExtractRuns.antt =====
-- An extraction from a page with a title, for which a selector is known, and without one for the price.
use project4_sentinel_ai_scr.Base.{
  ℕ, String, ◌==◌, ◌≡◌, refl, sym, false, Option, none, some, List, [], ◌∷◌, contains, select,
  if◌then◌else◌,
}
use project4_sentinel_ai_scr.Base.Dict.{Dict, lookup, insert, has_key}
use project4_sentinel_ai_scr.Base.Text.{is_blank, is_space}
use project4_sentinel_ai_scr.Base.Exec.{ok, ok-eq-ok}
use project4_sentinel_ai_scr.Shared.FailureReason.{missing_required_field}
use project4_sentinel_ai_scr.Shared.Validator.{
  validate, is_missing_or_empty, determine_failure_reason,
}
use project4_sentinel_ai_scr.Contract.Stream.{IsDistinct}
use project4_sentinel_ai_scr.Worker.Selector.{Selector}
use project4_sentinel_ai_scr.Worker.Schemas.{ExtractResponseBody, from_attempt_result}
use project4_sentinel_ai_scr.Worker.Router.{extract_endpoint}
use project4_sentinel_ai_scr.Contract.Http.{read_answer}
use project4_sentinel_ai_scr.Contract.Extraction.{answer_of}
use project4_sentinel_ai_scr.Contract.Endpoint.{verdict, read_answer-extract_endpoint}
use project4_sentinel_ai_scr.Worker.Extract.{
  ExtractData, ExtractionAttemptResult, resolve_onto, resolve_known_selectors, execute,
}
use project4_sentinel_ai_scr.Worker.Extract.Resolution.{
  View, FindsActive, resolution, execute-resolves,
}

abbrev title : Selector
title = record {
  domain = "shop.example";
  field_name = "title";
  selector_value = "h1";
  source = "manual";
  version = 1;
}

abbrev page : Option String → Dict String
page none = []
page (some selector) = ("title", "Lamp") ∷ []

abbrev known : String → Option Selector
known field_name = if field_name == "title" then some title else none

-- The world is the number of attempts that are counted.
abbrev extraction : ExtractData ℕ
extraction = record {
  browser = record {
    extract_fields = λ url selectors w. (ok (page (lookup "title" selectors)), w);
    capture_screenshot = λ url w. (ok [], w);
  };
  selector_repository = record {
    get_active_selector = λ domain field_name w. (ok (known field_name), w);
    save_selector = λ selector w. (ok tt, w);
  };
  monitor = record { inc = λ metric amount w. w; observe = λ metric w. w };
}

abbrev view : View ℕ
view = record { active = λ w domain field_name. known field_name }

abbrev Anywhere : ℕ → Type 0
Anywhere w = Unit

abbrev Anything : String → String → Type 0
Anything domain field_name = Unit

finds : FindsActive view extraction.selector_repository Anywhere Anything
finds domain field_name w v found _ _ h = let (e, _) = ok-eq-ok h in (sym e, λ d f. refl, tt)

abbrev fields : List String
fields = "title" ∷ "price" ∷ []

abbrev attempt : ExtractionAttemptResult
attempt = record {
  outcome = record {
    is_success = false;
    failure_reason = some missing_required_field;
    missing_fields = "price" ∷ [];
  };
  extracted_data = ("title", "Lamp") ∷ [];
}

resolved_run :
    execute extraction "https://shop.example/p" "shop.example" fields none 0 ≡ (ok attempt, 0)
unfolding execute resolve_known_selectors resolve_onto lookup insert validate is_missing_or_empty
    determine_failure_reason has_key select is_blank is_space
resolved_run = refl

execute-resolves_example :
    (selectors : Dict String) × (w₁ : ℕ) × (w₂ : ℕ) × IsDistinct selectors
    × ((f : String) → lookup f selectors ≡ resolution (contains fields f) (known f) none)
    × (extraction.browser.extract_fields "https://shop.example/p" selectors w₁
        ≡ (ok attempt.extracted_data, w₂))
    × (attempt.outcome ≡ validate fields attempt.extracted_data)
execute-resolves_example =
    execute-resolves view extraction Anywhere Anything finds "https://shop.example/p" "shop.example"
      fields 0 0 attempt (tt, (tt, tt)) tt resolved_run

abbrev candidates : Dict String
candidates = ("title", ".name") ∷ []

candidates_run :
    execute extraction "https://shop.example/p" "shop.example" fields (some candidates) 0
    ≡ (ok attempt, 0)
unfolding execute lookup validate is_missing_or_empty determine_failure_reason has_key select
    is_blank is_space
candidates_run = refl

abbrev answered : ExtractResponseBody
answered = from_attempt_result attempt

endpoint_run :
    extract_endpoint extraction
      (record {
        url = "https://shop.example/p";
        domain = "shop.example";
        required_fields = fields;
        selectors = some candidates;
      })
      0
    ≡ (ok answered, 0)
unfolding extract_endpoint execute lookup validate is_missing_or_empty determine_failure_reason
    has_key select is_blank is_space
endpoint_run = refl

read_answer-extract_endpoint_example :
    (extracted : Dict String) × (w₂ : ℕ) × (extraction.browser.extract_fields
        "https://shop.example/p" candidates 0
      ≡ (ok extracted, w₂))
    × (read_answer (answer_of answered) ≡ ok (verdict fields extracted))
read_answer-extract_endpoint_example =
    read_answer-extract_endpoint extraction "https://shop.example/p" "shop.example" fields
      candidates 0 0 answered endpoint_run
