-- ===== src/Worker/Extract.antt =====
-- extraction_worker/application/use_cases/extract_data_use_case.py
pub mod Resolution
use project4_sentinel_ai_scr.Base.{String, Bool, Option, none, some, List, [], ◌∷◌, if◌then◌else◌}
use project4_sentinel_ai_scr.Base.Dict.{Dict, insert}
use project4_sentinel_ai_scr.Base.Exec.{Exec, pure, modify, ◌>>=◌, ◌>>◌}
use project4_sentinel_ai_scr.Shared.Metrics.{
  Monitor, extraction_duration_seconds, extraction_result,
}
use project4_sentinel_ai_scr.Shared.Validator.{ExtractionOutcome, validate}
use project4_sentinel_ai_scr.Worker.Selector.{Selector}
use project4_sentinel_ai_scr.Worker.Ports.{BrowserPort, SelectorRepository}

pub record ExtractionAttemptResult : Type 0 where
  pub outcome : ExtractionOutcome
  pub extracted_data : Dict String

pub record ExtractData (W : Type 0) : Type 0 where
  pub browser : BrowserPort W
  pub selector_repository : SelectorRepository W
  pub monitor : Monitor W

-- `if selector is not None: resolved[field_name] = selector.selector_value`
abbrev pub note_selector : String → Option Selector → Dict String → Dict String
note_selector field_name none resolved = resolved
note_selector field_name (some selector) resolved =
    insert field_name selector.selector_value resolved

module _ {W : Type 0} (u : ExtractData W) where
  -- The loop over the required fields, from what is resolved so far.
  unfoldable pub resolve_onto : String → List String → Dict String → Exec W (Dict String)
  resolve_onto domain [] resolved = pure resolved
  resolve_onto domain (field_name ∷ rest) resolved = do
    selector ← u.selector_repository.get_active_selector domain field_name
    resolve_onto domain rest (note_selector field_name selector resolved)

  unfoldable pub resolve_known_selectors : String → List String → Exec W (Dict String)
  resolve_known_selectors domain required_fields = resolve_onto domain required_fields []

  abbrev pub selectors_for : String → List String → Option (Dict String) → Exec W (Dict String)
  selectors_for domain required_fields none = resolve_known_selectors domain required_fields
  selectors_for domain required_fields (some candidates) = pure candidates

  abbrev pub outcome_label : Bool → String
  outcome_label is_success = if is_success then "success" else "failure"

  abbrev pub record_attempt : String → Bool → W → W
  record_attempt domain is_success w =
      let label = outcome_label is_success in
      u.monitor.inc (extraction_result domain label) 1
        (u.monitor.observe (extraction_duration_seconds domain label) w)

  unfoldable pub execute :
      String → String → List String → Option (Dict String) → Exec W ExtractionAttemptResult
  execute url domain required_fields candidate_selectors = do
    selectors ← selectors_for domain required_fields candidate_selectors
    extracted ← u.browser.extract_fields url selectors
    let outcome = validate required_fields extracted
    modify (record_attempt domain outcome.is_success) tt
    pure (record { outcome = outcome; extracted_data = extracted })
