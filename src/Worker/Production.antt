-- ===== src/Worker/Production.antt =====
-- The Worker in production: the extraction with the store of selectors on Redis and SQL, and with Playwright.
use project4_sentinel_ai_scr.Base.{String, ◌≡◌, ap, ◌∙◌, none, List, contains}
use project4_sentinel_ai_scr.Base.Dict.{lookup}
use project4_sentinel_ai_scr.Base.Exec.{ok}
use project4_sentinel_ai_scr.Shared.Metrics.{Monitor}
use project4_sentinel_ai_scr.Shared.Validator.{validate}
use project4_sentinel_ai_scr.Worker.Extract.{ExtractData, ExtractionAttemptResult, execute}
use project4_sentinel_ai_scr.Worker.Extract.Resolution
use project4_sentinel_ai_scr.Worker.Extract.Resolution.{
  FindsActive, AreUsed, resolution, execute-resolves,
}
use project4_sentinel_ai_scr.Worker.SelectorStore.{SelectorStore, map_model, selector_store}
use project4_sentinel_ai_scr.Worker.SelectorStore.Views
use project4_sentinel_ai_scr.Worker.SelectorStore.Coherence.{
  KeysAreDistinct, IsCoherent, get_active_selector-IsCoherent,
}
use project4_sentinel_ai_scr.Worker.Playwright.{PlaywrightBrowser, playwright_browser}
use project4_sentinel_ai_scr.Worker.Playwright.Reading
use project4_sentinel_ai_scr.Worker.Playwright.Reading.{StandsStill, value_at, extract_fields_lem}

module _ {W Raw : Type 0} (view : Views.View W Raw) (s : SelectorStore W Raw)
    (lawful : Views.IsLawful view s) (InUse : String → String → Type 0)
    (keys : KeysAreDistinct InUse) where
  -- The active selectors, as the rows give them.
  abbrev pub active_selectors : Resolution.View W
  active_selectors = record { active = λ w d f. map_model (view.active w d f) }

  -- The store of selectors keeps the interface of the extraction, as long as its cache is coherent.
  pub selector_store-FindsActive :
      FindsActive active_selectors (selector_store s) (IsCoherent view s InUse) InUse
  unfolding selector_store
  selector_store-FindsActive domain field_name w v found used coherent h =
      let (said, rows, end) =
        get_active_selector-IsCoherent view s lawful InUse keys domain field_name found w v used
          coherent h in
      (said, λ d f. ap map_model (rows d f), end)

  module _ {Browser Page : Type 0} (shows : Reading.View W Page)
      (b : PlaywrightBrowser W Browser Page) (still : StandsStill shows b.playwright)
      (monitor : Monitor W) where
    abbrev pub production_worker : ExtractData W
    production_worker = record {
      browser = playwright_browser b;
      selector_repository = selector_store s;
      monitor = monitor;
    }

    -- Let Redis, the session and Playwright behave as documented, the pairs in use have distinct cache
    -- keys, the page stand still while it is read, and the cache be coherent at the start. An
    -- extraction that returns has gone to the address, and its data give each of its fields what the
    -- page then showed for the active row of the domain and the field, without the blanks around
    -- it, and nothing to a field without a match, without an active row, or that was not asked for.
    -- Its outcome is the validation of these data.
    pub execute-shows :
        (url domain : String) (fields : List String) (w v : W) (result : ExtractionAttemptResult)
        → AreUsed InUse domain fields
        → IsCoherent view s InUse w
        → execute production_worker url domain fields none w ≡ (ok result, v)
        → (page : Page) × (before : W) × (u : W) × (b.playwright.goto page url
              b.navigation_timeout_ms before
            ≡ (ok tt, u))
          × ((f : String)
              → lookup f result.extracted_data
                ≡ value_at shows b.playwright u page
                    (resolution (contains fields f) (map_model (view.active w domain f)) none))
          × (result.outcome ≡ validate fields result.extracted_data)
    unfolding playwright_browser
    execute-shows url domain fields w v result used coherent h =
        let (selectors, w₁, w₂, distinct, resolved, tried, outcome) =
          execute-resolves active_selectors production_worker (IsCoherent view s InUse) InUse
            selector_store-FindsActive url domain fields w v result used coherent h in
        let (page, before, u, gone, values) =
          extract_fields_lem shows b still url selectors w₁ w₂ result.extracted_data distinct
            tried in
        (
          page,
          before,
          u,
          gone,
          λ f. values f ∙ ap (value_at shows b.playwright u page) (resolved f),
          outcome,
        )
