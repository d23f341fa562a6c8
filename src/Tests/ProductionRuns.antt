-- ===== src/Tests/ProductionRuns.antt =====
-- The Worker in production: a store of selectors with one repaired selector, and a page that shows a price.
use project4_sentinel_ai_scr.Base.{
  ℕ, String, ◌==◌, ◌≡◌, refl, sym, ap, ◌∙◌, true, Option, none, some, [], ◌∷◌, contains, eqb,
  select, inl, if◌then◌else◌,
}
use project4_sentinel_ai_scr.Base.Dict.{lookup, insert, has_key}
use project4_sentinel_ai_scr.Base.Text.{strip, is_space, lstrip, rstrip, is_blank}
use project4_sentinel_ai_scr.Base.Exec.{Result, ok, err, library_error, ok-eq-ok}
use project4_sentinel_ai_scr.Shared.Validator.{validate, is_missing_or_empty}
use project4_sentinel_ai_scr.Worker.Extract.{
  ExtractData, ExtractionAttemptResult, resolve_onto, resolve_known_selectors, execute,
}
use project4_sentinel_ai_scr.Worker.Extract.Resolution.{resolution}
use project4_sentinel_ai_scr.Worker.SelectorStore.{
  SelectorModel, map_model, get_from_postgres, get_active_selector, write_to_cache, get_from_cache,
  cache_key, to_payload, model_to_selector, selector_store,
}
use project4_sentinel_ai_scr.Worker.SelectorStore.Coherence.{IsCoherent}
use project4_sentinel_ai_scr.Worker.Playwright.{
  PlaywrightBrowser, Playwright, extract_fields, in_browser, extract_with_selectors, extract_onto,
  playwright_browser,
}
use project4_sentinel_ai_scr.Worker.Playwright.Reading.{View, StandsStill, is_none, value_at}
use project4_sentinel_ai_scr.Worker.Production.{production_worker, execute-shows}
use project4_sentinel_ai_scr.Tests.SelectorRuns.{World, store, view, view-IsLawful, InUse, keys}

abbrev shown : String → Option (Option String)
shown selector = if selector == ".new" then some (some " 42 ") else none

abbrev count : Option (Option String) → ℕ
count none = 0
count (some _) = 1

abbrev answer : Option (Option String) → Result (Option String)
answer none = err (library_error "TimeoutError")
answer (some t) = ok t

abbrev lib : Playwright World (Unit {0}) (Unit {0})
lib = record {
  start = λ w. (ok tt, w);
  stop = λ w. (ok tt, w);
  launch = λ headless w. (ok tt, w);
  new_page = λ browser w. (ok tt, w);
  goto = λ page url ms w. (ok tt, w);
  count = λ page selector w. (ok (count (shown selector)), w);
  text_content = λ page selector w. (answer (shown selector), w);
  screenshot = λ page w. (ok [], w);
  close = λ browser w. (ok tt, w);
}

abbrev browser : PlaywrightBrowser World (Unit {0}) (Unit {0})
browser = record { playwright = lib; headless = true; navigation_timeout_ms = 15000 }

abbrev page_view : View World (Unit {0})
page_view = record { shown = λ w page selector. shown selector }

count_lem : (o : Option (Option String)) → eqb (count o) 0 ≡ is_none o
count_lem none = refl
count_lem (some t) = refl

answer_lem : (o : Option (Option String)) (t : Option String) → answer o ≡ ok t → o ≡ some t
answer_lem none t h = absurd (cc h)
answer_lem (some t') t h = let e : t' ≡ t = cc h in ap some e

lib-StandsStill : StandsStill page_view lib
lib-StandsStill = record {
  counted = λ page selector w v n h.
      (ap (λ k. eqb k 0) (sym (ok-eq-ok h).0) ∙ count_lem (shown selector), λ p s. refl);
  texted = λ page selector w v t h. (answer_lem (shown selector) t (ap (λ x. x.0) h), λ p s. refl);
}

abbrev row : SelectorModel
row = record {
  domain = "shop.example";
  field_name = "price";
  selector_value = ".new";
  version = 2;
  source = "ai_generated";
  is_active = true;
}

-- The row is active, and nothing is cached.
abbrev stocked : World
stocked = record { rows = λ d f. some row; added = none; cache = λ key. none }

stocked-IsCoherent : IsCoherent view store InUse stocked
stocked-IsCoherent d f raw used there = absurd (cc there)

abbrev worker : ExtractData World
worker =
    production_worker view store view-IsLawful InUse keys page_view browser lib-StandsStill
      store.monitor

abbrev attempt : ExtractionAttemptResult
attempt = record {
  outcome = record { is_success = true; failure_reason = none; missing_fields = [] };
  extracted_data = ("price", "42") ∷ [];
}

abbrev after : World
after = (execute worker "https://shop.example/p" "shop.example" ("price" ∷ []) none stocked).1

extracted_run :
    execute worker "https://shop.example/p" "shop.example" ("price" ∷ []) none stocked
    ≡ (ok attempt, after)
unfolding execute resolve_known_selectors resolve_onto selector_store get_active_selector
    get_from_cache get_from_postgres write_to_cache cache_key to_payload model_to_selector insert
    lookup playwright_browser extract_fields in_browser extract_with_selectors extract_onto strip
    is_space lstrip rstrip is_blank validate is_missing_or_empty has_key select
extracted_run = refl

execute-shows_example :
    (page : Unit {0}) × (before : World) × (u : World) × (lib.goto page "https://shop.example/p"
        15000 before
      ≡ (ok tt, u))
    × ((f : String)
        → lookup f attempt.extracted_data
          ≡ value_at page_view lib u page (
              resolution
                (contains ("price" ∷ []) f)
                (map_model (view.active stocked "shop.example" f))
                none))
    × (attempt.outcome ≡ validate ("price" ∷ []) attempt.extracted_data)
execute-shows_example =
    execute-shows view store view-IsLawful InUse keys page_view browser lib-StandsStill
      store.monitor "https://shop.example/p" "shop.example" ("price" ∷ []) stocked after attempt
      ((refl, inl refl), tt) stocked-IsCoherent extracted_run
