-- ===== src/Worker/Playwright.antt =====
-- extraction_worker/infrastructure/playwright_browser.py. The Playwright library is a parameter.
pub mod Closing
pub mod Reading
use project4_sentinel_ai_scr.Base.{
  ℕ, String, Bool, true, false, Option, none, some, List, [], ◌∷◌, eqb,
}
use project4_sentinel_ai_scr.Base.Dict.{Dict, insert}
use project4_sentinel_ai_scr.Base.Text.{strip}
use project4_sentinel_ai_scr.Base.Exec.{Exec, pure, ensuring, ◌>>=◌, ◌>>◌}
use project4_sentinel_ai_scr.Worker.Ports.{BrowserPort}

-- The calls of the library: the start and the end of `async with async_playwright()`, and those of a browser
-- and of a page. `count` and `text_content` are of the first match of a selector.
pub record Playwright (W Browser Page : Type 0) : Type 0 where
  pub start : Exec W (Unit {0})
  pub stop : Exec W (Unit {0})
  pub launch : Bool → Exec W Browser
  pub new_page : Browser → Exec W Page
  pub goto : Page → String → ℕ → Exec W (Unit {0})
  pub count : Page → String → Exec W ℕ
  pub text_content : Page → String → Exec W (Option String)
  pub screenshot : Page → Exec W (List ℕ)
  pub close : Browser → Exec W (Unit {0})

-- `PlaywrightBrowser.__init__`
pub record PlaywrightBrowser (W Browser Page : Type 0) : Type 0 where
  pub playwright : Playwright W Browser Page
  pub headless : Bool
  pub navigation_timeout_ms : ℕ

-- `(text_content or "").strip()`
abbrev pub stripped : Option String → String
stripped none = strip ""
stripped (some text) = strip text

module _ {W Browser Page : Type 0} (b : PlaywrightBrowser W Browser Page) where
  abbrev lib : Playwright W Browser Page
  lib = b.playwright

  -- One field: a selector without a match is passed over.
  abbrev pub read_field : Page → String → String → Dict String → Bool → Exec W (Dict String)
  read_field page field_name selector extracted true = pure extracted
  read_field page field_name selector extracted false = do
    text ← lib.text_content page selector
    pure (insert field_name (stripped text) extracted)

  unfoldable pub extract_onto : Page → Dict String → Dict String → Exec W (Dict String)
  extract_onto page [] extracted = pure extracted
  extract_onto page ((field_name, selector) ∷ rest) extracted = do
    n ← lib.count page selector
    noted ← read_field page field_name selector extracted (eqb n 0)
    extract_onto page rest noted

  unfoldable pub extract_with_selectors : Page → Dict String → Exec W (Dict String)
  unfolding extract_onto
  extract_with_selectors page selectors = extract_onto page selectors []

  -- The page of a new browser at an address.
  abbrev pub at_url : {A : Type 0} → String → (Page → Exec W A) → Browser → Exec W A
  at_url url body browser = do
    page ← lib.new_page browser
    lib.goto page url b.navigation_timeout_ms
    body page

  -- `async with async_playwright()`, and the `try` whose `finally` closes the browser.
  unfoldable pub in_browser : {A : Type 0} → (Browser → Exec W A) → Exec W A
  in_browser body = do
    lib.start
    ensuring (do browser ← lib.launch b.headless; ensuring (body browser) (lib.close browser))
        lib.stop

  unfoldable pub extract_fields : String → Dict String → Exec W (Dict String)
  extract_fields url selectors =
      in_browser (at_url url (λ page. extract_with_selectors page selectors))

  unfoldable pub capture_screenshot : String → Exec W (List ℕ)
  capture_screenshot url = in_browser (at_url url lib.screenshot)

  unfoldable pub playwright_browser : BrowserPort W
  unfolding extract_fields capture_screenshot
  playwright_browser = record {
    extract_fields = extract_fields;
    capture_screenshot = capture_screenshot;
  }
