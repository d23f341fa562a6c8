-- ===== src/Worker/Playwright/Closing.antt =====
-- A browser that was launched is closed, whatever raises.
use project4_sentinel_ai_scr.Base.{
  ℕ, suc, ◌-◌, String, ◌≡◌, refl, ap, ◌∙◌, Bool, true, false, [], ◌∷◌, eqb, arith,
}
use project4_sentinel_ai_scr.Base.Dict.{Dict}
use project4_sentinel_ai_scr.Base.Exec.{Exec, Result, ok, err, continue, concluded, ensuring}
use project4_sentinel_ai_scr.Base.Keeps.{Keeps, Keeps-continue}
use project4_sentinel_ai_scr.Worker.Playwright.{
  Playwright, PlaywrightBrowser, read_field, extract_onto, extract_with_selectors, at_url,
  in_browser, extract_fields, capture_screenshot,
}

-- The number of browsers that run in a world.
pub record View (W : Type 0) : Type 0 where
  pub running : W → ℕ

concluded-world :
    {W A : Type 0} (r : Result A) (c : Result (Unit {0}) × W) → (concluded r c).1 ≡ c.1
concluded-world r (ok _, w) = refl
concluded-world r (err e, w) = refl

module _ {W Browser Page : Type 0} (view : View W) (lib : Playwright W Browser Page) where
  open view use {running}

  abbrev pub SameRunning : {A : Type 0} → Exec W A → Type 0
  SameRunning m = (w : W) → running (m w).1 ≡ running w

  abbrev pub Launched : W → Result Browser × W → Type 0
  Launched w (ok browser, v) = running v ≡ suc (running w)
  Launched w (err e, v) = running v ≡ running w

  -- The documented behaviour of the library: a launch that returns starts one browser, a close ends one, and
  -- nothing else changes their number, whether it returns or raises.
  pub record IsLawful : Type 0 where
    pub start_same : SameRunning lib.start
    pub stop_same : SameRunning lib.stop
    pub launched : (headless : Bool) (w : W) → Launched w (lib.launch headless w)
    pub closed : (browser : Browser) (w : W) → running (lib.close browser w).1 ≡ running w - 1
    pub new_page_same : (browser : Browser) → SameRunning (lib.new_page browser)
    pub goto_same : (page : Page) (url : String) (ms : ℕ) → SameRunning (lib.goto page url ms)
    pub count_same : (page : Page) (selector : String) → SameRunning (lib.count page selector)
    pub text_same : (page : Page) (selector : String) → SameRunning (lib.text_content page selector)
    pub screenshot_same : (page : Page) → SameRunning (lib.screenshot page)

  SameRunning-Keeps :
      {A : Type 0} (n : ℕ) (m : Exec W A) → SameRunning m → Keeps (λ w. running w ≡ n) m
  SameRunning-Keeps n m h w e = h w ∙ e

module _ {W Browser Page : Type 0} (view : View W) (b : PlaywrightBrowser W Browser Page)
    (lawful : IsLawful view b.playwright) where
  open view use {running}

  keeps :
      {A : Type 0} (n : ℕ) (m : Exec W A)
      → SameRunning view b.playwright m
      → Keeps (λ w. running w ≡ n) m
  keeps = SameRunning-Keeps view b.playwright

  read_field-same :
      (page : Page) (f selector : String) (extracted : Dict String) (absent : Bool)
      → SameRunning view b.playwright (read_field b page f selector extracted absent)
  read_field-same page f selector extracted true w = refl
  read_field-same page f selector extracted false w =
      Keeps-continue (λ v. running v ≡ running w) (b.playwright.text_content page selector w) _
        (lawful.text_same page selector w) (λ _ _ k. k)

  extract_onto-same :
      (page : Page) (selectors extracted : Dict String)
      → SameRunning view b.playwright (extract_onto b page selectors extracted)
  unfolding extract_onto
  extract_onto-same page [] extracted w = refl
  extract_onto-same page ((f, selector) ∷ rest) extracted w =
      Keeps-continue (λ v. running v ≡ running w) (b.playwright.count page selector w) _
        (lawful.count_same page selector w)
        (λ n v h.
          Keeps-continue (λ v. running v ≡ running w)
            (read_field b page f selector extracted (eqb n 0) v) (extract_onto b page rest)
            (read_field-same page f selector extracted (eqb n 0) v ∙ h)
            (λ noted u k. extract_onto-same page rest noted u ∙ k))

  at_url-same :
      {A : Type 0} (url : String) (body : Page → Exec W A) (browser : Browser)
      → ((page : Page) → SameRunning view b.playwright (body page))
      → SameRunning view b.playwright (at_url b url body browser)
  at_url-same url body browser same w =
      Keeps-continue (λ v. running v ≡ running w) (b.playwright.new_page browser w) _
        (lawful.new_page_same browser w)
        (λ page v h.
          Keeps-continue (λ v. running v ≡ running w)
            (b.playwright.goto page url b.navigation_timeout_ms v) (λ _. body page)
            (lawful.goto_same page url b.navigation_timeout_ms v ∙ h) (λ _ u k. same page u ∙ k))

  after_launch :
      {A : Type 0} (body : Browser → Exec W A) (w : W) (r : Result Browser × W)
      → ((browser : Browser) → SameRunning view b.playwright (body browser))
      → Launched view b.playwright w r
      → running (continue r (λ browser. ensuring (body browser) (b.playwright.close browser))).1
        ≡ running w
  after_launch body w (ok browser, v) same h =
      let u = (body browser v).1 in
      ap running (concluded-world (body browser v).0 (b.playwright.close browser u))
      ∙ lawful.closed browser u
      ∙ (let e = same browser v ∙ h in omega (arith, e))
  after_launch body w (err e, v) same h = h

  in_browser-same :
      {A : Type 0} (body : Browser → Exec W A)
      → ((browser : Browser) → SameRunning view b.playwright (body browser))
      → SameRunning view b.playwright (in_browser b body)
  unfolding in_browser
  in_browser-same body same w =
      Keeps-continue (λ v. running v ≡ running w) (b.playwright.start w) _ (lawful.start_same w)
        (λ _ v h.
          let inner =
            (continue (b.playwright.launch b.headless v)
              (λ browser. ensuring (body browser) (b.playwright.close browser))) in
          ap running (concluded-world inner.0 (b.playwright.stop inner.1))
          ∙ lawful.stop_same inner.1
          ∙ after_launch body v (b.playwright.launch b.headless v) same
              (lawful.launched b.headless v)
          ∙ h)

  -- Let Playwright behave as documented. Whether an extraction or a screenshot returns or raises,
  -- at whichever call, as many browsers run after it as before: one that was launched is closed.
  pub extract_fields-closes :
      (url : String) (selectors : Dict String) (w : W)
      → (running (extract_fields b url selectors w).1 ≡ running w)
        × (running (capture_screenshot b url w).1 ≡ running w)
  unfolding extract_fields capture_screenshot extract_with_selectors
  extract_fields-closes url selectors w = (
    in_browser-same (at_url b url (λ page. extract_with_selectors b page selectors))
        (λ browser. at_url-same url _ browser (λ page. extract_onto-same page selectors [])) w,
    in_browser-same (at_url b url b.playwright.screenshot)
        (λ browser. at_url-same url _ browser lawful.screenshot_same) w,
  )
