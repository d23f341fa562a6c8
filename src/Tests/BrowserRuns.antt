-- ===== src/Tests/BrowserRuns.antt =====
-- A browser whose pages show one title, and an address that cannot be reached.
use project4_sentinel_ai_scr.Base.{
  ℕ, suc, ◌-◌, String, ◌==◌, ◌≡◌, refl, sym, ap, true, Option, none, some, [], ◌∷◌, eqb, Bool-cases,
  inl, inr, if◌then◌else◌,
}
use project4_sentinel_ai_scr.Base.Dict.{Dict, lookup, insert, has_key}
use project4_sentinel_ai_scr.Base.Text.{strip, is_space, lstrip, rstrip}
use project4_sentinel_ai_scr.Base.Exec.{ok, err, library_error, ok-eq-ok}
use project4_sentinel_ai_scr.Worker.Playwright.{
  Playwright, PlaywrightBrowser, extract_fields, capture_screenshot, in_browser, extract_onto,
  extract_with_selectors,
}
use project4_sentinel_ai_scr.Worker.Playwright.Closing
use project4_sentinel_ai_scr.Worker.Playwright.Closing.{extract_fields-closes}
use project4_sentinel_ai_scr.Worker.Playwright.Reading
use project4_sentinel_ai_scr.Worker.Playwright.Reading.{
  StandsStill, field_value, extract_fields_lem,
}

-- A world is the number of the browsers that run.
abbrev World : Type 0
World = ℕ

abbrev lib : Playwright World (Unit {0}) (Unit {0})
lib = record {
  start = λ w. (ok tt, w);
  stop = λ w. (ok tt, w);
  launch = λ headless w. (ok tt, suc w);
  new_page = λ browser w. (ok tt, w);
  goto = λ page url ms w.
      (if url == "https://down.example" then err (library_error "TimeoutError") else ok tt, w);
  count = λ page selector w. (ok (if selector == "h1" then 1 else 0), w);
  text_content = λ page selector w. (
    if selector == "h1" then ok (some " Soumission\n") else err (library_error "TimeoutError"),
    w,
  );
  screenshot = λ page w. (ok [], w);
  close = λ browser w. (ok tt, w - 1);
}

abbrev browser : PlaywrightBrowser World (Unit {0}) (Unit {0})
browser = record { playwright = lib; headless = true; navigation_timeout_ms = 15000 }

abbrev running : Closing.View World
running = record { running = λ w. w }

abbrev page_view : Reading.View World (Unit {0})
page_view = record {
  shown = λ w page selector. if selector == "h1" then some (some " Soumission\n") else none;
}

lib-IsLawful : Closing.IsLawful running lib
lib-IsLawful = record {
  start_same = λ w. refl;
  stop_same = λ w. refl;
  launched = λ headless w. refl;
  closed = λ browser w. refl;
  new_page_same = λ browser w. refl;
  goto_same = λ page url ms w. refl;
  count_same = λ page selector w. refl;
  text_same = λ page selector w. refl;
  screenshot_same = λ page w. refl;
}

extract_fields-closes_example :
    ((extract_fields browser "https://down.example" (("title", "h1") ∷ []) 4).1 ≡ 4)
    × ((capture_screenshot browser "https://down.example" 4).1 ≡ 4)
extract_fields-closes_example =
    extract_fields-closes running browser lib-IsLawful "https://down.example" (("title", "h1") ∷ [])
      4

counted :
    (page : Unit {0}) (selector : String) (w v : World) (n : ℕ)
    → lib.count page selector w ≡ (ok n, v)
    → (eqb n 0 ≡ Reading.is_none (page_view.shown w page selector))
      × Reading.SameShown page_view lib w v
counted page selector w v n h =
    let (e, _) = ok-eq-ok h in
    elim (Bool-cases (selector == "h1")) [
      | inl there ↦ let e' : 1 ≡ n = rw there at e in (rw (there, sym e') refl, λ p s. refl)
      | inr gone ↦ let e' : 0 ≡ n = rw gone at e in (rw (gone, sym e') refl, λ p s. refl)
    ]

texted :
    (page : Unit {0}) (selector : String) (w v : World) (text : Option String)
    → lib.text_content page selector w ≡ (ok text, v)
    → (page_view.shown w page selector ≡ some text) × Reading.SameShown page_view lib w v
texted page selector w v text h =
    let e = ap (λ x. x.0) h in
    elim (Bool-cases (selector == "h1")) [
      | inl there ↦
          let e' : ok (some " Soumission\n") ≡ ok text = rw there at e in
          let e'' : some " Soumission\n" ≡ text = cc e' in (rw there (ap some e''), λ p s. refl)
      | inr gone ↦
          let e' : err (library_error "TimeoutError") ≡ ok text = rw gone at e in absurd (cc e')
    ]

lib-StandsStill : StandsStill page_view lib
lib-StandsStill = record { counted = counted; texted = texted }

abbrev selectors : Dict String
selectors = ("title", "h1") ∷ ("price", ".price") ∷ []

extract_fields_example :
    (page : Unit {0}) × (before : World) × (u : World) × (lib.goto page "https://shop.example/p"
        15000 before
      ≡ (ok tt, u))
    × ((f : String)
        → lookup f (("title", "Soumission") ∷ []) ≡ field_value page_view lib u page selectors f)
unfolding extract_fields in_browser extract_with_selectors extract_onto insert strip is_space lstrip
    rstrip has_key
extract_fields_example =
    extract_fields_lem page_view browser lib-StandsStill "https://shop.example/p" selectors 0 0
      (("title", "Soumission") ∷ []) (refl, (refl, tt)) refl
