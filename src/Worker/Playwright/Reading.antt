-- ===== src/Worker/Playwright/Reading.antt =====
-- What an extraction reads from the page.
use project4_sentinel_ai_scr.Base.{
  ℕ, String, ◌==◌, eq_iff, ◌≡◌, refl, sym, ap, ◌∙◌, Bool, true, false, Option, none, some, [], ◌∷◌,
  eqb, Bool-cases, inl, inr,
}
use project4_sentinel_ai_scr.Base.Dict.{
  Dict, lookup, has_key_iff_lookup, lookup-insert, lookup-insert_self,
}
use project4_sentinel_ai_scr.Base.Exec.{
  Exec, Result, ok, err, concluded, continue-eq-ok, ok-eq-ok, ok-ne-err, ensuring, ◌>>=◌,
}
use project4_sentinel_ai_scr.Contract.Stream.{IsDistinct}
use project4_sentinel_ai_scr.Worker.Playwright.{
  Playwright, PlaywrightBrowser, stripped, read_field, extract_onto, extract_with_selectors, at_url,
  in_browser, extract_fields,
}

-- What a page shows for a selector in a world: nothing, or the text of the first match.
pub record View (W Page : Type 0) : Type 0 where
  pub shown : W → Page → String → Option (Option String)

abbrev pub is_none : {A : Type 0} → Option A → Bool
is_none none = true
is_none (some _) = false

-- The value of a field: the text that is shown, without the blanks around it.
abbrev pub value_of : Option (Option String) → Option String
value_of none = none
value_of (some text) = some (stripped text)

abbrev pub or_else : Option String → Option String → Option String
or_else none d = d
or_else (some a) d = some a

module _ {W Browser Page : Type 0} (view : View W Page) (lib : Playwright W Browser Page) where
  open view use {shown}

  abbrev pub SameShown : W → W → Type 0
  SameShown w v = (page : Page) (selector : String) → shown v page selector ≡ shown w page selector

  -- The documented behaviour of a page that stands still: a count is of what is shown, a text is the one that
  -- is shown, and neither changes it.
  pub record StandsStill : Type 0 where
    pub counted :
        (page : Page) (selector : String) (w v : W) (n : ℕ)
        → lib.count page selector w ≡ (ok n, v)
        → (eqb n 0 ≡ is_none (shown w page selector)) × SameShown w v
    pub texted :
        (page : Page) (selector : String) (w v : W) (text : Option String)
        → lib.text_content page selector w ≡ (ok text, v)
        → (shown w page selector ≡ some text) × SameShown w v

  abbrev pub value_at : W → Page → Option String → Option String
  value_at w page none = none
  value_at w page (some selector) = value_of (shown w page selector)

  -- What the selectors of a page show for a field.
  abbrev pub field_value : W → Page → Dict String → String → Option String
  field_value w page selectors f = value_at w page (lookup f selectors)

is_none-eq : {A : Type 0} (o : Option A) → true ≡ is_none o → o ≡ none
is_none-eq none h = refl
is_none-eq (some a) h = absurd (cc h)

concluded-eq-ok :
    {W A : Type 0} (r : Result A) (c : Result (Unit {0}) × W) (a : A) (v : W)
    → concluded r c ≡ (ok a, v)
    → r ≡ ok a
concluded-eq-ok r (ok _, w) a v h = ap (λ x. x.0) h
concluded-eq-ok r (err e, w) a v h = absurd (ok-ne-err h)

ensuring-eq-ok :
    {W A : Type 0} (m : Exec W A) (f : Exec W (Unit {0})) (w v : W) (a : A)
    → ensuring m f w ≡ (ok a, v)
    → (u : W) × (m w ≡ (ok a, u))
ensuring-eq-ok m f w v a h =
    ((m w).1, ap (λ r. (r, (m w).1)) (concluded-eq-ok (m w).0 (f (m w).1) a v h))

module _ {W Browser Page : Type 0} (view : View W Page) (b : PlaywrightBrowser W Browser Page)
    (still : StandsStill view b.playwright) where
  open view use {shown}

  value_at-same :
      (w v : W) (page : Page) (o : Option String)
      → SameShown view b.playwright w v
      → value_at view b.playwright v page o ≡ value_at view b.playwright w page o
  value_at-same w v page none same = refl
  value_at-same w v page (some selector) same = ap value_of (same page selector)

  -- What one field of the loop adds.
  read_field_lem :
      (page : Page) (f selector : String) (acc : Dict String) (absent : Bool) (w v : W)
      (noted : Dict String)
      → absent ≡ is_none (shown w page selector)
      → read_field b page f selector acc absent w ≡ (ok noted, v)
      → SameShown view b.playwright w v
        × (lookup f noted ≡ or_else (value_of (shown w page selector)) (lookup f acc))
        × ((g : String) → (f == g) ≡ false → lookup g noted ≡ lookup g acc)
  read_field_lem page f selector acc true w v noted none_there h =
      let (e, stays) = ok-eq-ok h in
      let nothing : shown w page selector ≡ none = is_none-eq (shown w page selector) none_there in
      (
        λ p s. ap (λ x. shown x p s) (sym stays),
        ap (lookup f) (sym e) ∙ ap (λ o. or_else (value_of o) (lookup f acc)) (sym nothing),
        λ g differs. ap (lookup g) (sym e),
      )
  read_field_lem page f selector acc false w v noted there h =
      let (text, w₁, got, h₁) = continue-eq-ok (b.playwright.text_content page selector w) _ h in
      let (e, stays) = ok-eq-ok h₁ in
      let (seen, same) = still.texted page selector w w₁ text got in
      (
        λ p s. ap (λ x. shown x p s) (sym stays) ∙ same p s,
        ap (lookup f) (sym e)
            ∙ lookup-insert_self f (stripped text) acc
            ∙ ap (λ o. or_else (value_of o) (lookup f acc)) (sym seen),
        λ g differs.
            ap (lookup g) (sym e) ∙ lookup-insert f g (stripped text) acc ∙ rw differs refl,
      )

  extract_onto_lem :
      (page : Page) (selectors acc : Dict String) (w v : W) (extracted : Dict String)
      → IsDistinct selectors
      → extract_onto b page selectors acc w ≡ (ok extracted, v)
      → (f : String)
      → lookup f extracted
        ≡ or_else (field_value view b.playwright w page selectors f) (lookup f acc)
  unfolding extract_onto lookup
  extract_onto_lem page [] acc w v extracted distinct h f =
      let (e, _) = ok-eq-ok h in ap (lookup f) (sym e)
  extract_onto_lem page ((g, selector) ∷ rest) acc w v extracted (new, distinct) h f =
      let (n, w₁, counted, h₁) = continue-eq-ok (b.playwright.count page selector w) _ h in
      let (empty, same) = still.counted page selector w w₁ n counted in
      let (noted, w₂, read, h₂) =
        continue-eq-ok (read_field b page g selector acc (eqb n 0) w₁) _ h₁ in
      let (same', here, others) =
        read_field_lem page g selector acc (eqb n 0) w₁ w₂ noted
          (empty ∙ ap is_none (sym (same page selector))) read in
      let later = extract_onto_lem page rest noted w₂ v extracted distinct h₂ f in
      let stays : SameShown view b.playwright w w₂ = λ p s. same' p s ∙ same p s in
      elim (Bool-cases (g == f)) [
        | inl e ↦
            let at : g ≡ f = (eq_iff g f).0 e in
            let gone : lookup f rest ≡ none =
              ap (λ x. lookup x rest) (sym at) ∙ has_key_iff_lookup g rest new in
            rw e (
              later
              ∙ ap (λ o. or_else (value_at view b.playwright w₂ page o) (lookup f noted)) gone
              ∙ ap (λ x. lookup x noted) (sym at)
              ∙ here
              ∙ ap (λ o. or_else (value_of o) (lookup g acc)) (same page selector)
              ∙ ap (λ x. or_else (value_of (shown w page selector)) (lookup x acc)) at)
        | inr e ↦ rw e (
            later
            ∙ ap (λ o. or_else o (lookup f noted)) (value_at-same w w₂ page (lookup f rest) stays)
            ∙ ap (or_else (field_value view b.playwright w page rest f)) (others f e))
      ]

  in_browser-eq-ok :
      {A : Type 0} (body : Browser → Exec W A) (w v : W) (a : A)
      → in_browser b body w ≡ (ok a, v)
      → (browser : Browser) × (u : W) × (u' : W) × (body browser u ≡ (ok a, u'))
  unfolding in_browser
  in_browser-eq-ok body w v a h =
      let (_, w₁, _, h₁) = continue-eq-ok (b.playwright.start w) _ h in
      let (w₂, inner) =
        ensuring-eq-ok
          (do
            browser ← b.playwright.launch b.headless
            ensuring (body browser) (b.playwright.close browser))
          b.playwright.stop w₁ v a h₁ in
      let (browser, w₃, _, h₃) = continue-eq-ok (b.playwright.launch b.headless w₁) _ inner in
      let (w₄, h₄) = ensuring-eq-ok (body browser) (b.playwright.close browser) w₃ w₂ a h₃ in
      (browser, w₃, w₄, h₄)

  or_else-none : (o : Option String) → or_else o none ≡ o
  or_else-none none = refl
  or_else-none (some a) = refl

  -- Let the page stand still while it is read, and let the selectors be those of a dictionary. An
  -- extraction that returns has gone to the address on some page, and its data give each field
  -- what the page then showed for the field's selector: its text without the blanks around it, the
  -- empty text where a match has none, and nothing where there is no match or no selector.
  pub extract_fields_lem :
      (url : String) (selectors : Dict String) (w v : W) (extracted : Dict String)
      → IsDistinct selectors
      → extract_fields b url selectors w ≡ (ok extracted, v)
      → (page : Page) × (before : W) × (u : W) × (b.playwright.goto page url b.navigation_timeout_ms
            before
          ≡ (ok tt, u))
        × ((f : String) → lookup f extracted ≡ field_value view b.playwright u page selectors f)
  unfolding extract_fields extract_with_selectors lookup
  extract_fields_lem url selectors w v extracted distinct h =
      let (browser, w₃, w₄, h₄) =
        in_browser-eq-ok (at_url b url (λ page. extract_with_selectors b page selectors)) w v
          extracted h in
      let (page, w₅, _, h₅) = continue-eq-ok (b.playwright.new_page browser w₃) _ h₄ in
      let (_, u, gone, h₆) =
        continue-eq-ok (b.playwright.goto page url b.navigation_timeout_ms w₅) _ h₅ in
      (
        page,
        w₅,
        u,
        gone,
        λ f. extract_onto_lem page selectors [] u w₄ extracted distinct h₆ f ∙ or_else-none _,
      )
