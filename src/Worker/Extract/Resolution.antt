-- ===== src/Worker/Extract/Resolution.antt =====
-- Which selectors an extraction tries.
use project4_sentinel_ai_scr.Base.{
  String, ◌==◌, eq_iff, ◌≡◌, refl, sym, ap, ◌∙◌, Bool, true, false, ◌||◌, Option, none, some, List,
  [], ◌∷◌, contains, Bool-cases, inl, inr, All, arith, subst,
}
use project4_sentinel_ai_scr.Base.Dict.{Dict, lookup, insert, has_key, lookup-insert}
use project4_sentinel_ai_scr.Base.Exec.{ok, continue-eq-ok, ok-eq-ok}
use project4_sentinel_ai_scr.Shared.Validator.{validate}
use project4_sentinel_ai_scr.Contract.Stream.{IsDistinct, differ_sym}
use project4_sentinel_ai_scr.Worker.Selector.{Selector}
use project4_sentinel_ai_scr.Worker.Ports.{SelectorRepository}
use project4_sentinel_ai_scr.Worker.Extract.{
  ExtractData, ExtractionAttemptResult, note_selector, resolve_onto, resolve_known_selectors,
  record_attempt, execute,
}

-- The active selectors that a world holds.
pub record View (W : Type 0) : Type 0 where
  pub active : W → String → String → Option Selector

-- A lookup that returns, in a world of `I` and for a pair in use, gives the active selector, changes none,
-- and keeps `I`.
abbrev pub FindsActive :
    {W : Type 0}
    → View W
    → SelectorRepository W
    → (W → Type 0)
    → (String → String → Type 0)
    → Type 0
FindsActive {W} view repository I InUse =
    (domain field_name : String) (w v : W) (found : Option Selector)
    → InUse domain field_name
    → I w
    → repository.get_active_selector domain field_name w ≡ (ok found, v)
    → (found ≡ view.active w domain field_name)
      × ((d f : String) → view.active v d f ≡ view.active w d f)
      × I v

-- Every field of the list is in use for the domain.
abbrev pub AreUsed : (String → String → Type 0) → String → List String → Type 0
AreUsed InUse domain fields = All (InUse domain) fields

abbrev pub value_of : Option Selector → Option String
value_of none = none
value_of (some selector) = some selector.selector_value

-- What is resolved for a field: its active selector if it is one of the fields, or what was there before.
abbrev pub resolution : Bool → Option Selector → Option String → Option String
resolution true (some selector) before = some selector.selector_value
resolution true none before = before
resolution false found before = before

lookup-note_selector :
    (k f : String) (found : Option Selector) (d : Dict String)
    → lookup f (note_selector k found d) ≡ resolution (k == f) found (lookup f d)
lookup-note_selector k f none d = elim (Bool-cases (k == f)) [
  | inl e ↦ rw e refl
  | inr e ↦ rw e refl
]
lookup-note_selector k f (some selector) d = elim (Bool-cases (k == f)) [
  | inl e ↦ rw (lookup-insert, e) refl
  | inr e ↦ rw (lookup-insert, e) refl
]

-- Two fields in a row that are looked up in the same table.
resolution_twice :
    (here there : Bool) (found active : Option Selector) (before : Option String)
    → (here ≡ true → found ≡ active)
    → resolution there active (resolution here found before)
      ≡ resolution (here || there) active before
resolution_twice true true found none before same = ap (λ x. resolution true x before) (same refl)
resolution_twice true true found (some selector) before same = refl
resolution_twice true false found active before same =
    ap (λ x. resolution true x before) (same refl)
resolution_twice false there found active before same = refl

has_key-insert :
    (k j v : String) (d : Dict String)
    → has_key k d ≡ false
    → (j == k) ≡ false
    → has_key k (insert j v d) ≡ false
unfolding has_key insert
has_key-insert k j v [] h differs = rw differs refl
has_key-insert k j v ((i, w) ∷ d) h differs =
    ground (arith, eq_iff i j, eq_iff j k, eq_iff i k, has_key-insert k j v d)

insert-IsDistinct : (k v : String) (d : Dict String) → IsDistinct d → IsDistinct (insert k v d)
unfolding insert has_key
insert-IsDistinct k v [] h = (refl, tt)
insert-IsDistinct k v ((j, w) ∷ d) (new, rest) = elim (Bool-cases (j == k)) [
  | inl e ↦ rw e (new, rest)
  | inr e ↦ rw e (has_key-insert j k v d new (differ_sym j k e), insert-IsDistinct k v d rest)
]

note_selector-IsDistinct :
    (k : String) (found : Option Selector) (d : Dict String)
    → IsDistinct d
    → IsDistinct (note_selector k found d)
note_selector-IsDistinct k none d h = h
note_selector-IsDistinct k (some selector) d h = insert-IsDistinct k selector.selector_value d h

-- What is resolved has a field once at most.
resolve_onto-IsDistinct :
    {W : Type 0} (u : ExtractData W) (domain : String) (fields : List String)
    (d resolved : Dict String) (w v : W)
    → IsDistinct d
    → resolve_onto u domain fields d w ≡ (ok resolved, v)
    → IsDistinct resolved
unfolding resolve_onto
resolve_onto-IsDistinct u domain [] d resolved w v distinct h =
    subst IsDistinct (ok-eq-ok h).0 distinct
resolve_onto-IsDistinct u domain (k ∷ fields) d resolved w v distinct h =
    let (found, w₁, _, h₁) =
      continue-eq-ok (u.selector_repository.get_active_selector domain k w) _ h in
    resolve_onto-IsDistinct u domain fields (note_selector k found d) resolved w₁ v
      (note_selector-IsDistinct k found d distinct) h₁

module _ {W : Type 0} (view : View W) (u : ExtractData W) (I : W → Type 0)
    (InUse : String → String → Type 0)
    (finds : FindsActive view u.selector_repository I InUse) where
  open view use {active}

  lookup-resolve_onto :
      (domain : String) (fields : List String) (d resolved : Dict String) (w v : W) (f : String)
      → AreUsed InUse domain fields
      → I w
      → resolve_onto u domain fields d w ≡ (ok resolved, v)
      → (lookup f resolved ≡ resolution (contains fields f) (active w domain f) (lookup f d))
        × ((a b : String) → active v a b ≡ active w a b)
        × I v
  unfolding resolve_onto lookup
  lookup-resolve_onto domain [] d resolved w v f used i h =
      let (said, end) = ok-eq-ok h in
      (ap (lookup f) (sym said), λ a b. ap (λ x. active x a b) (sym end), subst I end i)
  lookup-resolve_onto domain (k ∷ fields) d resolved w v f (used, more) i h =
      let (found, w₁, got, h₁) =
        continue-eq-ok (u.selector_repository.get_active_selector domain k w) _ h in
      let (e, rows, i₁) = finds domain k w w₁ found used i got in
      let (rest, rows', i₂) =
        lookup-resolve_onto domain fields (note_selector k found d) resolved w₁ v f more i₁ h₁ in
      (
        rest
            ∙ ap (λ x. resolution (contains fields f) x (lookup f (note_selector k found d)))
                (rows domain f)
            ∙ ap (resolution (contains fields f) (active w domain f))
                (lookup-note_selector k f found d)
            ∙ resolution_twice (k == f) (contains fields f) found (active w domain f) (lookup f d)
                (λ same. e ∙ ap (active w domain) ((eq_iff k f).0 same)),
        λ a b. rows' a b ∙ rows a b,
        i₂,
      )

  -- Let a lookup of the repository that returns give the active selector and keep an invariant that holds
  -- at the start. An extraction without candidate selectors that returns has tried, for each of its
  -- fields, just the active selector of the domain if there is one, and for no other field any. Its
  -- data are what the browser gave, and its outcome is their validation.
  pub execute-resolves :
      (url domain : String) (fields : List String) (w v : W) (result : ExtractionAttemptResult)
      → AreUsed InUse domain fields
      → I w
      → execute u url domain fields none w ≡ (ok result, v)
      → (selectors : Dict String) × (w₁ : W) × (w₂ : W) × IsDistinct selectors
        × ((f : String)
            → lookup f selectors ≡ resolution (contains fields f) (active w domain f) none)
        × (u.browser.extract_fields url selectors w₁ ≡ (ok result.extracted_data, w₂))
        × (result.outcome ≡ validate fields result.extracted_data)
  unfolding execute resolve_known_selectors lookup
  execute-resolves url domain fields w v result used i h =
      let (selectors, w₁, resolved, h₁) =
        continue-eq-ok (resolve_known_selectors u domain fields w) _ h in
      let (extracted, w₂, tried, h₂) =
        continue-eq-ok (u.browser.extract_fields url selectors w₁) _ h₁ in
      let (said, _) = ok-eq-ok h₂ in
      (
        selectors,
        w₁,
        w₂,
        resolve_onto-IsDistinct u domain fields [] selectors w w₁ tt resolved,
        λ f. (lookup-resolve_onto domain fields [] selectors w w₁ f used i resolved).0,
        tried ∙ ap (λ x. (ok x.extracted_data, w₂)) said,
        ap (λ x. x.outcome) (sym said) ∙ ap (λ x. validate fields x.extracted_data) said,
      )

module _ {W : Type 0} (u : ExtractData W) where
  -- An extraction with candidate selectors that returns asks the browser for just these, first of all and
  -- without a lookup of other selectors, and validates what the browser gave.
  pub execute-candidates :
      (url domain : String) (fields : List String) (candidates : Dict String) (w v : W)
      (result : ExtractionAttemptResult)
      → execute u url domain fields (some candidates) w ≡ (ok result, v)
      → (w₂ : W) × (u.browser.extract_fields url candidates w ≡ (ok result.extracted_data, w₂))
        × (result.outcome ≡ validate fields result.extracted_data)
        × (v ≡ record_attempt u domain result.outcome.is_success w₂)
  unfolding execute
  execute-candidates url domain fields candidates w v result h =
      let (extracted, w₂, tried, h₂) =
        continue-eq-ok (u.browser.extract_fields url candidates w) _ h in
      let (said, end) = ok-eq-ok h₂ in
      (
        w₂,
        tried ∙ ap (λ x. (ok x.extracted_data, w₂)) said,
        ap (λ x. x.outcome) (sym said) ∙ ap (λ x. validate fields x.extracted_data) said,
        sym end ∙ ap (λ x. record_attempt u domain x.outcome.is_success w₂) said,
      )
