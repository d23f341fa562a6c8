-- ===== src/Worker/SelectorStore/Saving.antt =====
-- What a save writes, and that a lookup after it reads it back.
use project4_sentinel_ai_scr.Base.{
  ℕ, ◌+◌, String, ◌==◌, ◌≡◌, refl, sym, ap, ◌∙◌, subst, ◌⊎◌, inl, inr, false, Option, none, some,
  if◌then◌else◌,
}
use project4_sentinel_ai_scr.Base.Exec.{Result, ok, continue-eq-ok, ok-eq-ok}
use project4_sentinel_ai_scr.Worker.Selector.{Selector}
use project4_sentinel_ai_scr.Worker.SelectorStore.{
  SelectorModel, SelectorStore, cache_key, model_to_selector, to_payload, from_payload, new_model,
  next_version, read_cached, get_from_cache, write_to_cache, save_to_postgres, after_cache,
  get_active_selector, save_selector, deactivate_previous,
}
use project4_sentinel_ai_scr.Worker.SelectorStore.Views.{View, SameRows, SameCache, IsLawful}

-- A source as the type of it says.
abbrev pub IsSource : String → Type 0
IsSource source = (source ≡ "manual") ⊎ (source ≡ "ai_generated")

pub kept_source :
    (source : String)
    → IsSource source
    → (if source == "manual" then "manual" else "ai_generated") ≡ source
kept_source source (inl e) = rw e refl
kept_source source (inr e) = rw e refl

-- The version that follows those of the rows of a field: that of the active one, and then 1 more.
abbrev pub VersionAfter : Option SelectorModel → ℕ → Type 0
VersionAfter previous n =
    ((previous ≡ none) × (n ≡ 1))
    ⊎ ((row : SelectorModel) × (previous ≡ some row) × (n ≡ row.version + 1))

next_version-VersionAfter :
    (previous : Option SelectorModel) → VersionAfter previous (next_version previous)
unfolding next_version
next_version-VersionAfter none = inl (refl, refl)
next_version-VersionAfter (some row) = inr (row, refl, refl)

pub ok-injective : {A : Type 0} {a b : A} → Path (Result A) (ok a) (ok b) → a ≡ b
ok-injective h = cc h

module _ {W Raw : Type 0} (view : View W Raw) (s : SelectorStore W Raw)
    (lawful : IsLawful view s) where
  open view use {cached, active}

  -- The text that is cached for a row.
  abbrev pub text_of : SelectorModel → Raw
  text_of model = s.json.dumps (to_payload (model_to_selector model))

  pub read_cached-dumps :
      (selector : Selector)
      → read_cached s selector.domain selector.field_name
          (some (s.json.dumps (to_payload selector)))
        ≡ ok (some selector)
  unfolding from_payload to_payload
  read_cached-dumps selector = rw (lawful.loads_dumps (to_payload selector)) refl

  pub get_from_cache_inversion :
      (d f : String) (w v : W) (r : Option Selector)
      → get_from_cache s d f w ≡ (ok r, v)
      → (read_cached s d f (cached w (cache_key d f)) ≡ ok r)
        × SameRows view w v
        × SameCache view w v
  unfolding get_from_cache
  get_from_cache_inversion d f w v r h =
      let (raw, w₁, got, h₁) = continue-eq-ok (s.redis.get (cache_key d f) w) _ h in
      let (e, rows, cache) = lawful.get_done (cache_key d f) w w₁ raw got in
      let end : w₁ ≡ v = ap (λ x. x.1) h₁ in
      (
        ap (read_cached s d f) (sym e) ∙ ap (λ x. x.0) h₁,
        subst (SameRows view w) end rows,
        subst (SameCache view w) end cache,
      )

  pub written :
      (selector : Selector) (w v : W)
      → write_to_cache s selector w ≡ (ok tt, v)
      → (cached v (cache_key selector.domain selector.field_name)
          ≡ some (s.json.dumps (to_payload selector)))
        × ((k : String)
            → (cache_key selector.domain selector.field_name == k) ≡ false
            → cached v k ≡ cached w k)
        × SameRows view w v
  unfolding write_to_cache
  written selector w v h = lawful.set_done _ _ w v h

  -- The row that a save adds.
  abbrev pub row_for : Selector → W → SelectorModel
  row_for selector w = new_model selector (active w selector.domain selector.field_name)

  stored :
      (selector saved : Selector) (w v : W)
      → save_to_postgres s selector w ≡ (ok saved, v)
      → (saved ≡ model_to_selector (row_for selector w))
        × (active v selector.domain selector.field_name ≡ some (row_for selector w))
        × ((d f : String)
            → (selector.domain == d) ≡ false ⊎ (selector.field_name == f) ≡ false
            → active v d f ≡ active w d f)
        × SameCache view w v
  unfolding save_to_postgres new_model
  stored selector saved w v h =
      let (previous, w₁, found, h₁) =
        continue-eq-ok (s.session.select_active selector.domain selector.field_name w) _ h in
      let unit = s.session.add (new_model selector previous) (deactivate_previous s previous w₁) in
      let (_, w₂, done, h₂) = continue-eq-ok (s.session.commit unit) _ h₁ in
      let (e, rows, cache) =
        lawful.select_done selector.domain selector.field_name w w₁ previous found in
      let (row, others, cache') =
        lawful.commit_done (new_model selector previous) previous w₁ w₂
          (e ∙ sym (rows selector.domain selector.field_name)) refl done in
      let (model, end) = ok-eq-ok h₂ in
      (
        sym model ∙ ap (λ p. model_to_selector (new_model selector p)) e,
        ap (λ x. active x selector.domain selector.field_name) (sym end)
            ∙ row
            ∙ ap (λ p. some (new_model selector p)) e,
        λ d f differs. ap (λ x. active x d f) (sym end) ∙ others d f differs ∙ rows d f,
        λ k. ap (λ x. cached x k) (sym end) ∙ cache' k ∙ cache k,
      )

  pub save_inversion :
      (selector : Selector) (w v : W)
      → save_selector s selector w ≡ (ok tt, v)
      → (active v selector.domain selector.field_name ≡ some (row_for selector w))
        × (cached v (cache_key selector.domain selector.field_name)
            ≡ some (text_of (row_for selector w)))
        × ((d f : String)
            → (selector.domain == d) ≡ false ⊎ (selector.field_name == f) ≡ false
            → active v d f ≡ active w d f)
        × ((k : String)
            → (cache_key selector.domain selector.field_name == k) ≡ false
            → cached v k ≡ cached w k)
  unfolding save_selector new_model model_to_selector
  save_inversion selector w v h =
      let (saved, w₁, done, h₁) = continue-eq-ok (save_to_postgres s selector w) _ h in
      let (e, row, others, cache) = stored selector saved w w₁ done in
      let (text, texts, rows) =
        written (model_to_selector (row_for selector w)) w₁ v
          (ap (λ x. write_to_cache s x w₁) (sym e) ∙ h₁) in
      (
        rows selector.domain selector.field_name ∙ row,
        text,
        λ d f differs. rows d f ∙ others d f differs,
        λ k differs. texts k differs ∙ cache k,
      )

  hit :
      (d f : String) (w v : W) (selector : Selector) (r : Option Selector)
      → read_cached s d f (cached w (cache_key d f)) ≡ ok (some selector)
      → get_active_selector s d f w ≡ (ok r, v)
      → r ≡ some selector
  unfolding get_active_selector
  hit d f w v selector r there h =
      let (found, w₁, got, h₁) = continue-eq-ok (get_from_cache s d f w) _ h in
      let (e, _, _) = get_from_cache_inversion d f w w₁ found got in
      let same : found ≡ some selector = ok-injective (sym e ∙ there) in
      let (said, _) = ok-eq-ok (ap (λ x. after_cache s d f x w₁) (sym same) ∙ h₁) in sym said

  -- Let the services behave as documented, and let the source of a selector be a known one. A
  -- lookup after a save of the selector, with nothing between them and where both return, gives the
  -- selector with its value and its source under a new version: 1 if its field had no active row
  -- before the save, and one more than the version of that row otherwise.
  pub get_active_selector-save_selector :
      (selector : Selector) (w v u : W) (r : Option Selector)
      → IsSource selector.source
      → save_selector s selector w ≡ (ok tt, v)
      → get_active_selector s selector.domain selector.field_name v ≡ (ok r, u)
      → (n : ℕ) × (r ≡ some (record selector { version = n }))
        × VersionAfter (active w selector.domain selector.field_name) n
  unfolding new_model model_to_selector
  get_active_selector-save_selector selector w v u r source saved got =
      let (_, text, _, _) = save_inversion selector w v saved in
      let row = row_for selector w in
      let found =
        hit selector.domain selector.field_name v u (model_to_selector row) r
          (ap (read_cached s selector.domain selector.field_name) text
            ∙ read_cached-dumps (model_to_selector row))
          got in
      let kept = kept_source selector.source source in
      (
        row.version,
        found ∙ ap (λ x. some (record selector { source = x; version = row.version })) kept,
        next_version-VersionAfter (active w selector.domain selector.field_name),
      )
