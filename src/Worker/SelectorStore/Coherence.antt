-- ===== src/Worker/SelectorStore/Coherence.antt =====
-- The cache and the table of selectors tell the same.
use mathlib.Core.Path.{ap₂}
use project4_sentinel_ai_scr.Base.{
  String, ◌==◌, eq_iff, eq_refl, ◌≡◌, refl, sym, ap, ◌∙◌, subst, ◌⊎◌, inl, inr, true, false, Option,
  none, some, Bool-cases,
}
use project4_sentinel_ai_scr.Base.Exec.{ok, continue-eq-ok, ok-eq-ok}
use project4_sentinel_ai_scr.Shared.Metrics.{selector_cache_result}
use project4_sentinel_ai_scr.Worker.Selector.{Selector}
use project4_sentinel_ai_scr.Worker.SelectorStore.{
  SelectorModel, SelectorStore, cache_key, model_to_selector, new_model, map_model, to_payload,
  read_cached, get_from_cache, get_from_postgres, warm, after_cache, get_active_selector,
  save_selector, write_to_cache,
}
use project4_sentinel_ai_scr.Worker.SelectorStore.Views.{View, SameRows, SameCache, IsLawful}
use project4_sentinel_ai_scr.Worker.SelectorStore.Saving.{
  ok-injective, row_for, read_cached-dumps, get_from_cache_inversion, written, save_inversion,
}

-- The pairs of a domain and a field that are in use have keys of their own.
abbrev pub KeysAreDistinct : (String → String → Type 0) → Type 0
KeysAreDistinct InUse =
    (d f d' f' : String)
    → InUse d f
    → InUse d' f'
    → (cache_key d f == cache_key d' f') ≡ true
    → (d ≡ d') × (f ≡ f')

module _ {W Raw : Type 0} (view : View W Raw) (s : SelectorStore W Raw)
    (InUse : String → String → Type 0) where
  open view use {cached, active}

  -- What is cached for a pair in use is the text of its active row.
  abbrev pub IsCoherent : W → Type 0
  IsCoherent w =
      (d f : String) (raw : Raw)
      → InUse d f
      → cached w (cache_key d f) ≡ some raw
      → (model : SelectorModel) × (active w d f ≡ some model)
        × (raw ≡ s.json.dumps (to_payload (model_to_selector model)))

module _ {W Raw : Type 0} (view : View W Raw) (s : SelectorStore W Raw) (lawful : IsLawful view s)
    (InUse : String → String → Type 0) where
  open view use {cached, active}

  same-IsCoherent :
      (w v : W)
      → SameRows view w v
      → SameCache view w v
      → IsCoherent view s InUse w
      → IsCoherent view s InUse v
  same-IsCoherent w v rows cache h d f raw used there =
      let (model, row, text) = h d f raw used (sym (cache (cache_key d f)) ∙ there) in
      (model, rows d f ∙ row, text)

  fetched_row :
      (d f : String) (r : Option Selector) (w v : W)
      → get_from_postgres s d f w ≡ (ok r, v)
      → (model : Option SelectorModel) × (model ≡ active w d f)
        × (r ≡ map_model model)
        × SameRows view w v
        × SameCache view w v
  unfolding get_from_postgres
  fetched_row d f r w v h =
      let (model, w₁, found, h₁) = continue-eq-ok (s.session.select_active d f w) _ h in
      let (e, rows, texts) = lawful.select_done d f w w₁ model found in
      let (said, end) = ok-eq-ok h₁ in
      (model, e, sym said, subst (SameRows view w) end rows, subst (SameCache view w) end texts)

  module _ (distinct : KeysAreDistinct InUse) where
    -- After a write of the active row of a pair in use, the other pairs being untouched.
    rewritten :
        (d f : String) (model : SelectorModel) (w v : W)
        → InUse d f
        → active v d f ≡ some model
        → cached v (cache_key d f) ≡ some (s.json.dumps (to_payload (model_to_selector model)))
        → ((d' f' : String)
            → (d == d') ≡ false ⊎ (f == f') ≡ false
            → active v d' f' ≡ active w d' f')
        → ((k : String) → (cache_key d f == k) ≡ false → cached v k ≡ cached w k)
        → IsCoherent view s InUse w
        → IsCoherent view s InUse v
    rewritten d f model w v used row text others texts h d' f' raw used' there =
        elim (Bool-cases (cache_key d f == cache_key d' f')) [
          | inl same ↦
              let (e, e') = distinct d f d' f' used used' same in
              let key : cache_key d f ≡ cache_key d' f' =
                (eq_iff (cache_key d f) (cache_key d' f')).0 same in
              (
                model,
                rw (← e) (rw (← e') row),
                some-injective (sym there ∙ ap (cached v) (sym key) ∙ text),
              )
          | inr differs ↦
              let (m, old, t) = h d' f' raw used' (sym (texts (cache_key d' f') differs) ∙ there) in
              (m, others d' f' (apart differs) ∙ old, t)
        ]
      where
        some-injective : {a b : Raw} → some a ≡ some b → a ≡ b
        some-injective h = cc h

        apart : (cache_key d f == cache_key d' f') ≡ false → (d == d') ≡ false ⊎ (f == f') ≡ false
        apart differs = elim (Bool-cases (d == d')) [
          | inr e ↦ inl e
          | inl e ↦ elim (Bool-cases (f == f')) [
            | inr e' ↦ inr e'
            | inl e' ↦
                let p = (eq_iff d d').0 e in
                let q = (eq_iff f f').0 e' in let r = eq_refl (cache_key d f) in absurd (cc)
          ]
        ]

    -- Let the services behave as documented, and the pairs in use have cache keys of their own. A
    -- save of a selector for such a pair that returns, in a world whose cache is coherent with the
    -- table, leaves it coherent.
    pub save_selector-IsCoherent :
        (selector : Selector) (w v : W)
        → InUse selector.domain selector.field_name
        → IsCoherent view s InUse w
        → save_selector s selector w ≡ (ok tt, v)
        → IsCoherent view s InUse v
    unfolding new_model
    save_selector-IsCoherent selector w v used h saved =
        let (row, text, others, texts) = save_inversion view s lawful selector w v saved in
        rewritten selector.domain selector.field_name (row_for view s lawful selector w) w v used
          row text others texts h

    -- The database's answer, and the warming of the cache with it.
    warmed :
        (d f : String) (found : Option SelectorModel) (r : Option Selector) (w v : W)
        → InUse d f
        → found ≡ active w d f
        → IsCoherent view s InUse w
        → warm s (map_model found) w ≡ (ok r, v)
        → (r ≡ map_model found) × SameRows view w v × IsCoherent view s InUse v
    unfolding model_to_selector
    warmed d f none r w v used e h called =
        let (said, end) = ok-eq-ok called in
        (sym said, λ a b. ap (λ x. active x a b) (sym end), subst (IsCoherent view s InUse) end h)
    warmed d f (some model) r w v used e h called =
        let (_, w₁, wrote, h₁) =
          continue-eq-ok (write_to_cache s (model_to_selector model) w) _ called in
        let (text, texts, rows) = written view s lawful (model_to_selector model) w w₁ wrote in
        let (same_domain, same_field) = lawful.select_about d f w model (sym e) in
        let key : cache_key model.domain model.field_name ≡ cache_key d f =
          ap₂ cache_key same_domain same_field in
        let (said, end) = ok-eq-ok h₁ in
        (
          sym said,
          subst (SameRows view w) end rows,
          subst (IsCoherent view s InUse) end (
              rewritten d f model w w₁ used (rows d f ∙ sym e) (ap (cached w₁) (sym key) ∙ text)
                (λ d' f' _. rows d' f') (λ k differs. texts k (ap (λ x. x == k) key ∙ differs)) h),
        )

    cached_model :
        (d f : String) (w : W) (o : Option Raw) (selector : Selector)
        → InUse d f
        → IsCoherent view s InUse w
        → o ≡ cached w (cache_key d f)
        → read_cached s d f o ≡ ok (some selector)
        → some selector ≡ map_model (active w d f)
    unfolding model_to_selector
    cached_model d f w none selector used h e read = absurd (cc)
    cached_model d f w (some raw) selector used h e read =
        let (model, row, text) = h d f raw used (sym e) in
        let (same_domain, same_field) = lawful.select_about d f w model row in
        let stored = s.json.dumps (to_payload (model_to_selector model)) in
        ok-injective (
          sym read
          ∙ ap (λ x. read_cached s d f (some x)) text
          ∙ ap₂ (λ a b. read_cached s a b (some stored)) (sym same_domain) (sym same_field)
          ∙ read_cached-dumps view s lawful (model_to_selector model))
        ∙ ap map_model (sym row)

    looked_up :
        (d f : String) (found r : Option Selector) (w v : W)
        → InUse d f
        → IsCoherent view s InUse w
        → read_cached s d f (cached w (cache_key d f)) ≡ ok found
        → after_cache s d f found w ≡ (ok r, v)
        → (r ≡ map_model (active w d f)) × SameRows view w v × IsCoherent view s InUse v
    looked_up d f (some selector) r w v used h read called =
        let (said, end) = ok-eq-ok called in
        let rows = subst (SameRows view w) end (lawful.inc_rows "hit" w) in
        let texts = subst (SameCache view w) end (lawful.inc_cache "hit" w) in
        (
          sym said ∙ cached_model d f w (cached w (cache_key d f)) selector used h refl read,
          rows,
          same-IsCoherent w v rows texts h,
        )
    looked_up d f none r w v used h read called =
        let w₁ = s.monitor.inc (selector_cache_result "miss") 1 w in
        let rows = lawful.inc_rows "miss" w in
        let texts = lawful.inc_cache "miss" w in
        let (from_db, w₂, fetched, h₂) = continue-eq-ok (get_from_postgres s d f w₁) _ called in
        let (model, e, same, rows_2, texts_2) = fetched_row d f from_db w₁ w₂ fetched in
        let coherent = same-IsCoherent w₁ w₂ rows_2 texts_2 (same-IsCoherent w w₁ rows texts h) in
        let (said, warm_rows, end) =
          warmed d f model r w₂ v used (e ∙ sym (rows_2 d f)) coherent
            (ap (λ x. warm s x w₂) (sym same) ∙ h₂) in
        (said ∙ ap map_model (e ∙ rows d f), λ a b. warm_rows a b ∙ rows_2 a b ∙ rows a b, end)

    -- Let the services behave as documented, the pairs in use have cache keys of their own, and
    -- the cache be coherent with the table. A lookup of such a pair that returns gives just the
    -- active row, changes no active row, and leaves the cache coherent.
    pub get_active_selector-IsCoherent :
        (d f : String) (r : Option Selector) (w v : W)
        → InUse d f
        → IsCoherent view s InUse w
        → get_active_selector s d f w ≡ (ok r, v)
        → (r ≡ map_model (active w d f)) × SameRows view w v × IsCoherent view s InUse v
    unfolding get_active_selector
    get_active_selector-IsCoherent d f r w v used h called =
        let (found, w₁, got, h₁) = continue-eq-ok (get_from_cache s d f w) _ called in
        let (read, rows, texts) = get_from_cache_inversion view s lawful d f w w₁ found got in
        let (said, rows', end) =
          looked_up d f found r w₁ v used (same-IsCoherent w w₁ rows texts h)
            (ap (read_cached s d f) (texts (cache_key d f)) ∙ read) h₁ in
        (said ∙ ap map_model (rows d f), λ a b. rows' a b ∙ rows a b, end)
