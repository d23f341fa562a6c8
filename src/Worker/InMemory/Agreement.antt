-- ===== src/Worker/InMemory/Agreement.antt =====
-- The store of selectors on Redis and SQL answers as the double in memory does.
use project4_sentinel_ai_scr.Base.{
  ℕ, String, ◌==◌, eq_iff, ◌≡◌, refl, sym, ap, ◌∙◌, inl, inr, ◌&&◌, Option, none, some, [], ◌∷◌,
  Bool-cases, arith, if◌then◌else◌,
}
use project4_sentinel_ai_scr.Base.Exec.{ok}
use project4_sentinel_ai_scr.Worker.Selector.{Selector}
use project4_sentinel_ai_scr.Worker.SelectorStore.{
  SelectorModel, SelectorStore, model_to_selector, new_model, next_version, map_model,
  get_active_selector, save_selector,
}
use project4_sentinel_ai_scr.Worker.SelectorStore.Views.{View, IsLawful}
use project4_sentinel_ai_scr.Worker.SelectorStore.Saving.{IsSource, kept_source, save_inversion}
use project4_sentinel_ai_scr.Worker.SelectorStore.Coherence.{
  KeysAreDistinct, IsCoherent, get_active_selector-IsCoherent, save_selector-IsCoherent,
}
use project4_sentinel_ai_scr.Worker.InMemory.{Selectors, find, put, version_after, remember}

find-put :
    (d f a b : String) (x : Selector) (m : Selectors)
    → find d f (put a b x m) ≡ (if (a == d) && (b == f) then some x else find d f m)
unfolding find put
find-put d f a b x [] = refl
find-put d f a b x (((a', b'), y) ∷ m) = ground (
  arith,
  find-put d f a b x m,
  eq_iff a d,
  eq_iff b f,
  eq_iff a' a,
  eq_iff b' b,
  eq_iff a' d,
  eq_iff b' f,
)

next_lem :
    (previous : Option SelectorModel) (version : ℕ)
    → version ≡ 1
    → next_version previous ≡ version_after (map_model previous) version
unfolding next_version model_to_selector
next_lem none version first = sym first
next_lem (some previous) version first = refl

module _ {W Raw : Type 0} (view : View W Raw) where
  open view use {active}

  -- The rows that are active are what the double holds.
  abbrev pub Agrees : Selectors → W → Type 0
  Agrees m w = (d f : String) → map_model (active w d f) ≡ find d f m

module _ {W Raw : Type 0} (view : View W Raw) (s : SelectorStore W Raw)
    (lawful : IsLawful view s) where
  open view use {active}

  saved_row :
      (selector : Selector) (m : Selectors) (w : W)
      → IsSource selector.source
      → selector.version ≡ 1
      → Agrees view m w
      → model_to_selector (new_model selector (active w selector.domain selector.field_name))
        ≡ record selector {
          version = version_after (find selector.domain selector.field_name m) selector.version;
        }
  unfolding model_to_selector new_model
  saved_row selector m w source first agrees =
      let e = kept_source selector.source source in
      let n =
        next_lem (active w selector.domain selector.field_name) selector.version first
        ∙ ap (λ o. version_after o selector.version) (agrees selector.domain selector.field_name) in
      cc (e, n)

  saved-Agrees :
      (selector : Selector) (m : Selectors) (w v : W)
      → IsSource selector.source
      → selector.version ≡ 1
      → Agrees view m w
      → save_selector s selector w ≡ (ok tt, v)
      → Agrees view (remember selector m) v
  unfolding remember
  saved-Agrees selector m w v source first agrees saved d f =
      let (row, _, others, _) = save_inversion view s lawful selector w v saved in
      let now = find-put d f selector.domain selector.field_name _ m in
      elim (Bool-cases (selector.domain == d)) [
        | inl e ↦ elim (Bool-cases (selector.field_name == f)) [
          | inl e' ↦
              let at : map_model (active v d f)
                  ≡ map_model (active v selector.domain selector.field_name) =
                ap (λ x. map_model (active v x f)) (sym ((eq_iff selector.domain d).0 e))
                ∙ ap (λ x. map_model (active v selector.domain x))
                    (sym ((eq_iff selector.field_name f).0 e')) in
              at
              ∙ ap map_model row
              ∙ ap some (saved_row selector m w source first agrees)
              ∙ sym (now ∙ rw (e, e') refl)
          | inr e' ↦ ap map_model (others d f (inr e')) ∙ agrees d f ∙ sym (now ∙ rw (e, e') refl)
        ]
        | inr e ↦ ap map_model (others d f (inl e)) ∙ agrees d f ∙ sym (now ∙ rw e refl)
      ]

  module _ (InUse : String → String → Type 0) (keys : KeysAreDistinct InUse) where
    -- Let Redis and the session behave as documented, let the pairs in use have distinct cache keys,
    -- and let the cache be coherent and the active rows agree with the double in memory. After a
    -- save of a first version from a known source, they agree with the double after the same save,
    -- and a lookup then gives what the double gives, and leaves them in agreement.
    pub get_active_selector-remember :
        (selector : Selector) (m : Selectors) (w v u : W) (d f : String) (r : Option Selector)
        → InUse selector.domain selector.field_name
        → InUse d f
        → IsSource selector.source
        → selector.version ≡ 1
        → IsCoherent view s InUse w
        → Agrees view m w
        → save_selector s selector w ≡ (ok tt, v)
        → get_active_selector s d f v ≡ (ok r, u)
        → (r ≡ find d f (remember selector m)) × Agrees view (remember selector m) u
    get_active_selector-remember selector m w v u d f r used used' source first coherent agrees
          saved got =
        let after = saved-Agrees selector m w v source first agrees saved in
        let whole =
          save_selector-IsCoherent view s lawful InUse keys selector w v used coherent saved in
        let (said, rows, _) =
          get_active_selector-IsCoherent view s lawful InUse keys d f r v u used' whole got in
        (said ∙ after d f, λ a b. ap map_model (rows a b) ∙ after a b)
