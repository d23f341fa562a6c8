-- ===== src/Tests/SelectorRuns.antt =====
-- A store of selectors with a cache in memory, whose cached texts stand for themselves.
use project4_sentinel_ai_scr.Base.{
  ℕ, String, ◌==◌, eq_refl, eq_iff, ◌≡◌, refl, sym, ap, ◌∙◌, ◌⊎◌, inl, inr, false, ◌&&◌, Option,
  none, some, [], Bool-cases, arith, if◌then◌else◌,
}
use project4_sentinel_ai_scr.Base.Exec.{ok, ok-eq-ok}
use project4_sentinel_ai_scr.Worker.Selector.{Selector}
use project4_sentinel_ai_scr.Worker.SelectorStore.{
  SelectorModel, CachedSelector, SelectorStore, cache_key, model_to_selector, new_model,
  next_version, map_model, get_active_selector, save_selector, deactivate_previous,
  save_to_postgres, write_to_cache, get_from_cache, to_payload, from_payload,
}
use project4_sentinel_ai_scr.Worker.SelectorStore.Views.{View, SameRows, IsLawful}
use project4_sentinel_ai_scr.Worker.SelectorStore.Saving.{
  VersionAfter, get_active_selector-save_selector,
}
use project4_sentinel_ai_scr.Worker.SelectorStore.Coherence.{
  KeysAreDistinct, IsCoherent, save_selector-IsCoherent, get_active_selector-IsCoherent,
}
use project4_sentinel_ai_scr.Worker.InMemory.{find, remember}
use project4_sentinel_ai_scr.Worker.InMemory.Agreement.{Agrees, get_active_selector-remember}

-- The rows as committed, the row of the unit of work, and the cache.
pub record World : Type 0 where
  pub rows : String → String → Option SelectorModel
  pub added : Option SelectorModel
  pub cache : String → Option CachedSelector

abbrev insert_row : Option SelectorModel → World → String → String → Option SelectorModel
insert_row none w d f = w.rows d f
insert_row (some model) w d f =
    if (model.domain == d) && (model.field_name == f) then some model else w.rows d f

abbrev about : String → String → Option SelectorModel → Option SelectorModel
about d f none = none
about d f (some model) = if (model.domain == d) && (model.field_name == f) then some model else none

abbrev pub store : SelectorStore World CachedSelector
store = record {
  session = record {
    select_active = λ d f w. (ok (about d f (w.rows d f)), w);
    deactivate = λ model w. w;
    add = λ model w. record w { added = some model };
    commit = λ w. (ok tt, record w { rows = insert_row w.added w; added = none });
  };
  redis = record {
    get = λ key w. (ok (w.cache key), w);
    set = λ key raw w. (ok tt, record w { cache = λ k. if key == k then some raw else w.cache k });
  };
  json = record { dumps = λ payload. payload; loads = λ raw. ok raw };
  monitor = record { inc = λ metric amount w. w; observe = λ metric w. w };
}

abbrev pub view : View World CachedSelector
view = record { cached = λ w. w.cache; active = λ w d f. about d f (w.rows d f) }

about_lem :
    (d f : String) (o : Option SelectorModel) (model : SelectorModel)
    → about d f o ≡ some model
    → (model.domain ≡ d) × (model.field_name ≡ f)
about_lem d f none model h = absurd (cc)
about_lem d f (some m) model h = elim (Bool-cases (m.domain == d)) [
  | inl e ↦ elim (Bool-cases (m.field_name == f)) [
    | inl e' ↦
        let p = (eq_iff m.domain d).0 e in
        let q = (eq_iff m.field_name f).0 e' in
        let same : some m ≡ some model = rw (e, e') at h in
        let inj : m ≡ model = cc same in
        (ap (λ x. x.domain) (sym inj) ∙ p, ap (λ x. x.field_name) (sym inj) ∙ q)
    | inr e' ↦ absurd (ground arith)
  ]
  | inr e ↦ absurd (ground arith)
]

inserted :
    (model : SelectorModel) (w : World)
    → about model.domain model.field_name (insert_row (some model) w model.domain model.field_name)
      ≡ some model
inserted model w =
    rw (eq_refl model.domain, eq_refl model.field_name)
      (rw (eq_refl model.domain, eq_refl model.field_name) refl)

kept_row :
    (model : SelectorModel) (w : World) (d f : String)
    → (model.domain == d) ≡ false ⊎ (model.field_name == f) ≡ false
    → insert_row (some model) w d f ≡ w.rows d f
kept_row model w d f (inl e) = rw e refl
kept_row model w d f (inr e) = ground arith

committed :
    (model : SelectorModel) (w u v : World)
    → w ≡ u
    → (record u { rows = insert_row (some model) u; added = none }) ≡ v
    → (about model.domain model.field_name (v.rows model.domain model.field_name) ≡ some model)
      × ((d f : String)
          → (model.domain == d) ≡ false ⊎ (model.field_name == f) ≡ false
          → about d f (v.rows d f) ≡ about d f (w.rows d f))
      × ((k : String) → v.cache k ≡ w.cache k)
committed model w u v start end = (
  ap (λ x. about model.domain model.field_name (x.rows model.domain model.field_name)) (sym end)
      ∙ inserted model u,
  λ d f differs.
      ap (λ x. about d f (x.rows d f)) (sym end)
      ∙ ap (about d f) (kept_row model u d f differs)
      ∙ ap (λ x. about d f (x.rows d f)) (sym start),
  λ k. ap (λ x. x.cache k) (sym end) ∙ ap (λ x. x.cache k) (sym start),
)

undisturbed :
    (previous : Option SelectorModel) (w : World) → w ≡ deactivate_previous store previous w
undisturbed none w = refl
undisturbed (some model) w = refl

pub view-IsLawful : IsLawful view store
view-IsLawful = record {
  loads_dumps = λ payload. refl;
  inc_rows = λ outcome w d f. refl;
  inc_cache = λ outcome w key. refl;
  get_done = λ key w v raw h.
      let (e, end) = ok-eq-ok h in
      (
        sym e,
        λ d f. ap (λ x. about d f (x.rows d f)) (sym end),
        λ k. ap (λ x. x.cache k) (sym end),
      );
  set_done = λ key raw w v h.
      let (_, end) = ok-eq-ok h in
      (
        ap (λ x. x.cache key) (sym end) ∙ rw (eq_refl key) refl,
        λ k differs. ap (λ x. x.cache k) (sym end) ∙ rw differs refl,
        λ d f. ap (λ x. about d f (x.rows d f)) (sym end),
      );
  select_done = λ domain field_name w v found h.
      let (e, end) = ok-eq-ok h in
      (
        sym e,
        λ d f. ap (λ x. about d f (x.rows d f)) (sym end),
        λ k. ap (λ x. x.cache k) (sym end),
      );
  select_about =
      λ domain field_name w model h. about_lem domain field_name (w.rows domain field_name) model h;
  commit_done = λ model previous w v e live h.
      let (_, end) = ok-eq-ok h in
      committed model w (deactivate_previous store previous w) v (undisturbed previous w) end;
}

abbrev known : World
known = record { rows = λ d f. none; added = none; cache = λ key. none }

abbrev repaired : Selector
repaired = record {
  domain = "shop.example";
  field_name = "price";
  selector_value = ".new";
  source = "ai_generated";
  version = 1;
}

abbrev pub saved : World
saved = (save_selector store repaired known).1

save_run : save_selector store repaired known ≡ (ok tt, saved)
unfolding save_selector save_to_postgres write_to_cache
save_run = refl

get_run : get_active_selector store "shop.example" "price" saved ≡ (ok (some repaired), saved)
unfolding save_selector save_to_postgres write_to_cache get_active_selector get_from_cache cache_key
    to_payload from_payload new_model next_version model_to_selector
get_run = refl

-- The page changes once more, and a selector by hand takes the place of the first.
abbrev renewed : Selector
renewed = record {
  domain = "shop.example";
  field_name = "price";
  selector_value = "span.amount";
  source = "manual";
  version = 1;
}

abbrev saved_again : World
saved_again = (save_selector store renewed saved).1

save_again_run : save_selector store renewed saved ≡ (ok tt, saved_again)
unfolding save_selector save_to_postgres write_to_cache
save_again_run = refl

abbrev second : Selector
second = record renewed { version = 2 }

get_again_run :
    get_active_selector store "shop.example" "price" saved_again ≡ (ok (some second), saved_again)
unfolding save_selector save_to_postgres write_to_cache get_active_selector get_from_cache cache_key
    to_payload from_payload new_model next_version model_to_selector
get_again_run = refl

get_active_selector-save_selector_example :
    (n : ℕ) × (some second ≡ some (record renewed { version = n }))
    × VersionAfter (view.active saved "shop.example" "price") n
get_active_selector-save_selector_example =
    get_active_selector-save_selector view store view-IsLawful renewed saved saved_again saved_again
      (some second) (inl refl) save_again_run get_again_run

abbrev pub InUse : String → String → Type 0
InUse d f = (d ≡ "shop.example") × ((f ≡ "price") ⊎ (f ≡ "title"))

pub keys : KeysAreDistinct InUse
unfolding cache_key
keys d f d' f' (p, inl q) (p', inl q') same = (p ∙ sym p', q ∙ sym q')
keys d f d' f' (p, inr q) (p', inr q') same = (p ∙ sym p', q ∙ sym q')
keys d f d' f' (p, inl q) (p', inr q') same = let h = rw (p, q, p', q') at same in absurd (cc)
keys d f d' f' (p, inr q) (p', inl q') same = let h = rw (p, q, p', q') at same in absurd (cc)

save_selector-IsCoherent_example : IsCoherent view store InUse saved
save_selector-IsCoherent_example =
    save_selector-IsCoherent view store view-IsLawful InUse keys repaired known saved
      (refl, inl refl) (λ d f raw used there. absurd (cc)) save_run

get_active_selector-IsCoherent_example :
    (some repaired ≡ map_model (view.active saved "shop.example" "price"))
    × SameRows view saved saved
    × IsCoherent view store InUse saved
get_active_selector-IsCoherent_example =
    get_active_selector-IsCoherent view store view-IsLawful InUse keys "shop.example" "price"
      (some repaired) saved saved (refl, inl refl) save_selector-IsCoherent_example get_run

get_active_selector-remember_example :
    (some repaired ≡ find "shop.example" "price" (remember repaired []))
    × Agrees view (remember repaired []) saved
unfolding find
get_active_selector-remember_example =
    get_active_selector-remember view store view-IsLawful InUse keys repaired [] known saved saved
      "shop.example" "price" (some repaired) (refl, inl refl) (refl, inl refl) (inr refl) refl
      (λ d f raw used there. absurd (cc)) (λ d f. refl) save_run get_run
