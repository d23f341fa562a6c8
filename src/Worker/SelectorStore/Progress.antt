-- ===== src/Worker/SelectorStore/Progress.antt =====
-- A save of a selector always returns, if its services do.
use project4_sentinel_ai_scr.Base.{String, refl}
use project4_sentinel_ai_scr.Base.Exec.{Returns, Returns-bind, pure}
use project4_sentinel_ai_scr.Worker.Selector.{Selector}
use project4_sentinel_ai_scr.Worker.SelectorStore.{
  SelectorStore, cache_key, write_to_cache, save_to_postgres, save_selector, model_to_selector,
  new_model,
}

module _ {W Raw : Type 0} (s : SelectorStore W Raw) where
  -- Neither Redis nor the session raises.
  pub record Answers : Type 0 where
    pub gets : (key : String) → Returns (λ _. Unit) (s.redis.get key)
    pub sets : (key : String) (raw : Raw) → Returns (λ _. Unit) (s.redis.set key raw)
    pub selects : (d f : String) → Returns (λ _. Unit) (s.session.select_active d f)
    pub commits : Returns (λ _. Unit) s.session.commit

  module _ (answers : Answers) where
    save_to_postgres-Returns :
        (selector : Selector) → Returns (λ _. Unit) (save_to_postgres s selector)
    unfolding save_to_postgres
    save_to_postgres-Returns selector =
        Returns-bind (λ _. Unit) (λ _. Unit)
          (s.session.select_active selector.domain selector.field_name) _
          (answers.selects selector.domain selector.field_name)
          (λ previous _ w.
            Returns-bind (λ _. Unit) (λ _. Unit) s.session.commit
              (λ _. pure (model_to_selector (new_model selector previous))) answers.commits
              (λ _ _ v. (model_to_selector (new_model selector previous), v, refl, tt)) _)

    -- If neither Redis nor the session raises, a save of a selector returns in every world.
    pub save_selector-Returns :
        (selector : Selector) → Returns (λ _. Unit) (save_selector s selector)
    unfolding save_selector write_to_cache
    save_selector-Returns selector =
        Returns-bind (λ _. Unit) (λ _. Unit) (save_to_postgres s selector) (write_to_cache s)
          (save_to_postgres-Returns selector)
          (λ saved _. answers.sets (cache_key saved.domain saved.field_name) _)
