-- ===== src/Worker/Ports.antt =====
-- extraction_worker/domain/ports: the browser and the store of selectors, over a world `W`.
use project4_sentinel_ai_scr.Base.{ℕ, String, Option, List}
use project4_sentinel_ai_scr.Base.Dict.{Dict}
use project4_sentinel_ai_scr.Base.Exec.{Exec}
use project4_sentinel_ai_scr.Worker.Selector.{Selector}

pub record BrowserPort (W : Type 0) : Type 0 where
  pub extract_fields : String → Dict String → Exec W (Dict String)
  pub capture_screenshot : String → Exec W (List ℕ)  -- bytes

pub record SelectorRepository (W : Type 0) : Type 0 where
  pub get_active_selector : String → String → Exec W (Option Selector)
  pub save_selector : Selector → Exec W (Unit {0})
