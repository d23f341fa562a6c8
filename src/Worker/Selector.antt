-- ===== src/Worker/Selector.antt =====
-- extraction_worker/domain/selector.py
use project4_sentinel_ai_scr.Base.{ℕ, String}

-- A literal type, "manual" or "ai_generated", which Python does not check.
abbrev pub SelectorSource : Type 0
SelectorSource = String

pub record Selector : Type 0 where
  pub domain : String
  pub field_name : String
  pub selector_value : String
  pub source : SelectorSource
  pub version : ℕ
