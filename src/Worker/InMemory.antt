-- ===== src/Worker/InMemory.antt =====
-- The Worker's doubles for its ports: extraction_worker/infrastructure/in_memory_selector_repository.py and
-- fake_browser.py. Their own state is the world.
pub mod Agreement
use project4_sentinel_ai_scr.Base.{
  ℕ, ◌+◌, String, ◌==◌, ◌&&◌, Option, none, some, List, [], ◌∷◌, if◌then◌else◌,
}
use project4_sentinel_ai_scr.Base.Dict.{Dict, lookup}
use project4_sentinel_ai_scr.Base.Exec.{Exec, ok}
use project4_sentinel_ai_scr.Worker.Selector.{Selector}
use project4_sentinel_ai_scr.Worker.Ports.{BrowserPort, SelectorRepository}

-- `dict[tuple[str, str], Selector]`
abbrev pub Selectors : Type 0
Selectors = List ((String × String) × Selector)

unfoldable pub find : String → String → Selectors → Option Selector
find d f [] = none
find d f (((a, b), selector) ∷ rest) = if (a == d) && (b == f) then some selector else find d f rest

unfoldable pub put : String → String → Selector → Selectors → Selectors
put d f selector [] = ((d, f), selector) ∷ []
put d f selector (((a, b), old) ∷ rest) =
    let later = put d f selector rest in
    if (a == d) && (b == f) then ((a, b), selector) ∷ rest else ((a, b), old) ∷ later

abbrev pub version_after : Option Selector → ℕ → ℕ
version_after none version = version
version_after (some previous) version = previous.version + 1

-- The state after `save_selector`.
unfoldable pub remember : Selector → Selectors → Selectors
remember selector selectors =
    put selector.domain selector.field_name
      (record selector {
        version =
            version_after (find selector.domain selector.field_name selectors) selector.version;
      })
      selectors

unfoldable pub in_memory_selector_repository : SelectorRepository Selectors
in_memory_selector_repository = record {
  get_active_selector = λ domain field_name w. (ok (find domain field_name w), w);
  save_selector = λ selector w. (ok tt, remember selector w);
}

-- `FakeBrowser`: the canned data, and what the last call was given.
pub record FakeBrowser : Type 0 where
  pub canned_response : Dict String
  pub canned_screenshot : List ℕ
  pub last_call_url : Option String
  pub last_call_selectors : Option (Dict String)

abbrev add_canned : String → Option String → Dict String → Dict String
add_canned field_name none rest = rest
add_canned field_name (some value) rest = (field_name, value) ∷ rest

-- `{field_name: canned[field_name] for field_name in selectors if field_name in canned}`
unfoldable pub canned_fields : Dict String → Dict String → Dict String
canned_fields canned [] = []
canned_fields canned ((field_name, selector) ∷ rest) =
    add_canned field_name (lookup field_name canned) (canned_fields canned rest)

unfoldable pub fake_browser : BrowserPort FakeBrowser
fake_browser = record {
  extract_fields = λ url selectors w. (
    ok (canned_fields w.canned_response selectors),
    record w { last_call_url = some url; last_call_selectors = some selectors },
  );
  capture_screenshot = λ url w. (ok w.canned_screenshot, record w { last_call_url = some url });
}
