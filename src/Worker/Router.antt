-- ===== src/Worker/Router.antt =====
-- extraction_worker/interfaces/http/routers/extract_router.py, with the request bodies of schemas.py. The
-- encoding of the screenshot, `base64`, is a parameter.
use project4_sentinel_ai_scr.Base.{ℕ, String, ◌==◌, Option, List, if◌then◌else◌}
use project4_sentinel_ai_scr.Base.Dict.{Dict}
use project4_sentinel_ai_scr.Base.Exec.{Exec, pure, ◌>>=◌}
use project4_sentinel_ai_scr.Worker.Ports.{BrowserPort, SelectorRepository}
use project4_sentinel_ai_scr.Worker.Extract.{ExtractData, execute}
use project4_sentinel_ai_scr.Worker.Schemas.{ExtractResponseBody, from_attempt_result}

pub record ExtractRequestBody : Type 0 where
  pub url : String
  pub domain : String
  pub required_fields : List String
  pub selectors : Option (Dict String)

pub record SaveSelectorRequestBody : Type 0 where
  pub domain : String
  pub field_name : String
  pub selector_value : String
  pub source : String

module _ {W : Type 0} where
  unfoldable pub extract_endpoint : ExtractData W → ExtractRequestBody → Exec W ExtractResponseBody
  extract_endpoint u body = do
    result ← execute u body.url body.domain body.required_fields body.selectors
    pure (from_attempt_result result)

  unfoldable pub screenshot_endpoint : (List ℕ → String) → BrowserPort W → String → Exec W String
  screenshot_endpoint b64encode browser url = do
    raw_png ← browser.capture_screenshot url
    pure (b64encode raw_png)

  -- A new selector has the default version, 1.
  unfoldable pub save_selector_endpoint :
      SelectorRepository W → SaveSelectorRequestBody → Exec W (Unit {0})
  save_selector_endpoint repository body = repository.save_selector (record {
    domain = body.domain;
    field_name = body.field_name;
    selector_value = body.selector_value;
    source = if body.source == "ai_generated" then "ai_generated" else "manual";
    version = 1;
  })
