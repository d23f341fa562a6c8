-- ===== src/Worker/Dependencies.antt =====
-- extraction_worker/interfaces/http/dependencies.py: the ports of the Worker in production.
use project4_sentinel_ai_scr.Base.{true}
use project4_sentinel_ai_scr.Shared.Metrics.{Monitor}
use project4_sentinel_ai_scr.Worker.Ports.{BrowserPort, SelectorRepository}
use project4_sentinel_ai_scr.Worker.Playwright.{Playwright, playwright_browser}
use project4_sentinel_ai_scr.Worker.SelectorStore.{Session, Redis, Json, selector_store}

-- `PlaywrightBrowser(headless=True)`, with the default of its other argument
unfoldable pub get_browser : {W Browser Page : Type 0} → Playwright W Browser Page → BrowserPort W
get_browser playwright =
    playwright_browser
      (record { playwright = playwright; headless = true; navigation_timeout_ms = 15000 })

unfoldable pub get_selector_repository :
    {W Raw : Type 0} → Session W → Redis W Raw → Json Raw → Monitor W → SelectorRepository W
get_selector_repository session redis json monitor =
    selector_store (record { session = session; redis = redis; json = json; monitor = monitor })
