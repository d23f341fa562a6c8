-- ===== src/Worker.antt =====
-- services/extraction-worker: the deterministic extraction pipeline, and the store of selectors.
pub mod Selector
pub mod Ports
pub mod Extract
pub mod SelectorStore
pub mod Schemas
pub mod Router
pub mod Playwright
pub mod InMemory
pub mod Dependencies
pub mod Production
