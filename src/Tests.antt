-- ===== src/Tests.antt =====
-- The theorems at concrete worlds, requests and jobs.
mod GatewayRuns
mod ClaudeRuns
mod ExtractRuns
mod RowRuns
pub mod SelectorRuns
mod ProductionRuns
mod ConsumerRuns
mod SettlingRuns
mod ContractRuns
mod RecoveryRuns
pub mod SystemWorld
pub mod SystemLaws
mod SystemRuns
mod BrowserRuns
mod DemoRuns
