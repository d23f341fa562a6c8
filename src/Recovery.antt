-- ===== src/Recovery.antt =====
-- services/recovery-engine: the agent that repairs selectors after a failed extraction.
pub mod State
pub mod Ports
pub mod Nodes
pub mod Graph
pub mod Consumer
pub mod ClaudeVision
pub mod Engines
pub mod Main
