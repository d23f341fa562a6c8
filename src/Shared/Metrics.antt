-- ===== src/Shared/Metrics.antt =====
-- sentinel_shared/observability/metrics.py: the metrics with their labels. A counter is increased by an
-- amount; the cost counter is in millionths of a dollar. Prometheus itself is the parameter `Monitor`.
use project4_sentinel_ai_scr.Base.{ℕ, String}

pub data Metric : Type 0 where
  extraction_duration_seconds extraction_result : String → String → Metric
  selector_cache_result recovery_attempt job_status : String → Metric
  recovery_duration_seconds ai_recovery_cost_usd : Metric

-- `inc` is `.labels(…).inc(amount)`, and `observe` is `.observe(elapsed)` of the time since the
-- start that the caller has kept.
pub record Monitor (W : Type 0) : Type 0 where
  pub inc : Metric → ℕ → W → W
  pub observe : Metric → W → W
