-- ===== src/Gateway/RateLimiter.antt =====
-- api_gateway/infrastructure/redis_rate_limiter.py: a fixed window on a Redis counter. Redis is a
-- parameter over a world `W`.
pub mod Window
use project4_sentinel_ai_scr.Base.{ℕ, String, ◌<>◌, Bool, leb, eqb, if◌then◌else◌}
use project4_sentinel_ai_scr.Base.Exec.{Exec, pure, ◌>>=◌, ◌>>◌}

pub record Counters (W : Type 0) : Type 0 where
  pub incr : String → Exec W ℕ
  pub expire : String → ℕ → Exec W (Unit {0})

pub record RateLimiter (W : Type 0) : Type 0 where
  pub redis : Counters W
  pub limit : ℕ
  pub window_seconds : ℕ

unfoldable pub rate_key : String → String
rate_key identifier = "ratelimit:" <> identifier

module _ {W : Type 0} (r : RateLimiter W) where
  abbrev pub start_window : ℕ → String → Exec W (Unit {0})
  start_window current_count key w =
      (if eqb current_count 1 then r.redis.expire key r.window_seconds else pure tt) w

  unfoldable pub is_allowed : String → Exec W Bool
  is_allowed identifier = do
    current_count ← r.redis.incr (rate_key identifier)
    start_window current_count (rate_key identifier)
    pure (leb current_count r.limit)
