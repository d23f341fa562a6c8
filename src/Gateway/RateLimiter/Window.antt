-- ===== src/Gateway/RateLimiter/Window.antt =====
-- How many requests a window lets through.
use Prim.Native.Nat.{min}
use mathlib.Core.Path.{ap₂}
use project4_sentinel_ai_scr.Base.{
  ℕ, zero, suc, ◌+◌, ◌-◌, String, ◌≡◌, ap, sym, ◌∙◌, leb→le, leb→lt, Bool, true, false, Option,
  some, List, [], ◌∷◌, arith, leb, eqb, Bool-cases, inl, inr, if◌then◌else◌,
}
use project4_sentinel_ai_scr.Base.Exec.{Exec, ok, continue-eq-ok, ok-eq-ok, pure, ◌>>=◌}
use project4_sentinel_ai_scr.Gateway.RateLimiter.{RateLimiter, rate_key, start_window, is_allowed}

-- What Redis holds: the counters, and the seconds that a key was given to live.
pub record View (W : Type 0) : Type 0 where
  pub count : W → String → ℕ
  pub ttl : W → String → Option ℕ

first_count : (k : ℕ) → eqb (k + 1) 1 ≡ eqb k 0
first_count k = ground arith

abbrev pub passed : List Bool → ℕ
passed [] = 0
passed (true ∷ rest) = suc (passed rest)
passed (false ∷ rest) = passed rest

-- One more answer, by the count that decides it.
passed_step :
    (allowed : Bool) (rest : List Bool) (n c limit : ℕ)
    → allowed ≡ leb (c + 1) limit
    → passed rest ≡ min n (limit - (c + 1))
    → passed (allowed ∷ rest) ≡ min (suc n) (limit - c)
passed_step true rest n c limit e h = omega (arith, leb→le (c + 1) limit (sym e))
passed_step false rest n c limit e h = omega (arith, leb→lt (c + 1) limit (sym e))

module _ {W : Type 0} (r : RateLimiter W) where
  -- The answers to `n` requests of one client, one after another.
  unfoldable pub burst : ℕ → String → Exec W (List Bool)
  burst zero identifier = pure []
  burst (suc n) identifier = do
    allowed ← is_allowed r identifier
    rest ← burst n identifier
    pure (allowed ∷ rest)

module _ {W : Type 0} (view : View W) (r : RateLimiter W) where
  open view use {count, ttl}

  -- The documented INCR and EXPIRE, while no key expires.
  pub record IsLawful : Type 0 where
    pub incr_done :
        (key : String) (w v : W) (n : ℕ)
        → r.redis.incr key w ≡ (ok n, v)
        → (n ≡ count w key + 1) × (count v key ≡ n) × (ttl v key ≡ ttl w key)
    pub expire_done :
        (key : String) (seconds : ℕ) (w v : W)
        → r.redis.expire key seconds w ≡ (ok tt, v)
        → (count v key ≡ count w key) × (ttl v key ≡ some seconds)

  module _ (lawful : IsLawful) where
    started :
        (n : ℕ) (key : String) (w v : W)
        → start_window r n key w ≡ (ok tt, v)
        → (count v key ≡ count w key)
          × (ttl v key ≡ (if eqb n 1 then some r.window_seconds else ttl w key))
    started n key w v h = elim (Bool-cases (eqb n 1)) [
      | inl first ↦
          let (c, t) = lawful.expire_done key r.window_seconds w v (rw first at h) in
          (c, rw first t)
      | inr later ↦
          let e : w ≡ v = ap (λ x. x.1) (rw later at h) in
          (ap (λ x. count x key) (sym e), rw later (ap (λ x. ttl x key) (sym e)))
    ]

    -- Let INCR and EXPIRE behave as documented. A request that returns an answer counts itself, is
    -- let through exactly if the count is within the limit, and sets the time to live only if it
    -- is the first of its window.
    pub is_allowed_lem :
        (identifier : String) (w v : W) (allowed : Bool)
        → is_allowed r identifier w ≡ (ok allowed, v)
        → let key = rate_key identifier in
          (count v key ≡ count w key + 1)
          × (allowed ≡ leb (count w key + 1) r.limit)
          × (ttl v key ≡ (if eqb (count w key) 0 then some r.window_seconds else ttl w key))
    unfolding is_allowed
    is_allowed_lem identifier w v allowed h =
        let key = rate_key identifier in
        let (n, w₁, counted, h₁) = continue-eq-ok (r.redis.incr key w) _ h in
        let (_, w₂, opened, h₂) = continue-eq-ok (start_window r n key w₁) _ h₁ in
        let (fresh, held, lives) = lawful.incr_done key w w₁ n counted in
        let (same, set) = started n key w₁ w₂ opened in
        let (verdict, end) = ok-eq-ok h₂ in
        (
          ap (λ x. count x key) (sym end) ∙ same ∙ held ∙ fresh,
          sym verdict ∙ ap (λ k. leb k r.limit) fresh,
          ap (λ x. ttl x key) (sym end)
              ∙ set
              ∙ ap₂ (λ b t. if b then some r.window_seconds else t)
                  (ap (λ k. eqb k 1) fresh ∙ first_count (count w key)) lives,
        )

    -- Let INCR and EXPIRE behave as documented. If `n` requests of a client are all answered in
    -- one window, whose counter is at `c` before them, just as many pass as the limit has left,
    -- `limit - c`, or all `n` of them; and the counter then is at `c + n`.
    pub passed-burst :
        (n : ℕ) (identifier : String) (w v : W) (answers : List Bool)
        → burst r n identifier w ≡ (ok answers, v)
        → (passed answers ≡ min n (r.limit - count w (rate_key identifier)))
          × (count v (rate_key identifier) ≡ count w (rate_key identifier) + n)
    unfolding burst
    passed-burst zero identifier w v answers h =
        let (none_asked, end) = ok-eq-ok h in
        (rw (← none_asked) (omega arith), rw (← end) (omega arith))
    passed-burst (suc n) identifier w v answers h =
        let key = rate_key identifier in
        let (allowed, w₁, asked, h₁) = continue-eq-ok (is_allowed r identifier w) _ h in
        let (rest, w₂, more, h₂) = continue-eq-ok (burst r n identifier w₁) _ h₁ in
        let (all, end) = ok-eq-ok h₂ in
        let (counted, verdict, lives) = is_allowed_lem identifier w w₁ allowed asked in
        let (others, total) = passed-burst n identifier w₁ w₂ rest more in
        (
          rw (← all) (
              passed_step allowed rest n (count w key) r.limit verdict
                (others ∙ ap (λ c. min n (r.limit - c)) counted)),
          ap (λ x. count x key) (sym end) ∙ total ∙ omega (arith, counted),
        )
