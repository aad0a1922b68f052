-- ===== src/RateLimit/Gate.antt =====
-- What the two middlewares of internal/ratelimit/ratelimit.go do to the state behind them.
use go_bank_ledger.Prelude.{ℕ, ◌≡◌, Bool-cases, inl, inr}
use go_bank_ledger.RateLimit.{
  Buckets, Visit, RateLimiter, PerEndpointLimiter, client_id, get_client_id, allow_client,
  allow_endpoint, middleware, endpoint_middleware,
}

-- What both limiters let through is the next handler, and what they refuse is nothing.
module _ {Rate Limiter : Type 0} (buckets : Buckets Rate Limiter) {W R : Type 0} (P : W → Type 0)
    (after : W → R × W) (visit : Visit) (now : ℕ) where
  pub middleware_keeps :
      (rl : RateLimiter Rate Limiter) (w : W)
      → P w
      → P (after w).1
      → P (middleware buckets after visit now (rl, w)).1.1
  unfolding middleware
  middleware_keeps rl w h k = elim (Bool-cases (allow_client buckets (client_id visit) now rl).0) [
    | inl allowed ↦ simp allowed k
    | inr refused ↦ simp refused h
  ]

  pub endpoint_middleware_keeps :
      (pel : PerEndpointLimiter Rate Limiter) (w : W)
      → P w
      → P (after w).1
      → P (endpoint_middleware buckets after visit now (pel, w)).1.1
  unfolding endpoint_middleware
  endpoint_middleware_keeps pel w h k =
      elim (Bool-cases (allow_endpoint buckets visit.path (get_client_id visit) now pel).0) [
        | inl allowed ↦ simp allowed k
        | inr refused ↦ simp refused h
      ]

-- Two handlers that agree up to `g` give the same answers behind the limiter.
pub middleware-map :
    {Rate Limiter W V R : Type 0} (buckets : Buckets Rate Limiter) (g : W → V) (after : W → R × W)
    (other : V → R × V) (visit : Visit) (now : ℕ) (rl : RateLimiter Rate Limiter) (w : W)
    → other (g w) ≡ ((after w).0, g (after w).1)
    → let (answer, (rl', w')) = middleware buckets after visit now (rl, w) in
      middleware buckets other visit now (rl, g w) ≡ (answer, (rl', g w'))
unfolding middleware
middleware-map buckets g after other visit now rl w same =
    elim (Bool-cases (allow_client buckets (client_id visit) now rl).0) [
      | inl allowed ↦ simp (allowed, same)
      | inr refused ↦ simp refused
    ]
