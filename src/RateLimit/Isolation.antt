-- ===== src/RateLimit/Isolation.antt =====
-- Clients of one `RateLimiter` of internal/ratelimit/ratelimit.go do not use up each other's tokens.
use go_bank_ledger.Prelude.{
  ℕ, ◌≡◌, refl, String, str_eq, eq_iff, Bool, true, false, Option, none, some, List, [], ◌∷◌,
  if◌then◌else◌, Bool-cases, inl, inr,
}
use text.Mathlib.TextPositions.{eq_refl}
use mathlib.Core.Path.{ap₂}
use go_bank_ledger.RateLimit.{
  Buckets, ClientLimiter, RateLimiter, limiter_from, get_limiter, set_client, allow_client, cleanup,
  kept,
}

-- What happens to a limiter: a request of a client, or a round of `cleanup`, each with its time.
pub data Event : Type 0 where
  visit : String → ℕ → Event
  sweep : ℕ → Event

unfoldable pub concerns : String → Event → Bool
concerns id (visit other now) = str_eq id other
concerns id (sweep now) = true

unfoldable pub seen_by : String → List Event → List Event
unfolding concerns
seen_by id [] = []
seen_by id (e ∷ es) = let rest = seen_by id es in if concerns id e then e ∷ rest else rest

module _ {Rate Limiter : Type 0} (lib : Buckets Rate Limiter) where
  -- What `Allow` answers to the client `id` along the events.
  unfoldable pub answers : String → List Event → RateLimiter Rate Limiter → List Bool
  answers id [] rl = []
  answers id (visit other now ∷ es) rl =
      let (allowed, rl') = allow_client lib other now rl in
      let rest = answers id es rl' in if str_eq id other then allowed ∷ rest else rest
  answers id (sweep now ∷ es) rl = answers id es (cleanup lib now rl)

  -- Two limiters that treat the client `id` alike.
  record Alike (id : String) (a b : RateLimiter Rate Limiter) : Type 0 where
    clients : a.clients id ≡ b.clients id
    rate : a.rate ≡ b.rate
    burst : a.burst ≡ b.burst
    ttl : a.ttl ≡ b.ttl

  abbrev found_limiter : Option (ClientLimiter Limiter) → Rate → ℕ → Limiter
  found_limiter none r burst = lib.new_limiter r burst
  found_limiter (some client) r burst = client.limiter

  limiter_from-eq :
      (o : Option (ClientLimiter Limiter)) (id : String) (now : ℕ) (rl : RateLimiter Rate Limiter)
      → let limiter = found_limiter o rl.rate rl.burst in
        limiter_from lib o id now rl
        ≡ (limiter, set_client lib id (record { limiter = limiter; last_seen = now }) rl)
  limiter_from-eq none id now rl = refl
  limiter_from-eq (some client) id now rl = refl

  get_limiter-eq :
      (id : String) (now : ℕ) (rl : RateLimiter Rate Limiter)
      → let limiter = found_limiter (rl.clients id) rl.rate rl.burst in
        get_limiter lib id now rl
        ≡ (limiter, set_client lib id (record { limiter = limiter; last_seen = now }) rl)
  unfolding get_limiter
  get_limiter-eq id now rl = limiter_from-eq (rl.clients id) id now rl

  other_visit :
      (id other : String) (now : ℕ) (a b : RateLimiter Rate Limiter)
      → str_eq id other ≡ false
      → Alike id a b
      → Alike id (allow_client lib other now a).1 b
  unfolding allow_client set_client
  other_visit id other now a b differ h =
      rw (get_limiter-eq other now a)
        (record { clients = simp differ h.clients; rate = h.rate; burst = h.burst; ttl = h.ttl })

  same_visit :
      (id : String) (now : ℕ) (a b : RateLimiter Rate Limiter)
      → Alike id a b
      → ((allow_client lib id now a).0 ≡ (allow_client lib id now b).0)
        × Alike id (allow_client lib id now a).1 (allow_client lib id now b).1
  unfolding allow_client set_client
  same_visit id now a b h =
      rw (get_limiter-eq id now a, get_limiter-eq id now b)
        (
          simp (h.clients, h.rate, h.burst),
          record {
            clients = simp (eq_refl id, h.clients, h.rate, h.burst);
            rate = h.rate;
            burst = h.burst;
            ttl = h.ttl;
          },
        )

  same_sweep :
      (id : String) (now : ℕ) (a b : RateLimiter Rate Limiter)
      → Alike id a b
      → Alike id (cleanup lib now a) (cleanup lib now b)
  unfolding cleanup
  same_sweep id now a b h = record {
    clients = ap₂ (kept lib now) h.ttl h.clients;
    rate = h.rate;
    burst = h.burst;
    ttl = h.ttl;
  }

  answers-Alike :
      (id : String) (es : List Event) (a b : RateLimiter Rate Limiter)
      → Alike id a b
      → answers id es a ≡ answers id (seen_by id es) b
  unfolding answers seen_by concerns
  answers-Alike id [] a b h = refl
  answers-Alike id (visit other now ∷ es) a b h = elim (Bool-cases (str_eq id other)) [
    | inl same ↦
        let here : id ≡ other = (eq_iff id other).0 same in
        rw (same, same)
          (rw (← here) (
            let (answer, after) = same_visit id now a b h in
            ap₂ (λ (x : Bool) (xs : List Bool). x ∷ xs) answer (answers-Alike id es _ _ after)))
    | inr differ ↦ rw differ (answers-Alike id es _ b (other_visit id other now a b differ h))
  ]
  answers-Alike id (sweep now ∷ es) a b h = answers-Alike id es _ _ (same_sweep id now a b h)

  -- What `Allow` answers to a client along any sequence of requests and of rounds of `cleanup` does
  -- not depend on the requests of other clients: without them the answers are the same.
  pub answers-isolated :
      (id : String) (es : List Event) (rl : RateLimiter Rate Limiter)
      → answers id es rl ≡ answers id (seen_by id es) rl
  answers-isolated id es rl =
      answers-Alike id es rl rl (record { clients = refl; rate = refl; burst = refl; ttl = refl })
