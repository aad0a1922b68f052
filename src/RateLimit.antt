-- ===== src/RateLimit.antt =====
-- internal/ratelimit/ratelimit.go: a token bucket per client, for all requests or per endpoint.
use Prim.Native.Char.{code}
use go_bank_ledger.Prelude.{
  ℕ, ◌-◌, ◌*◌, String, ◌+++◌, str_eq, Bool, true, false, ◌&&◌, ◌||◌, Option, none, some, List, [],
  ◌∷◌, ◌==◌, ltb, if◌then◌else◌,
}
use go_bank_ledger.Prelude.Text.{is_empty}
use text.Mathlib.Text.{starts_with}
pub mod Isolation
pub mod Paths
pub mod Gate

-- golang.org/x/time/rate: a new limiter, and `Allow` at a time with the limiter that it leaves. The
-- last field is Go's conversion `string(rune(n))`.
pub record Buckets (Rate Limiter : Type 0) : Type 0 where
  pub new_limiter : Rate → ℕ → Limiter
  pub allow : ℕ → Limiter → Bool × Limiter
  pub rune_string : ℕ → String

pub record ClientLimiter (Limiter : Type 0) : Type 0 where
  pub limiter : Limiter
  pub last_seen : ℕ

-- `clients` is the map from client ids; times are nanoseconds.
pub record RateLimiter (Rate Limiter : Type 0) : Type 0 where
  pub clients : String → Option (ClientLimiter Limiter)
  pub rate : Rate
  pub burst : ℕ
  pub ttl : ℕ

-- What both middlewares read of a request. `user` is the value "user_id" of the context, a string.
pub record Visit : Type 0 where
  pub remote_addr : String
  pub api_key : String
  pub forwarded_for : String
  pub user : Option String
  pub path : String

-- An answer with 429, or the next handler's, with the headers that the middleware has set.
pub data Answer (R : Type 0) : Type 0 where
  too_many : List (String × String) → String → Answer R
  passed : List (String × String) → R → Answer R

abbrev pub minute : ℕ
minute = 60 * 1000000000

-- The id in `RateLimiter.Middleware`.
unfoldable pub client_id : Visit → String
client_id visit = elim visit.user [
  | some user ↦ "user:" +++ user
  | none ↦ if is_empty visit.api_key then visit.remote_addr else "api:" +++ visit.api_key
]

-- `getClientID`
unfoldable pub get_client_id : Visit → String
get_client_id visit = elim visit.user [
  | some user ↦ "user:" +++ user
  | none ↦
      "ip:" +++ (if is_empty visit.forwarded_for then visit.remote_addr else visit.forwarded_for)
]

unfoldable pub ends_with_star : String → Bool
ends_with_star String.[] = false
ends_with_star (String.◌∷◌ c s) = if is_empty s then code c == b'*' else ends_with_star s

-- `s[:len(s)-1]` of a text that ends with an ASCII character.
unfoldable pub without_last : String → String
without_last String.[] = String.[]
without_last (String.◌∷◌ c s) =
    let rest = without_last s in if is_empty s then String.[] else String.◌∷◌ c rest

-- `matchPath`; the test of the length and of the slice is that for a prefix.
unfoldable pub match_path : String → String → Bool
unfolding ends_with_star without_last
match_path pattern path =
    str_eq pattern path || ends_with_star pattern && starts_with path (without_last pattern)

module _ {Rate Limiter : Type 0} (lib : Buckets Rate Limiter) where
  -- `NewRateLimiter`, without its goroutine: `cleanup` is one round of that.
  unfoldable pub new_rate_limiter : Rate → ℕ → ℕ → RateLimiter Rate Limiter
  new_rate_limiter r burst ttl = record { clients = λ id. none; rate = r; burst = burst; ttl = ttl }

  unfoldable pub set_client :
      String → ClientLimiter Limiter → RateLimiter Rate Limiter → RateLimiter Rate Limiter
  set_client id client rl = record rl {
    clients = λ other. if str_eq other id then some client else rl.clients other;
  }

  -- The two branches of `getLimiter`, on what the map holds.
  abbrev pub limiter_from :
      Option (ClientLimiter Limiter)
      → String
      → ℕ
      → RateLimiter Rate Limiter
      → Limiter × RateLimiter Rate Limiter
  limiter_from (some client) id now rl =
      (client.limiter, set_client id (record { limiter = client.limiter; last_seen = now }) rl)
  limiter_from none id now rl =
      let limiter = lib.new_limiter rl.rate rl.burst in
      (limiter, set_client id (record { limiter = limiter; last_seen = now }) rl)

  -- `getLimiter`: the limiter that the pointer points to, and the map after the call.
  unfoldable pub get_limiter :
      String → ℕ → RateLimiter Rate Limiter → Limiter × RateLimiter Rate Limiter
  unfolding set_client
  get_limiter id now rl = limiter_from (rl.clients id) id now rl

  -- `getLimiter(id).Allow()`: the pointer leads `Allow` to the limiter in the map.
  unfoldable pub allow_client :
      String → ℕ → RateLimiter Rate Limiter → Bool × RateLimiter Rate Limiter
  unfolding get_limiter set_client
  allow_client id now rl =
      let (limiter, found) = get_limiter id now rl in
      let (allowed, left) = lib.allow now limiter in
      (allowed, set_client id (record { limiter = left; last_seen = now }) found)

  abbrev pub kept : ℕ → ℕ → Option (ClientLimiter Limiter) → Option (ClientLimiter Limiter)
  kept now ttl none = none
  kept now ttl (some client) = if ltb ttl (now - client.last_seen) then none else some client

  -- One round of `cleanup`.
  unfoldable pub cleanup : ℕ → RateLimiter Rate Limiter → RateLimiter Rate Limiter
  cleanup now rl = record rl { clients = λ id. kept now rl.ttl (rl.clients id) }

  -- `RateLimiter.Middleware`, with `next` as a step on the state `W` behind it.
  unfoldable pub middleware :
      {W R : Type 0}
      → (W → R × W)
      → Visit
      → ℕ
      → RateLimiter Rate Limiter × W
      → Answer R × (RateLimiter Rate Limiter × W)
  unfolding allow_client
  middleware next visit now (rl, w) =
      let (allowed, rl') = allow_client (client_id visit) now rl in
      let limit : String × String = ("X-RateLimit-Limit", lib.rune_string rl.burst) in
      if allowed then (let (r, w') = next w in (passed (limit ∷ []) r, (rl', w'))) else (
        too_many (limit ∷ ("X-RateLimit-Remaining", "0") ∷ ("Retry-After", "1") ∷ [])
            "Too many requests",
        (rl', w),
      )

-- `limiters` in the order in which `range` gives them.
pub record PerEndpointLimiter (Rate Limiter : Type 0) : Type 0 where
  pub limiters : List (String × RateLimiter Rate Limiter)
  pub defaults : RateLimiter Rate Limiter

module _ {Rate Limiter : Type 0} (lib : Buckets Rate Limiter) where
  unfoldable pub new_per_endpoint_limiter : Rate → ℕ → PerEndpointLimiter Rate Limiter
  new_per_endpoint_limiter r burst = record {
    limiters = [];
    defaults = new_rate_limiter lib r burst (10 * minute);
  }

  unfoldable pub set_endpoint :
      String
      → RateLimiter Rate Limiter
      → List (String × RateLimiter Rate Limiter)
      → List (String × RateLimiter Rate Limiter)
  set_endpoint pattern rl [] = (pattern, rl) ∷ []
  set_endpoint pattern rl ((p, l) ∷ ls) =
      let rest = set_endpoint pattern rl ls in
      if str_eq p pattern then (p, rl) ∷ ls else (p, l) ∷ rest

  -- `SetEndpointRate`
  unfoldable pub set_endpoint_rate :
      String → Rate → ℕ → ℕ → PerEndpointLimiter Rate Limiter → PerEndpointLimiter Rate Limiter
  set_endpoint_rate pattern r burst ttl pel = record pel {
    limiters = set_endpoint pattern (new_rate_limiter lib r burst ttl) pel.limiters;
  }

  -- `Allow` at the first limiter whose pattern matches, or at the default one.
  unfoldable pub allow_first :
      String
      → String
      → ℕ
      → List (String × RateLimiter Rate Limiter)
      → Option (Bool × List (String × RateLimiter Rate Limiter))
  allow_first path id now [] = none
  allow_first path id now ((p, l) ∷ ls) =
      let rest = allow_first path id now ls in
      if match_path p path
      then (let (allowed, l') = allow_client lib id now l in some (allowed, (p, l') ∷ ls))
      else elim rest [ none ↦ none | some (allowed, ls') ↦ some (allowed, (p, l) ∷ ls') ]

  unfoldable pub allow_endpoint :
      String → String → ℕ → PerEndpointLimiter Rate Limiter → Bool × PerEndpointLimiter Rate Limiter
  unfolding allow_first
  allow_endpoint path id now pel = elim (allow_first path id now pel.limiters) [
    | some (allowed, ls) ↦ (allowed, record pel { limiters = ls })
    | none ↦
        let (allowed, rl) = allow_client lib id now pel.defaults in
        (allowed, record pel { defaults = rl })
  ]

  -- `PerEndpointLimiter.Middleware`
  unfoldable pub endpoint_middleware :
      {W R : Type 0}
      → (W → R × W)
      → Visit
      → ℕ
      → PerEndpointLimiter Rate Limiter × W
      → Answer R × (PerEndpointLimiter Rate Limiter × W)
  unfolding allow_endpoint
  endpoint_middleware next visit now (pel, w) =
      let (allowed, pel') = allow_endpoint visit.path (get_client_id visit) now pel in
      if allowed
      then (let (r, w') = next w in (passed [] r, (pel', w')))
      else (too_many [] "Rate limit exceeded. Please try again later.", (pel', w))
