-- ===== src/Server/Access.antt =====
-- What of a request the middleware chain of cmd/main.go lets through.
use go_bank_ledger.Prelude.{ℕ, ◌≡◌, refl, String, Option, none, some}
use go_bank_ledger.Sqlc.Tables.{World}
use go_bank_ledger.Runtime.{Runtime, Decimals}
use go_bank_ledger.RateLimit.{PerEndpointLimiter}
use go_bank_ledger.RateLimit.Gate.{middleware_keeps, middleware-map}
use go_bank_ledger.Api.Http.{Web}
use go_bank_ledger.Server.{
  HttpRequest, Reply, OpenEndpoint, GuardedEndpoint, open_to_all, guarded, Platform, routes,
  cors_options, request_size_limiter, visit_of,
}
use go_bank_ledger.Server.Chain.{Server, Settings, guard, route, behind_cors, serve}

module _ {Rate Limiter Decimal : Type 0} (platform : Platform Rate Limiter) (rt : Runtime)
    (dec : Decimals Decimal) (web : Web) (settings : Settings) where
  abbrev with_limiter :
      PerEndpointLimiter Rate Limiter
      → PerEndpointLimiter Rate Limiter × World
      → PerEndpointLimiter Rate Limiter × World
  with_limiter other (pel, w) = (other, w)

  route-open :
      (endpoint : OpenEndpoint) (id : String) (now : ℕ) (http : HttpRequest)
      (other : PerEndpointLimiter Rate Limiter) (s : PerEndpointLimiter Rate Limiter × World)
      → platform.find routes http.method http.path ≡ some (open_to_all endpoint, id)
      → let (reply, after) = route platform rt dec web settings now http s in
        route platform rt dec web settings now http (with_limiter other s)
        ≡ (reply, with_limiter other after)
  unfolding route
  route-open endpoint id now http other s found = simp found

  route-unauthorized :
      (endpoint : GuardedEndpoint) (id : String) (now : ℕ) (http : HttpRequest)
      (s : PerEndpointLimiter Rate Limiter × World)
      → platform.find routes http.method http.path ≡ some (guarded endpoint, id)
      → platform.verify settings.token_auth http.authorization ≡ none
      → (route platform rt dec web settings now http s).1.1 ≡ s.1
  unfolding route guard
  route-unauthorized endpoint id now http s found denied = simp (found, denied)

  behind_cors-open :
      (answer : Option Reply) (endpoint : OpenEndpoint) (id : String) (now : ℕ) (http : HttpRequest)
      (server : Server Rate Limiter) (other : PerEndpointLimiter Rate Limiter)
      → platform.find routes http.method http.path ≡ some (open_to_all endpoint, id)
      → let (reply, after) = behind_cors platform rt dec web settings answer now http server in
        behind_cors platform rt dec web settings answer now http
          (record server { endpoint_limiter = other })
        ≡ (reply, record after { endpoint_limiter = other })
  behind_cors-open (some reply) endpoint id now http server other found = refl
  behind_cors-open none endpoint id now http server other found =
      rw
        (middleware-map platform.buckets (with_limiter other)
          (route platform rt dec web settings now http)
          (route platform rt dec web settings now http) (visit_of http) now server.global_limiter
          (server.endpoint_limiter, server.world)
          (route-open endpoint id now http other (server.endpoint_limiter, server.world) found))
        refl

  -- The answer to a request for a public route, such as /login and /register, and all that it does to
  -- the server do not depend on the endpoint limiter, and do not change it: whatever limits are set
  -- for these routes, they are never asked.
  serve-unlimited :
      (endpoint : OpenEndpoint) (id : String) (now : ℕ) (http : HttpRequest)
      (server : Server Rate Limiter) (other : PerEndpointLimiter Rate Limiter)
      → platform.find routes http.method http.path ≡ some (open_to_all endpoint, id)
      → let (reply, after) = serve platform rt dec web settings now http server in
        serve platform rt dec web settings now http (record server { endpoint_limiter = other })
        ≡ (reply, record after { endpoint_limiter = other })
  unfolding serve request_size_limiter
  serve-unlimited endpoint id now http server other found =
      let sized = request_size_limiter http in
      rw
        (behind_cors-open (platform.cors (cors_options settings.origins) sized) endpoint id now
          sized server other found)
        refl

  behind_cors-unauthorized :
      (answer : Option Reply) (endpoint : GuardedEndpoint) (id : String) (now : ℕ)
      (http : HttpRequest) (server : Server Rate Limiter)
      → platform.find routes http.method http.path ≡ some (guarded endpoint, id)
      → platform.verify settings.token_auth http.authorization ≡ none
      → (behind_cors platform rt dec web settings answer now http server).1.world ≡ server.world
  behind_cors-unauthorized (some reply) endpoint id now http server found denied = refl
  behind_cors-unauthorized none endpoint id now http server found denied =
      middleware_keeps platform.buckets
        (λ (s : PerEndpointLimiter Rate Limiter × World). s.1 ≡ server.world)
        (route platform rt dec web settings now http) (visit_of http) now server.global_limiter
        (server.endpoint_limiter, server.world) refl
        (route-unauthorized endpoint id now http (server.endpoint_limiter, server.world) found
          denied)

  -- A request for a protected route whose token the verifier refuses reaches no handler: the database
  -- is not asked and stays as it is.
  pub serve-unauthorized :
      (endpoint : GuardedEndpoint) (id : String) (now : ℕ) (http : HttpRequest)
      (server : Server Rate Limiter)
      → platform.find routes http.method http.path ≡ some (guarded endpoint, id)
      → platform.verify settings.token_auth http.authorization ≡ none
      → (serve platform rt dec web settings now http server).1.world ≡ server.world
  unfolding serve request_size_limiter
  serve-unauthorized endpoint id now http server found denied =
      let sized = request_size_limiter http in
      behind_cors-unauthorized (platform.cors (cors_options settings.origins) sized) endpoint id now
        sized server found denied
