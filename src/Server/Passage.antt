-- ===== src/Server/Passage.antt =====
-- A request that the middleware chain of cmd/main.go passes on to its handler.
use go_bank_ledger.Prelude.{ℕ, ◌≡◌, refl, String, Option, none, some, true}
use go_bank_ledger.Sqlc.Tables.{World}
use go_bank_ledger.Runtime.{Runtime, Decimals}
use go_bank_ledger.RateLimit.{
  allow_client, client_id, allow_endpoint, get_client_id, middleware, endpoint_middleware,
}
use go_bank_ledger.Api.Http.{Web}
use go_bank_ledger.Server.{
  HttpRequest, Reply, GuardedEndpoint, guarded, Platform, routes, cors_options,
  request_size_limiter, visit_of, answer_reply, security_headers,
}
use go_bank_ledger.Server.Chain.{Server, Settings, tracked_endpoint, guard, route, serve}

module _ {Rate Limiter Decimal : Type 0} (platform : Platform Rate Limiter) (rt : Runtime)
    (dec : Decimals Decimal) (web : Web) (settings : Settings) where
  -- The request is for this endpoint, carries a token that the verifier accepts, with this claim, and
  -- meets no limit.
  pub record Passes (endpoint : GuardedEndpoint) (id : String) (user : Option String) (now : ℕ)
      (http : HttpRequest) (server : Server Rate Limiter) : Type 0 where
    pub no_preflight :
        platform.cors (cors_options settings.origins) (request_size_limiter http) ≡ none
    pub found : platform.find routes http.method http.path ≡ some (guarded endpoint, id)
    pub verified : platform.verify settings.token_auth http.authorization ≡ some user
    pub in_global_limit :
        (allow_client platform.buckets (client_id (visit_of http)) now server.global_limiter).0
        ≡ true
    pub in_endpoint_limit :
        (allow_endpoint platform.buckets http.path
          (get_client_id (visit_of http))
          now
          server.endpoint_limiter).0
        ≡ true

  -- The client gets the status and the body of the handler, and the tables are as it leaves them.
  pub record Reaches (inner : Reply × World) (outer : Reply × Server Rate Limiter) : Type 0 where
    pub status : outer.0.status ≡ inner.0.status
    pub body : outer.0.body ≡ inner.0.body
    pub world : outer.1.world ≡ inner.1

  pub serve-Reaches :
      (endpoint : GuardedEndpoint) (id : String) (user : Option String) (now : ℕ)
      (http : HttpRequest) (server : Server Rate Limiter)
      → Passes endpoint id user now http server
      → Reaches
          (tracked_endpoint platform rt dec web settings endpoint id user
            (request_size_limiter http)
            server.world)
          (serve platform rt dec web settings now http server)
  unfolding serve route guard middleware endpoint_middleware request_size_limiter security_headers
      answer_reply visit_of
  serve-Reaches endpoint id user now http server p =
      simp (p.no_preflight, p.found, p.verified, p.in_global_limit, p.in_endpoint_limit)
        (record { status = refl; body = refl; world = refl })
