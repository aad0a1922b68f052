-- ===== src/Server/Chain.antt =====
-- cmd/main.go: what each route does, behind the middleware of its group and of the server.
use go_bank_ledger.Prelude.{ℕ, ◌+◌, ◌*◌, String, Option, none, some, List, [], ◌∷◌, ◌+++◌}
use go_bank_ledger.Errors.{Error, error_text}
use go_bank_ledger.Sqlc.Tables.{World}
use go_bank_ledger.Runtime.{Runtime, Decimals}
use go_bank_ledger.RateLimit.{
  RateLimiter, PerEndpointLimiter, minute, middleware, endpoint_middleware, new_rate_limiter,
  new_per_endpoint_limiter, set_endpoint_rate,
}
use go_bank_ledger.Api.Http.{Web, respond}
use go_bank_ledger.Api.Auth.{register, login}
use go_bank_ledger.Api.Accounts.{create_account_handler, list_accounts_handler, get_account_handler}
use go_bank_ledger.Api.Money.{deposit_handler, withdraw_handler, transfer_handler}
use go_bank_ledger.Api.Queries.{get_entries_handler, get_transactions_handler, reconcile_handler}
use go_bank_ledger.Api.Idempotency.{Next, idempotency_middleware}
use go_bank_ledger.Server.{
  HttpRequest, Reply, OpenEndpoint, GuardedEndpoint, Endpoint, open_to_all, guarded, Platform,
  routes, cors_options, json_type, to_reply, answer_reply, security_headers, request_size_limiter,
  visit_of, request_of,
}

-- The state of the running server.
pub record Server (Rate Limiter : Type 0) : Type 0 where
  pub global_limiter : RateLimiter Rate Limiter
  pub endpoint_limiter : PerEndpointLimiter Rate Limiter
  pub world : World

-- What stays as the start has set it: the key in `TokenAuth` and the origins for CORS.
pub record Settings : Type 0 where
  pub token_auth : Option String
  pub origins : List String

module _ {Rate Limiter : Type 0} (platform : Platform Rate Limiter) where
  -- The limiters that `main` makes. It calls a constructor without arguments that is not there; the
  -- default rate and burst stand for what that would choose.
  unfoldable pub new_server : Rate → ℕ → World → Server Rate Limiter
  new_server default_rate default_burst w = record {
    global_limiter = new_rate_limiter platform.buckets (platform.limit 100) 50 (10 * minute);
    endpoint_limiter =
        set_endpoint_rate platform.buckets "/accounts/*" (platform.limit 200) 100 (5 * minute) (
          set_endpoint_rate platform.buckets "/register" (platform.limit 3) 2 (30 * minute) (
            set_endpoint_rate platform.buckets "/login" (platform.limit 5) 3 (15 * minute)
              (new_per_endpoint_limiter platform.buckets default_rate default_burst)));
    world = w;
  }

  -- The body and the status of GET /health, by the answer to the ping.
  abbrev health_reply : Option Error → ℕ → Reply
  health_reply none now = record {
    status = 200;
    headers = json_type ∷ [];
    body = platform.encode_health (record {
      status = "healthy";
      version = "1.0.0";
      uptime = platform.uptime now;
      database = "connected";
    });
  }
  -- The header is set after WriteHeader, too late to be sent.
  health_reply (some e) now = record {
    status = 503;
    headers = [];
    body = platform.encode_health (record {
      status = "unhealthy";
      version = "1.0.0";
      uptime = platform.uptime now;
      database = "failed: " +++ error_text e;
    });
  }

  abbrev ready_reply : Option Error → Reply
  ready_reply none = record { status = 200; headers = []; body = "ready" }
  ready_reply (some e) = record { status = 503; headers = []; body = "database not ready" }

  module _ {Decimal : Type 0} (rt : Runtime) (dec : Decimals Decimal) (web : Web)
      (settings : Settings) where
    unfoldable pub open_endpoint : OpenEndpoint → ℕ → HttpRequest → World → Reply × World
    open_endpoint OpenEndpoint.metrics now http w = (platform.metrics_page, w)
    open_endpoint OpenEndpoint.register now http w =
        let (r, w') = respond (register rt web settings.token_auth (request_of http "" none)) w in
        (to_reply r, w')
    open_endpoint OpenEndpoint.login now http w =
        let (r, w') = respond (login rt web settings.token_auth (request_of http "" none)) w in
        (to_reply r, w')
    open_endpoint OpenEndpoint.health now http w =
        (health_reply (rt.fault w.tick) now, record w { tick = w.tick + 1 })
    open_endpoint OpenEndpoint.ready now http w =
        (ready_reply (rt.fault w.tick), record w { tick = w.tick + 1 })
    open_endpoint OpenEndpoint.swagger_redirect now http w =
        (platform.redirect 301 "/swagger/index.html", w)
    open_endpoint OpenEndpoint.swagger now http w = (platform.swagger_page http, w)

    unfoldable pub guarded_endpoint : GuardedEndpoint → Next
    guarded_endpoint GuardedEndpoint.create_account req =
        respond (create_account_handler rt web req)
    guarded_endpoint GuardedEndpoint.list_accounts req = respond (list_accounts_handler rt web req)
    guarded_endpoint GuardedEndpoint.get_account req = respond (get_account_handler rt web req)
    guarded_endpoint GuardedEndpoint.deposit req = respond (deposit_handler rt dec web req)
    guarded_endpoint GuardedEndpoint.withdraw req = respond (withdraw_handler rt dec web req)
    guarded_endpoint GuardedEndpoint.transfer req = respond (transfer_handler rt dec web req)
    guarded_endpoint GuardedEndpoint.get_entries req = respond (get_entries_handler rt web req)
    guarded_endpoint GuardedEndpoint.reconcile req = respond (reconcile_handler rt dec web req)
    guarded_endpoint GuardedEndpoint.get_transactions req =
        respond (get_transactions_handler rt web req)

    -- Behind the authenticator: the idempotency middleware around the handler.
    unfoldable pub tracked_endpoint :
        GuardedEndpoint → String → Option String → HttpRequest → World → Reply × World
    unfolding guarded_endpoint
    tracked_endpoint endpoint id user http w =
        let (r, w') =
          idempotency_middleware rt web (guarded_endpoint endpoint) (request_of http id (some user))
            w in
        (to_reply r, w')

    -- Behind Verifier, which yields the claims, if any: Authenticator, the endpoint limiter, the rest.
    abbrev pub authenticated :
        Option (Option String)
        → GuardedEndpoint
        → String
        → ℕ
        → HttpRequest
        → PerEndpointLimiter Rate Limiter × World
        → Reply × (PerEndpointLimiter Rate Limiter × World)
    authenticated none endpoint id now http s = (platform.unauthorized http, s)
    authenticated (some user) endpoint id now http s =
        let (answer, s') =
          endpoint_middleware platform.buckets (tracked_endpoint endpoint id user http)
            (visit_of http) now s in
        (answer_reply answer, s')

    -- The group of protected routes.
    unfoldable pub guard :
        GuardedEndpoint
        → String
        → ℕ
        → HttpRequest
        → PerEndpointLimiter Rate Limiter × World
        → Reply × (PerEndpointLimiter Rate Limiter × World)
    unfolding tracked_endpoint
    guard endpoint id now http s =
        authenticated (platform.verify settings.token_auth http.authorization) endpoint id now http
          s

    abbrev pub on_route :
        Option (Endpoint × String)
        → ℕ
        → HttpRequest
        → PerEndpointLimiter Rate Limiter × World
        → Reply × (PerEndpointLimiter Rate Limiter × World)
    on_route none now http s = (platform.not_found http, s)
    on_route (some (open_to_all endpoint, id)) now http (pel, w) =
        let (reply, w') = open_endpoint endpoint now http w in (reply, (pel, w'))
    on_route (some (guarded endpoint, id)) now http s = guard endpoint id now http s

    unfoldable pub route :
        ℕ
        → HttpRequest
        → PerEndpointLimiter Rate Limiter × World
        → Reply × (PerEndpointLimiter Rate Limiter × World)
    unfolding open_endpoint guard
    route now http s = on_route (platform.find routes http.method http.path) now http s

    abbrev pub behind_cors :
        Option Reply → ℕ → HttpRequest → Server Rate Limiter → Reply × Server Rate Limiter
    behind_cors (some reply) now http server = (reply, server)
    behind_cors none now http server =
        let (answer, (gl, (pel, w))) =
          middleware platform.buckets (route now http) (visit_of http) now
            (server.global_limiter, (server.endpoint_limiter, server.world)) in
        (answer_reply answer, record { global_limiter = gl; endpoint_limiter = pel; world = w })

    -- One request at the time `now`. Recoverer, RequestID and the logger pass it on.
    unfoldable pub serve : ℕ → HttpRequest → Server Rate Limiter → Reply × Server Rate Limiter
    unfolding route
    serve now http server =
        let sized = request_size_limiter http in
        let (reply, after) =
          behind_cors (platform.cors (cors_options settings.origins) sized) now sized server in
        (security_headers reply, after)

    -- Requests one after the other, each with its time.
    unfoldable pub serve_all : List (ℕ × HttpRequest) → Server Rate Limiter → Server Rate Limiter
    unfolding serve
    serve_all [] server = server
    serve_all ((now, http) ∷ rest) server = serve_all rest (serve now http server).1
