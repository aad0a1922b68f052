-- ===== src/Docs/Served.antt =====
-- What the server of cmd/main.go answers is what docs/docs.go says.
use go_bank_ledger.Prelude.{ℕ, String, ◌≡◌, refl, true, false, none, ap, Option, some, Bool, arith}
use go_bank_ledger.Sqlc.Models.{Uuid, IdempotencyKey}
use go_bank_ledger.Sqlc.Tables.{World}
use go_bank_ledger.Runtime.{Runtime, Decimals}
use go_bank_ledger.Api.Http.{Web, Request, Response}
use go_bank_ledger.Api.Idempotency.{Next, user_of}
use go_bank_ledger.Exec.{ok}
use go_bank_ledger.Server.{
  HttpRequest, Endpoint, OpenEndpoint, GuardedEndpoint, open_to_all, guarded, routes, cors_options,
  visit_of, security_headers, answer_reply, Platform, to_reply, request_size_limiter, request_of,
}
use go_bank_ledger.Server.Chain.{
  Server, Settings, open_endpoint, guarded_endpoint, tracked_endpoint, serve, route,
}
use go_bank_ledger.Server.Passage.{Passes, serve-Reaches}
use go_bank_ledger.Api.Idempotency.Origin.{
  sought, Tracked, answered, saved, idempotency_middleware-Tracked,
}
use go_bank_ledger.Docs.{Operation}
use go_bank_ledger.Docs.Answers.{Documented}
use go_bank_ledger.Docs.Handlers.{
  create_account_handler-Answers, list_accounts_handler-Answers, get_account_handler-Answers,
  get_entries_handler-Answers, register-Answers, login-Answers, get_transactions_handler-Answers,
  reconcile_handler-Answers, deposit_handler-Answers, withdraw_handler-Answers,
  transfer_handler-Answers,
}
use go_bank_ledger.Docs.Routes.{operation_of, described}
use go_bank_ledger.Docs.Users.{register_doc, login_doc}
use go_bank_ledger.RateLimit.{allow_client, client_id, middleware}
use mathlib.Core.Option.{some-injective}

module _ {Rate Limiter Decimal : Type 0} (platform : Platform Rate Limiter) (rt : Runtime)
    (dec : Decimals Decimal) (web : Web) (settings : Settings) where
  pub guarded_endpoint-Documented :
      (endpoint : GuardedEndpoint) (req : Request) (w : World)
      → Documented
          (operation_of endpoint)
          web
          (guarded_endpoint platform rt dec web settings endpoint req w).0
  unfolding guarded_endpoint
  guarded_endpoint-Documented GuardedEndpoint.create_account req w =
      (create_account_handler-Answers rt web req).at w
  guarded_endpoint-Documented GuardedEndpoint.list_accounts req w =
      (list_accounts_handler-Answers rt web req).at w
  guarded_endpoint-Documented GuardedEndpoint.get_account req w =
      (get_account_handler-Answers rt web req).at w
  guarded_endpoint-Documented GuardedEndpoint.deposit req w =
      (deposit_handler-Answers rt dec web req).at w
  guarded_endpoint-Documented GuardedEndpoint.withdraw req w =
      (withdraw_handler-Answers rt dec web req).at w
  guarded_endpoint-Documented GuardedEndpoint.transfer req w =
      (transfer_handler-Answers rt dec web req).at w
  guarded_endpoint-Documented GuardedEndpoint.get_entries req w =
      (get_entries_handler-Answers rt web req).at w
  guarded_endpoint-Documented GuardedEndpoint.reconcile req w =
      (reconcile_handler-Answers rt dec web req).at w
  guarded_endpoint-Documented GuardedEndpoint.get_transactions req w =
      (get_transactions_handler-Answers rt web req).at w

module _ (op : Operation) (rt : Runtime) (web : Web) (req : Request) (w : World) where
  -- The client is told what the document says, or what is saved for the same user, key and body.
  pub data Told (status : ℕ) (body : String) : Type 0 where
    documented :
        (response : Response)
        → Documented op web response
        → status ≡ response.status
        → body ≡ response.body
        → Told status body
    replayed :
        (user : Uuid) (key : IdempotencyKey)
        → user_of rt req.claims ≡ some user
        → sought rt web req user w ≡ ok key
        → status ≡ key.response_code
        → body ≡ key.response_body
        → Told status body

  Tracked-Told :
      (next : Next) {status : ℕ} {body : String} {response : Response}
      → ((w' : World) → Documented op web (next req w').0)
      → Tracked rt web next req w response
      → status ≡ response.status
      → body ≡ response.body
      → Told status body
  Tracked-Told next h (answered w') = documented (next req w').0 (h w')
  Tracked-Told next h (saved {user} {key} claimed found) = replayed user key claimed found

module _ {Rate Limiter Decimal : Type 0} (platform : Platform Rate Limiter) (rt : Runtime)
    (dec : Decimals Decimal) (web : Web) (settings : Settings) where
  -- The request meets no limit, is for the endpoint, and for a guarded one carries a token that the
  -- verifier accepts; it gets to the handler in this form.
  pub data Admitted (now : ℕ) (http : HttpRequest) (server : Server Rate Limiter)
      : Endpoint → Request → Type 0 where
    past_guard :
        {endpoint : GuardedEndpoint} {id : String} {user : Option String}
        → Passes platform rt dec web settings endpoint id user now http server
        → Admitted now http server
            (guarded endpoint)
            (request_of (request_size_limiter http) id (some user))
    in_the_open :
        {endpoint : OpenEndpoint} {id : String}
        → platform.cors (cors_options settings.origins) (request_size_limiter http) ≡ none
        → platform.find routes http.method http.path ≡ some (open_to_all endpoint, id)
        → (allow_client platform.buckets (client_id (visit_of http)) now server.global_limiter).0
          ≡ true
        → Admitted now http server
            (open_to_all endpoint)
            (request_of (request_size_limiter http) "" none)

  past_guard-Told :
      (endpoint : GuardedEndpoint) (id : String) (user : Option String) (now : ℕ)
      (http : HttpRequest) (server : Server Rate Limiter)
      → Passes platform rt dec web settings endpoint id user now http server
      → Told
          (operation_of endpoint)
          rt
          web
          (request_of (request_size_limiter http) id (some user))
          server.world
          (serve platform rt dec web settings now http server).0.status
          (serve platform rt dec web settings now http server).0.body
  unfolding tracked_endpoint to_reply
  past_guard-Told endpoint id user now http server p =
      let reaches = serve-Reaches platform rt dec web settings endpoint id user now http server p in
      let req = request_of (request_size_limiter http) id (some user) in
      let next = guarded_endpoint platform rt dec web settings endpoint in
      Tracked-Told (operation_of endpoint) rt web req server.world next
        (guarded_endpoint-Documented platform rt dec web settings endpoint req)
        (idempotency_middleware-Tracked rt web next req server.world) reaches.status reaches.body

  -- What the handler of an open endpoint answers goes to the client.
  open_endpoint-Told :
      (endpoint : OpenEndpoint) (op : Operation) (behind : Bool) (now : ℕ) (http : HttpRequest)
      (w : World)
      → described (open_to_all endpoint) ≡ some (op, behind)
      → Told op rt web
          (request_of http "" none)
          w
          (open_endpoint platform rt dec web settings endpoint now http w).0.status
          (open_endpoint platform rt dec web settings endpoint now http w).0.body
  unfolding open_endpoint to_reply
  open_endpoint-Told OpenEndpoint.register op behind now http w e =
      rw (← ap (λ pair. pair.0) (some-injective (register_doc, false) (op, behind) e)) (
        documented _ ((register-Answers rt web settings.token_auth (request_of http "" none)).at w)
          refl refl)
  open_endpoint-Told OpenEndpoint.login op behind now http w e =
      rw (← ap (λ pair. pair.0) (some-injective (login_doc, false) (op, behind) e)) (
        documented _ ((login-Answers rt web settings.token_auth (request_of http "" none)).at w)
          refl refl)
  open_endpoint-Told OpenEndpoint.metrics op behind now http w e = grind arith
  open_endpoint-Told OpenEndpoint.health op behind now http w e = grind arith
  open_endpoint-Told OpenEndpoint.ready op behind now http w e = grind arith
  open_endpoint-Told OpenEndpoint.swagger_redirect op behind now http w e = grind arith
  open_endpoint-Told OpenEndpoint.swagger op behind now http w e = grind arith

  in_the_open-Told :
      (endpoint : OpenEndpoint) (id : String) (op : Operation) (behind : Bool) (now : ℕ)
      (http : HttpRequest) (server : Server Rate Limiter)
      → described (open_to_all endpoint) ≡ some (op, behind)
      → platform.cors (cors_options settings.origins) (request_size_limiter http) ≡ none
      → platform.find routes http.method http.path ≡ some (open_to_all endpoint, id)
      → (allow_client platform.buckets (client_id (visit_of http)) now server.global_limiter).0
        ≡ true
      → Told op rt web
          (request_of (request_size_limiter http) "" none)
          server.world
          (serve platform rt dec web settings now http server).0.status
          (serve platform rt dec web settings now http server).0.body
  unfolding serve route middleware security_headers answer_reply visit_of request_size_limiter
  in_the_open-Told endpoint id op behind now http server e no_preflight found in_limit =
      simp (no_preflight, found, in_limit)
        (open_endpoint-Told endpoint op behind now (request_size_limiter http) server.world e)

  -- The server answers a request for a documented endpoint as the document says of its operation: the
  -- status is listed, and the body is what is encoded of the object, or the array, that is listed with
  -- it. The only other answers are those that are saved for the user under the request's idempotency
  -- key and body. The request meets no limit and, for a guarded endpoint, carries a valid token.
  pub serve-documented :
      (endpoint : Endpoint) (op : Operation) (behind : Bool) (now : ℕ) (http : HttpRequest)
      (server : Server Rate Limiter) (req : Request)
      → described endpoint ≡ some (op, behind)
      → Admitted now http server endpoint req
      → Told op rt web req server.world
          (serve platform rt dec web settings now http server).0.status
          (serve platform rt dec web settings now http server).0.body
  serve-documented _ op behind now http server _ e (past_guard {endpoint} {id} {user} p) =
      rw (← ap (λ pair. pair.0) (some-injective (operation_of endpoint, true) (op, behind) e))
        (past_guard-Told endpoint id user now http server p)
  serve-documented _ op behind now http server _ e
        (in_the_open {endpoint} {id} no_preflight found in_limit) =
      in_the_open-Told endpoint id op behind now http server e no_preflight found in_limit
