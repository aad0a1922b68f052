-- ===== src/Server/Books.antt =====
-- Whatever the server of cmd/main.go is asked, it does nothing to the tables but steps of the bank.
use go_bank_ledger.Prelude.{
  ℕ, String, Option, none, some, List, [], ◌∷◌, ◌≡◌, refl, pos, ◌+ℤ◌, arith,
}
use go_bank_ledger.Sqlc.Tables.{AccountRow, Tables, World}
use go_bank_ledger.Sqlc.Accounts.{find_account}
use go_bank_ledger.Sqlc.Accounts.Lookup.{total_balance}
use go_bank_ledger.Sqlc.Entries.{ledger_balance}
use go_bank_ledger.Sqlc.Entries.Sums.{net_of_transaction}
use go_bank_ledger.Runtime.{Runtime, Decimals, NumericLaws}
use go_bank_ledger.RateLimit.{PerEndpointLimiter}
use go_bank_ledger.Ledger.Steps.{IsBank, Steps-IsBank, Steps, here, Steps-trans}
use go_bank_ledger.Ledger.Steps.Follows.{Follows}
use go_bank_ledger.Ledger.Steps.Pool.{FollowsBank, pool-FollowsBank}
use go_bank_ledger.Sqlc.Querier.{new, pool}
use go_bank_ledger.Ledger.Steps.Lasting.{Lasting, Steps-Lasting}
use go_bank_ledger.Api.Http.{Web, Response, Handler, respond}
use go_bank_ledger.Api.Steps.{
  register-Follows, login-Follows, create_account_handler-Follows, list_accounts_handler-Follows,
  get_account_handler-Follows, get_entries_handler-Follows, get_transactions_handler-Follows,
  reconcile_handler-Follows, deposit_handler-Follows, withdraw_handler-Follows,
  transfer_handler-Follows,
}
use go_bank_ledger.RateLimit.Gate.{middleware_keeps, endpoint_middleware_keeps}
use go_bank_ledger.Api.Idempotency.Steps.{NextSteps, idempotency_middleware-Steps}
use go_bank_ledger.Server.{
  HttpRequest, Reply, OpenEndpoint, GuardedEndpoint, Endpoint, open_to_all, guarded, Platform,
  routes, cors_options, visit_of, request_size_limiter,
}
use go_bank_ledger.Server.Chain.{
  Server, Settings, open_endpoint, guarded_endpoint, tracked_endpoint, authenticated, guard,
  on_route, route, behind_cors, serve, serve_all,
}

respond-Steps :
    (m : Handler Response) → Follows m → (w : World) → Steps w.tables (respond m w).1.tables
unfolding respond
respond-Steps m h w = h.at w

-- The tables after db/migrations.
abbrev pub migrated : AccountRow → Tables
migrated settlement = record {
  accounts = settlement ∷ [];
  entries = [];
  users = [];
  idempotency_keys = [];
}

pub migrated-IsBank :
    (settlement : AccountRow) → settlement.balance ≡ pos 0 → IsBank (migrated settlement)
unfolding find_account total_balance ledger_balance net_of_transaction ◌+ℤ◌
migrated-IsBank settlement zero = record {
  ledger = record {
    unique = (refl, tt);
    reconciled = λ id r e. ground arith;
    covered = λ id r e user. ground arith;
    balanced = λ tx. refl;
    zero_sum = rw zero refl;
    single_sided = tt;
    referenced = tt;
  };
  users = tt;
  keys = tt;
}

module _ {Rate Limiter Decimal : Type 0} (platform : Platform Rate Limiter) {rt : Runtime}
    {dec : Decimals Decimal} (laws : NumericLaws rt dec) (web : Web) (settings : Settings)
    (others_step : (n : ℕ) (T : Tables) → Steps T (rt.others n T)) where
  bank : FollowsBank (new rt pool)
  bank = pool-FollowsBank rt others_step

  guarded_endpoint-Steps :
      (endpoint : GuardedEndpoint)
      → NextSteps (guarded_endpoint platform rt dec web settings endpoint)
  unfolding guarded_endpoint
  guarded_endpoint-Steps GuardedEndpoint.create_account req =
      respond-Steps _ (create_account_handler-Follows rt web bank req)
  guarded_endpoint-Steps GuardedEndpoint.list_accounts req =
      respond-Steps _ (list_accounts_handler-Follows rt web bank req)
  guarded_endpoint-Steps GuardedEndpoint.get_account req =
      respond-Steps _ (get_account_handler-Follows rt web bank req)
  guarded_endpoint-Steps GuardedEndpoint.deposit req =
      respond-Steps _ (deposit_handler-Follows laws web others_step req)
  guarded_endpoint-Steps GuardedEndpoint.withdraw req =
      respond-Steps _ (withdraw_handler-Follows laws web others_step req)
  guarded_endpoint-Steps GuardedEndpoint.transfer req =
      respond-Steps _ (transfer_handler-Follows laws web others_step req)
  guarded_endpoint-Steps GuardedEndpoint.get_entries req =
      respond-Steps _ (get_entries_handler-Follows rt web bank req)
  guarded_endpoint-Steps GuardedEndpoint.reconcile req =
      respond-Steps _ (reconcile_handler-Follows laws web others_step req)
  guarded_endpoint-Steps GuardedEndpoint.get_transactions req =
      respond-Steps _ (get_transactions_handler-Follows rt web bank req)

  open_endpoint-Steps :
      (endpoint : OpenEndpoint) (now : ℕ) (http : HttpRequest) (w : World)
      → Steps w.tables (open_endpoint platform rt dec web settings endpoint now http w).1.tables
  unfolding open_endpoint
  open_endpoint-Steps OpenEndpoint.metrics now http w = here
  open_endpoint-Steps OpenEndpoint.register now http w =
      respond-Steps _ (register-Follows rt web bank settings.token_auth _) w
  open_endpoint-Steps OpenEndpoint.login now http w =
      respond-Steps _ (login-Follows rt web bank settings.token_auth _) w
  open_endpoint-Steps OpenEndpoint.health now http w = here
  open_endpoint-Steps OpenEndpoint.ready now http w = here
  open_endpoint-Steps OpenEndpoint.swagger_redirect now http w = here
  open_endpoint-Steps OpenEndpoint.swagger now http w = here

  tracked_endpoint-Steps :
      (endpoint : GuardedEndpoint) (id : String) (user : Option String) (http : HttpRequest)
      (w : World)
      → Steps w.tables
          (tracked_endpoint platform rt dec web settings endpoint id user http w).1.tables
  unfolding tracked_endpoint
  tracked_endpoint-Steps endpoint id user http w =
      idempotency_middleware-Steps rt web bank _ (guarded_endpoint-Steps endpoint) _ w

  authenticated-Steps :
      (claims : Option (Option String)) (endpoint : GuardedEndpoint) (id : String) (now : ℕ)
      (http : HttpRequest) (pel : PerEndpointLimiter Rate Limiter) (w : World)
      → Steps w.tables
          (authenticated platform rt dec web settings claims endpoint id now http
            (pel, w)).1.1.tables
  authenticated-Steps none endpoint id now http pel w = here
  authenticated-Steps (some user) endpoint id now http pel w =
      endpoint_middleware_keeps platform.buckets (λ (v : World). Steps w.tables v.tables)
        (tracked_endpoint platform rt dec web settings endpoint id user http) (visit_of http) now
        pel w here (tracked_endpoint-Steps endpoint id user http w)

  guard-Steps :
      (endpoint : GuardedEndpoint) (id : String) (now : ℕ) (http : HttpRequest)
      (pel : PerEndpointLimiter Rate Limiter) (w : World)
      → Steps w.tables (guard platform rt dec web settings endpoint id now http (pel, w)).1.1.tables
  unfolding guard
  guard-Steps endpoint id now http pel w =
      authenticated-Steps (platform.verify settings.token_auth http.authorization) endpoint id now
        http pel w

  on_route-Steps :
      (target : Option (Endpoint × String)) (now : ℕ) (http : HttpRequest)
      (pel : PerEndpointLimiter Rate Limiter) (w : World)
      → Steps w.tables (on_route platform rt dec web settings target now http (pel, w)).1.1.tables
  on_route-Steps none now http pel w = here
  on_route-Steps (some (open_to_all endpoint, id)) now http pel w =
      open_endpoint-Steps endpoint now http w
  on_route-Steps (some (guarded endpoint, id)) now http pel w =
      guard-Steps endpoint id now http pel w

  behind_cors-Steps :
      (answer : Option Reply) (now : ℕ) (http : HttpRequest) (server : Server Rate Limiter)
      → Steps server.world.tables
          (behind_cors platform rt dec web settings answer now http server).1.world.tables
  unfolding route
  behind_cors-Steps (some reply) now http server = here
  behind_cors-Steps none now http server =
      middleware_keeps platform.buckets
        (λ (s : PerEndpointLimiter Rate Limiter × World). Steps server.world.tables s.1.tables)
        (route platform rt dec web settings now http) (visit_of http) now server.global_limiter
        (server.endpoint_limiter, server.world) here
        (on_route-Steps (platform.find routes http.method http.path) now http
          server.endpoint_limiter server.world)

  -- Each request, to whatever route and with whatever outcome, takes the tables through finitely many
  -- steps of the bank (deposits, withdrawals, transfers, new accounts, users and saved answers), if
  -- other sessions do.
  serve-Steps :
      (now : ℕ) (http : HttpRequest) (server : Server Rate Limiter)
      → Steps server.world.tables
          (serve platform rt dec web settings now http server).1.world.tables
  unfolding serve
  serve-Steps now http server =
      behind_cors-Steps (platform.cors (cors_options settings.origins) (request_size_limiter http))
        now (request_size_limiter http) server

  pub serve_all-Steps :
      (traffic : List (ℕ × HttpRequest)) (server : Server Rate Limiter)
      → Steps server.world.tables
          (serve_all platform rt dec web settings traffic server).world.tables
  unfolding serve_all
  serve_all-Steps [] server = here
  serve_all-Steps ((now, http) ∷ rest) server =
      Steps-trans (serve-Steps now http server)
        (serve_all-Steps rest (serve platform rt dec web settings now http server).1)

  -- On the tables that the migrations leave, whose only row is the settlement account at 0, every
  -- sequence of requests leaves a bank that is right, if other sessions only take steps of the bank:
  -- balances are the sums of their entries, only system accounts are overdrawn, the debits and
  -- credits of each transaction cancel, all balances add up to 0, and ids, emails and keys are unique.
  pub serve_all-IsBank :
      (settlement : AccountRow) (traffic : List (ℕ × HttpRequest)) (server : Server Rate Limiter)
      → settlement.balance ≡ pos 0
      → server.world.tables ≡ migrated settlement
      → IsBank (serve_all platform rt dec web settings traffic server).world.tables
  serve_all-IsBank settlement traffic server zero fresh =
      Steps-IsBank (serve_all-Steps traffic server) (rw fresh (migrated-IsBank settlement zero))

  -- Whatever the server is asked, it takes nothing back: the entries so far stay the oldest ones, in
  -- their order, and every account, user and saved answer that could be found is found again as it
  -- was, an account at most with another balance, if other sessions only take steps of the bank.
  pub serve_all-Lasting :
      (traffic : List (ℕ × HttpRequest)) (server : Server Rate Limiter)
      → Lasting server.world.tables
          (serve_all platform rt dec web settings traffic server).world.tables
  serve_all-Lasting traffic server = Steps-Lasting (serve_all-Steps traffic server)
