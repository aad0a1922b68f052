-- ===== src/Lib.antt =====
-- Bank ledger: a model of the double-entry ledger service in Go and its theorems.
--
-- The program keeps accounts and ledger entries in PostgreSQL. An HTTP request passes the middleware
-- chain of cmd/main.go (size limit, CORS, rate limits of internal/ratelimit/ratelimit.go, the token) and
-- the idempotency middleware (internal/api/middleware_idempotency.go) to a handler
-- (internal/api/handler.go), which checks the owner and calls the ledger service
-- (internal/service/ledger.go); that runs its statements (db/sqlc) in one serializable transaction, with
-- rollback and retry (internal/db/store.go).
--
--   Prelude     Boolean tests, integers and text (strings.TrimSpace, strconv.Atoi) over native numbers.
--   Errors      error values with their chain of %w: internal/service/ledger.go, internal/db/store.go.
--   Runtime     what is not in the repository: answers of the database, UUIDs, the clock, the context,
--               shopspring/decimal, and the laws of the numbers that the code relies on.
--   Exec        the monad of fallible steps over the tables, with rules for what a run ensures
--               (Exec/Ensures) and for runs over a database that answers (Exec/Runs).
--   Sqlc        db/sqlc and db/migrations: the row types, the tables and one function per query.
--               Sqlc/Querier is the interface of the queries, on the pool or in a transaction.
--               Sqlc/Sorting is ORDER BY, Sqlc/Entries/Pages the pages of an account's history.
--   Store       internal/db/store.go: ExecTx is `exec_tx`, execTxOnce is `exec_tx_once`, retryWait is
--               `retry_wait`, sleepWithContext is `sleep_with_context`. Store/Atomic is about what is
--               committed, Store/Retries about the loop, Store/Backoff about its waits.
--   Ledger      internal/service/ledger.go: Deposit, Withdraw, Transfer and ReconcileAccount are
--               `deposit`, `withdraw`, `transfer` and `reconcile_account`; the function that each runs
--               in its transaction ends in `_tx`. Ledger/Movement specifies a movement of money,
--               Ledger/Invariant and Ledger/Books the books, Ledger/Outcomes joins them with ExecTx,
--               Ledger/Progress is about runs that succeed, Ledger/Refusals about those that the balance
--               does not cover, Ledger/Accounts and Ledger/Reconciliation about the rest. Ledger/Steps is
--               the abstract bank, a step relation on the tables, with the rules for runs that follow
--               it, what clients of the queries rely on (Ledger/Steps/Pool) and what no step takes back
--               (Ledger/Steps/Lasting); Ledger/Steps/Sessions shows that
--               the commits of this program are such steps, so that it may run several times.
--               Ledger/Journal is the entries without their order.
--   Api         internal/api: Http (requests, responses), Mapper, Amount, Token, Auth (Register,
--               Login), Accounts, Money (Deposit, Withdraw, Transfer), Queries (GetEntries,
--               GetTransactions, ReconcileAccount) and Idempotency; each handler is named after its
--               method, with `_handler`. Api/Steps shows that each handler follows the abstract bank,
--               Api/Money/Success is about requests that go through, Api/Money/Verdicts about every request for
--               a transfer, Api/Queries/Access and
--               Api/Queries/Statement about who may read what, Api/Queries/Paging and Api/Queries/Offsets about
--               pages, Api/Idempotency/Interceptor is
--               responseBufferInterceptor, Api/Idempotency/Races is about two requests at the same time.
--   RateLimit   internal/ratelimit/ratelimit.go: `get_limiter`, `cleanup`, the two middlewares and
--               `match_path`, over a limiter of golang.org/x/time/rate that is a parameter.
--   Config      cmd/main.go: parseAllowedOrigins and validateEnvironment; Config/Database is
--               resolveDBURL.
--   Server      cmd/main.go: the routes, /health and /ready. Server/Chain is the middleware chain
--               (`serve` is one request), Server/Start what happens before it.
--               Server/Books is about the tables, Server/Journal about
--               the journal, Server/Sessions about several instances on one database, Server/Access and
--               Server/Passage about who gets through, Server/Once and Server/Twice about a request that
--               is sent again.
--   Docs        docs/docs.go, the OpenAPI document that /swagger shows: Docs/Paths are its paths, with
--               one operation each in Docs/Accounts, Docs/Money, Docs/Queries and Docs/Users, and
--               Docs/Definitions its objects. Docs/Answers and Docs/Handlers are about the responses of
--               each handler, Docs/Served about those of the server, Docs/Routes about the table of
--               routes, Docs/Bodies and Docs/Shapes about the structs of internal/api/dto.go as JSON.
--   Examples    a small bank for the examples, and the theorems at concrete inputs.
--
-- State. `World` holds the tables and a counter of steps. Each statement, BEGIN, COMMIT, ROLLBACK and
-- wait takes a step, and `Runtime` says for every step whether it fails, which UUID or time it yields,
-- in which order a query lists rows that its ORDER BY leaves equal, and what other sessions have
-- committed before a transaction, or a query outside of one, that begins there. A theorem for every `Runtime` is so one for every pattern of failures and interleavings of
-- transactions and queries. `Server` holds the two rate limiters and the `World`; a request is served at
-- a time that is given with it.
--
-- Libraries. `Runtime`, `Decimals`, `Web`, `Buckets` and `Platform` hold the functions of PostgreSQL,
-- google/uuid, decimal, encoding/json, bcrypt, jwtauth, chi, cors and rate that the code calls. Which
-- endpoint chi finds for a path, which claims jwtauth finds in a token and what cors answers to a
-- preflight request are so parameters; the table of routes and all options are the source's.
--
-- Numbers. NUMERIC(19,4) is an integer of ten-thousandths, and a statement that leaves the range of the
-- type fails. Decimals are a type of shopspring/decimal, given by its functions and by laws: rounding to
-- four places is monotone, and text is read back as it was written. An int32 is written with its wrap.
--
-- Loops. The loop of ExecTx is recursion on the attempts left, ten as in the source; that of retryWait
-- is recursion on the attempt. No function of the model runs out of fuel otherwise.
--
-- Simplifications. A serializable transaction runs alone on the tables that its BEGIN sees; where
-- PostgreSQL cannot arrange that, a statement or the COMMIT fails. A COMMIT that fails leaves nothing
-- behind. A query outside a transaction is one of its own (`on_pool`). UUIDs are numbers, `interface{}`
-- values are a data type with a constructor per case of the type switch. Logs and metrics, on which
-- nothing depends, are left out. A user deletion, which would cascade to accounts, is never asked for.
-- The server takes its requests one at a time, and what runs beside a request shows in what the database
-- answers to it. Three lines of cmd/main.go do not compile against internal/ratelimit, and chi refuses a
-- route that is added before the middleware, as /metrics is; the model takes these lines as they are
-- meant.
--
-- Not modelled: of cmd/main.go the logging, godotenv, which fills the environment, the options of the
-- pool and of http.Server, and the shutdown, since a program that panics in its set-up never gets there;
-- internal/api/metrics.go, which registers metrics, and the latency that Deposit and Transfer observe;
-- the rendering of the document in docs/docs.go, which swag does; WithTx of
-- db/sqlc/db.go, which nothing calls; and the tests.
pub mod Prelude
pub mod Errors
pub mod Runtime
pub mod Exec
pub mod Sqlc
pub mod Store
pub mod Ledger
pub mod Api
pub mod RateLimit
pub mod Config
pub mod Server
pub mod Docs
pub mod Examples
