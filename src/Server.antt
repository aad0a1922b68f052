-- ===== src/Server.antt =====
-- cmd/main.go: the middleware chain, the routes and the handlers that it defines.
pub mod Chain
pub mod Books
pub mod Once
pub mod Start
pub mod Access
pub mod Passage
pub mod Twice
pub mod Sessions
pub mod Journal
use go_bank_ledger.Prelude.{
  ℕ, String, Bool, true, false, Option, none, some, List, [], ◌∷◌, ◌++◌, if◌then◌else◌,
}
use Prim.Native.String.{slice}
use go_bank_ledger.RateLimit.{Buckets, Visit, Answer, too_many, passed}
use go_bank_ledger.Api.Http.{Request, Response}

-- What the server reads of a request.
pub record HttpRequest : Type 0 where
  pub method : String
  pub path : String
  pub authorization : String
  pub remote_addr : String
  pub api_key : String
  pub forwarded_for : String
  pub x_idempotency_key : String
  pub idempotency_key : String
  pub limit : String
  pub offset : String
  pub body : String

-- The headers are those that the code sets.
pub record Reply : Type 0 where
  pub status : ℕ
  pub headers : List (String × String)
  pub body : String

pub data OpenEndpoint : Type 0 where
  metrics register login health ready swagger_redirect swagger : OpenEndpoint

pub data GuardedEndpoint : Type 0 where
  create_account list_accounts get_account deposit withdraw transfer get_entries reconcile
        get_transactions :
      GuardedEndpoint

-- A route is in the group behind jwtauth, or outside of it.
pub data Endpoint : Type 0 where
  open_to_all : OpenEndpoint → Endpoint
  guarded : GuardedEndpoint → Endpoint

pub record CorsOptions : Type 0 where
  pub allowed_origins : List String
  pub allowed_methods : List String
  pub allowed_headers : List String
  pub exposed_headers : List String
  pub allow_credentials : Bool
  pub max_age : ℕ

-- The body of /health.
pub record Health : Type 0 where
  pub status : String
  pub version : String
  pub uptime : String
  pub database : String

-- chi, go-chi/cors, jwtauth, promhttp, httpSwagger, net/http and encoding/json. `find` yields the
-- endpoint with the value of {id}; `verify` is what Verifier leaves in the context for the key, as
-- in `Request`; `cors` answers a preflight request; what it adds to other
-- replies is left out.
pub record Platform (Rate Limiter : Type 0) : Type 0 where
  pub buckets : Buckets Rate Limiter
  pub limit : ℕ → Rate
  pub find : List (String × String × Endpoint) → String → String → Option (Endpoint × String)
  pub not_found : HttpRequest → Reply
  pub cors : CorsOptions → HttpRequest → Option Reply
  pub verify : Option String → String → Option (Option String)
  pub unauthorized : HttpRequest → Reply
  pub metrics_page : Reply
  pub swagger_page : HttpRequest → Reply
  pub redirect : ℕ → String → Reply
  pub uptime : ℕ → String
  pub encode_health : Health → String

abbrev pub routes : List (String × String × Endpoint)
routes =
    ("*", "/metrics", open_to_all metrics)
    ∷ ("POST", "/register", open_to_all register)
    ∷ ("POST", "/login", open_to_all login)
    ∷ ("GET", "/health", open_to_all health)
    ∷ ("GET", "/ready", open_to_all ready)
    ∷ ("GET", "/swagger", open_to_all swagger_redirect)
    ∷ ("*", "/swagger/*", open_to_all swagger)
    ∷ ("POST", "/accounts", guarded create_account)
    ∷ ("GET", "/accounts", guarded list_accounts)
    ∷ ("GET", "/accounts/{id}", guarded get_account)
    ∷ ("POST", "/accounts/{id}/deposit", guarded deposit)
    ∷ ("POST", "/accounts/{id}/withdraw", guarded withdraw)
    ∷ ("POST", "/transfers", guarded transfer)
    ∷ ("GET", "/accounts/{id}/entries", guarded get_entries)
    ∷ ("GET", "/accounts/{id}/reconcile", guarded reconcile)
    ∷ ("GET", "/transactions/{id}", guarded get_transactions)
    ∷ []

abbrev pub cors_options : List String → CorsOptions
cors_options origins = record {
  allowed_origins = origins;
  allowed_methods = "GET" ∷ "POST" ∷ "PUT" ∷ "DELETE" ∷ "OPTIONS" ∷ [];
  allowed_headers = "Accept" ∷ "Authorization" ∷ "Content-Type" ∷ [];
  exposed_headers = "Link" ∷ "X-Cache-Idempotency" ∷ [];
  allow_credentials = true;
  max_age = 300;
}

abbrev pub json_type : String × String
json_type = ("Content-Type", "application/json")

unfoldable pub to_reply : Response → Reply
to_reply r = record {
  status = r.status;
  headers = if r.cache_hit then ("X-Cache-Idempotency", "HIT") ∷ json_type ∷ [] else json_type ∷ [];
  body = r.body;
}

-- `http.Error` with 429 for a refusal, and the headers of the limiter before the handler's.
unfoldable pub answer_reply : Answer Reply → Reply
answer_reply (too_many headers text) = record { status = 429; headers = headers; body = text }
answer_reply (passed headers reply) = record reply { headers = headers ++ reply.headers }

-- `securityHeaders`
unfoldable pub security_headers : Reply → Reply
security_headers reply = record reply {
  headers =
      ("X-Content-Type-Options", "nosniff")
      ∷ ("X-Frame-Options", "DENY")
      ∷ ("X-XSS-Protection", "1; mode=block")
      ∷ ("Referrer-Policy", "strict-origin-when-cross-origin")
      ∷ reply.headers;
}

-- `requestSizeLimiter`: what can be read of the body. A decoder fails on a text that is cut off.
unfoldable pub request_size_limiter : HttpRequest → HttpRequest
request_size_limiter http = record http { body = slice http.body 0 1048576 }

-- No code puts "user_id" into the context.
unfoldable pub visit_of : HttpRequest → Visit
visit_of http = record {
  remote_addr = http.remote_addr;
  api_key = http.api_key;
  forwarded_for = http.forwarded_for;
  user = none;
  path = http.path;
}

unfoldable pub request_of : HttpRequest → String → Option (Option String) → Request
request_of http id claims = record {
  method = http.method;
  path_id = id;
  limit = http.limit;
  offset = http.offset;
  x_idempotency_key = http.x_idempotency_key;
  idempotency_key = http.idempotency_key;
  claims = claims;
  body = http.body;
}
