-- ===== src/Examples/Requests.antt =====
-- The theorems on the server at concrete requests.
use go_bank_ledger.Prelude.{ℕ, ◌≡◌, refl, none, some, List, [], ◌∷◌, pos}
use go_bank_ledger.Sqlc.Tables.{AccountRow}
use go_bank_ledger.Ledger.Steps.{here}
use go_bank_ledger.Ledger.Steps.Lasting.{Lasting}
use go_bank_ledger.Server.{HttpRequest, Reply, GuardedEndpoint, guarded, Platform}
use go_bank_ledger.Server.Access.{serve-unauthorized}
use go_bank_ledger.Server.Chain.{Settings, new_server, serve, serve_all}
use go_bank_ledger.Server.Books.{serve_all-Lasting}
use go_bank_ledger.Examples.Middleware.{tokens}
use go_bank_ledger.Examples.Bank.{bank, decimals, bank_laws, settlement, web, start}

abbrev page : ℕ → Reply
page status = record { status = status; headers = []; body = "" }

-- Every request is a deposit to account 2 by user 7.
abbrev pub platform : Platform Unit ℕ
platform = record {
  buckets = tokens;
  limit = λ n. tt;
  find = λ table method path. some (guarded GuardedEndpoint.deposit, "+11");
  not_found = λ http. page 404;
  cors = λ options http. none;
  verify = λ key header. some (some "+1111111");
  unauthorized = λ http. page 401;
  metrics_page = page 200;
  swagger_page = λ http. page 200;
  redirect = λ status to. page status;
  uptime = λ now. "";
  encode_health = λ health. health.status;
}

abbrev pub settings : Settings
settings = record { token_auth = some "secret"; origins = [] }

abbrev pub deposit_request : HttpRequest
deposit_request = record {
  method = "POST";
  path = "/accounts/+11/deposit";
  authorization = "Bearer t";
  remote_addr = "10.0.0.1:9";
  api_key = "";
  forwarded_for = "";
  x_idempotency_key = "k1";
  idempotency_key = "";
  limit = "";
  offset = "";
  body = "+111";
}

abbrev pub traffic : List (ℕ × HttpRequest)
traffic = (5, deposit_request) ∷ (6, deposit_request) ∷ []

abbrev pub settlement_0 : AccountRow
settlement_0 = record settlement { balance = pos 0 }

serve_all-Lasting_example :
    Lasting start.tables
      (serve_all platform bank decimals web settings traffic
        (new_server platform tt 9 start)).world.tables
unfolding new_server
serve_all-Lasting_example =
    serve_all-Lasting platform bank_laws web settings (λ n T. here) traffic
      (new_server platform tt 9 start)

-- No token is accepted.
abbrev locked : Platform Unit ℕ
locked = record platform { verify = λ key header. none }

serve-unauthorized_example :
    let server = new_server locked tt 9 start in
    (serve locked bank decimals web settings 5 deposit_request server).1.world ≡ server.world
serve-unauthorized_example =
    serve-unauthorized locked bank decimals web settings GuardedEndpoint.deposit "+11" 5
      deposit_request (new_server locked tt 9 start) refl refl
