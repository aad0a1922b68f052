-- ===== src/Examples/Repeats.antt =====
-- A request that is sent twice, one after the other and at the same time, at concrete inputs.
use go_bank_ledger.Prelude.{ℕ, ◌≡◌, refl, none, some, [], ◌+ℤ◌, neg_ℤ, arith}
use go_bank_ledger.Sqlc.Tables.{World, Tables}
use go_bank_ledger.Exec.Runs.{at}
use go_bank_ledger.Exec.{◌>>=◌, statement, new_uuid, timestamp}
use go_bank_ledger.Sqlc.Accounts.{
  find_account, find_settlement, get_account, get_account_for_update,
  get_settlement_account_for_update, update_account_balance, add_balance, all_fit, fits_numeric,
}
use go_bank_ledger.Sqlc.Entries.{create_entry, passes_checks, find_entry}
use go_bank_ledger.Store.Atomic.{Drift}
use go_bank_ledger.Store.{on_pool, exec_tx, exec_tx_once, begin_tx, commit}
use go_bank_ledger.Ledger.{deposit, deposit_tx, validate_positive_amount}
use go_bank_ledger.Api.Http.{call, denied, Response, respond, respond_json, Request}
use go_bank_ledger.Api.Amount.{decode_amount_from_body, normalize_amount_input}
use go_bank_ledger.Examples.Bank.{
  read_number, write_number, round, exact, books, request, bank, decimals, bank_laws, web, start,
}
use go_bank_ledger.Api.Auth.{authenticate}
use go_bank_ledger.Api.Money.{deposit_handler}
use go_bank_ledger.Ledger.Steps.{here}
use go_bank_ledger.Server.{request_of, Reply, GuardedEndpoint, request_size_limiter, visit_of}
use go_bank_ledger.Server.Chain.{
  guarded_endpoint, Server, new_server, serve, serve_all, route, guard,
}
use go_bank_ledger.Sqlc.Keys.{find_key, key_row}
use go_bank_ledger.Api.Idempotency.{
  Next, is_mutating, raw_key, compound_hash, idempotency_middleware,
}
use go_bank_ledger.Api.Idempotency.Replay.{IsTracked, with_key, saved_key}
use go_bank_ledger.Api.Idempotency.Races.{middleware-races}
use go_bank_ledger.Examples.Middleware.{request-IsTracked, served}
use go_bank_ledger.RateLimit.{
  client_id, get_client_id, middleware, endpoint_middleware, allow_client, new_rate_limiter,
  allow_endpoint, set_endpoint_rate, set_endpoint, new_per_endpoint_limiter, match_path,
}
use go_bank_ledger.Server.Passage.{Passes}
use go_bank_ledger.Server.Twice.{ServedTwice, serve-twice}
use go_bank_ledger.Examples.Requests.{platform, settings, deposit_request}

abbrev deposit_call : Request
deposit_call = request_of (request_size_limiter deposit_request) "+11" (some (some "+1111111"))

abbrev deposited : Response × World
deposited =
    guarded_endpoint platform bank decimals web settings GuardedEndpoint.deposit deposit_call
      (at start.tables 1)

deposit_call-IsTracked : IsTracked bank web deposit_call 7
unfolding request_of is_mutating raw_key read_number request_size_limiter
deposit_call-IsTracked = record { mutating = refl; keyed = refl; claimed = refl }

deposited-answer :
    (deposited.0.status ≡ 200)
    × (key_row (compound_hash bank web deposit_call 7) deposited.1.tables.idempotency_keys ≡ none)
unfolding on_pool guarded_endpoint deposit_handler respond respond_json authenticate ◌>>=◌
    request_of read_number call get_account statement find_account denied decode_amount_from_body
    normalize_amount_input deposit validate_positive_amount exact exec_tx exec_tx_once begin_tx
    deposit_tx get_settlement_account_for_update find_settlement get_account_for_update create_entry
    new_uuid timestamp fits_numeric passes_checks find_entry update_account_balance add_balance
    all_fit write_number round commit ◌+ℤ◌ neg_ℤ key_row request_size_limiter
deposited-answer = (refl, refl)

-- Both deposits pass, and the second finds the answer of the first.
abbrev first_reply : Reply × Server Unit ℕ
first_reply =
    serve platform bank decimals web settings 5 deposit_request (new_server platform tt 9 start)

abbrev between : Server Unit ℕ
between = serve_all platform bank decimals web settings [] first_reply.1

abbrev second_reply : Reply × Server Unit ℕ
second_reply = serve platform bank decimals web settings 6 deposit_request between

pub deposit_request-Passes :
    Passes platform bank decimals web settings GuardedEndpoint.deposit "+11"
      (some "+1111111")
      5
      deposit_request
      (new_server platform tt 9 start)
unfolding allow_client new_server new_rate_limiter allow_endpoint set_endpoint_rate set_endpoint
    new_per_endpoint_limiter match_path
deposit_request-Passes = record {
  no_preflight = refl;
  found = refl;
  verified = refl;
  in_global_limit = refl;
  in_endpoint_limit = refl;
}

deposit_again-Passes :
    Passes platform bank decimals web settings GuardedEndpoint.deposit "+11"
      (some "+1111111")
      6
      deposit_request
      between
unfolding serve_all serve route guard middleware endpoint_middleware request_size_limiter
    allow_client new_server new_rate_limiter allow_endpoint set_endpoint_rate set_endpoint
    new_per_endpoint_limiter match_path client_id visit_of get_client_id
deposit_again-Passes = record {
  no_preflight = refl;
  found = refl;
  verified = refl;
  in_global_limit = refl;
  in_endpoint_limit = refl;
}

serve-twice_example :
    ServedTwice platform bank_laws web settings GuardedEndpoint.deposit "+11"
      (some "+1111111")
      deposit_request
      books
      between.world.tables
      deposited
      first_reply
      second_reply
unfolding find_key new_server
serve-twice_example =
    serve-twice platform bank_laws web settings (λ n. refl) (λ n T. here) GuardedEndpoint.deposit
      "+11" (some "+1111111") deposit_request 7 5 6 [] (new_server platform tt 9 start)
      deposit_call-IsTracked refl (rw deposited-answer.0 (omega arith)) deposited-answer.1
      deposit_request-Passes deposit_again-Passes

-- While the handler runs, another request with the key saves its answer.
abbrev overtaken : Tables
overtaken = with_key bank web request 7 served books 1

abbrev slow : Next
slow r w = (served, at overtaken 9)

middleware-races_example :
    ((idempotency_middleware bank web slow request (at books 0)).0 ≡ served)
    × Drift bank overtaken (idempotency_middleware bank web slow request (at books 0)).1.tables
unfolding find_key key_row compound_hash raw_key write_number
middleware-races_example =
    middleware-races bank web slow request 7 served (saved_key bank web request 7 served 1) books
      overtaken 0 9 request-IsTracked refl refl refl refl
