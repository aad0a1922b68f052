-- ===== src/Examples/Documents.antt =====
-- What docs/docs.go says, at concrete requests.
use go_bank_ledger.Prelude.{◌≡◌, refl, true, some}
use mathlib.Core.Option.{map as map_option, bind}
use go_bank_ledger.Server.{GuardedEndpoint, guarded, routes, request_of, request_size_limiter}
use go_bank_ledger.Server.Chain.{new_server, serve}
use go_bank_ledger.Docs.Money.{deposit_doc}
use go_bank_ledger.Docs.Paths.{paths}
use go_bank_ledger.Docs.Routes.{described, looked_up, method_key, with_security, routes-documented}
use go_bank_ledger.Docs.Served.{Told, past_guard, serve-documented}
use go_bank_ledger.Examples.Bank.{bank, decimals, web, start}
use go_bank_ledger.Examples.Requests.{platform, settings, deposit_request}
use go_bank_ledger.Examples.Repeats.{deposit_request-Passes}

routes-documented_example :
    map_option with_security (looked_up (method_key "POST") "/transfers" paths)
    ≡ bind (looked_up "POST" "/transfers" routes) described
routes-documented_example = routes-documented "POST" "/transfers"

serve-documented_example :
    Told deposit_doc bank web
      (request_of (request_size_limiter deposit_request) "+11" (some (some "+1111111")))
      start
      (serve platform bank decimals web settings 5 deposit_request
        (new_server platform tt 9 start)).0.status
      (serve platform bank decimals web settings 5 deposit_request
        (new_server platform tt 9 start)).0.body
unfolding new_server
serve-documented_example =
    serve-documented platform bank decimals web settings (guarded GuardedEndpoint.deposit)
      deposit_doc true 5 deposit_request (new_server platform tt 9 start)
      (request_of (request_size_limiter deposit_request) "+11" (some (some "+1111111"))) refl
      (past_guard deposit_request-Passes)
