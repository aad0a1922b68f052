-- ===== src/Examples/Middleware.antt =====
-- The theorems on the idempotency middleware and the rate limiters at concrete inputs.
use go_bank_ledger.Prelude.{ltb, List, ◌∷◌, [], ℕ, ◌-◌, ◌≡◌, refl, false}
use go_bank_ledger.Sqlc.Tables.{Tables}
use go_bank_ledger.Exec.Runs.{at}
use go_bank_ledger.Api.Http.{Request, Response}
use go_bank_ledger.Api.Idempotency.{
  Next, idempotency_middleware, compound_hash, replay, is_mutating, raw_key,
}
use go_bank_ledger.Api.Idempotency.Replay.{IsTracked, saved_key, with_key, middleware-replays}
use go_bank_ledger.Sqlc.Keys.{find_key}
use go_bank_ledger.RateLimit.{Buckets, new_rate_limiter}
use go_bank_ledger.RateLimit.Isolation.{Event, visit, sweep, seen_by, answers, answers-isolated}
use go_bank_ledger.Examples.Bank.{bank, books, read_number, write_number, web, request}

-- The handler behind the middleware.
abbrev pub served : Response
served = record { status = 200; body = "deposit successful"; cache_hit = false }

abbrev answering : Next
answering req w = (served, w)

pub request-IsTracked : IsTracked bank web request 7
unfolding is_mutating raw_key read_number
request-IsTracked = record { mutating = refl; keyed = refl; claimed = refl }

-- The deposit of the same user into another account, under the same key and with the same body.
abbrev other_account : Request
other_account = record request { path_id = "+111" }

other_account-IsTracked : IsTracked bank web other_account 7
unfolding is_mutating raw_key read_number
other_account-IsTracked = record { mutating = refl; keyed = refl; claimed = refl }

abbrev replayed : Tables
replayed = with_key bank web request 7 served books 1

middleware-replays_example :
    idempotency_middleware bank web answering other_account (at replayed 3)
    ≡ (replay (saved_key bank web request 7 served 1), at replayed 4)
unfolding find_key raw_key compound_hash read_number write_number
middleware-replays_example =
    middleware-replays bank web answering request other_account 7
      (saved_key bank web request 7 served 1) replayed 3 other_account-IsTracked refl refl refl refl

-- Limiters that count tokens down and never refill.
abbrev pub tokens : Buckets Unit ℕ
tokens = record {
  new_limiter = λ r burst. burst;
  allow = λ now left. (ltb 0 left, left - 1);
  rune_string = λ n. "";
}

abbrev traffic : List Event
traffic = visit "ip:a" 1 ∷ visit "ip:b" 2 ∷ sweep 3 ∷ visit "ip:a" 4 ∷ []

answers-isolated_example :
    answers tokens "ip:a" traffic (new_rate_limiter tokens tt 1 60)
    ≡ answers tokens "ip:a" (seen_by "ip:a" traffic) (new_rate_limiter tokens tt 1 60)
answers-isolated_example = answers-isolated tokens "ip:a" traffic (new_rate_limiter tokens tt 1 60)
