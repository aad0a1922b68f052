-- ===== src/Api/Idempotency.antt =====
-- internal/api/middleware_idempotency.go
pub mod Replay
pub mod Steps
pub mod Races
pub mod Interceptor
pub mod Origin
use go_bank_ledger.Prelude.{
  ℕ, String, ◌+++◌, str_eq, Bool, true, false, not, ◌&&◌, ◌||◌, Option, none, some, ltb,
  if◌then◌else◌,
}
use go_bank_ledger.Prelude.Text.{is_empty}
use go_bank_ledger.Sqlc.Models.{Uuid, IdempotencyKey}
use go_bank_ledger.Sqlc.Tables.{World}
use go_bank_ledger.Sqlc.Keys.{get_idempotency_key, create_idempotency_key}
use go_bank_ledger.Runtime.{Runtime}
use go_bank_ledger.Sqlc.Querier.{new, pool}
use go_bank_ledger.Store.{on_pool}
use go_bank_ledger.Exec.{Result, ok, err}
use go_bank_ledger.Api.Http.{Web, Request, Response}

-- The next handler in the chain; the interceptor records its status and body and passes them on.
abbrev pub Next : Type 0
Next = Request → World → Response × World

-- POST, PUT or PATCH.
unfoldable pub is_mutating : String → Bool
is_mutating method = str_eq method "POST" || (str_eq method "PUT" || str_eq method "PATCH")

unfoldable pub raw_key : Request → String
raw_key req = if is_empty req.x_idempotency_key then req.idempotency_key else req.x_idempotency_key

-- The user id of the claims; a missing claim is read as the empty text.
abbrev pub user_of : Runtime → Option (Option String) → Option Uuid
user_of rt none = none
user_of rt (some none) = rt.uuid_parse ""
user_of rt (some (some s)) = rt.uuid_parse s

-- The answer from the table, with the header X-Cache-Idempotency.
abbrev pub replay : IdempotencyKey → Response
replay key = record { status = key.response_code; body = key.response_body; cache_hit = true }

module _ (rt : Runtime) (web : Web) where
  -- SHA-256 of the key, the user id and the body.
  unfoldable pub compound_hash : Request → Uuid → String
  compound_hash req user_id = web.sha256_hex (raw_key req +++ (rt.uuid_string user_id +++ req.body))

  -- Save what is no server error; a failure to save is only logged.
  unfoldable pub save_response : String → Uuid → Response × World → Response × World
  save_response hash user_id (response, w) =
      if ltb response.status 500
      then (
        response,
        (on_pool rt
            (create_idempotency_key rt (record {
              id = hash;
              user_id = user_id;
              response_code = response.status;
              response_body = response.body;
            }))
            w).1,
      )
      else (response, w)

  abbrev pub on_lookup :
      {E : Type 0}
      → Next
      → Request
      → String
      → Uuid
      → Result E IdempotencyKey × World
      → Response × World
  on_lookup next req hash user_id (ok key, w) = (replay key, w)
  on_lookup next req hash user_id (err e, w) = save_response hash user_id (next req w)

  unfoldable pub tracked : Next → Request → Uuid → World → Response × World
  unfolding save_response
  tracked next req user_id w =
      let hash = compound_hash req user_id in
      on_lookup next req hash user_id
        ((new rt pool).get_idempotency_key (record { id = hash; user_id = user_id }) w)

  unfoldable pub idempotency_middleware : Next → Next
  unfolding tracked
  idempotency_middleware next req w =
      if not (is_mutating req.method) || is_empty (raw_key req)
      then next req w
      else elim (user_of rt req.claims) [
        | none ↦ next req w
        | some user_id ↦ tracked next req user_id w
      ]
