-- ===== src/Api/Http.antt =====
-- Requests and responses: internal/api/dto.go, internal/api/response.go and the request structs of
-- internal/api/handler.go, with what the handlers take from net/http, encoding/json, jwtauth,
-- bcrypt and sha256.
use go_bank_ledger.Prelude.{ℕ, String, Bool, false, not, Option, none, some, List, ◌==◌}
use go_bank_ledger.Errors.{Error}
use go_bank_ledger.Sqlc.Models.{Uuid, Time}
use go_bank_ledger.Sqlc.Tables.{World}
use go_bank_ledger.Exec.{Result, Exec, Action, ok, err}

-- A value of `interface{}` that encoding/json decodes. A number keeps its text under `UseNumber`;
-- a float64 stands for the text that strconv.FormatFloat gives.
pub data JsonValue : Type 0 where
  text : String → JsonValue
  number : String → JsonValue
  float64 : String → JsonValue
  other : JsonValue

pub record AuthRequest : Type 0 where
  pub email : String
  pub password : String

pub record TransferRequest : Type 0 where
  pub amount : JsonValue
  pub from_id : String
  pub to_id : String
  pub from_account_id : String
  pub to_account_id : String

-- What the router and the JWT verifier hand over. `claims` is `none` where jwtauth.FromContext
-- fails, and holds `none` where the claim "user_id" is missing or no string.
pub record Request : Type 0 where
  pub method : String
  pub path_id : String
  pub limit : String
  pub offset : String
  pub x_idempotency_key : String
  pub idempotency_key : String
  pub claims : Option (Option String)
  pub body : String

pub record AccountResponse : Type 0 where
  pub id : String
  pub owner_id : Option String
  pub name : String
  pub balance : String
  pub currency : String
  pub is_system : Bool
  pub created_at : Time

pub record EntryResponse : Type 0 where
  pub id : String
  pub account_id : String
  pub debit : String
  pub credit : String
  pub transaction_id : String
  pub operation_type : String
  pub description : String
  pub created_at : Time

-- The bodies that `respondJSON` is given.
pub data Payload : Type 0 where
  error_response : String → Payload
  message_response : String → Payload
  token_response : String → Payload
  register_response : String → String → String → Payload
  account_response : AccountResponse → Payload
  account_list : List AccountResponse → Payload
  entry_list : List EntryResponse → Payload
  reconcile_response : Bool → String → Payload

-- `cache_hit` is the header X-Cache-Idempotency.
pub record Response : Type 0 where
  pub status : ℕ
  pub body : String
  pub cache_hit : Bool

-- The libraries behind the handlers. Each decoder is `json.Decoder.Decode` into one struct, and
-- `none` its error; a missing field has its zero value.
pub record Web : Type 0 where
  pub decode_auth : String → Option AuthRequest
  pub decode_account_name : String → Option String
  pub decode_amount : String → Option JsonValue
  pub decode_transfer : String → Option TransferRequest
  pub encode : Payload → String
  pub hash_password : String → Option String
  pub compare_password : String → String → Bool
  pub sign_token : String → Uuid → ℕ → Option String
  pub sha256_hex : String → String

module _ (web : Web) where
  unfoldable pub respond_json : ℕ → Payload → Response
  respond_json status payload = record {
    status = status;
    body = web.encode payload;
    cache_hit = false;
  }

  unfoldable pub respond_error : ℕ → String → Response
  unfolding respond_json
  respond_error status message = respond_json status (error_response message)

-- A handler's early `return` is an error of type `Response`.
abbrev pub Handler : Type 0 → Type 0
Handler A = Exec Response A

abbrev failed_with : {A : Type 0} → (Error → Response) → Result Error A → Result Response A
failed_with f (ok a) = ok a
failed_with f (err e) = err (f e)

-- `if err != nil { respondError(…); return }`
unfoldable pub call : {A : Type 0} → Action A → (Error → Response) → Handler A
call m f w = let (r, w') = m w in (failed_with f r, w')

abbrev reply : Result Response Response → Response
reply (ok response) = response
reply (err response) = response

-- What the client sees.
unfoldable pub respond : Handler Response → World → Response × World
respond m w = let (r, w') = m w in (reply r, w')

-- `acc.OwnerID.Valid && acc.OwnerID.UUID != userID`
unfoldable pub denied : Option Uuid → Uuid → Bool
denied none user = false
denied (some owner) user = not (owner == user)
