-- ===== src/Docs/Bodies.antt =====
-- The structs of internal/api/dto.go as encoding/json writes them, by their tags.
use go_bank_ledger.Prelude.{
  String, Bool, Option, none, some, List, [], ◌∷◌, ◌++◌, map, if◌then◌else◌,
}
use go_bank_ledger.Prelude.Text.{is_empty}
use go_bank_ledger.Sqlc.Models.{Time}
use go_bank_ledger.Api.Http.{Payload, AccountResponse, EntryResponse}

-- A time is written as a text.
pub data Value : Type 0 where
  text : String → Value
  moment : Time → Value
  boolean : Bool → Value

-- The fields of an object, by name.
abbrev pub Object : Type 0
Object = List (String × Value)

pub data Body : Type 0 where
  one : Object → Body
  many : List Object → Body

-- `*string` with `omitempty`, and `string` with it.
abbrev pointer_field : String → Option String → Object
pointer_field name none = []
pointer_field name (some s) = (name, text s) ∷ []

abbrev text_field : String → String → Object
text_field name s = if is_empty s then [] else (name, text s) ∷ []

abbrev pub account_object : AccountResponse → Object
account_object a =
    ("id", text a.id)
    ∷ ("name", text a.name)
    ∷ ("balance", text a.balance)
    ∷ ("currency", text a.currency)
    ∷ (pointer_field "owner_id" a.owner_id
        ++ ("created_at", moment a.created_at) ∷ ("is_system", boolean a.is_system) ∷ [])

abbrev pub entry_object : EntryResponse → Object
entry_object e =
    ("created_at", moment e.created_at)
    ∷ ("id", text e.id)
    ∷ ("account_id", text e.account_id)
    ∷ ("debit", text e.debit)
    ∷ ("credit", text e.credit)
    ∷ ("transaction_id", text e.transaction_id)
    ∷ ("operation_type", text e.operation_type)
    ∷ text_field "description" e.description

abbrev pub register_object : String → String → String → Object
register_object user email token =
    ("user_id", text user) ∷ ("email", text email) ∷ ("token", text token) ∷ []

abbrev pub token_object : String → Object
token_object token = ("token", text token) ∷ []

abbrev pub message_object : String → Object
message_object message = ("message", text message) ∷ []

abbrev pub error_object : String → Object
error_object message = ("error", text message) ∷ []

abbrev pub reconcile_object : Bool → String → Object
reconcile_object matched message = ("message", text message) ∷ ("matched", boolean matched) ∷ []

-- The argument of `respondJSON`.
abbrev pub body_of : Payload → Body
body_of (Payload.error_response m) = one (error_object m)
body_of (Payload.message_response m) = one (message_object m)
body_of (Payload.token_response token) = one (token_object token)
body_of (Payload.register_response user email token) = one (register_object user email token)
body_of (Payload.account_response account) = one (account_object account)
body_of (Payload.account_list accounts) = many (map account_object accounts)
body_of (Payload.entry_list entries) = many (map entry_object entries)
body_of (Payload.reconcile_response matched message) = one (reconcile_object matched message)
