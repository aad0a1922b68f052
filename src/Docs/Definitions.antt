-- ===== src/Docs/Definitions.antt =====
-- The document in docs/docs.go: the objects that requests and responses are.
use go_bank_ledger.Prelude.{String, List, [], ◌∷◌}
use go_bank_ledger.Docs.{Definition, string_type, boolean_type, any_type}

abbrev pub account_response_definition : Definition
account_response_definition = record {
  name = "AccountResponse";
  required = [];
  properties =
      ("balance", string_type)
      ∷ ("created_at", string_type)
      ∷ ("currency", string_type)
      ∷ ("id", string_type)
      ∷ ("is_system", boolean_type)
      ∷ ("name", string_type)
      ∷ ("owner_id", string_type)
      ∷ [];
}

abbrev pub amount_request_definition : Definition
amount_request_definition = record {
  name = "AmountRequest";
  required = "amount" ∷ [];
  properties = ("amount", string_type) ∷ [];
}

abbrev pub auth_request_definition : Definition
auth_request_definition = record {
  name = "AuthRequest";
  required = "email" ∷ "password" ∷ [];
  properties = ("email", string_type) ∷ ("password", string_type) ∷ [];
}

abbrev pub create_account_request_definition : Definition
create_account_request_definition = record {
  name = "CreateAccountRequest";
  required = "name" ∷ [];
  properties = ("name", string_type) ∷ [];
}

abbrev pub entry_response_definition : Definition
entry_response_definition = record {
  name = "EntryResponse";
  required = [];
  properties =
      ("account_id", string_type)
      ∷ ("created_at", string_type)
      ∷ ("credit", string_type)
      ∷ ("debit", string_type)
      ∷ ("description", string_type)
      ∷ ("id", string_type)
      ∷ ("operation_type", string_type)
      ∷ ("transaction_id", string_type)
      ∷ [];
}

abbrev pub error_response_definition : Definition
error_response_definition = record {
  name = "ErrorResponse";
  required = [];
  properties = ("error", string_type) ∷ [];
}

abbrev pub message_response_definition : Definition
message_response_definition = record {
  name = "MessageResponse";
  required = [];
  properties = ("message", string_type) ∷ [];
}

abbrev pub reconcile_response_definition : Definition
reconcile_response_definition = record {
  name = "ReconcileResponse";
  required = [];
  properties = ("matched", boolean_type) ∷ ("message", string_type) ∷ [];
}

abbrev pub register_response_definition : Definition
register_response_definition = record {
  name = "RegisterResponse";
  required = [];
  properties = ("email", string_type) ∷ ("token", string_type) ∷ ("user_id", string_type) ∷ [];
}

abbrev pub token_response_definition : Definition
token_response_definition = record {
  name = "TokenResponse";
  required = [];
  properties = ("token", string_type) ∷ [];
}

abbrev pub transfer_request_definition : Definition
transfer_request_definition = record {
  name = "TransferRequest";
  required = "amount" ∷ [];
  properties =
      ("amount", any_type)
      ∷ ("from_account_id", string_type)
      ∷ ("from_id", string_type)
      ∷ ("to_account_id", string_type)
      ∷ ("to_id", string_type)
      ∷ [];
}

-- The objects under a prefix of their names.
abbrev pub object_definitions : List Definition
object_definitions =
    account_response_definition ∷ amount_request_definition ∷ auth_request_definition
    ∷ create_account_request_definition ∷ entry_response_definition ∷ error_response_definition
    ∷ message_response_definition ∷ reconcile_response_definition ∷ register_response_definition
    ∷ token_response_definition ∷ transfer_request_definition ∷ []

-- Each object stands twice in the document, under the names of its package.
abbrev pub package_names : List String
package_names = "github_com_paularinzee_bank-ledger_internal_api." ∷ "internal_api." ∷ []
