-- ===== src/Docs/Accounts.antt =====
-- The document in docs/docs.go: the operations on accounts.
use go_bank_ledger.Prelude.{true, [], ◌∷◌}
use go_bank_ledger.Docs.{
  Operation, ok_with, created_with, bad_request, unauthorized, forbidden, not_found,
  internal_server_error, ref, array_of, typed, shaped, in_path, in_body, string_type,
}

abbrev pub list_accounts_doc : Operation
list_accounts_doc = record {
  secured = true;
  description = "Returns list of accounts owned by authenticated user";
  consumes = [];
  produces = "application/json" ∷ [];
  tags = "accounts" ∷ [];
  summary = "List user accounts";
  parameters = [];
  responses =
      ok_with (array_of "internal_api.AccountResponse") ∷ unauthorized ∷ internal_server_error ∷ [];
}

abbrev pub create_account_doc : Operation
create_account_doc = record {
  secured = true;
  description = "Creates a new user-owned account with name and currency";
  consumes = "application/json" ∷ [];
  produces = "application/json" ∷ [];
  tags = "accounts" ∷ [];
  summary = "Create a new account";
  parameters =
      record {
        name = "body";
        description = "Account details";
        place = in_body;
        required = true;
        holds = shaped (ref "internal_api.CreateAccountRequest");
      }
      ∷ [];
  responses =
      created_with (ref "internal_api.AccountResponse")
      ∷ bad_request
      ∷ unauthorized
      ∷ internal_server_error
      ∷ [];
}

abbrev pub get_account_doc : Operation
get_account_doc = record {
  secured = true;
  description = "Returns details of a specific account";
  consumes = [];
  produces = "application/json" ∷ [];
  tags = "accounts" ∷ [];
  summary = "Get account details";
  parameters =
      record {
        name = "id";
        description = "Account ID";
        place = in_path;
        required = true;
        holds = typed string_type;
      }
      ∷ [];
  responses =
      ok_with (ref "internal_api.AccountResponse")
      ∷ bad_request
      ∷ unauthorized
      ∷ forbidden
      ∷ not_found
      ∷ [];
}
