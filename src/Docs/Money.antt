-- ===== src/Docs/Money.antt =====
-- The document in docs/docs.go: deposits, withdrawals and transfers.
use go_bank_ledger.Prelude.{true, [], ◌∷◌}
use go_bank_ledger.Docs.{
  Operation, ok_with, bad_request, unauthorized, forbidden, not_found, internal_server_error, ref,
  typed, shaped, in_path, in_body, string_type,
}

abbrev pub deposit_doc : Operation
deposit_doc = record {
  secured = true;
  description = "Deposits fiat amount (mock) with double-entry ledger update";
  consumes = "application/json" ∷ [];
  produces = "application/json" ∷ [];
  tags = "accounts" ∷ [];
  summary = "Deposit money into account";
  parameters =
      record {
        name = "id";
        description = "Account ID";
        place = in_path;
        required = true;
        holds = typed string_type;
      }
      ∷ record {
        name = "body";
        description = "Deposit amount";
        place = in_body;
        required = true;
        holds = shaped (ref "internal_api.AmountRequest");
      }
      ∷ [];
  responses =
      ok_with (ref "internal_api.MessageResponse")
      ∷ bad_request
      ∷ unauthorized
      ∷ forbidden
      ∷ not_found
      ∷ internal_server_error
      ∷ [];
}

abbrev pub withdraw_doc : Operation
withdraw_doc = record {
  secured = true;
  description = "Withdraws fiat amount (mock) with double-entry ledger update";
  consumes = "application/json" ∷ [];
  produces = "application/json" ∷ [];
  tags = "accounts" ∷ [];
  summary = "Withdraw money from account";
  parameters =
      record {
        name = "id";
        description = "Account ID";
        place = in_path;
        required = true;
        holds = typed string_type;
      }
      ∷ record {
        name = "body";
        description = "Withdraw amount";
        place = in_body;
        required = true;
        holds = shaped (ref "internal_api.AmountRequest");
      }
      ∷ [];
  responses =
      ok_with (ref "internal_api.MessageResponse")
      ∷ bad_request
      ∷ unauthorized
      ∷ forbidden
      ∷ not_found
      ∷ internal_server_error
      ∷ [];
}

abbrev pub transfer_doc : Operation
transfer_doc = record {
  secured = true;
  description = "Transfers funds between accounts with atomic double-entry updates.";
  consumes = "application/json" ∷ [];
  produces = "application/json" ∷ [];
  tags = "accounts" ∷ [];
  summary = "Transfer money between accounts";
  parameters =
      record {
        name = "body";
        description = "Transfer details";
        place = in_body;
        required = true;
        holds = shaped (ref "internal_api.TransferRequest");
      }
      ∷ [];
  responses =
      ok_with (ref "internal_api.MessageResponse")
      ∷ bad_request
      ∷ unauthorized
      ∷ forbidden
      ∷ not_found
      ∷ [];
}
