-- ===== src/Docs/Queries.antt =====
-- The document in docs/docs.go: entries, reconciliation and transactions.
use go_bank_ledger.Prelude.{true, false, [], ◌∷◌}
use go_bank_ledger.Docs.{
  Operation, ok_with, bad_request, unauthorized, forbidden, not_found, internal_server_error, ref,
  array_of, typed, in_path, in_query, string_type, integer_type,
}

abbrev pub get_entries_doc : Operation
get_entries_doc = record {
  secured = true;
  description = "Returns list of ledger entries for an account (immutable history)";
  consumes = [];
  produces = "application/json" ∷ [];
  tags = "accounts" ∷ [];
  summary = "Get account entries";
  parameters =
      record {
        name = "id";
        description = "Account ID";
        place = in_path;
        required = true;
        holds = typed string_type;
      }
      ∷ record {
        name = "limit";
        description = "Limit (default 20)";
        place = in_query;
        required = false;
        holds = typed integer_type;
      }
      ∷ record {
        name = "offset";
        description = "Offset (default 0)";
        place = in_query;
        required = false;
        holds = typed integer_type;
      }
      ∷ [];
  responses =
      ok_with (array_of "internal_api.EntryResponse")
      ∷ bad_request
      ∷ unauthorized
      ∷ forbidden
      ∷ not_found
      ∷ internal_server_error
      ∷ [];
}

abbrev pub reconcile_doc : Operation
reconcile_doc = record {
  secured = true;
  description = "Verifies stored balance matches sum of all ledger entries (credits - debits)";
  consumes = [];
  produces = "application/json" ∷ [];
  tags = "accounts" ∷ [];
  summary = "Reconcile account balance";
  parameters =
      record {
        name = "id";
        description = "Account ID";
        place = in_path;
        required = true;
        holds = typed string_type;
      }
      ∷ [];
  responses =
      ok_with (ref "internal_api.ReconcileResponse")
      ∷ bad_request
      ∷ unauthorized
      ∷ forbidden
      ∷ not_found
      ∷ internal_server_error
      ∷ [];
}

abbrev pub get_transactions_doc : Operation
get_transactions_doc = record {
  secured = true;
  description = "Returns both entries (debit and credit) for a complete transaction view";
  consumes = [];
  produces = "application/json" ∷ [];
  tags = "accounts" ∷ [];
  summary = "Get transaction details";
  parameters =
      record {
        name = "id";
        description = "Transaction ID";
        place = in_path;
        required = true;
        holds = typed string_type;
      }
      ∷ [];
  responses =
      ok_with (array_of "internal_api.EntryResponse")
      ∷ bad_request
      ∷ unauthorized
      ∷ forbidden
      ∷ not_found
      ∷ internal_server_error
      ∷ [];
}
