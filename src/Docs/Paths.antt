-- ===== src/Docs/Paths.antt =====
-- The document in docs/docs.go: its paths.
use go_bank_ledger.Prelude.{String, List, [], ◌∷◌}
use go_bank_ledger.Docs.{Operation}
use go_bank_ledger.Docs.Accounts.{list_accounts_doc, create_account_doc, get_account_doc}
use go_bank_ledger.Docs.Money.{deposit_doc, withdraw_doc, transfer_doc}
use go_bank_ledger.Docs.Queries.{get_entries_doc, reconcile_doc, get_transactions_doc}
use go_bank_ledger.Docs.Users.{login_doc, register_doc}

-- Method, path and operation.
abbrev pub paths : List (String × String × Operation)
paths =
    ("get", "/accounts", list_accounts_doc)
    ∷ ("post", "/accounts", create_account_doc)
    ∷ ("get", "/accounts/{id}", get_account_doc)
    ∷ ("post", "/accounts/{id}/deposit", deposit_doc)
    ∷ ("get", "/accounts/{id}/entries", get_entries_doc)
    ∷ ("get", "/accounts/{id}/reconcile", reconcile_doc)
    ∷ ("post", "/accounts/{id}/withdraw", withdraw_doc)
    ∷ ("post", "/login", login_doc)
    ∷ ("post", "/register", register_doc)
    ∷ ("get", "/transactions/{id}", get_transactions_doc)
    ∷ ("post", "/transfers", transfer_doc)
    ∷ []
