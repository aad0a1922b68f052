-- ===== src/Docs/Handlers.antt =====
-- Every handler of internal/api/handler.go answers as docs/docs.go says.
use go_bank_ledger.Prelude.{
  String, Option, List, [], ◌∷◌, ◌≡◌, refl, true, false, Bool-cases, inl, inr, ◌||◌,
}
use go_bank_ledger.Sqlc.Models.{Uuid, Entry}
use go_bank_ledger.Errors.{
  Error, is_insufficient_funds, is_invalid_amount, is_currency_mismatch, error_text,
}
use go_bank_ledger.Runtime.{Runtime, Decimals}
use go_bank_ledger.Api.Http.{Web, Request, respond_error}
use go_bank_ledger.Api.Auth.{authenticate, register, login}
use go_bank_ledger.Api.Accounts.{create_account_handler, list_accounts_handler, get_account_handler}
use go_bank_ledger.Api.Money.{
  deposit_handler, withdraw_handler, transfer_handler, deposit_status, withdraw_status,
}
use go_bank_ledger.Api.Queries.{
  get_entries_handler, authorized, get_transactions_handler, owns, reconcile_handler,
}
use go_bank_ledger.Docs.{Operation, ref}
use go_bank_ledger.Docs.Accounts.{list_accounts_doc, create_account_doc, get_account_doc}
use go_bank_ledger.Docs.Money.{deposit_doc, withdraw_doc, transfer_doc}
use go_bank_ledger.Docs.Queries.{get_entries_doc, reconcile_doc, get_transactions_doc}
use go_bank_ledger.Docs.Users.{register_doc, login_doc}
use go_bank_ledger.Docs.Answers.{
  documents, Documented, Fails, Answers, Documented-json, Documented-error, Documented-if,
  Fails-bind, Answers-bind, Fails-or_fail, Fails-call, Fails-pure, Fails-fail_if, Answers-pure,
}

ruleset answers = (
  Answers-bind, Answers-pure, Fails-bind, Fails-or_fail, Fails-fail_if, Fails-call, Fails-pure,
  Documented-json, Documented-error,
)

module _ (rt : Runtime) (web : Web) where
  authenticate-Fails :
      {op : Operation} (req : Request)
      → documents op.responses 401 (ref "internal_api.ErrorResponse") ≡ true
      → Fails op web (authenticate rt web req)
  unfolding authenticate
  authenticate-Fails req h = search answers depth 20

  pub create_account_handler-Answers :
      (req : Request) → Answers create_account_doc web (create_account_handler rt web req)
  unfolding create_account_handler
  create_account_handler-Answers req = search (answers, authenticate-Fails) depth 20

  pub list_accounts_handler-Answers :
      (req : Request) → Answers list_accounts_doc web (list_accounts_handler rt web req)
  unfolding list_accounts_handler
  list_accounts_handler-Answers req = search (answers, authenticate-Fails) depth 20

  pub get_account_handler-Answers :
      (req : Request) → Answers get_account_doc web (get_account_handler rt web req)
  unfolding get_account_handler
  get_account_handler-Answers req = search (answers, authenticate-Fails) depth 20

  pub get_entries_handler-Answers :
      (req : Request) → Answers get_entries_doc web (get_entries_handler rt web req)
  unfolding get_entries_handler
  get_entries_handler-Answers req = search (answers, authenticate-Fails) depth 20

  pub register-Answers :
      (auth : Option String) (req : Request) → Answers register_doc web (register rt web auth req)
  unfolding register
  register-Answers auth req = search (answers) depth 20

  pub login-Answers :
      (auth : Option String) (req : Request) → Answers login_doc web (login rt web auth req)
  unfolding login
  login-Answers auth req = search (answers) depth 20

  authorized-Fails :
      (user : Uuid) (entries : List Entry)
      → Fails get_transactions_doc web (authorized rt web user entries)
  unfolding authorized
  authorized-Fails user [] = Fails-pure false
  authorized-Fails user (entry ∷ entries) =
      Fails-bind (Fails-call _ λ e. Documented-error 500 _ refl) λ acc.
        elim (Bool-cases (owns acc.owner_id user)) [
          | inl own ↦ rw own (Fails-pure true)
          | inr foreign ↦ rw foreign (authorized-Fails user entries)
        ]

  pub get_transactions_handler-Answers :
      (req : Request) → Answers get_transactions_doc web (get_transactions_handler rt web req)
  unfolding get_transactions_handler
  get_transactions_handler-Answers req =
      search (answers, authenticate-Fails, authorized-Fails) depth 20

  deposit_status-Documented :
      (e : Error) → Documented deposit_doc web (respond_error web (deposit_status e) (error_text e))
  unfolding deposit_status
  deposit_status-Documented e =
      Documented-if (is_invalid_amount e || is_currency_mismatch e) 400 500 (error_text e) refl refl

  withdraw_status-Documented :
      (e : Error)
      → Documented withdraw_doc web (respond_error web (withdraw_status e) (error_text e))
  unfolding withdraw_status
  withdraw_status-Documented e =
      Documented-if (is_insufficient_funds e || (is_invalid_amount e || is_currency_mismatch e)) 400
        500 (error_text e) refl refl

module _ {Decimal : Type 0} (rt : Runtime) (dec : Decimals Decimal) (web : Web) where
  pub reconcile_handler-Answers :
      (req : Request) → Answers reconcile_doc web (reconcile_handler rt dec web req)
  unfolding reconcile_handler
  reconcile_handler-Answers req = search (answers, authenticate-Fails rt web) depth 20

  pub deposit_handler-Answers :
      (req : Request) → Answers deposit_doc web (deposit_handler rt dec web req)
  unfolding deposit_handler
  deposit_handler-Answers req =
      search (answers, authenticate-Fails rt web, deposit_status-Documented rt web) depth 20

  pub withdraw_handler-Answers :
      (req : Request) → Answers withdraw_doc web (withdraw_handler rt dec web req)
  unfolding withdraw_handler
  withdraw_handler-Answers req =
      search (answers, authenticate-Fails rt web, withdraw_status-Documented rt web) depth 20

  pub transfer_handler-Answers :
      (req : Request) → Answers transfer_doc web (transfer_handler rt dec web req)
  unfolding transfer_handler
  transfer_handler-Answers req = search (answers, authenticate-Fails rt web) depth 20
