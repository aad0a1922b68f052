-- ===== src/Api/Accounts.antt =====
-- `CreateAccount`, `ListAccounts` and `GetAccount` of internal/api/handler.go.
pub mod Access
pub mod Listing
use go_bank_ledger.Prelude.{false, some, map}
use go_bank_ledger.Prelude.Text.{is_empty}
use go_bank_ledger.Sqlc.Accounts.{create_account, get_account, list_accounts_by_owner}
use go_bank_ledger.Runtime.{Runtime}
use go_bank_ledger.Sqlc.Querier.{new, pool}
use go_bank_ledger.Store.{on_pool}
use go_bank_ledger.Exec.{◌>>=◌, ◌>>◌, pure, or_fail, fail_if}
use go_bank_ledger.Api.Http.{
  Web, Request, Response, Handler, account_response, account_list, respond_json, respond_error,
  call, denied,
}
use go_bank_ledger.Api.Mapper.{to_account_response}
use go_bank_ledger.Api.Auth.{authenticate}

module _ (rt : Runtime) (web : Web) where
  unfoldable pub create_account_handler : Request → Handler Response
  create_account_handler req = do
    user_id ← authenticate rt web req
    name ← or_fail (web.decode_account_name req.body) (respond_error web 400 "name required")
    fail_if (is_empty name) (respond_error web 400 "name required")
    acc ←
        call
          ((new rt pool).create_account
            (record { owner_id = some user_id; name = name; currency = "USD"; is_system = false }))
          (λ e. respond_error web 500 "failed to create account")
    pure (respond_json web 201 (account_response (to_account_response rt acc)))

  unfoldable pub list_accounts_handler : Request → Handler Response
  list_accounts_handler req = do
    user_id ← authenticate rt web req
    accounts ←
        call ((new rt pool).list_accounts_by_owner (some user_id))
          (λ e. respond_error web 500 "failed to list accounts")
    pure (respond_json web 200 (account_list (map (to_account_response rt) accounts)))

  unfoldable pub get_account_handler : Request → Handler Response
  get_account_handler req = do
    user_id ← authenticate rt web req
    account_id ← or_fail (rt.uuid_parse req.path_id) (respond_error web 400 "invalid account ID")
    acc ←
        call ((new rt pool).get_account account_id) (λ e. respond_error web 404 "account not found")
    fail_if (denied acc.owner_id user_id) (respond_error web 403 "access denied")
    pure (respond_json web 200 (account_response (to_account_response rt acc)))
