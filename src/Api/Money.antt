-- ===== src/Api/Money.antt =====
-- `Deposit`, `Withdraw` and `Transfer` of internal/api/handler.go.
pub mod Reply
pub mod Guards
pub mod Answers
pub mod Reports
pub mod Verdicts
pub mod Success
use go_bank_ledger.Prelude.{ℕ, String, Bool, true, false, Option, none, some, ◌||◌, if◌then◌else◌}
use go_bank_ledger.Prelude.Text.{trim_space, is_empty}
use go_bank_ledger.Errors.{
  Error, error_text, is_insufficient_funds, is_invalid_amount, is_currency_mismatch,
}
use go_bank_ledger.Sqlc.Accounts.{get_account}
use go_bank_ledger.Runtime.{Runtime, Decimals}
use go_bank_ledger.Sqlc.Querier.{new, pool}
use go_bank_ledger.Store.{on_pool}
use go_bank_ledger.Exec.{◌>>=◌, ◌>>◌, pure, or_fail, fail_if}
use go_bank_ledger.Ledger
use go_bank_ledger.Api.Http.{
  Web, Request, Response, Handler, message_response, respond_json, respond_error, call, denied,
}
use go_bank_ledger.Api.Amount.{decode_amount_from_body, normalize_amount_input}
use go_bank_ledger.Api.Auth.{authenticate}

-- The status for an error of the ledger.
unfoldable pub deposit_status : Error → ℕ
deposit_status e = if is_invalid_amount e || is_currency_mismatch e then 400 else 500

unfoldable pub withdraw_status : Error → ℕ
withdraw_status e =
    if is_insufficient_funds e || (is_invalid_amount e || is_currency_mismatch e) then 400 else 500

-- `from_id`, or `from_account_id` where that is blank; so for the receiver.
unfoldable pub first_non_blank : String → String → String
unfolding trim_space
first_non_blank a b =
    let trimmed = trim_space a in if is_empty trimmed then trim_space b else trimmed

module _ {Decimal : Type 0} (rt : Runtime) (dec : Decimals Decimal) (web : Web) where
  unfoldable pub deposit_handler : Request → Handler Response
  deposit_handler req = do
    user_id ← authenticate rt web req
    account_id ← or_fail (rt.uuid_parse req.path_id) (respond_error web 400 "invalid account ID")
    acc ←
        call ((new rt pool).get_account account_id) (λ e. respond_error web 404 "account not found")
    fail_if (denied acc.owner_id user_id) (respond_error web 403 "access denied")
    amount ← or_fail (decode_amount_from_body web req.body) (respond_error web 400 "invalid input")
    call (Ledger.deposit rt dec account_id amount)
        (λ e. respond_error web (deposit_status e) (error_text e))
    pure (respond_json web 200 (message_response "deposit successful"))

  unfoldable pub withdraw_handler : Request → Handler Response
  withdraw_handler req = do
    user_id ← authenticate rt web req
    account_id ← or_fail (rt.uuid_parse req.path_id) (respond_error web 400 "invalid account ID")
    acc ←
        call ((new rt pool).get_account account_id) (λ e. respond_error web 404 "account not found")
    fail_if (denied acc.owner_id user_id) (respond_error web 403 "access denied")
    amount ← or_fail (decode_amount_from_body web req.body) (respond_error web 400 "invalid input")
    call (Ledger.withdraw rt dec account_id amount)
        (λ e. respond_error web (withdraw_status e) (error_text e))
    pure (respond_json web 200 (message_response "withdrawal successful"))

  unfoldable pub transfer_handler : Request → Handler Response
  transfer_handler req = do
    user_id ← authenticate rt web req
    input ← or_fail (web.decode_transfer req.body) (respond_error web 400 "invalid input")
    let from_id_raw = first_non_blank input.from_id input.from_account_id
    let to_id_raw = first_non_blank input.to_id input.to_account_id
    fail_if (is_empty from_id_raw)
        (respond_error web 400 "from_id (or from_account_id) is required")
    fail_if (is_empty to_id_raw) (respond_error web 400 "to_id (or to_account_id) is required")
    from_id ← or_fail (rt.uuid_parse from_id_raw) (respond_error web 400 "invalid from_id format")
    to_id ← or_fail (rt.uuid_parse to_id_raw) (respond_error web 400 "invalid to_id format")
    amount ← or_fail (normalize_amount_input input.amount) (respond_error web 400 "invalid input")
    from_acc ←
        call ((new rt pool).get_account from_id)
          (λ e. respond_error web 404 "from account not found")
    fail_if (denied from_acc.owner_id user_id) (respond_error web 403 "access denied")
    call (Ledger.transfer rt dec from_id to_id amount) (λ e. respond_error web 400 (error_text e))
    pure (respond_json web 200 (message_response "transfer successful"))
