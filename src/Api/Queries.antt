-- ===== src/Api/Queries.antt =====
-- `GetEntries`, `GetTransactions` and `ReconcileAccount` of internal/api/handler.go.
pub mod Paging
pub mod Access
pub mod Statement
pub mod Offsets
use go_bank_ledger.Prelude.{
  ℕ, ◌+◌, ◌-◌, ◌^◌, ◌%◌, String, Bool, true, false, not, Option, none, some, List, [], ◌∷◌, map, ℤ,
  pos, negsuc, leb_ℤ, ltb_ℤ, ltb, leb, min, ◌==◌, if◌then◌else◌,
}
use go_bank_ledger.Prelude.Text.{atoi}
use go_bank_ledger.Errors.{Error, error_text}
use go_bank_ledger.Sqlc.Models.{Uuid, Entry}
use go_bank_ledger.Sqlc.Accounts.{get_account}
use go_bank_ledger.Sqlc.Entries.{list_entries_by_account, list_entries_by_transaction}
use go_bank_ledger.Runtime.{Runtime, Decimals}
use go_bank_ledger.Sqlc.Querier.{new, pool}
use go_bank_ledger.Store.{on_pool}
use go_bank_ledger.Exec.{◌>>=◌, ◌>>◌, pure, or_fail, fail_if}
use go_bank_ledger.Ledger
use go_bank_ledger.Api.Http.{
  Web, Request, Response, Handler, entry_list, reconcile_response, respond_json, respond_error,
  call, denied,
}
use go_bank_ledger.Api.Mapper.{to_entry_response}
use go_bank_ledger.Api.Auth.{authenticate}

-- `int32(v)` of a non-negative int.
unfoldable pub to_int32 : ℕ → ℤ
to_int32 v = let low = v % 2 ^ 32 in if ltb low (2 ^ 31) then pos low else negsuc (2 ^ 32 - low - 1)

-- The limit is 20 unless a positive number is given, and at most 100.
abbrev pub limit_of : Option ℤ → ℕ
limit_of none = 20
limit_of (some (negsuc v)) = 20
limit_of (some (pos v)) = if ltb 0 v then min v 100 else 20

abbrev pub offset_of : Option ℤ → ℕ
offset_of none = 0
offset_of (some (negsuc v)) = 0
offset_of (some (pos v)) = v

unfoldable pub page_limit : String → ℤ
page_limit text = to_int32 (limit_of (atoi text))

unfoldable pub page_offset : String → ℤ
page_offset text = to_int32 (offset_of (atoi text))

-- `acc.OwnerID.Valid && acc.OwnerID.UUID == userID`
unfoldable pub owns : Option Uuid → Uuid → Bool
owns none user = false
owns (some owner) user = owner == user

abbrev no_entries : List Entry → Bool
no_entries [] = true
no_entries (e ∷ es) = false

module _ (rt : Runtime) (web : Web) where
  unfoldable pub get_entries_handler : Request → Handler Response
  get_entries_handler req = do
    user_id ← authenticate rt web req
    account_id ← or_fail (rt.uuid_parse req.path_id) (respond_error web 400 "invalid account ID")
    acc ←
        call ((new rt pool).get_account account_id) (λ e. respond_error web 404 "account not found")
    fail_if (denied acc.owner_id user_id) (respond_error web 403 "access denied")
    entries ←
        call
          ((new rt pool).list_entries_by_account (record {
            account_id = account_id;
            limit = page_limit req.limit;
            offset = page_offset req.offset;
          }))
          (λ e. respond_error web 500 "failed to fetch entries")
    pure (respond_json web 200 (entry_list (map (to_entry_response rt) entries)))

  -- The loop over the entries: true at the first whose account is the user's.
  unfoldable pub authorized : Uuid → List Entry → Handler Bool
  authorized user_id [] = pure false
  authorized user_id (entry ∷ entries) = do
    acc ←
        call ((new rt pool).get_account entry.account_id)
          (λ e. respond_error web 500 "failed to authorize transaction")
    let rest = authorized user_id entries
    if owns acc.owner_id user_id then pure true else rest

  unfoldable pub get_transactions_handler : Request → Handler Response
  unfolding authorized
  get_transactions_handler req = do
    user_id ← authenticate rt web req
    transaction_id ←
        or_fail (rt.uuid_parse req.path_id) (respond_error web 400 "invalid transaction ID")
    entries ←
        call ((new rt pool).list_entries_by_transaction transaction_id)
          (λ e. respond_error web 500 "failed to fetch transaction")
    fail_if (no_entries entries) (respond_error web 404 "transaction not found")
    allowed ← authorized user_id entries
    fail_if (not allowed) (respond_error web 403 "access denied")
    pure (respond_json web 200 (entry_list (map (to_entry_response rt) entries)))

module _ {Decimal : Type 0} (rt : Runtime) (dec : Decimals Decimal) (web : Web) where
  unfoldable pub reconcile_handler : Request → Handler Response
  reconcile_handler req = do
    user_id ← authenticate rt web req
    account_id ← or_fail (rt.uuid_parse req.path_id) (respond_error web 400 "invalid account ID")
    acc ←
        call ((new rt pool).get_account account_id) (λ e. respond_error web 404 "account not found")
    fail_if (denied acc.owner_id user_id) (respond_error web 403 "access denied")
    matched ←
        call (Ledger.reconcile_account rt dec account_id)
          (λ e. respond_error web 500 (error_text e))
    pure (respond_json web 200 (reconcile_response matched "Account reconciled successfully"))
