-- ===== src/Ledger.antt =====
-- internal/service/ledger.go: deposits, withdrawals, transfers and reconciliation.
pub mod Movement
pub mod Invariant
pub mod Transactions
pub mod Books
pub mod Journal
pub mod Outcomes
pub mod Steps
pub mod Accounts
pub mod Reconciliation
pub mod Refusals
pub mod Progress
use go_bank_ledger.Prelude.{
  ℕ, String, ◌+++◌, str_eq, Bool, true, false, not, Option, none, some, ◌==◌, if◌then◌else◌,
}
use go_bank_ledger.Errors.{
  Error, insufficient_funds, same_account_transfer, invalid_amount, currency_mismatch, plain,
  wrapped,
}
use go_bank_ledger.Sqlc.Models.{Uuid}
use go_bank_ledger.Sqlc.Tables.{Tables, World}
use go_bank_ledger.Runtime.{Runtime, Decimals}
use go_bank_ledger.Exec.{Action, ok, err, ◌>>=◌, ◌>>◌, pure, fail, or_fail, fail_if, wrap, new_uuid}
use go_bank_ledger.Sqlc.Accounts.{
  get_account, get_account_for_update, get_settlement_account_for_update, update_account_balance,
}
use go_bank_ledger.Sqlc.Entries.{create_entry, get_account_balance}
use go_bank_ledger.Sqlc.Querier.{new, pool, transaction}
use go_bank_ledger.Store.{exec_tx}

module _ {Decimal : Type 0} (rt : Runtime) (dec : Decimals Decimal) where
  -- `validatePositiveAmount`
  unfoldable pub validate_positive_amount : String → Action Decimal
  validate_positive_amount amount_str = do
    amount ← or_fail (dec.new_from_string amount_str) invalid_amount
    fail_if (dec.less_than_or_equal amount dec.zero) invalid_amount
    pure amount

  -- The function that `Deposit` runs in its transaction.
  unfoldable pub deposit_tx : Uuid → Decimal → Action Unit
  deposit_tx account_id amount = do
    settlement ←
        wrap (wrapped "settlement account not found")
          (new rt transaction).get_settlement_account_for_update
    account ←
        wrap (wrapped "account not found") ((new rt transaction).get_account_for_update account_id)
    fail_if (not (str_eq account.currency settlement.currency)) currency_mismatch
    tx_id ← new_uuid rt
    (new rt transaction).create_entry (record {
      account_id = account_id;
      debit = dec.string_fixed dec.zero;
      credit = dec.string_fixed amount;
      transaction_id = tx_id;
      operation_type = "deposit";
      description = some "External deposit";
    })
    (new rt transaction).create_entry (record {
      account_id = settlement.id;
      debit = dec.string_fixed amount;
      credit = dec.string_fixed dec.zero;
      transaction_id = tx_id;
      operation_type = "deposit";
      description = some ("Deposit to account " +++ rt.uuid_string account_id);
    })
    (new rt transaction).update_account_balance
        (record { balance = dec.string_fixed amount; id = account_id })
    (new rt transaction).update_account_balance
        (record { balance = dec.string_fixed (dec.neg amount); id = settlement.id })

  unfoldable pub deposit : Uuid → String → Action Unit
  deposit account_id amount_str = do
    amount ← validate_positive_amount amount_str
    exec_tx rt (deposit_tx account_id amount)

  -- The function that `Withdraw` runs in its transaction.
  unfoldable pub withdraw_tx : Uuid → Decimal → Action Unit
  withdraw_tx account_id amount = do
    settlement ←
        wrap (wrapped "settlement account not found")
          (new rt transaction).get_settlement_account_for_update
    account ←
        wrap (wrapped "account not found") ((new rt transaction).get_account_for_update account_id)
    fail_if (not (str_eq account.currency settlement.currency)) currency_mismatch
    balance_dec ← or_fail (dec.new_from_string account.balance) (plain "invalid balance")
    fail_if (dec.less_than balance_dec amount) insufficient_funds
    tx_id ← new_uuid rt
    (new rt transaction).create_entry (record {
      account_id = account_id;
      debit = dec.string_fixed amount;
      credit = dec.string_fixed dec.zero;
      transaction_id = tx_id;
      operation_type = "withdrawal";
      description = some "External withdrawal";
    })
    (new rt transaction).create_entry (record {
      account_id = settlement.id;
      debit = dec.string_fixed dec.zero;
      credit = dec.string_fixed amount;
      transaction_id = tx_id;
      operation_type = "withdrawal";
      description = some ("Withdrawal from " +++ rt.uuid_string account_id);
    })
    (new rt transaction).update_account_balance
        (record { balance = dec.string_fixed (dec.neg amount); id = account_id })
    (new rt transaction).update_account_balance
        (record { balance = dec.string_fixed amount; id = settlement.id })

  unfoldable pub withdraw : Uuid → String → Action Unit
  withdraw account_id amount_str = do
    amount ← validate_positive_amount amount_str
    exec_tx rt (withdraw_tx account_id amount)

  -- The function that `Transfer` runs in its transaction.
  unfoldable pub transfer_tx : Uuid → Uuid → Decimal → Action Unit
  transfer_tx from_id to_id amount = do
    from_acc ← (new rt transaction).get_account_for_update from_id
    to_acc ← (new rt transaction).get_account_for_update to_id
    fail_if (not (str_eq from_acc.currency to_acc.currency)) currency_mismatch
    from_balance ← or_fail (dec.new_from_string from_acc.balance) (plain "invalid from balance")
    fail_if (dec.less_than from_balance amount) insufficient_funds
    tx_id ← new_uuid rt
    (new rt transaction).create_entry (record {
      account_id = from_id;
      debit = dec.string_fixed amount;
      credit = dec.string_fixed dec.zero;
      transaction_id = tx_id;
      operation_type = "transfer";
      description = some ("Transfer to " +++ rt.uuid_string to_id);
    })
    (new rt transaction).create_entry (record {
      account_id = to_id;
      debit = dec.string_fixed dec.zero;
      credit = dec.string_fixed amount;
      transaction_id = tx_id;
      operation_type = "transfer";
      description = some ("Transfer from " +++ rt.uuid_string from_id);
    })
    (new rt transaction).update_account_balance
        (record { balance = dec.string_fixed (dec.neg amount); id = from_id })
    (new rt transaction).update_account_balance
        (record { balance = dec.string_fixed amount; id = to_id })

  unfoldable pub transfer : Uuid → Uuid → String → Action Unit
  transfer from_id to_id amount_str = do
    amount ← validate_positive_amount amount_str
    fail_if (from_id == to_id) same_account_transfer
    exec_tx rt (transfer_tx from_id to_id amount)

  -- `ReconcileAccount`; the error text names both amounts.
  unfoldable pub reconcile_account : Uuid → Action Bool
  reconcile_account account_id = do
    account ← wrap (wrapped "account not found") ((new rt pool).get_account account_id)
    calculated_str ←
        wrap (wrapped "failed to calculate balance") ((new rt pool).get_account_balance account_id)
    calculated ←
        or_fail (dec.new_from_string calculated_str)
          (wrapped "invalid calculated balance" (dec.parse_error calculated_str))
    stored ←
        or_fail (dec.new_from_string account.balance)
          (wrapped "invalid stored balance" (dec.parse_error account.balance))
    fail_if (not (dec.equal stored calculated)) (
        plain (
          "balance mismatch: stored "
          +++ (account.balance +++ (", calculated " +++ dec.string_fixed calculated))))
    pure true
