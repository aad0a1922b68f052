-- ===== src/Ledger/Progress.antt =====
-- That `Transfer`, `Deposit` and `Withdraw` of internal/service/ledger.go do succeed: the tail of
-- their transactions over a database that answers.
pub mod Transfer
pub mod Deposit
pub mod Withdraw
use go_bank_ledger.Prelude.{
  ℕ, ◌+◌, ◌≡◌, ◌≢◌, refl, ◌∙◌, sym, ap, not, Bool, true, false, ◌&&◌, Option, none, some, ◌∷◌, List,
  ℤ, pos, neg_ℤ, ◌≤ℤ◌, String, arith, ◌==◌, if◌then◌else◌,
}
use go_bank_ledger.Errors.{Error}
use go_bank_ledger.Sqlc.Models.{Uuid, Entry, CreateEntryParams, UpdateAccountBalanceParams}
use go_bank_ledger.Sqlc.Tables.{AccountRow, EntryRow, OperationType, Tables, World}
use go_bank_ledger.Sqlc.Accounts.{
  find_account, add_balance, fits_numeric, all_fit, update_account_balance, get_account_for_update,
  get_settlement_account_for_update, find_settlement, scan_account,
}
use go_bank_ledger.Sqlc.Entries.{
  create_entry, find_entry, operation_type_in, passes_checks, is_some, scan_entry,
}
use go_bank_ledger.Runtime.{Runtime, Decimals, NumericLaws}
use go_bank_ledger.Exec.{Result, Action, ok, err, ◌>>=◌, statement, new_uuid, timestamp}
use go_bank_ledger.Store.{exec_tx, exec_tx_once, begin_tx, commit}
use go_bank_ledger.Exec.Runs.{at, bind-runs, or_fail-runs, fail_if-runs, statement-runs}

module _ (rt : Runtime) (answers : (n : ℕ) → rt.fault n ≡ none) where
  -- The row that an accepted entry becomes.
  abbrev pub new_entry : CreateEntryParams → ℤ → ℤ → OperationType → ℕ → EntryRow
  new_entry arg debit credit op n = record {
    id = rt.random_uuid (n + 1);
    account_id = arg.account_id;
    debit = debit;
    credit = credit;
    transaction_id = arg.transaction_id;
    operation_type = op;
    description = arg.description;
    created_at = some (rt.current_timestamp (n + 1 + 1));
  }

  pub create_entry-runs :
      (arg : CreateEntryParams) (debit credit : ℤ) (op : OperationType) (owner : AccountRow)
      (T : Tables) (n : ℕ)
      → rt.numeric_in arg.debit ≡ some debit
      → rt.numeric_in arg.credit ≡ some credit
      → operation_type_in arg.operation_type ≡ some op
      → (fits_numeric debit && fits_numeric credit) ≡ true
      → passes_checks debit credit ≡ true
      → find_entry (rt.random_uuid (n + 1)) T.entries ≡ none
      → find_account arg.account_id T.accounts ≡ some owner
      → create_entry rt arg (at T n) ≡ (
        ok (scan_entry rt (new_entry arg debit credit op n)),
        at (record T { entries = new_entry arg debit credit op n ∷ T.entries }) (n + 1 + 1 + 1),
      )
  unfolding create_entry statement new_uuid timestamp ◌>>=◌
  create_entry-runs arg debit credit op owner T n d c o fits checks fresh own =
      simp (answers, d, c, o, fits, checks, fresh, own)

  pub update_account_balance-runs :
      (arg : UpdateAccountBalanceParams) (delta : ℤ) (T : Tables) (n : ℕ)
      → rt.numeric_in arg.balance ≡ some delta
      → all_fit (add_balance arg.id delta T.accounts) ≡ true
      → update_account_balance rt arg (at T n)
        ≡ (ok tt, at (record T { accounts = add_balance arg.id delta T.accounts }) (n + 1))
  unfolding update_account_balance statement ◌>>=◌
  update_account_balance-runs arg delta T n d fits = simp (answers, d, fits)

-- One run of `ExecTx` over a database that answers: BEGIN, the body, COMMIT.
module _ (rt : Runtime) (answers : (n : ℕ) → rt.fault n ≡ none) where
  pub begin-runs : (T : Tables) (n : ℕ) → begin_tx rt (at T n) ≡ (ok tt, at (rt.others n T) (n + 1))
  unfolding begin_tx
  begin-runs T n = rw (answers n, begin_tx)

  commit-runs : (S U : Tables) (k : ℕ) → commit rt S (at U k) ≡ (ok tt, at U (k + 1))
  unfolding commit
  commit-runs S U k = rw (answers k, commit)

  exec_tx_once-runs :
      (fn : Action Unit) (T U : Tables) (n k : ℕ)
      → fn (at (rt.others n T) (n + 1)) ≡ (ok tt, at U k)
      → exec_tx_once rt fn (at T n) ≡ (ok tt, at U (k + 1))
  unfolding exec_tx_once
  exec_tx_once-runs fn T U n k ran = rw (begin-runs T n, ran) (commit-runs (rt.others n T) U k)

  pub exec_tx-runs :
      (fn : Action Unit) (T U : Tables) (n k : ℕ)
      → fn (at (rt.others n T) (n + 1)) ≡ (ok tt, at U k)
      → exec_tx rt fn (at T n) ≡ (ok tt, at U (k + 1))
  unfolding exec_tx
  exec_tx-runs fn T U n k ran = rw (exec_tx_once-runs fn T U n k ran)

  pub account-runs :
      (id : Uuid) (row : AccountRow) (T : Tables) (n : ℕ)
      → find_account id T.accounts ≡ some row
      → get_account_for_update rt id (at T n) ≡ (ok (scan_account rt row), at T (n + 1))
  unfolding get_account_for_update statement ◌>>=◌
  account-runs id row T n found = simp (answers, found)

  pub settlement-runs :
      (row : AccountRow) (T : Tables) (n : ℕ)
      → find_settlement T.accounts ≡ some row
      → get_settlement_account_for_update rt (at T n) ≡ (ok (scan_account rt row), at T (n + 1))
  unfolding get_settlement_account_for_update statement ◌>>=◌
  settlement-runs row T n found = simp (answers, found)

pub checks_debit : (z : ℤ) → pos 1 ≤ℤ z → passes_checks z (pos 0) ≡ true
unfolding passes_checks
checks_debit z h = ground arith

pub checks_credit : (z : ℤ) → pos 1 ≤ℤ z → passes_checks (pos 0) z ≡ true
unfolding passes_checks
checks_credit z h = ground arith

pub fits-zero :
    (z : ℤ)
    → fits_numeric z ≡ true
    → ((fits_numeric z && fits_numeric (pos 0)) ≡ true)
      × ((fits_numeric (pos 0) && fits_numeric z) ≡ true)
unfolding fits_numeric
fits-zero z h = ground arith

module _ {Decimal : Type 0} {rt : Runtime} {dec : Decimals Decimal}
    (laws : NumericLaws rt dec) where
  pub reads_zero : rt.numeric_in (dec.string_fixed dec.zero) ≡ some (pos 0)
  reads_zero = rw (laws.numeric_in-string_fixed dec.zero, laws.units-zero)

  pub reads_minus :
      (d : Decimal) → rt.numeric_in (dec.string_fixed (dec.neg d)) ≡ some (neg_ℤ (laws.units d))
  reads_minus d = rw (laws.numeric_in-string_fixed (dec.neg d), laws.units-neg d)
