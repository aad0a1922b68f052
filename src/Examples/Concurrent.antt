-- ===== src/Examples/Concurrent.antt =====
-- The theorems at a database where another session commits between two queries.
use go_bank_ledger.Prelude.{
  ◌≡◌, ◌≢◌, refl, true, some, ◌∷◌, pos, negsuc, ◌+ℤ◌, ◌-ℤ◌, ◌==◌, if◌then◌else◌,
}
use go_bank_ledger.Sqlc.Tables.{EntryRow, OperationType, Tables}
use go_bank_ledger.Sqlc.Accounts.{find_account, fits_numeric, add_balance}
use go_bank_ledger.Sqlc.Entries.{ledger_balance}
use go_bank_ledger.Runtime.{Runtime, NumericLaws}
use go_bank_ledger.Exec.{ok, err}
use go_bank_ledger.Ledger.{reconcile_account}
use go_bank_ledger.Ledger.Reconciliation.{mismatch, reconcile_account-race}
use go_bank_ledger.Examples.Bank.{bank, decimals, bank_laws, alice, books, start}
use go_bank_ledger.Examples.Witnesses.{books-IsLedger}

abbrev paid : EntryRow
paid = record {
  id = 22;
  account_id = 2;
  debit = pos 0;
  credit = pos 2;
  transaction_id = 41;
  operation_type = OperationType.deposit;
  description = some "External deposit";
  created_at = some 4;
}

-- Another deposit of two units to Alice.
abbrev pub richer : Tables → Tables
richer T = record T {
  accounts = add_balance 2 (pos 2) (add_balance 1 (negsuc 1) T.accounts);
  entries =
      record paid { id = 23; account_id = 1; debit = pos 2; credit = pos 0 } ∷ paid ∷ T.entries;
}

-- It is committed before step 1.
abbrev busy : Runtime
busy = record bank { others = λ n T. if n == 1 then richer T else T }

abbrev busy_laws : NumericLaws busy decimals
busy_laws = record {
  units = bank_laws.units;
  of_units = bank_laws.of_units;
  units-of_units = bank_laws.units-of_units;
  units-zero = bank_laws.units-zero;
  units-neg = bank_laws.units-neg;
  less_than_mono = bank_laws.less_than_mono;
  equal_iff = bank_laws.equal_iff;
  numeric_in-string_fixed = bank_laws.numeric_in-string_fixed;
  new_from_string-numeric_out = bank_laws.new_from_string-numeric_out;
}

reconcile_account-race_example :
    let r = (reconcile_account busy decimals 2 start).0 in
    ((pos 5 ≡ pos 7) → r ≡ ok true)
    × ((pos 5 ≢ pos 7) → r ≡ err (mismatch busy_laws (pos 5) (pos 7)))
unfolding find_account fits_numeric ledger_balance ◌+ℤ◌ ◌-ℤ◌
reconcile_account-race_example =
    reconcile_account-race busy_laws 2 alice books books (richer books) 0 refl refl books-IsLedger
      refl refl refl refl
