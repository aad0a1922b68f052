-- ===== src/Examples/Witnesses.antt =====
-- The theorems at concrete inputs.
use go_bank_ledger.Prelude.{
  ◌-ℤ◌, ℕ, ◌+◌, ◌*◌, ◌^◌, ◌≡◌, refl, none, some, String, pos, ◌+ℤ◌, arith, min, int_laws,
}
use go_bank_ledger.Sqlc.Models.{Uuid}
use go_bank_ledger.Sqlc.Tables.{AccountRow}
use go_bank_ledger.Sqlc.Accounts.{find_account}
use go_bank_ledger.Sqlc.Accounts.Lookup.{total_balance}
use go_bank_ledger.Sqlc.Entries.{find_entry, ledger_balance, passes_checks}
use go_bank_ledger.Sqlc.Entries.Sums.{net_of_transaction}
use go_bank_ledger.Exec.{err}
use go_bank_ledger.Exec.Runs.{at}
use go_bank_ledger.Store.{second, retry_wait, millisecond, exec_tx}
use go_bank_ledger.Store.Backoff.{retry_wait-eq}
use go_bank_ledger.Store.Atomic.{Outcome, exec_tx-Outcome}
use go_bank_ledger.Ledger.{deposit, withdraw, transfer, transfer_tx}
use go_bank_ledger.Ledger.Invariant.{IsLedger}
use go_bank_ledger.Ledger.Outcomes.{
  AllOrNothing, DepositSpec, WithdrawSpec, TransferSpec, deposit-AllOrNothing,
  withdraw-AllOrNothing, transfer-AllOrNothing, deposit-IsLedger, withdraw-IsLedger,
  transfer-IsLedger,
}
use go_bank_ledger.Api.Http.{respond}
use go_bank_ledger.Api.Money.{deposit_handler, withdraw_handler, transfer_handler}
use go_bank_ledger.Api.Money.Answers.{
  Served, DepositServed, WithdrawServed, TransferServed, deposit_handler-Served,
  withdraw_handler-Served, transfer_handler-Served,
}
use go_bank_ledger.Api.Queries.{get_transactions_handler}
use go_bank_ledger.Api.Queries.Access.{Answered, get_transactions_handler-Answered}
use go_bank_ledger.Ledger.Refusals.{transfer-overdrawn}
use go_bank_ledger.Errors.{insufficient_funds}
use go_bank_ledger.Examples.Bank.{
  bank, decimals, bank_laws, alice, bob, books, start, round, exact, read_number, web, request,
}

-- Three units.
abbrev three : String
three = "+111"

books-reconciled :
    (id : Uuid) {r : AccountRow}
    → find_account id books.accounts ≡ some r
    → r.balance ≡ ledger_balance id books.entries
unfolding find_account ledger_balance ◌+ℤ◌ ◌-ℤ◌
books-reconciled id {r} e = ground arith

books-balanced : (tx : Uuid) → net_of_transaction tx books.entries ≡ pos 0
unfolding net_of_transaction
books-balanced tx = grind int_laws

pub books-IsLedger : IsLedger books
unfolding find_account total_balance passes_checks ◌+ℤ◌
books-IsLedger = record {
  unique = (refl, (refl, (refl, tt)));
  reconciled = λ id r e. books-reconciled id e;
  covered = λ id r e user. ground arith;
  balanced = books-balanced;
  zero_sum = refl;
  single_sided = (refl, (refl, tt));
  referenced = (λ e. cc, (λ e. cc, tt));
}

transfer-IsLedger_example : IsLedger (transfer bank decimals 2 3 three start).1.tables
transfer-IsLedger_example = transfer-IsLedger bank_laws (λ n T h. h) 2 3 three start books-IsLedger

withdraw-IsLedger_example : IsLedger (withdraw bank decimals 2 three start).1.tables
withdraw-IsLedger_example = withdraw-IsLedger bank_laws (λ n T h. h) 2 three start books-IsLedger

deposit-IsLedger_example : IsLedger (deposit bank decimals 2 three start).1.tables
deposit-IsLedger_example = deposit-IsLedger bank_laws (λ n T h. h) 2 three start books-IsLedger

transfer-AllOrNothing_example :
    AllOrNothing bank
      (TransferSpec bank_laws 2 3 three)
      books
      (transfer bank decimals 2 3 three start)
transfer-AllOrNothing_example = transfer-AllOrNothing bank_laws 2 3 three start

withdraw-AllOrNothing_example :
    AllOrNothing bank (WithdrawSpec bank_laws 2 three) books (withdraw bank decimals 2 three start)
withdraw-AllOrNothing_example = withdraw-AllOrNothing bank_laws 2 three start

deposit-AllOrNothing_example :
    AllOrNothing bank (DepositSpec bank_laws 2 three) books (deposit bank decimals 2 three start)
deposit-AllOrNothing_example = deposit-AllOrNothing bank_laws 2 three start

exec_tx-Outcome_example :
    Outcome bank
      (transfer_tx bank decimals 2 3 (pos 30))
      books
      (exec_tx bank (transfer_tx bank decimals 2 3 (pos 30)) start)
exec_tx-Outcome_example = exec_tx-Outcome bank (transfer_tx bank decimals 2 3 (pos 30)) start

pub fresh_ids : (m : ℕ) → find_entry (m + 1000) books.entries ≡ none
unfolding find_entry
fresh_ids m = ground arith

pub distinct_ids : (n m : ℕ) → n + 1000 ≡ m + 1000 → n ≡ m
distinct_ids n m e = omega arith

deposit_handler-Served_example :
    Served bank
      (DepositServed bank_laws web request)
      books
      (respond (deposit_handler bank decimals web request) start)
deposit_handler-Served_example = deposit_handler-Served bank_laws web request books 0

withdraw_handler-Served_example :
    Served bank
      (WithdrawServed bank_laws web request)
      books
      (respond (withdraw_handler bank decimals web request) start)
withdraw_handler-Served_example = withdraw_handler-Served bank_laws web request books 0

transfer_handler-Served_example :
    Served bank
      (TransferServed bank_laws web request)
      books
      (respond (transfer_handler bank decimals web request) start)
transfer_handler-Served_example = transfer_handler-Served bank_laws web request books 0

retry_wait-eq_example : retry_wait 3 ≡ min (50 * millisecond * 2 ^ 3) second
retry_wait-eq_example = retry_wait-eq 3

-- Six units.
abbrev six : String
six = "+111111"

transfer-overdrawn_example :
    transfer bank decimals 2 3 six start ≡ (err insufficient_funds, at books (0 + 1 + 1 + 1 + 1))
unfolding read_number exact round find_account
transfer-overdrawn_example =
    transfer-overdrawn bank_laws (λ n. refl) 2 3 six (pos 60) alice bob books 0 refl refl
      (omega arith) refl refl refl refl

get_transactions_handler-Answered_example :
    Answered bank web request books (respond (get_transactions_handler bank web request) start)
get_transactions_handler-Answered_example =
    get_transactions_handler-Answered bank web request books 0
