-- ===== src/Ledger/Refusals.antt =====
-- Calls of internal/service/ledger.go that the balance does not cover, over a database that answers.
use go_bank_ledger.Prelude.{
  ℕ, ◌+◌, ◌≡◌, ◌≢◌, refl, true, false, none, some, String, arith, ◌==◌, eq_iff, Bool,
}
use go_bank_ledger.Errors.{Error, insufficient_funds, is_serialization_error}
use go_bank_ledger.Sqlc.Models.{Uuid}
use go_bank_ledger.Sqlc.Tables.{AccountRow, Tables, World}
use go_bank_ledger.Sqlc.Accounts.{find_account, find_settlement}
use go_bank_ledger.Runtime.{Runtime, Decimals, NumericLaws}
use go_bank_ledger.Exec.{Action, err, ◌>>=◌, fail_if}
use go_bank_ledger.Exec.Runs.{at, bind-runs, or_fail-runs, fail_if-runs, not_of_true, wrap-runs}
use go_bank_ledger.Store.{exec_tx, exec_tx_once, rollback}
use go_bank_ledger.Ledger.{transfer_tx, transfer, withdraw_tx, withdraw, validate_positive_amount}
use go_bank_ledger.Ledger.Progress.{begin-runs, account-runs, settlement-runs}

-- A guard that refuses.
guard-refuses :
    {B : Type 0} (b : Bool) (e : Error) (f : Action B) (w : World)
    → b ≡ true
    → (fail_if b e >>= λ _. f) w ≡ (err e, w)
unfolding ◌>>=◌
guard-refuses b e f w h = rw h refl

module _ (rt : Runtime) (answers : (n : ℕ) → rt.fault n ≡ none) where
  rollback-runs :
      (S U : Tables) (k : ℕ) (e : Error) → rollback rt S e (at U k) ≡ (err e, at S (k + 1))
  unfolding rollback
  rollback-runs S U k e = rw (answers k, rollback)

  exec_tx_once-refuses :
      (fn : Action Unit) (T U : Tables) (n k : ℕ) (e : Error)
      → fn (at (rt.others n T) (n + 1)) ≡ (err e, at U k)
      → exec_tx_once rt fn (at T n) ≡ (err e, at (rt.others n T) (k + 1))
  unfolding exec_tx_once
  exec_tx_once-refuses fn T U n k e ran =
      rw (begin-runs rt answers T n, ran) (rollback-runs (rt.others n T) U k e)

  exec_tx-refuses :
      (fn : Action Unit) (T U : Tables) (n k : ℕ) (e : Error)
      → is_serialization_error e ≡ false
      → fn (at (rt.others n T) (n + 1)) ≡ (err e, at U k)
      → exec_tx rt fn (at T n) ≡ (err e, at (rt.others n T) (k + 1))
  unfolding exec_tx
  exec_tx-refuses fn T U n k e plain ran = rw (exec_tx_once-refuses fn T U n k e ran, plain) refl

module _ {Decimal : Type 0} {rt : Runtime} {dec : Decimals Decimal} (laws : NumericLaws rt dec)
    (answers : (n : ℕ) → rt.fault n ≡ none) where
  transfer_tx-overdrawn :
      (from_id to_id : Uuid) (amount : Decimal) (source target : AccountRow) (S : Tables) (n : ℕ)
      → find_account from_id S.accounts ≡ some source
      → find_account to_id S.accounts ≡ some target
      → source.currency ≡ target.currency
      → dec.less_than (laws.of_units source.balance) amount ≡ true
      → transfer_tx rt dec from_id to_id amount (at S n)
        ≡ (err insufficient_funds, at S (n + 1 + 1))
  unfolding transfer_tx
  transfer_tx-overdrawn from_id to_id amount source target S n fs ft cur short =
      bind-runs _ _ (account-runs rt answers from_id source S n fs) (
        bind-runs _ _ (account-runs rt answers to_id target S (n + 1) ft) (
          fail_if-runs _ _ _ (not_of_true _ ((eq_iff _ _).1 cur)) (
            or_fail-runs _ _ _ (laws.new_from_string-numeric_out source.balance)
              (guard-refuses _ _ _ _ short))))

  withdraw_tx-overdrawn :
      (id : Uuid) (amount : Decimal) (system account : AccountRow) (S : Tables) (n : ℕ)
      → find_settlement S.accounts ≡ some system
      → find_account id S.accounts ≡ some account
      → account.currency ≡ system.currency
      → dec.less_than (laws.of_units account.balance) amount ≡ true
      → withdraw_tx rt dec id amount (at S n) ≡ (err insufficient_funds, at S (n + 1 + 1))
  unfolding withdraw_tx
  withdraw_tx-overdrawn id amount system account S n fs ft cur short =
      bind-runs _ _ (wrap-runs _ _ (settlement-runs rt answers system S n fs)) (
        bind-runs _ _ (wrap-runs _ _ (account-runs rt answers id account S (n + 1) ft)) (
          fail_if-runs _ _ _ (not_of_true _ ((eq_iff _ _).1 cur)) (
            or_fail-runs _ _ _ (laws.new_from_string-numeric_out account.balance)
              (guard-refuses _ _ _ _ short))))

  -- Over a database that answers, a transfer of a positive amount between two different accounts of
  -- one currency that the sender's balance does not cover fails with ErrInsufficientFunds, and the
  -- tables are left as the transaction found them.
  pub transfer-overdrawn :
      (from_id to_id : Uuid) (text : String) (amount : Decimal) (source target : AccountRow)
      (T : Tables) (n : ℕ)
      → dec.new_from_string text ≡ some amount
      → dec.less_than_or_equal amount dec.zero ≡ false
      → from_id ≢ to_id
      → find_account from_id (rt.others n T).accounts ≡ some source
      → find_account to_id (rt.others n T).accounts ≡ some target
      → source.currency ≡ target.currency
      → dec.less_than (laws.of_units source.balance) amount ≡ true
      → transfer rt dec from_id to_id text (at T n)
        ≡ (err insufficient_funds, at (rt.others n T) (n + 1 + 1 + 1 + 1))
  unfolding transfer validate_positive_amount ◌>>=◌ is_serialization_error
  transfer-overdrawn from_id to_id text amount source target T n parsed positive ne fs ft cur
        short =
      let differ : (from_id == to_id) ≡ false = ground arith in
      simp (parsed, positive, differ)
        (exec_tx-refuses rt answers (transfer_tx rt dec from_id to_id amount) T _ n _ _ refl
          (transfer_tx-overdrawn from_id to_id amount source target _ (n + 1) fs ft cur short))

  -- Over a database that answers, a withdrawal of a positive amount that the stored balance does not
  -- cover fails with ErrInsufficientFunds if account and settlement account have one currency, and
  -- the tables are left as the transaction found them.
  withdraw-overdrawn :
      (id : Uuid) (text : String) (amount : Decimal) (system account : AccountRow) (T : Tables)
      (n : ℕ)
      → dec.new_from_string text ≡ some amount
      → dec.less_than_or_equal amount dec.zero ≡ false
      → find_settlement (rt.others n T).accounts ≡ some system
      → find_account id (rt.others n T).accounts ≡ some account
      → account.currency ≡ system.currency
      → dec.less_than (laws.of_units account.balance) amount ≡ true
      → withdraw rt dec id text (at T n)
        ≡ (err insufficient_funds, at (rt.others n T) (n + 1 + 1 + 1 + 1))
  unfolding withdraw validate_positive_amount ◌>>=◌ is_serialization_error
  withdraw-overdrawn id text amount system account T n parsed positive fs ft cur short =
      simp (parsed, positive)
        (exec_tx-refuses rt answers (withdraw_tx rt dec id amount) T _ n _ _ refl
          (withdraw_tx-overdrawn id amount system account _ (n + 1) fs ft cur short))
