-- ===== src/Ledger/Progress/Deposit.antt =====
-- A deposit of internal/service/ledger.go succeeds over a database that answers.
use go_bank_ledger.Prelude.{
  ℕ, ◌+◌, ◌≡◌, refl, true, false, none, some, pos, neg_ℤ, ◌≤ℤ◌, String, arith, eq_iff,
}
use go_bank_ledger.Sqlc.Models.{Uuid}
use go_bank_ledger.Sqlc.Tables.{AccountRow, OperationType, Tables}
use go_bank_ledger.Sqlc.Accounts.{find_account, find_settlement, add_balance, fits_numeric, all_fit}
use go_bank_ledger.Sqlc.Entries.{find_entry}
use go_bank_ledger.Runtime.{Runtime, Decimals, NumericLaws}
use go_bank_ledger.Exec.{ok, ◌>>=◌}
use go_bank_ledger.Exec.Runs.{at, bind-runs, fail_if-runs, new_uuid-runs, not_of_true, wrap-runs}
use go_bank_ledger.Ledger.{deposit_tx, deposit, validate_positive_amount}
use go_bank_ledger.Ledger.Progress.Transfer.{find_entry-cons}
use go_bank_ledger.Ledger.Progress.{
  create_entry-runs, update_account_balance-runs, exec_tx-runs, checks_debit, checks_credit,
  fits-zero, reads_zero, reads_minus, account-runs, settlement-runs,
}

module _ {Decimal : Type 0} {rt : Runtime} {dec : Decimals Decimal} (laws : NumericLaws rt dec)
    (answers : (n : ℕ) → rt.fault n ≡ none)
    (distinct : (n m : ℕ) → rt.random_uuid n ≡ rt.random_uuid m → n ≡ m) where
  deposit_tx-runs :
      (id : Uuid) (amount : Decimal) (system account : AccountRow) (S : Tables) (n : ℕ)
      → find_settlement S.accounts ≡ some system
      → find_account system.id S.accounts ≡ some system
      → find_account id S.accounts ≡ some account
      → account.currency ≡ system.currency
      → pos 1 ≤ℤ laws.units amount
      → fits_numeric (laws.units amount) ≡ true
      → ((m : ℕ) → find_entry (rt.random_uuid m) S.entries ≡ none)
      → all_fit (add_balance id (laws.units amount) S.accounts) ≡ true
      → all_fit (
          add_balance system.id
            (neg_ℤ (laws.units amount))
            (add_balance id (laws.units amount) S.accounts))
        ≡ true
      → (U : Tables) × (k : ℕ) × (deposit_tx rt dec id amount (at S n) ≡ (ok tt, at U k))
  unfolding deposit_tx
  deposit_tx-runs id amount system account S n fs fi fa cur one fits fresh fit1 fit2 = (
    _,
    _,
    bind-runs _ _ (wrap-runs _ _ (settlement-runs rt answers system S n fs)) (
        bind-runs _ _ (wrap-runs _ _ (account-runs rt answers id account S (n + 1) fa)) (
          fail_if-runs _ _ _ (not_of_true _ ((eq_iff _ _).1 cur)) (
            new_uuid-runs rt _ (
              bind-runs _ _
                (create_entry-runs rt answers _ (pos 0) (laws.units amount) OperationType.deposit
                  account S _ (reads_zero laws) (laws.numeric_in-string_fixed amount) refl
                  (fits-zero _ fits).1 (checks_credit _ one) (fresh _) fa)
                (bind-runs _ _
                  (create_entry-runs rt answers _ (laws.units amount) (pos 0) OperationType.deposit
                    system _ _ (laws.numeric_in-string_fixed amount) (reads_zero laws) refl
                    (fits-zero _ fits).0 (checks_debit _ one)
                    (find_entry-cons _ _ _ (λ e. let same = distinct _ _ e in absurd (omega arith))
                      (fresh _))
                    fi)
                  (bind-runs _ _
                    (update_account_balance-runs rt answers _ _ _ _
                      (laws.numeric_in-string_fixed amount) fit1)
                    (update_account_balance-runs rt answers _ _ _ _ (reads_minus laws amount)
                      fit2))))))),
  )

  -- Over a database that answers, a deposit of an amount that rounds to at least one ten-thousandth
  -- to an account in the currency of the settlement account succeeds, provided that the id of the
  -- settlement account leads to it, entry ids are fresh and no balance leaves its type.
  pub deposit-succeeds :
      (id : Uuid) (text : String) (amount : Decimal) (system account : AccountRow) (T : Tables)
      (n : ℕ)
      → dec.new_from_string text ≡ some amount
      → dec.less_than_or_equal amount dec.zero ≡ false
      → find_settlement (rt.others n T).accounts ≡ some system
      → find_account system.id (rt.others n T).accounts ≡ some system
      → find_account id (rt.others n T).accounts ≡ some account
      → account.currency ≡ system.currency
      → pos 1 ≤ℤ laws.units amount
      → fits_numeric (laws.units amount) ≡ true
      → ((m : ℕ) → find_entry (rt.random_uuid m) (rt.others n T).entries ≡ none)
      → all_fit (add_balance id (laws.units amount) (rt.others n T).accounts) ≡ true
      → all_fit (
          add_balance system.id
            (neg_ℤ (laws.units amount))
            (add_balance id (laws.units amount) (rt.others n T).accounts))
        ≡ true
      → (deposit rt dec id text (at T n)).0 ≡ ok tt
  unfolding deposit validate_positive_amount ◌>>=◌
  deposit-succeeds id text amount system account T n parsed positive fs fi fa cur one fits fresh
        fit1 fit2 =
      let (U, k, ran) =
        deposit_tx-runs id amount system account (rt.others n T) (n + 1) fs fi fa cur one fits fresh
          fit1 fit2 in
      simp (parsed, positive, exec_tx-runs rt answers (deposit_tx rt dec id amount) T U n k ran)
