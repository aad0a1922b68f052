-- ===== src/Ledger/Progress/Transfer.antt =====
-- A covered transfer of internal/service/ledger.go succeeds over a database that answers.
use go_bank_ledger.Prelude.{
  ℕ, ◌+◌, ◌≡◌, ◌≢◌, refl, true, false, none, some, ◌∷◌, List, pos, neg_ℤ, ◌≤ℤ◌, String, arith, ◌==◌,
  eq_iff,
}
use go_bank_ledger.Sqlc.Models.{Uuid}
use go_bank_ledger.Sqlc.Tables.{AccountRow, EntryRow, OperationType, Tables}
use go_bank_ledger.Sqlc.Accounts.{find_account, add_balance, fits_numeric, all_fit}
use go_bank_ledger.Sqlc.Entries.{find_entry}
use go_bank_ledger.Runtime.{Runtime, Decimals, NumericLaws}
use go_bank_ledger.Exec.{ok, ◌>>=◌}
use go_bank_ledger.Exec.Runs.{at, bind-runs, or_fail-runs, fail_if-runs, new_uuid-runs, not_of_true}
use go_bank_ledger.Ledger.{transfer_tx, transfer, validate_positive_amount}
use go_bank_ledger.Ledger.Progress.{
  create_entry-runs, update_account_balance-runs, exec_tx-runs, checks_debit, checks_credit,
  fits-zero, reads_zero, reads_minus, account-runs,
}

pub find_entry-cons :
    (id : Uuid) (e : EntryRow) (es : List EntryRow)
    → e.id ≢ id
    → find_entry id es ≡ none
    → find_entry id (e ∷ es) ≡ none
unfolding find_entry
find_entry-cons id e es h k = ground arith

module _ {Decimal : Type 0} {rt : Runtime} {dec : Decimals Decimal} (laws : NumericLaws rt dec)
    (answers : (n : ℕ) → rt.fault n ≡ none)
    (distinct : (n m : ℕ) → rt.random_uuid n ≡ rt.random_uuid m → n ≡ m) where
  transfer_tx-runs :
      (from_id to_id : Uuid) (amount : Decimal) (source target : AccountRow) (S : Tables) (n : ℕ)
      → find_account from_id S.accounts ≡ some source
      → find_account to_id S.accounts ≡ some target
      → source.currency ≡ target.currency
      → dec.less_than (laws.of_units source.balance) amount ≡ false
      → pos 1 ≤ℤ laws.units amount
      → fits_numeric (laws.units amount) ≡ true
      → ((m : ℕ) → find_entry (rt.random_uuid m) S.entries ≡ none)
      → all_fit (add_balance from_id (neg_ℤ (laws.units amount)) S.accounts) ≡ true
      → all_fit (
          add_balance to_id
            (laws.units amount)
            (add_balance from_id (neg_ℤ (laws.units amount)) S.accounts))
        ≡ true
      → (U : Tables) × (k : ℕ) × (transfer_tx rt dec from_id to_id amount (at S n)
          ≡ (ok tt, at U k))
  unfolding transfer_tx
  transfer_tx-runs from_id to_id amount source target S n fs ft cur enough one fits fresh fit1
        fit2 =
      (
        _,
        _,
        bind-runs _ _ (account-runs rt answers from_id source S n fs) (
            bind-runs _ _ (account-runs rt answers to_id target S (n + 1) ft) (
              fail_if-runs _ _ _ (not_of_true _ ((eq_iff _ _).1 cur)) (
                or_fail-runs _ _ _ (laws.new_from_string-numeric_out source.balance) (
                  fail_if-runs _ _ _ enough (
                    new_uuid-runs rt _ (
                      bind-runs _ _
                        (create_entry-runs rt answers _ (laws.units amount) (pos 0)
                          OperationType.transfer source S _ (laws.numeric_in-string_fixed amount)
                          (reads_zero laws) refl (fits-zero _ fits).0 (checks_debit _ one) (fresh _)
                          fs)
                        (bind-runs _ _
                          (create_entry-runs rt answers _ (pos 0) (laws.units amount)
                            OperationType.transfer target _ _ (reads_zero laws)
                            (laws.numeric_in-string_fixed amount) refl (fits-zero _ fits).1
                            (checks_credit _ one)
                            (find_entry-cons _ _ _
                              (λ e. let same = distinct _ _ e in absurd (omega arith)) (fresh _))
                            ft)
                          (bind-runs _ _
                            (update_account_balance-runs rt answers _ _ _ _
                              (reads_minus laws amount) fit1)
                            (update_account_balance-runs rt answers _ _ _ _
                              (laws.numeric_in-string_fixed amount) fit2))))))))),
      )

  -- Over a database that answers, a transfer between two different accounts of one currency, of an
  -- amount that rounds to at least one ten-thousandth and that the sender's balance covers,
  -- succeeds, provided that entry ids are fresh and no balance leaves its type.
  pub transfer-succeeds :
      (from_id to_id : Uuid) (text : String) (amount : Decimal) (source target : AccountRow)
      (T : Tables) (n : ℕ)
      → dec.new_from_string text ≡ some amount
      → dec.less_than_or_equal amount dec.zero ≡ false
      → from_id ≢ to_id
      → find_account from_id (rt.others n T).accounts ≡ some source
      → find_account to_id (rt.others n T).accounts ≡ some target
      → source.currency ≡ target.currency
      → dec.less_than (laws.of_units source.balance) amount ≡ false
      → pos 1 ≤ℤ laws.units amount
      → fits_numeric (laws.units amount) ≡ true
      → ((m : ℕ) → find_entry (rt.random_uuid m) (rt.others n T).entries ≡ none)
      → all_fit (add_balance from_id (neg_ℤ (laws.units amount)) (rt.others n T).accounts) ≡ true
      → all_fit (
          add_balance to_id
            (laws.units amount)
            (add_balance from_id (neg_ℤ (laws.units amount)) (rt.others n T).accounts))
        ≡ true
      → (transfer rt dec from_id to_id text (at T n)).0 ≡ ok tt
  unfolding transfer validate_positive_amount ◌>>=◌
  transfer-succeeds from_id to_id text amount source target T n parsed positive ne fs ft cur enough
        one fits fresh fit1 fit2 =
      let (U, k, ran) =
        transfer_tx-runs from_id to_id amount source target (rt.others n T) (n + 1) fs ft cur enough
          one fits fresh fit1 fit2 in
      let differ : (from_id == to_id) ≡ false = ground arith in
      simp (
        parsed,
        positive,
        differ,
        exec_tx-runs rt answers (transfer_tx rt dec from_id to_id amount) T U n k ran,
      )
