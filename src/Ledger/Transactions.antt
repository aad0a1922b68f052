-- ===== src/Ledger/Transactions.antt =====
-- What the transaction of each operation of internal/service/ledger.go has done when it succeeds.
use go_bank_ledger.Prelude.{◌≡◌, refl, false, some, ℤ, ◌≤ℤ◌, eq_iff}
use go_bank_ledger.Sqlc.Models.{Uuid}
use go_bank_ledger.Sqlc.Tables.{AccountRow, OperationType, Tables}
use go_bank_ledger.Sqlc.Accounts.{find_account, find_settlement}
use go_bank_ledger.Runtime.{Runtime, Decimals, NumericLaws}
use go_bank_ledger.Exec.Ensures.{
  Ensures, Ensures-weaken, Ensures-wrap, Ensures-or_fail, Ensures-fail_if, Ensures-new_uuid,
}
use go_bank_ledger.Ledger.{deposit_tx, withdraw_tx, transfer_tx}
use go_bank_ledger.Ledger.Movement.{Movement}
use go_bank_ledger.Ledger.Movement.Writes.{
  not-false, Ensures-read, get_account_for_update-Ensures,
  get_settlement_account_for_update-Ensures,
}
use go_bank_ledger.Ledger.Movement.Pair.{debit_first-Ensures, credit_first-Ensures}

-- A deposit moves the amount from the settlement account to the account.
pub record Deposited (id : Uuid) (amount : ℤ) (T U : Tables) : Type 0 where
  pub settlement : AccountRow
  pub account : AccountRow
  pub settlement_found : find_settlement T.accounts ≡ some settlement
  pub account_found : find_account id T.accounts ≡ some account
  pub currency : account.currency ≡ settlement.currency
  pub moved : Movement settlement.id id OperationType.deposit amount T U

-- A withdrawal moves it back, out of a balance that covers it.
pub record Withdrawn (id : Uuid) (amount : ℤ) (T U : Tables) : Type 0 where
  pub settlement : AccountRow
  pub account : AccountRow
  pub settlement_found : find_settlement T.accounts ≡ some settlement
  pub account_found : find_account id T.accounts ≡ some account
  pub currency : account.currency ≡ settlement.currency
  pub covered : amount ≤ℤ account.balance
  pub moved : Movement id settlement.id OperationType.withdrawal amount T U

pub record Transferred (from_id to_id : Uuid) (amount : ℤ) (T U : Tables) : Type 0 where
  pub source : AccountRow
  pub target : AccountRow
  pub source_found : find_account from_id T.accounts ≡ some source
  pub target_found : find_account to_id T.accounts ≡ some target
  pub currency : source.currency ≡ target.currency
  pub covered : amount ≤ℤ source.balance
  pub moved : Movement from_id to_id OperationType.transfer amount T U

module _ {Decimal : Type 0} {rt : Runtime} {dec : Decimals Decimal}
    (laws : NumericLaws rt dec) where
  -- The comparison of decimals bounds the rounded amount by the stored balance.
  covered_by :
      (balance : ℤ) (parsed amount : Decimal)
      → dec.new_from_string (rt.numeric_out balance) ≡ some parsed
      → dec.less_than parsed amount ≡ false
      → laws.units amount ≤ℤ balance
  covered_by balance parsed amount e h =
      let same : parsed ≡ laws.of_units balance = cc (laws.new_from_string-numeric_out balance) in
      let bound : laws.units amount ≤ℤ laws.units parsed = laws.less_than_mono parsed amount h in
      rw (same, laws.units-of_units balance) at bound

  pub deposit_tx-Ensures :
      {T : Tables} (id : Uuid) (amount : Decimal)
      → Ensures T (deposit_tx rt dec id amount) (λ _ U. Deposited id (laws.units amount) T U)
  unfolding deposit_tx
  deposit_tx-Ensures id amount =
      Ensures-read rt _ _ _ (Ensures-wrap _ _ _ (get_settlement_account_for_update-Ensures rt))
        λ s es.
          Ensures-read rt _ _ _ (Ensures-wrap _ _ _ (get_account_for_update-Ensures rt id)) λ a ea.
            Ensures-fail_if _ _ _ λ c. Ensures-new_uuid rt _ λ tx.
              Ensures-weaken _ _ _ (credit_first-Ensures laws s.id id tx _ _ amount _ _ refl)
                λ x U m. record {
                  settlement = s;
                  account = a;
                  settlement_found = es;
                  account_found = ea;
                  currency = (eq_iff _ _).0 (not-false _ c);
                  moved = m;
                }

  pub withdraw_tx-Ensures :
      {T : Tables} (id : Uuid) (amount : Decimal)
      → Ensures T (withdraw_tx rt dec id amount) (λ _ U. Withdrawn id (laws.units amount) T U)
  unfolding withdraw_tx
  withdraw_tx-Ensures id amount =
      Ensures-read rt _ _ _ (Ensures-wrap _ _ _ (get_settlement_account_for_update-Ensures rt))
        λ s es.
          Ensures-read rt _ _ _ (Ensures-wrap _ _ _ (get_account_for_update-Ensures rt id)) λ a ea.
            Ensures-fail_if _ _ _ λ c. Ensures-or_fail _ _ _ λ parsed p.
              Ensures-fail_if _ _ _ λ enough. Ensures-new_uuid rt _ λ tx.
                Ensures-weaken _ _ _ (debit_first-Ensures laws id s.id tx _ _ amount _ _ refl)
                  λ x U m. record {
                    settlement = s;
                    account = a;
                    settlement_found = es;
                    account_found = ea;
                    currency = (eq_iff _ _).0 (not-false _ c);
                    covered = covered_by a.balance parsed amount p enough;
                    moved = m;
                  }

  pub transfer_tx-Ensures :
      {T : Tables} (from_id to_id : Uuid) (amount : Decimal)
      → Ensures T
          (transfer_tx rt dec from_id to_id amount)
          (λ _ U. Transferred from_id to_id (laws.units amount) T U)
  unfolding transfer_tx
  transfer_tx-Ensures from_id to_id amount =
      Ensures-read rt _ _ _ (get_account_for_update-Ensures rt from_id) λ s es.
        Ensures-read rt _ _ _ (get_account_for_update-Ensures rt to_id) λ t et.
          Ensures-fail_if _ _ _ λ c. Ensures-or_fail _ _ _ λ parsed p.
            Ensures-fail_if _ _ _ λ enough. Ensures-new_uuid rt _ λ tx.
              Ensures-weaken _ _ _ (debit_first-Ensures laws from_id to_id tx _ _ amount _ _ refl)
                λ x U m. record {
                  source = s;
                  target = t;
                  source_found = es;
                  target_found = et;
                  currency = (eq_iff _ _).0 (not-false _ c);
                  covered = covered_by s.balance parsed amount p enough;
                  moved = m;
                }
