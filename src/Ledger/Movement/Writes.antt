-- ===== src/Ledger/Movement/Writes.antt =====
-- What `create_entry` and `update_account_balance` of db/sqlc leave behind when they succeed.
use go_bank_ledger.Prelude.{◌≡◌, refl, sym, ◌≢◌, Bool, true, false, not, Option, none, some, ◌∷◌, ℤ}
use go_bank_ledger.Sqlc.Models.{Uuid, Account, CreateEntryParams, UpdateAccountBalanceParams}
use go_bank_ledger.Sqlc.Tables.{AccountRow, EntryRow, Tables}
use go_bank_ledger.Sqlc.Accounts.{
  find_settlement, scan_account, get_account_for_update, get_settlement_account_for_update,
  find_account, add_balance, update_account_balance,
}
use go_bank_ledger.Sqlc.Entries.{passes_checks, operation_type_in, is_some, create_entry}
use mathlib.Core.Path.{subst₂}
use go_bank_ledger.Exec.{Action, ◌>>=◌}
use go_bank_ledger.Runtime.{Runtime}
use go_bank_ledger.Exec.Ensures.{
  Ensures, Ensures-bind, Ensures-pure, Ensures-or_fail, Ensures-fail_if, Ensures-gets,
  Ensures-modify, Ensures-modify_last, Ensures-statement, Ensures-new_uuid, Ensures-timestamp,
}

pub record EntryWritten (rt : Runtime) (arg : CreateEntryParams) (T U : Tables) : Type 0 where
  pub row : EntryRow
  pub account : row.account_id ≡ arg.account_id
  pub tx : row.transaction_id ≡ arg.transaction_id
  pub debit : rt.numeric_in arg.debit ≡ some row.debit
  pub credit : rt.numeric_in arg.credit ≡ some row.credit
  pub op : operation_type_in arg.operation_type ≡ some row.operation_type
  pub checked : passes_checks row.debit row.credit ≡ true
  pub owner : find_account arg.account_id T.accounts ≢ none
  pub tables : U ≡ record T { entries = row ∷ T.entries }

pub record BalanceUpdated (rt : Runtime) (arg : UpdateAccountBalanceParams) (T U : Tables)
    : Type 0 where
  pub delta : ℤ
  pub parsed : rt.numeric_in arg.balance ≡ some delta
  pub tables : U ≡ record T { accounts = add_balance arg.id delta T.accounts }

ne-none_of_is_some : {A : Type 0} (o : Option A) → not (is_some o) ≡ false → o ≢ none
ne-none_of_is_some none h e = cc
ne-none_of_is_some (some a) h e = cc

pub not-false : (b : Bool) → not b ≡ false → b ≡ true
not-false true h = refl
not-false false h = cc

module _ (rt : Runtime) {T : Tables} where
  pub create_entry-Ensures :
      (arg : CreateEntryParams) → Ensures T (create_entry rt arg) (λ e U. EntryWritten rt arg T U)
  unfolding create_entry
  create_entry-Ensures arg = Ensures-statement rt _ (
      Ensures-or_fail _ _ _ λ debit d. Ensures-or_fail _ _ _ λ credit c.
        Ensures-or_fail _ _ _ λ op o. Ensures-fail_if _ _ _ λ fits. Ensures-fail_if _ _ _ λ checks.
          Ensures-new_uuid rt _ λ id. Ensures-timestamp rt _ λ now. Ensures-gets _ _ (
            Ensures-fail_if _ _ _ λ fresh. Ensures-gets _ _ (
              Ensures-fail_if _ _ _ λ owner. Ensures-modify _ _ (
                Ensures-pure _ _ (record {
                  row = record {
                    id = id;
                    account_id = arg.account_id;
                    debit = debit;
                    credit = credit;
                    transaction_id = arg.transaction_id;
                    operation_type = op;
                    description = arg.description;
                    created_at = some now;
                  };
                  account = refl;
                  tx = refl;
                  debit = d;
                  credit = c;
                  op = o;
                  checked = not-false _ checks;
                  owner = ne-none_of_is_some _ owner;
                  tables = refl;
                })))))

  pub update_account_balance-Ensures :
      (arg : UpdateAccountBalanceParams)
      → Ensures T (update_account_balance rt arg) (λ _ U. BalanceUpdated rt arg T U)
  unfolding update_account_balance
  update_account_balance-Ensures arg = Ensures-statement rt _ (
      Ensures-or_fail _ _ _ λ delta d. Ensures-gets _ _ (
        Ensures-fail_if _ _ _
          λ fits. Ensures-modify_last _ _ (record { delta = delta; parsed = d; tables = refl })))

-- A row was read, and the tables stay as they are.
pub record RowRead (rt : Runtime) (found : Option AccountRow) (T : Tables) (a : Account)
    (U : Tables) : Type 0 where
  pub row : AccountRow
  pub found_row : found ≡ some row
  pub scanned : a ≡ scan_account rt row
  pub tables : U ≡ T

module _ (rt : Runtime) {T : Tables} where
  pub get_account_for_update-Ensures :
      (id : Uuid)
      → Ensures T (get_account_for_update rt id) (RowRead rt (find_account id T.accounts) T)
  unfolding get_account_for_update
  get_account_for_update-Ensures id = Ensures-statement rt _ (
      Ensures-gets _ _ (
        Ensures-or_fail _ _ _ λ row e.
          Ensures-pure _ _ (record { row = row; found_row = e; scanned = refl; tables = refl })))

  pub get_settlement_account_for_update-Ensures :
      Ensures T (get_settlement_account_for_update rt) (RowRead rt (find_settlement T.accounts) T)
  unfolding get_settlement_account_for_update
  get_settlement_account_for_update-Ensures = Ensures-statement rt _ (
      Ensures-gets _ _ (
        Ensures-or_fail _ _ _ λ row e.
          Ensures-pure _ _ (record { row = row; found_row = e; scanned = refl; tables = refl })))

-- After a read the block goes on from the same tables.
module _ (rt : Runtime) {B : Type 0} {T : Tables} {R : B → Tables → Type 0} where
  pub Ensures-read :
      (found : Option AccountRow) (m : Action Account) (f : Account → Action B)
      → Ensures T m (RowRead rt found T)
      → ((row : AccountRow) → found ≡ some row → Ensures T (f (scan_account rt row)) R)
      → Ensures T (m >>= f) R
  Ensures-read found m f h k = Ensures-bind m f _ R h λ a U r.
      subst₂ (λ (x : Account) (V : Tables). Ensures V (f x) R) (sym r.scanned) (sym r.tables)
        (k r.row r.found_row)
