-- ===== src/Sqlc/Entries.antt =====
-- db/sqlc/entries.sql.go: the queries on the table `entries`, with its constraints.
pub mod Sums
pub mod Pages
use go_bank_ledger.Prelude.{
  ℕ, zero, suc, String, str_eq, Bool, true, false, not, ◌&&◌, ◌||◌, Option, none, some, List, [],
  ◌∷◌, ◌++◌, map, ℤ, pos, pos_part, ◌+ℤ◌, ◌-ℤ◌, ltb_ℤ, leb_ℤ, eqb_ℤ, leb, ◌==◌, if◌then◌else◌,
}
use go_bank_ledger.Errors.{Error}
use go_bank_ledger.Sqlc.Sorting.{no_later, ranked, sort_by}
use go_bank_ledger.Sqlc.Models.{Uuid, Entry, CreateEntryParams, ListEntriesByAccountParams}
use go_bank_ledger.Sqlc.Tables.{
  AccountRow, EntryRow, OperationType, deposit, withdrawal, transfer, Tables, World,
}
use go_bank_ledger.Sqlc.Accounts.{
  find_account, fits_numeric, numeric_overflow, bad_numeric, duplicate_key, foreign_key,
}
use go_bank_ledger.Runtime.{Runtime}
use go_bank_ledger.Exec.{
  Action, ok, err, ◌>>=◌, ◌>>◌, pure, fail, or_fail, fail_if, gets, modify, statement, new_uuid,
  tie_order, timestamp,
}

-- The enum's labels.
abbrev pub operation_label : OperationType → String
operation_label deposit = "deposit"
operation_label withdrawal = "withdrawal"
operation_label transfer = "transfer"

abbrev pub operation_type_in : String → Option OperationType
operation_type_in s =
    if str_eq s "deposit"
    then some deposit
    else if str_eq s "withdrawal"
    then some withdrawal
    else if str_eq s "transfer"
    then some transfer
    else none

-- CHECK (debit >= 0), CHECK (credit >= 0) and check_single_side.
unfoldable pub passes_checks : ℤ → ℤ → Bool
passes_checks debit credit =
    leb_ℤ (pos 0) debit
    && leb_ℤ (pos 0) credit
    && (ltb_ℤ (pos 0) debit && eqb_ℤ credit (pos 0) || eqb_ℤ debit (pos 0) && ltb_ℤ (pos 0) credit)

unfoldable pub find_entry : Uuid → List EntryRow → Option EntryRow
find_entry id [] = none
find_entry id (e ∷ es) = if e.id == id then some e else find_entry id es

abbrev pub is_some {ℓ} : {A : Type ℓ} → Option A → Bool
is_some none = false
is_some (some a) = true

-- SUM(credit) - SUM(debit) over the entries of an account; the empty sum counts as 0.
unfoldable pub ledger_balance : Uuid → List EntryRow → ℤ
ledger_balance id [] = pos 0
ledger_balance id (e ∷ es) =
    if e.account_id == id then e.credit -ℤ e.debit +ℤ ledger_balance id es else ledger_balance id es

unfoldable pub of_account : Uuid → List EntryRow → List EntryRow
of_account id [] = []
of_account id (e ∷ es) = if e.account_id == id then e ∷ of_account id es else of_account id es

unfoldable pub of_transaction : Uuid → List EntryRow → List EntryRow
of_transaction id [] = []
of_transaction id (e ∷ es) =
    if e.transaction_id == id then e ∷ of_transaction id es else of_transaction id es

-- `ORDER BY created_at` and `ORDER BY created_at DESC`, which leave open the order among equal times.
unfoldable pub oldest_first : (Uuid → ℕ) → List EntryRow → List EntryRow
oldest_first rank = sort_by (ranked (λ e f. no_later e.created_at f.created_at) (λ e. rank e.id))

unfoldable pub newest_first : (Uuid → ℕ) → List EntryRow → List EntryRow
newest_first rank = sort_by (ranked (λ e f. no_later f.created_at e.created_at) (λ e. rank e.id))

module _ {ℓ} {A : Type ℓ} where
  abbrev pub drop : ℕ → List A → List A
  drop zero xs = xs
  drop (suc n) [] = []
  drop (suc n) (x ∷ xs) = drop n xs

  abbrev pub take : ℕ → List A → List A
  take zero xs = []
  take (suc n) [] = []
  take (suc n) (x ∷ xs) = x ∷ take n xs

module _ (rt : Runtime) where
  abbrev pub scan_entry : EntryRow → Entry
  scan_entry r = record {
    id = r.id;
    account_id = r.account_id;
    debit = rt.numeric_out r.debit;
    credit = rt.numeric_out r.credit;
    transaction_id = r.transaction_id;
    operation_type = operation_label r.operation_type;
    description = r.description;
    created_at = r.created_at;
  }

  unfoldable pub create_entry : CreateEntryParams → Action Entry
  create_entry arg = do
    statement rt
    debit ← or_fail (rt.numeric_in arg.debit) bad_numeric
    credit ← or_fail (rt.numeric_in arg.credit) bad_numeric
    operation ←
        or_fail (operation_type_in arg.operation_type)
          (Error.pq "22P02" "invalid input value for enum operation_type")
    fail_if (not (fits_numeric debit && fits_numeric credit)) numeric_overflow
    fail_if (not (passes_checks debit credit))
        (Error.pq "23514" "new row violates check constraint")
    id ← new_uuid rt
    now ← timestamp rt
    clash ← gets (λ t. find_entry id t.entries)
    fail_if (is_some clash) duplicate_key
    owner ← gets (λ t. find_account arg.account_id t.accounts)
    fail_if (not (is_some owner)) foreign_key
    let row : EntryRow = record {
      id = id;
      account_id = arg.account_id;
      debit = debit;
      credit = credit;
      transaction_id = arg.transaction_id;
      operation_type = operation;
      description = arg.description;
      created_at = some now;
    }
    modify (λ t. record t { entries = row ∷ t.entries })
    pure (scan_entry row)

  -- The sum is CAST to NUMERIC(19,4).
  unfoldable pub get_account_balance : Uuid → Action String
  get_account_balance id = do
    statement rt
    sum ← gets (λ t. ledger_balance id t.entries)
    fail_if (not (fits_numeric sum)) numeric_overflow
    pure (rt.numeric_out sum)

  -- `ORDER BY created_at DESC LIMIT $2 OFFSET $3`; a negative limit or offset is an error.
  unfoldable pub list_entries_by_account : ListEntriesByAccountParams → Action (List Entry)
  list_entries_by_account arg = do
    statement rt
    fail_if (ltb_ℤ arg.limit (pos 0)) (Error.pq "2201W" "LIMIT must not be negative")
    fail_if (ltb_ℤ arg.offset (pos 0)) (Error.pq "2201X" "OFFSET must not be negative")
    rank ← tie_order rt
    rows ← gets (λ t. newest_first rank (of_account arg.account_id t.entries))
    pure (map scan_entry (take (pos_part arg.limit) (drop (pos_part arg.offset) rows)))

  unfoldable pub list_entries_by_transaction : Uuid → Action (List Entry)
  list_entries_by_transaction id = do
    statement rt
    rank ← tie_order rt
    rows ← gets (λ t. oldest_first rank (of_transaction id t.entries))
    pure (map scan_entry rows)
