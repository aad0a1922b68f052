-- ===== src/Sqlc/Entries/Sums.antt =====
-- Sums over the entries of db/sqlc/entries.sql.go.
use go_bank_ledger.Prelude.{
  ◌≡◌, ◌==◌, if◌then◌else◌, true, List, [], ◌∷◌, ℤ, pos, ◌+ℤ◌, ◌-ℤ◌, ◌≤ℤ◌, ◌⊎◌, arith,
}
use go_bank_ledger.Sqlc.Models.{Uuid}
use go_bank_ledger.Sqlc.Tables.{EntryRow}
use go_bank_ledger.Sqlc.Entries.{passes_checks}

-- Credits less debits of one transaction.
unfoldable pub net_of_transaction : Uuid → List EntryRow → ℤ
net_of_transaction tx [] = pos 0
net_of_transaction tx (e ∷ es) =
    if e.transaction_id == tx
    then e.credit -ℤ e.debit +ℤ net_of_transaction tx es
    else net_of_transaction tx es

-- Every entry has one side, and that is positive.
abbrev pub SingleSided : List EntryRow → Type 0
SingleSided [] = Unit
SingleSided (e ∷ es) = (passes_checks e.debit e.credit ≡ true) × SingleSided es

pub passes_checks-cases :
    (debit credit : ℤ)
    → passes_checks debit credit ≡ true
    → ((pos 1 ≤ℤ debit) × (credit ≡ pos 0)) ⊎ ((debit ≡ pos 0) × (pos 1 ≤ℤ credit))
unfolding passes_checks
passes_checks-cases debit credit h = ground arith
