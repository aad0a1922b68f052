-- ===== src/Ledger/Books.antt =====
-- The books after a deposit, a withdrawal or a transfer of internal/service/ledger.go.
use go_bank_ledger.Prelude.{◌≡◌, ℤ}
use go_bank_ledger.Sqlc.Models.{Uuid}
use go_bank_ledger.Sqlc.Tables.{Tables}
use go_bank_ledger.Sqlc.Accounts.Lookup.{find_settlement-find_account}
use go_bank_ledger.Ledger.Invariant.{IsLedger, IsLedger-Movement}
use go_bank_ledger.Ledger.Transactions.{Deposited, Withdrawn, Transferred}

pub Deposited-IsLedger :
    (id : Uuid) (z : ℤ) (T U : Tables) → IsLedger T → Deposited id z T U → IsLedger U
Deposited-IsLedger id z T U h d =
    let (found, system) = find_settlement-find_account T.accounts h.unique d.settlement_found in
    IsLedger-Movement d.moved h λ r e user. cc

pub Withdrawn-IsLedger :
    (id : Uuid) (z : ℤ) (T U : Tables) → IsLedger T → Withdrawn id z T U → IsLedger U
Withdrawn-IsLedger id z T U h d =
    IsLedger-Movement d.moved h
      λ r e user. let same : d.account ≡ r = cc d.account_found in rw (← same) d.covered

pub Transferred-IsLedger :
    (from_id to_id : Uuid) (z : ℤ) (T U : Tables)
    → IsLedger T
    → Transferred from_id to_id z T U
    → IsLedger U
Transferred-IsLedger from_id to_id z T U h d =
    IsLedger-Movement d.moved h
      λ r e user. let same : d.source ≡ r = cc d.source_found in rw (← same) d.covered
