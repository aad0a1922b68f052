-- ===== src/Ledger/Accounts.antt =====
-- Opening an account (db/sqlc/accounts.sql.go, as internal/api/handler.go calls it) keeps the books.
use go_bank_ledger.Prelude.{
  ◌+◌, ◌≡◌, refl, none, List, [], ◌∷◌, pos, int_laws, arith, Option-cases, Bool-cases, inl, inr,
}
use go_bank_ledger.Sqlc.Models.{Uuid, CreateAccountParams}
use go_bank_ledger.Sqlc.Tables.{AccountRow, EntryRow, Tables, World}
use go_bank_ledger.Sqlc.Accounts.{find_account, owner_listed, create_account}
use go_bank_ledger.Sqlc.Accounts.Lookup.{total_balance}
use go_bank_ledger.Sqlc.Entries.{ledger_balance}
use go_bank_ledger.Runtime.{Runtime}
use go_bank_ledger.Exec.{◌>>=◌, statement, new_uuid, timestamp}
use go_bank_ledger.Ledger.Invariant.{IsLedger, Referenced}

-- An id that no row has is the account of no entry.
ledger_balance-missing :
    (id : Uuid) (rows : List AccountRow) (es : List EntryRow)
    → Referenced rows es
    → find_account id rows ≡ none
    → ledger_balance id es ≡ pos 0
unfolding ledger_balance
ledger_balance-missing id rows [] h e = refl
ledger_balance-missing id rows (x ∷ es) h e =
    ground (arith, ledger_balance-missing id rows es h.1 e)

Referenced-cons :
    (r : AccountRow) (rows : List AccountRow) (es : List EntryRow)
    → Referenced rows es
    → Referenced (r ∷ rows) es
unfolding find_account
Referenced-cons r rows [] h = tt
Referenced-cons r rows (e ∷ es) h = (λ missing. ground (arith, h.0), Referenced-cons r rows es h.1)

pub IsLedger-open :
    (r : AccountRow) (T : Tables)
    → IsLedger T
    → find_account r.id T.accounts ≡ none
    → r.balance ≡ pos 0
    → IsLedger (record T { accounts = r ∷ T.accounts })
unfolding find_account total_balance
IsLedger-open r T h fresh zero = record {
  unique = (fresh, h.unique);
  reconciled = λ id s e.
      ground
        (arith, h.reconciled id s, ledger_balance-missing id T.accounts T.entries h.referenced);
  covered = λ id s e user. ground (arith, h.covered id s);
  balanced = h.balanced;
  zero_sum = rw (zero, h.zero_sum) (omega int_laws);
  single_sided = h.single_sided;
  referenced = Referenced-cons r T.accounts T.entries h.referenced;
}

-- Opening an account keeps the books, also where the statement fails, the id is taken or
-- the owner does not exist.
pub create_account-IsLedger :
    (rt : Runtime) (arg : CreateAccountParams) (w : World)
    → IsLedger w.tables
    → IsLedger (create_account rt arg w).1.tables
unfolding create_account statement new_uuid timestamp ◌>>=◌
create_account-IsLedger rt arg w h = elim (Option-cases (rt.fault w.tick)) [
  | inr (e, failed) ↦ simp failed h
  | inl fine ↦ elim (Option-cases (find_account (rt.random_uuid (w.tick + 1)) w.tables.accounts)) [
    | inr (r, clash) ↦ simp (fine, clash) h
    | inl fresh ↦ elim (Bool-cases (owner_listed arg.owner_id w.tables.users)) [
      | inl known ↦ simp (fine, fresh, known) (IsLedger-open _ w.tables h fresh refl)
      | inr unknown ↦ simp (fine, fresh, unknown) h
    ]
  ]
]
