-- ===== src/Ledger/Invariant.antt =====
-- The invariant of the books of internal/service/ledger.go, and that a movement keeps it.
use go_bank_ledger.Prelude.{
  ◌≡◌, ◌≢◌, ◌∙◌, sym, false, Option, none, some, List, [], ◌∷◌, ℤ, pos, neg_ℤ, ◌+ℤ◌, ◌≤ℤ◌, ◌==◌,
  if◌then◌else◌, inl, inr, int_laws, arith, Option-cases,
}
use go_bank_ledger.Sqlc.Models.{Uuid}
use go_bank_ledger.Sqlc.Tables.{AccountRow, EntryRow, OperationType, Tables}
use go_bank_ledger.Sqlc.Accounts.{find_account, add_balance}
use go_bank_ledger.Sqlc.Accounts.Lookup.{
  find_account-add_balance, UniqueIds, UniqueIds-add_balance, total_balance, total-add_balance,
}
use go_bank_ledger.Sqlc.Entries.{ledger_balance, passes_checks}
use go_bank_ledger.Sqlc.Entries.Sums.{net_of_transaction, SingleSided}
use go_bank_ledger.Ledger.Movement.{Movement}

-- Each entry belongs to a listed account.
abbrev pub Referenced : List AccountRow → List EntryRow → Type 0
Referenced rows [] = Unit
Referenced rows (e ∷ es) = (find_account e.account_id rows ≢ none) × Referenced rows es

pub record IsLedger (T : Tables) : Type 0 where
  pub unique : UniqueIds T.accounts
  -- The stored balance is the sum of the entries.
  pub reconciled :
      (id : Uuid) (r : AccountRow)
      → find_account id T.accounts ≡ some r
      → r.balance ≡ ledger_balance id T.entries
  -- Only a system account may be overdrawn.
  pub covered :
      (id : Uuid) (r : AccountRow)
      → find_account id T.accounts ≡ some r
      → r.is_system ≡ false
      → pos 0 ≤ℤ r.balance
  -- Debits and credits of every transaction cancel.
  pub balanced : (tx : Uuid) → net_of_transaction tx T.entries ≡ pos 0
  pub zero_sum : total_balance T.accounts ≡ pos 0
  pub single_sided : SingleSided T.entries
  pub referenced : Referenced T.accounts T.entries

-- What a movement adds to the balance of the account `id`.
unfoldable pub change : Uuid → Uuid → ℤ → Uuid → ℤ
change src dst amount id =
    (if id == dst then amount else pos 0) +ℤ (if id == src then neg_ℤ amount else pos 0)

-- The account that a lookup finds afterwards is the one from before with its balance changed.
pub record Changed (delta : ℤ) (found : Option AccountRow) (r : AccountRow) : Type 0 where
  pub before : AccountRow
  pub was : found ≡ some before
  pub balance : r.balance ≡ before.balance +ℤ delta
  pub is_system : r.is_system ≡ before.is_system

pub find_moved :
    (src dst : Uuid) (amount : ℤ) (rows : List AccountRow) (id : Uuid) (r : AccountRow)
    → find_account id (add_balance dst amount (add_balance src (neg_ℤ amount) rows)) ≡ some r
    → Changed (change src dst amount id) (find_account id rows) r
unfolding change
find_moved src dst amount rows id r e = elim (Option-cases (find_account id rows)) [
  | inl missing ↦ ground (
    arith,
    find_account-add_balance id dst amount (add_balance src (neg_ℤ amount) rows),
    find_account-add_balance id src (neg_ℤ amount) rows,
  )
  | inr (b, was) ↦ record {
    before = b;
    was = was;
    balance = grind (
      int_laws,
      find_account-add_balance id dst amount (add_balance src (neg_ℤ amount) rows),
      find_account-add_balance id src (neg_ℤ amount) rows,
    );
    is_system = ground (
      arith,
      find_account-add_balance id dst amount (add_balance src (neg_ℤ amount) rows),
      find_account-add_balance id src (neg_ℤ amount) rows,
    );
  }
]

find_kept :
    (id k : Uuid) (delta : ℤ) (rows : List AccountRow)
    → find_account id rows ≢ none
    → find_account id (add_balance k delta rows) ≢ none
find_kept id k delta rows h e = ground (arith, find_account-add_balance id k delta rows)

Referenced-add_balance :
    (k : Uuid) (delta : ℤ) (rows : List AccountRow) (es : List EntryRow)
    → Referenced rows es
    → Referenced (add_balance k delta rows) es
Referenced-add_balance k delta rows [] h = tt
Referenced-add_balance k delta rows (e ∷ es) h =
    (find_kept e.account_id k delta rows h.0, Referenced-add_balance k delta rows es h.1)

module _ {src dst : Uuid} {op : OperationType} {amount : ℤ} {T U : Tables}
    (m : Movement src dst op amount T U) where
  abbrev moved_rows : List AccountRow
  moved_rows = add_balance dst amount (add_balance src (neg_ℤ amount) T.accounts)

  pub ledger_balance-Movement :
      (id : Uuid)
      → ledger_balance id U.entries ≡ ledger_balance id T.entries +ℤ change src dst amount id
  unfolding ledger_balance change
  ledger_balance-Movement id = rw m.entries (elim m.legs [
    | inl (d, c) ↦ grind (int_laws, d.account, d.debit, d.credit, c.account, c.debit, c.credit)
    | inr (c, d) ↦ grind (int_laws, d.account, d.debit, d.credit, c.account, c.debit, c.credit)
  ])

  net-Movement : (tx : Uuid) → net_of_transaction tx U.entries ≡ net_of_transaction tx T.entries
  unfolding net_of_transaction
  net-Movement tx = rw m.entries (elim m.legs [
    | inl (d, c) ↦ grind (int_laws, d.tx, d.debit, d.credit, c.tx, c.debit, c.credit)
    | inr (c, d) ↦ grind (int_laws, d.tx, d.debit, d.credit, c.tx, c.debit, c.credit)
  ])

  SingleSided-Movement : SingleSided T.entries → SingleSided U.entries
  unfolding passes_checks
  SingleSided-Movement h = rw m.entries (elim m.legs [
    | inl (d, c) ↦ ground (arith, m.positive, d.debit, d.credit, c.debit, c.credit)
    | inr (c, d) ↦ ground (arith, m.positive, d.debit, d.credit, c.debit, c.credit)
  ])

  Referenced-Movement : Referenced T.accounts T.entries → Referenced U.accounts U.entries
  Referenced-Movement h =
      let kept : Referenced moved_rows T.entries =
        Referenced-add_balance dst amount _ _ (Referenced-add_balance src (neg_ℤ amount) _ _ h) in
      let src_kept : find_account src moved_rows ≢ none =
        find_kept src dst amount _ (find_kept src src (neg_ℤ amount) _ m.src_exists) in
      let dst_kept : find_account dst moved_rows ≢ none =
        find_kept dst dst amount _ (find_kept dst src (neg_ℤ amount) _ m.dst_exists) in
      rw (m.accounts, m.entries)
        (elim m.legs [
          | inl (d, c) ↦ (rw c.account dst_kept, (rw d.account src_kept, kept))
          | inr (c, d) ↦ (rw d.account src_kept, (rw c.account dst_kept, kept))
        ])

  total-Movement : UniqueIds T.accounts → total_balance U.accounts ≡ total_balance T.accounts
  total-Movement u = rw m.accounts (
      grind (
        int_laws,
        total-add_balance dst amount (add_balance src (neg_ℤ amount) T.accounts)
            (UniqueIds-add_balance src (neg_ℤ amount) T.accounts u)
            (find_kept dst src (neg_ℤ amount) T.accounts m.dst_exists),
        total-add_balance src (neg_ℤ amount) T.accounts u m.src_exists,
      ))

  find-Movement :
      (id : Uuid) (r : AccountRow)
      → find_account id U.accounts ≡ some r
      → Changed (change src dst amount id) (find_account id T.accounts) r
  find-Movement id r e = find_moved src dst amount T.accounts id r (rw m.accounts at e)

  reconciled-Movement :
      IsLedger T
      → (id : Uuid) (r : AccountRow) → find_account id U.accounts ≡ some r
      → r.balance ≡ ledger_balance id U.entries
  reconciled-Movement h id r e =
      let c = find-Movement id r e in
      cc (c.balance, h.reconciled id c.before c.was, ledger_balance-Movement id)

  covered-Movement :
      IsLedger T
      → ((r : AccountRow)
          → find_account src T.accounts ≡ some r
          → r.is_system ≡ false
          → amount ≤ℤ r.balance)
      → (id : Uuid) (r : AccountRow) → find_account id U.accounts ≡ some r
      → r.is_system ≡ false
      → pos 0 ≤ℤ r.balance
  unfolding change
  covered-Movement h enough id r e user =
      let c = find-Movement id r e in
      let was_user : c.before.is_system ≡ false = sym c.is_system ∙ user in
      let old : pos 0 ≤ℤ c.before.balance = h.covered id c.before c.was was_user in
      let fits : id ≡ src → amount ≤ℤ c.before.balance =
        λ same. enough c.before (rw (← same) c.was) was_user in
      grind (int_laws, c.balance, m.positive, fits)

  -- A movement that the source can pay for, or that a system account pays, keeps the books.
  pub IsLedger-Movement :
      IsLedger T
      → ((r : AccountRow)
          → find_account src T.accounts ≡ some r
          → r.is_system ≡ false
          → amount ≤ℤ r.balance)
      → IsLedger U
  IsLedger-Movement h enough = record {
    unique =
        rw m.accounts (
          UniqueIds-add_balance dst amount _ (UniqueIds-add_balance src (neg_ℤ amount) _ h.unique));
    reconciled = reconciled-Movement h;
    covered = covered-Movement h enough;
    balanced = λ tx. net-Movement tx ∙ h.balanced tx;
    zero_sum = total-Movement h.unique ∙ h.zero_sum;
    single_sided = SingleSided-Movement h.single_sided;
    referenced = Referenced-Movement h.referenced;
  }
