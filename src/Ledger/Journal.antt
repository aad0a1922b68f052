-- ===== src/Ledger/Journal.antt =====
-- The journal: the entries that internal/service/ledger.go writes, whatever order a table keeps them
-- in. A movement is two postings, and their order is forgotten.
use go_bank_ledger.Prelude.{◌≡◌, refl, List, ◌∷◌, ℤ, pos, ◌≤ℤ◌, ◌+ℤ◌, some, inl, inr, int_laws}
use mathlib.Core.Quot
use mathlib.Core.Quot.{Quot, Quot-set}
use go_bank_ledger.Sqlc.Models.{Uuid}
use go_bank_ledger.Sqlc.Tables.{AccountRow, EntryRow, OperationType, Tables}
use go_bank_ledger.Sqlc.Entries.{ledger_balance}
use go_bank_ledger.Sqlc.Entries.Sums.{net_of_transaction}
use go_bank_ledger.Sqlc.Accounts.{find_account}
use go_bank_ledger.Ledger.Invariant.{IsLedger, change}
use go_bank_ledger.Ledger.Movement.{Movement, IsLeg}
use go_bank_ledger.Ledger.Steps.{
  LedgerStep, deposited, withdrawn, transferred, opened, registered, remembered, Steps, here, next,
}

-- Two neighbours somewhere in the list change places.
pub data Swapped : List EntryRow → List EntryRow → Type 0 where
  swap : (e f : EntryRow) (es : List EntryRow) → Swapped (e ∷ f ∷ es) (f ∷ e ∷ es)
  below : (e : EntryRow) {es fs : List EntryRow} → Swapped es fs → Swapped (e ∷ es) (e ∷ fs)

abbrev pub Journal : Type 0
Journal = Quot Swapped

abbrev pub journal_of : Tables → Journal
journal_of T = Quot.mk T.entries

ledger_balance-Swapped :
    (id : Uuid) (es fs : List EntryRow)
    → Swapped es fs
    → ledger_balance id es ≡ ledger_balance id fs
unfolding ledger_balance
ledger_balance-Swapped id _ _ (swap e f es) = grind int_laws
ledger_balance-Swapped id _ _ (below e p) = rw (ledger_balance-Swapped id _ _ p)

net-Swapped :
    (tx : Uuid) (es fs : List EntryRow)
    → Swapped es fs
    → net_of_transaction tx es ≡ net_of_transaction tx fs
unfolding net_of_transaction
net-Swapped tx _ _ (swap e f es) = grind int_laws
net-Swapped tx _ _ (below e p) = rw (net-Swapped tx _ _ p)

-- The sum of an account's postings, and the net of a transaction's.
pub balance_of : Uuid → Journal → ℤ
balance_of id = Quot.lift (hlevel) (ledger_balance id) (ledger_balance-Swapped id)

pub net_of : Uuid → Journal → ℤ
net_of tx = Quot.lift (hlevel) (net_of_transaction tx) (net-Swapped tx)

pub post : EntryRow → Journal → Journal
post e = Quot.lift Quot-set (λ es. Quot.mk (e ∷ es)) (λ es fs p. Quot.sound (below e p))

post_comm : (e f : EntryRow) (J : Journal) → post e (post f J) ≡ post f (post e J)
unfolding post
post_comm e f = Quot.ind (λ J. Quot-set _ _) (λ es. Quot.sound (swap e f es))

-- The journal `K` is `J` with a debit of one account and a credit of another, of one positive
-- amount and under one transaction id. Which of the two came first is forgotten.
pub record Posted (J K : Journal) : Type 0 where
  pub src : Uuid
  pub dst : Uuid
  pub tx : Uuid
  pub op : OperationType
  pub amount : ℤ
  pub debit : EntryRow
  pub credit : EntryRow
  pub positive : pos 1 ≤ℤ amount
  pub debited : IsLeg src tx op amount (pos 0) debit
  pub credited : IsLeg dst tx op (pos 0) amount credit
  pub posted : K ≡ post credit (post debit J)

pub data Journals (J : Journal) : Journal → Type 0 where
  blank : Journals J J
  movement : {K L : Journal} → Journals J K → Posted K L → Journals J L

Movement-Posted :
    {src dst : Uuid} {op : OperationType} {amount : ℤ} {T U : Tables}
    → Movement src dst op amount T U
    → Posted (journal_of T) (journal_of U)
unfolding post
Movement-Posted {src} {dst} {op} {amount} {T} {U} m = elim m.legs [
  | inl (debited, credited) ↦ record {
    src = src;
    dst = dst;
    tx = m.tx;
    op = op;
    amount = amount;
    debit = m.first;
    credit = m.second;
    positive = m.positive;
    debited = debited;
    credited = credited;
    posted = rw m.entries refl;
  }
  | inr (credited, debited) ↦ record {
    src = src;
    dst = dst;
    tx = m.tx;
    op = op;
    amount = amount;
    debit = m.second;
    credit = m.first;
    positive = m.positive;
    debited = debited;
    credited = credited;
    posted = rw m.entries (post_comm m.second m.first (journal_of T));
  }
]

-- A step of the bank is a movement in the journal, or none.
LedgerStep-Journals :
    {J : Journal} {T U : Tables}
    → Journals J (journal_of T)
    → LedgerStep T U
    → Journals J (journal_of U)
LedgerStep-Journals js (deposited id z d) = movement js (Movement-Posted d.moved)
LedgerStep-Journals js (withdrawn id z d) = movement js (Movement-Posted d.moved)
LedgerStep-Journals js (transferred from_id to_id z ne d) = movement js (Movement-Posted d.moved)
LedgerStep-Journals js (opened row fresh zero e) = rw e js
LedgerStep-Journals js (registered user id email e) = rw e js
LedgerStep-Journals js (remembered key fresh e) = rw e js

pub Steps-Journals : {T U : Tables} → Steps T U → Journals (journal_of T) (journal_of U)
Steps-Journals here = blank
Steps-Journals (next s step) = LedgerStep-Journals (Steps-Journals s) step

-- What the accounts of the tables say is what the journal says.
pub record Tells (T : Tables) (J : Journal) : Type 0 where
  pub balances :
      (id : Uuid) (r : AccountRow)
      → find_account id T.accounts ≡ some r
      → r.balance ≡ balance_of id J
  pub nets : (tx : Uuid) → net_of tx J ≡ pos 0

pub IsLedger-Tells : {T : Tables} → IsLedger T → Tells T (journal_of T)
unfolding balance_of net_of
IsLedger-Tells h = record { balances = h.reconciled; nets = h.balanced }

post-balance :
    (id : Uuid) {src dst tx : Uuid} {op : OperationType} {amount : ℤ} {d c : EntryRow}
    → IsLeg src tx op amount (pos 0) d
    → IsLeg dst tx op (pos 0) amount c
    → (J : Journal)
    → balance_of id (post c (post d J)) ≡ balance_of id J +ℤ change src dst amount id
unfolding balance_of post ledger_balance change
post-balance id debited credited =
    Quot.ind (λ _. hlevel)
      λ es. grind (
        int_laws, debited.account, debited.debit, debited.credit, credited.account, credited.debit,
        credited.credit,
      )

-- A movement takes its amount from one account, gives it to the other, and leaves the rest alone.
pub Posted-balance :
    {J K : Journal} (p : Posted J K) (id : Uuid)
    → balance_of id K ≡ balance_of id J +ℤ change p.src p.dst p.amount id
Posted-balance {J} p id = rw p.posted (post-balance id p.debited p.credited J)
