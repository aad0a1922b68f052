-- ===== src/Ledger/Steps.antt =====
-- The bank as an abstract state machine: what one call of the program may do to the tables.
pub mod Follows
pub mod Queries
pub mod Pool
pub mod Lasting
pub mod Sessions
use go_bank_ledger.Prelude.{
  ◌≡◌, ◌≢◌, refl, none, some, List, [], ◌∷◌, ℤ, pos, String, str_eq, eq_iff, false, true, arith,
}
use go_bank_ledger.Sqlc.Models.{Uuid, User, IdempotencyKey}
use go_bank_ledger.Sqlc.Tables.{AccountRow, Tables}
use go_bank_ledger.Sqlc.Accounts.{find_account}
use go_bank_ledger.Sqlc.Users.{find_user, find_user_by_email}
use go_bank_ledger.Sqlc.Keys.{key_row}
use go_bank_ledger.Ledger.Accounts.{IsLedger-open}
use go_bank_ledger.Ledger.Invariant.{IsLedger}
use go_bank_ledger.Ledger.Transactions.{Deposited, Withdrawn, Transferred}
use go_bank_ledger.Ledger.Books.{Deposited-IsLedger, Withdrawn-IsLedger, Transferred-IsLedger}

-- Amounts are ten-thousandths. A new account starts at 0; ids, emails and keys are new.
pub data LedgerStep (T U : Tables) : Type 0 where
  deposited : (id : Uuid) (amount : ℤ) → Deposited id amount T U → LedgerStep T U
  withdrawn : (id : Uuid) (amount : ℤ) → Withdrawn id amount T U → LedgerStep T U
  transferred :
      (from_id to_id : Uuid) (amount : ℤ)
      → from_id ≢ to_id
      → Transferred from_id to_id amount T U
      → LedgerStep T U
  opened :
      (row : AccountRow)
      → find_account row.id T.accounts ≡ none
      → row.balance ≡ pos 0
      → U ≡ record T { accounts = row ∷ T.accounts }
      → LedgerStep T U
  registered :
      (user : User)
      → find_user user.id T.users ≡ none
      → find_user_by_email user.email T.users ≡ none
      → U ≡ record T { users = user ∷ T.users }
      → LedgerStep T U
  remembered :
      (key : IdempotencyKey)
      → key_row key.id T.idempotency_keys ≡ none
      → U ≡ record T { idempotency_keys = key ∷ T.idempotency_keys }
      → LedgerStep T U

pub data Steps (T : Tables) : Tables → Type 0 where
  here : Steps T T
  next : {U V : Tables} → Steps T U → LedgerStep U V → Steps T V

pub Steps-trans : {T U V : Tables} → Steps T U → Steps U V → Steps T V
Steps-trans s here = s
Steps-trans s (next t step) = next (Steps-trans s t) step

-- No two users have one email, and none two have one id.
abbrev pub DistinctUsers : List User → Type 0
DistinctUsers [] = Unit
DistinctUsers (u ∷ us) =
    (find_user u.id us ≡ none) × ((find_user_by_email u.email us ≡ none) × DistinctUsers us)

abbrev pub DistinctKeys : List IdempotencyKey → Type 0
DistinctKeys [] = Unit
DistinctKeys (k ∷ ks) = (key_row k.id ks ≡ none) × DistinctKeys ks

-- The books are kept, and the unique columns are unique.
pub record IsBank (T : Tables) : Type 0 where
  pub ledger : IsLedger T
  pub users : DistinctUsers T.users
  pub keys : DistinctKeys T.idempotency_keys

-- Users and idempotency keys are no part of the books.
IsLedger-same :
    {T U : Tables} → U.accounts ≡ T.accounts → U.entries ≡ T.entries → IsLedger T → IsLedger U
IsLedger-same a e h = record {
  unique = rw a h.unique;
  reconciled = rw (a, e) h.reconciled;
  covered = rw a h.covered;
  balanced = rw e h.balanced;
  zero_sum = rw a h.zero_sum;
  single_sided = rw e h.single_sided;
  referenced = rw (a, e) h.referenced;
}

IsBank-moved :
    {T U : Tables}
    → U.users ≡ T.users
    → U.idempotency_keys ≡ T.idempotency_keys
    → IsBank T
    → IsLedger U
    → IsBank U
IsBank-moved u k b h = record { ledger = h; users = rw u b.users; keys = rw k b.keys }

-- Each step keeps the bank right.
pub LedgerStep-IsBank : {T U : Tables} → LedgerStep T U → IsBank T → IsBank U
LedgerStep-IsBank (deposited id z d) b =
    IsBank-moved d.moved.users d.moved.keys b (Deposited-IsLedger id z _ _ b.ledger d)
LedgerStep-IsBank (withdrawn id z d) b =
    IsBank-moved d.moved.users d.moved.keys b (Withdrawn-IsLedger id z _ _ b.ledger d)
LedgerStep-IsBank (transferred from_id to_id z ne d) b =
    IsBank-moved d.moved.users d.moved.keys b (Transferred-IsLedger from_id to_id z _ _ b.ledger d)
LedgerStep-IsBank {T} (opened row fresh zero e) b = rw e (
    IsBank-moved {T = T} {U = record T { accounts = row ∷ T.accounts }} refl refl b
      (IsLedger-open row T b.ledger fresh zero))
LedgerStep-IsBank {T} (registered user id email e) b = rw e (record {
  ledger = IsLedger-same {T = T} {U = record T { users = user ∷ T.users }} refl refl b.ledger;
  users = (id, (email, b.users));
  keys = b.keys;
})
LedgerStep-IsBank {T} (remembered key fresh e) b = rw e (record {
  ledger =
      IsLedger-same {T = T} {U = record T { idempotency_keys = key ∷ T.idempotency_keys }} refl refl
        b.ledger;
  users = b.users;
  keys = (fresh, b.keys);
})

pub Steps-IsBank : {T U : Tables} → Steps T U → IsBank T → IsBank U
Steps-IsBank here b = b
Steps-IsBank (next s step) b = LedgerStep-IsBank step (Steps-IsBank s b)
