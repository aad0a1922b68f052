-- ===== src/Sqlc/Accounts.antt =====
-- db/sqlc/accounts.sql.go: the queries on the table `accounts`.
pub mod Lookup
use go_bank_ledger.Prelude.{
  ℕ, zero, suc, ◌^◌, String, str_eq, ◌≡◌, Bool, true, false, not, ◌&&◌, ◌||◌, Option, none, some,
  List, [], ◌∷◌, map, ℤ, pos, pos_part, neg_part, ◌+ℤ◌, ltb, leb, ◌==◌, if◌then◌else◌,
}
use go_bank_ledger.Errors.{Error}
use go_bank_ledger.Sqlc.Sorting.{no_later, ranked, sort_by}
use go_bank_ledger.Sqlc.Models.{
  User, Uuid, Account, CreateAccountParams, UpdateAccountBalanceParams,
}
use go_bank_ledger.Sqlc.Tables.{AccountRow, Tables, World}
use go_bank_ledger.Runtime.{Runtime}
use go_bank_ledger.Exec.{
  Action, ok, err, ◌>>=◌, ◌>>◌, pure, fail, or_fail, fail_if, gets, modify, statement, new_uuid,
  timestamp, tie_order,
}

-- `WHERE id = $1 LIMIT 1`
unfoldable pub find_account : Uuid → List AccountRow → Option AccountRow
find_account id [] = none
find_account id (r ∷ rs) = if r.id == id then some r else find_account id rs

-- `WHERE is_system = TRUE AND name = 'Settlement Account' LIMIT 1`
unfoldable pub find_settlement : List AccountRow → Option AccountRow
find_settlement [] = none
find_settlement (r ∷ rs) =
    if r.is_system && str_eq r.name "Settlement Account" then some r else find_settlement rs

-- `SET balance = balance + $1`
abbrev pub shift_balance : ℤ → AccountRow → AccountRow
shift_balance delta r = record r { balance = r.balance +ℤ delta }

-- `UPDATE accounts SET balance = balance + $1 WHERE id = $2`
unfoldable pub add_balance : Uuid → ℤ → List AccountRow → List AccountRow
add_balance id delta [] = []
add_balance id delta (r ∷ rs) =
    (if r.id == id then shift_balance delta r else r) ∷ add_balance id delta rs

-- NUMERIC(19,4): at most fifteen digits before the point.
unfoldable pub fits_numeric : ℤ → Bool
fits_numeric z = ltb (pos_part z) (10 ^ 19) && ltb (neg_part z) (10 ^ 19)

unfoldable pub all_fit : List AccountRow → Bool
unfolding fits_numeric
all_fit [] = true
all_fit (r ∷ rs) = fits_numeric r.balance && all_fit rs

abbrev pub numeric_overflow : Error
numeric_overflow = Error.pq "22003" "numeric field overflow"

abbrev pub bad_numeric : Error
bad_numeric = Error.pq "22P02" "invalid input syntax for type numeric"

abbrev pub duplicate_key : Error
duplicate_key = Error.pq "23505" "duplicate key value violates unique constraint"

abbrev pub foreign_key : Error
foreign_key = Error.pq "23503" "insert or update violates foreign key constraint"

-- The accounts of an owner; a NULL owner equals nothing.
unfoldable pub owned_by : Option Uuid → List AccountRow → List AccountRow
owned_by owner [] = []
owned_by none (r ∷ rs) = []
owned_by (some u) (r ∷ rs) =
    let rest = owned_by (some u) rs in
    elim r.owner_id [ none ↦ rest | some v ↦ if v == u then r ∷ rest else rest ]

-- `ORDER BY created_at DESC`, which leaves open the order among equal times.
unfoldable pub newest_first : (Uuid → ℕ) → List AccountRow → List AccountRow
newest_first rank = sort_by (ranked (λ r s. no_later s.created_at r.created_at) (λ r. rank r.id))

unfoldable pub user_listed : Uuid → List User → Bool
user_listed id [] = false
user_listed id (u ∷ us) = if u.id == id then true else user_listed id us

-- `owner_id UUID REFERENCES users(id)`
unfoldable pub owner_listed : Option Uuid → List User → Bool
unfolding user_listed
owner_listed none users = true
owner_listed (some id) users = user_listed id users

module _ (rt : Runtime) where
  -- `row.Scan`
  abbrev pub scan_account : AccountRow → Account
  scan_account r = record {
    id = r.id;
    owner_id = r.owner_id;
    name = r.name;
    balance = rt.numeric_out r.balance;
    currency = r.currency;
    is_system = r.is_system;
    created_at = r.created_at;
  }

  unfoldable pub create_account : CreateAccountParams → Action Account
  create_account arg = do
    statement rt
    id ← new_uuid rt
    now ← timestamp rt
    clash ← gets (λ t. find_account id t.accounts)
    fail_if (elim clash [ none ↦ false | some r ↦ true ]) duplicate_key
    known ← gets (λ t. owner_listed arg.owner_id t.users)
    fail_if (not known) foreign_key
    let row : AccountRow = record {
      id = id;
      owner_id = arg.owner_id;
      name = arg.name;
      balance = pos 0;
      currency = arg.currency;
      is_system = arg.is_system;
      created_at = some now;
    }
    modify (λ t. record t { accounts = row ∷ t.accounts })
    pure (scan_account row)

  unfoldable pub get_account : Uuid → Action Account
  get_account id = do
    statement rt
    found ← gets (λ t. find_account id t.accounts)
    row ← or_fail found Error.no_rows
    pure (scan_account row)

  -- `FOR UPDATE` also locks the row until the transaction ends.
  unfoldable pub get_account_for_update : Uuid → Action Account
  get_account_for_update id = do
    statement rt
    found ← gets (λ t. find_account id t.accounts)
    row ← or_fail found Error.no_rows
    pure (scan_account row)

  -- Only tests call this one.
  unfoldable pub get_settlement_account : Action Account
  get_settlement_account = do
    statement rt
    found ← gets (λ t. find_settlement t.accounts)
    row ← or_fail found Error.no_rows
    pure (scan_account row)

  unfoldable pub get_settlement_account_for_update : Action Account
  get_settlement_account_for_update = do
    statement rt
    found ← gets (λ t. find_settlement t.accounts)
    row ← or_fail found Error.no_rows
    pure (scan_account row)

  unfoldable pub list_accounts_by_owner : Option Uuid → Action (List Account)
  list_accounts_by_owner owner = do
    statement rt
    rank ← tie_order rt
    rows ← gets (λ t. newest_first rank (owned_by owner t.accounts))
    pure (map scan_account rows)

  -- No row with the id: nothing happens, and that is no error.
  unfoldable pub update_account_balance : UpdateAccountBalanceParams → Action Unit
  update_account_balance arg = do
    statement rt
    delta ← or_fail (rt.numeric_in arg.balance) bad_numeric
    rows ← gets (λ t. add_balance arg.id delta t.accounts)
    fail_if (not (all_fit rows)) numeric_overflow
    modify (λ t. record t { accounts = rows })
