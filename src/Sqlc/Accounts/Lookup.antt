-- ===== src/Sqlc/Accounts/Lookup.antt =====
-- What an update of the balances does to lookups and to the sum, over db/sqlc/accounts.sql.go.
use go_bank_ledger.Prelude.{
  ◌≡◌, refl, ap, ◌≢◌, ◌==◌, if◌then◌else◌, true, Option, none, some, List, [], ◌∷◌, ℤ, pos, ◌+ℤ◌,
  int_laws, arith,
}
use go_bank_ledger.Sqlc.Models.{Uuid}
use go_bank_ledger.Sqlc.Tables.{AccountRow}
use go_bank_ledger.Sqlc.Accounts.{find_account, find_settlement, shift_balance, add_balance}

abbrev pub shift_found : ℤ → Option AccountRow → Option AccountRow
shift_found delta none = none
shift_found delta (some r) = some (shift_balance delta r)

pub find_account-id :
    (id : Uuid) (rs : List AccountRow) {r : AccountRow} → find_account id rs ≡ some r → r.id ≡ id
unfolding find_account
find_account-id id [] e = ground arith
find_account-id id (s ∷ rs) {r} e = ground (arith, find_account-id id rs {r = r})

pub find_account-add_balance :
    (j k : Uuid) (delta : ℤ) (rs : List AccountRow)
    → find_account j (add_balance k delta rs)
      ≡ (if j == k then shift_found delta (find_account j rs) else find_account j rs)
unfolding find_account add_balance
find_account-add_balance j k delta [] = ground arith
find_account-add_balance j k delta (r ∷ rs) = ground (arith, find_account-add_balance j k delta rs)

shift_balance_comm :
    (x y : ℤ) (r : AccountRow)
    → shift_balance x (shift_balance y r) ≡ shift_balance y (shift_balance x r)
shift_balance_comm x y r =
    let e : r.balance +ℤ y +ℤ x ≡ r.balance +ℤ x +ℤ y = omega int_laws in
    ap (λ (b : ℤ). record r { balance = b }) e

pub add_balance_comm :
    (j k : Uuid) (x y : ℤ) (rs : List AccountRow)
    → add_balance j x (add_balance k y rs) ≡ add_balance k y (add_balance j x rs)
unfolding add_balance
add_balance_comm j k x y [] = refl
add_balance_comm j k x y (r ∷ rs) =
    ground (arith, shift_balance_comm x y r, add_balance_comm j k x y rs)

-- The primary key: no id is listed twice.
abbrev pub UniqueIds : List AccountRow → Type 0
UniqueIds [] = Unit
UniqueIds (r ∷ rs) = (find_account r.id rs ≡ none) × UniqueIds rs

pub UniqueIds-add_balance :
    (k : Uuid) (delta : ℤ) (rs : List AccountRow)
    → UniqueIds rs
    → UniqueIds (add_balance k delta rs)
unfolding add_balance
UniqueIds-add_balance k delta [] h = tt
UniqueIds-add_balance k delta (r ∷ rs) h =
    ground (arith, UniqueIds-add_balance k delta rs h.1, find_account-add_balance r.id k delta rs)

unfoldable pub total_balance : List AccountRow → ℤ
total_balance [] = pos 0
total_balance (r ∷ rs) = r.balance +ℤ total_balance rs

total-add_balance_missing :
    (k : Uuid) (delta : ℤ) (rs : List AccountRow)
    → find_account k rs ≡ none
    → total_balance (add_balance k delta rs) ≡ total_balance rs
unfolding find_account add_balance total_balance
total-add_balance_missing k delta [] h = refl
total-add_balance_missing k delta (r ∷ rs) h = ground (arith, total-add_balance_missing k delta rs)

pub total-add_balance :
    (k : Uuid) (delta : ℤ) (rs : List AccountRow)
    → UniqueIds rs
    → find_account k rs ≢ none
    → total_balance (add_balance k delta rs) ≡ total_balance rs +ℤ delta
unfolding find_account add_balance total_balance
total-add_balance k delta [] u h = absurd (h refl)
total-add_balance k delta (r ∷ rs) u h =
    grind (int_laws, total-add_balance k delta rs u.1, total-add_balance_missing k delta rs)

-- The settlement row is the row that its own id finds, and it is a system account.
pub find_settlement-find_account :
    (rs : List AccountRow) {r : AccountRow}
    → UniqueIds rs
    → find_settlement rs ≡ some r
    → (find_account r.id rs ≡ some r) × (r.is_system ≡ true)
unfolding find_account find_settlement
find_settlement-find_account [] u e = ground arith
find_settlement-find_account (s ∷ rs) {r} u e =
    ground (arith, find_settlement-find_account rs {r = r} u.1)
