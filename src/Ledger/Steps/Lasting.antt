-- ===== src/Ledger/Steps/Lasting.antt =====
-- What the statements of db/sqlc never take back: no entry, account, user or saved key is removed,
-- and of their columns only `balance` changes.
use go_bank_ledger.Prelude.{
  ◌≡◌, ◌≢◌, refl, sym, ◌∙◌, ap, String, some, none, List, [], ◌∷◌, ◌++◌, ℤ, arith, str_eq, ◌==◌,
  eq_iff, Bool-cases, inl, inr, ◌+ℤ◌, neg_ℤ,
}
use mathlib.Core.List.{append_assoc}
use go_bank_ledger.Sqlc.Models.{Uuid, User, IdempotencyKey, GetIdempotencyKeyParams}
use go_bank_ledger.Sqlc.Tables.{AccountRow, EntryRow, OperationType, Tables}
use go_bank_ledger.Sqlc.Accounts.{find_account, add_balance}
use go_bank_ledger.Sqlc.Accounts.Lookup.{find_account-add_balance}
use go_bank_ledger.Sqlc.Users.{find_user_by_email}
use go_bank_ledger.Sqlc.Keys.{key_row, find_key}
use go_bank_ledger.Ledger.Movement.{Movement}
use go_bank_ledger.Ledger.Steps.{
  LedgerStep, deposited, withdrawn, transferred, opened, registered, remembered, Steps, here, next,
}

-- The entries so far are the oldest ones of those that come.
abbrev pub EntriesLast : List EntryRow → List EntryRow → Type 0
EntriesLast old now = (added : List EntryRow) × (now ≡ added ++ old)

-- The rows are there, at most with another balance.
abbrev pub AccountsLast : List AccountRow → List AccountRow → Type 0
AccountsLast old now =
    (id : Uuid) (row : AccountRow)
    → find_account id old ≡ some row
    → (balance : ℤ) × (find_account id now ≡ some (record row { balance = balance }))

abbrev pub UsersLast : List User → List User → Type 0
UsersLast old now =
    (email : String) (user : User)
    → find_user_by_email email old ≡ some user
    → find_user_by_email email now ≡ some user

abbrev pub KeysLast : List IdempotencyKey → List IdempotencyKey → Type 0
KeysLast old now =
    (arg : GetIdempotencyKeyParams) (key : IdempotencyKey)
    → find_key arg old ≡ some key
    → find_key arg now ≡ some key

-- All that `T` holds is in `U`.
pub record Lasting (T U : Tables) : Type 0 where
  pub entries : EntriesLast T.entries U.entries
  pub accounts : AccountsLast T.accounts U.accounts
  pub users : UsersLast T.users U.users
  pub keys : KeysLast T.idempotency_keys U.idempotency_keys

AccountsLast-refl : (rs : List AccountRow) → AccountsLast rs rs
AccountsLast-refl rs id row found = (row.balance, found)

AccountsLast-add_balance :
    (id : Uuid) (z : ℤ) (rs : List AccountRow) → AccountsLast rs (add_balance id z rs)
AccountsLast-add_balance id z rs j row found = elim (Bool-cases (j == id)) [
  | inl same ↦ (row.balance +ℤ z, find_account-add_balance j id z rs ∙ simp (same, found))
  | inr other ↦ (row.balance, find_account-add_balance j id z rs ∙ simp (other, found))
]

AccountsLast-trans :
    (rs ss ts : List AccountRow) → AccountsLast rs ss → AccountsLast ss ts → AccountsLast rs ts
AccountsLast-trans rs ss ts a b id row found =
    let (x, e) = a id row found in let (y, f) = b id _ e in (y, f)

AccountsLast-opened :
    (row : AccountRow) (rs : List AccountRow)
    → find_account row.id rs ≡ none
    → AccountsLast rs (row ∷ rs)
unfolding find_account
AccountsLast-opened new rs fresh id row found =
    let kept : find_account id (new ∷ rs) ≡ some row = ground arith in (row.balance, kept)

UsersLast-registered :
    (user : User) (us : List User)
    → find_user_by_email user.email us ≡ none
    → UsersLast us (user ∷ us)
unfolding find_user_by_email
UsersLast-registered new us fresh email user found = ground (arith, eq_iff new.email email)

key_row-find_key :
    (arg : GetIdempotencyKeyParams) (ks : List IdempotencyKey) {key : IdempotencyKey}
    → find_key arg ks ≡ some key
    → key_row arg.id ks ≢ none
unfolding key_row find_key
key_row-find_key arg [] found = ground arith
key_row-find_key arg (k ∷ ks) {key} found = elim (Bool-cases (str_eq k.id arg.id)) [
  | inl same ↦ ground arith
  | inr other ↦ simp other (key_row-find_key arg ks (simp other at found))
]

KeysLast-remembered :
    (key : IdempotencyKey) (ks : List IdempotencyKey)
    → key_row key.id ks ≡ none
    → KeysLast ks (key ∷ ks)
unfolding find_key
KeysLast-remembered new ks fresh arg key found = elim (Bool-cases (str_eq new.id arg.id)) [
  | inl same ↦ absurd (
      key_row-find_key arg ks found
        (ap (λ (i : String). key_row i ks) (sym ((eq_iff new.id arg.id).0 same)) ∙ fresh))
  | inr other ↦ simp other found
]

Lasting-moved :
    {src dst : Uuid} {op : OperationType} {amount : ℤ} {T U : Tables}
    → Movement src dst op amount T U
    → Lasting T U
Lasting-moved {src} {dst} {op} {amount} {T} {U} m = record {
  entries = (m.second ∷ m.first ∷ [], m.entries);
  accounts = rw m.accounts (
      AccountsLast-trans _ _ _ (AccountsLast-add_balance src (neg_ℤ amount) T.accounts)
        (AccountsLast-add_balance dst amount _));
  users = rw m.users (λ email user found. found);
  keys = rw m.keys (λ arg key found. found);
}

Lasting-refl : (T : Tables) → Lasting T T
Lasting-refl T = record {
  entries = ([], refl);
  accounts = AccountsLast-refl T.accounts;
  users = λ email user found. found;
  keys = λ arg key found. found;
}

pub Lasting-trans : {T U V : Tables} → Lasting T U → Lasting U V → Lasting T V
Lasting-trans {T} {U} {V} a b = record {
  entries =
      let (xs, e) = a.entries in
      let (ys, f) = b.entries in
      (ys ++ xs, f ∙ ap (λ (es : List EntryRow). ys ++ es) e ∙ sym (append_assoc ys xs T.entries));
  accounts = AccountsLast-trans _ _ _ a.accounts b.accounts;
  users = λ email user found. b.users email user (a.users email user found);
  keys = λ arg key found. b.keys arg key (a.keys arg key found);
}

pub LedgerStep-Lasting : {T U : Tables} → LedgerStep T U → Lasting T U
LedgerStep-Lasting (deposited id z d) = Lasting-moved d.moved
LedgerStep-Lasting (withdrawn id z d) = Lasting-moved d.moved
LedgerStep-Lasting (transferred from_id to_id z ne d) = Lasting-moved d.moved
LedgerStep-Lasting {T} (opened row fresh zero e) = rw e (record {
  entries = ([], refl);
  accounts = AccountsLast-opened row T.accounts fresh;
  users = λ email user found. found;
  keys = λ arg key found. found;
})
LedgerStep-Lasting {T} (registered user id email e) = rw e (record {
  entries = ([], refl);
  accounts = AccountsLast-refl T.accounts;
  users = UsersLast-registered user T.users email;
  keys = λ arg key found. found;
})
LedgerStep-Lasting {T} (remembered key fresh e) = rw e (record {
  entries = ([], refl);
  accounts = AccountsLast-refl T.accounts;
  users = λ email user found. found;
  keys = KeysLast-remembered key T.idempotency_keys fresh;
})

pub Steps-Lasting : {T U : Tables} → Steps T U → Lasting T U
Steps-Lasting here = Lasting-refl _
Steps-Lasting (next s step) = Lasting-trans (Steps-Lasting s) (LedgerStep-Lasting step)
