-- ===== src/Api/Money/Reply.antt =====
-- What the answers of the handlers in internal/api/handler.go mean for the books.
use go_bank_ledger.Prelude.{
  ℕ, ◌+◌, ◌≡◌, refl, Bool, true, false, Option, none, some, inl, inr, Option-cases,
}
use go_bank_ledger.Errors.{Error}
use go_bank_ledger.Sqlc.Models.{Uuid, Account}
use go_bank_ledger.Sqlc.Tables.{AccountRow, Tables, World}
use go_bank_ledger.Sqlc.Accounts.{find_account, get_account, scan_account}
use go_bank_ledger.Runtime.{Runtime}
use go_bank_ledger.Store.{on_pool}
use go_bank_ledger.Exec.{Result, Exec, Action, ok, err, ◌>>=◌, or_fail, fail_if, statement}
use go_bank_ledger.Exec.Runs.{at}
use go_bank_ledger.Api.Http.{Response, Handler, call}

-- `Q` on a value, `R` on an error.
abbrev pub Ends :
    {E A : Type 0} → Result E A × World → (A → Tables → Type 0) → (E → Tables → Type 0) → Type 0
Ends (ok a, w) Q R = Q a w.tables
Ends (err e, w) Q R = R e w.tables

pub record Guarantees {E A : Type 0} (T : Tables) (m : Exec E A) (Q : A → Tables → Type 0)
    (R : E → Tables → Type 0) : Type 0 where
  pub at_step : (tick : ℕ) → Ends (m (at T tick)) Q R

module _ {E A B : Type 0} {T : Tables} {Q : B → Tables → Type 0} {R : E → Tables → Type 0} where
  pub G-or_fail :
      (o : Option A) (e : E) (f : A → Exec E B)
      → R e T
      → ((a : A) → o ≡ some a → Guarantees T (f a) Q R)
      → Guarantees T (or_fail o e >>= f) Q R
  unfolding ◌>>=◌
  G-or_fail none e f r k = record { at_step = λ n. r }
  G-or_fail (some a) e f r k = record { at_step = λ n. (k a refl).at_step n }

module _ {E B : Type 0} {T : Tables} {Q : B → Tables → Type 0} {R : E → Tables → Type 0} where
  pub G-fail_if :
      (b : Bool) (e : E) (f : Exec E B)
      → R e T
      → (b ≡ false → Guarantees T f Q R)
      → Guarantees T (fail_if b e >>= λ _. f) Q R
  unfolding ◌>>=◌
  G-fail_if true e f r k = record { at_step = λ n. r }
  G-fail_if false e f r k = record { at_step = λ n. (k refl).at_step n }

-- The two ways in which `GetAccount` fails, and its value.
abbrev read_result : Runtime → Option Error → Option AccountRow → Result Error Account
read_result rt (some e) found = err e
read_result rt none none = err Error.no_rows
read_result rt none (some row) = ok (scan_account rt row)

get_account-eq :
    (rt : Runtime) (id : Uuid) (T : Tables) (n : ℕ)
    → get_account rt id (at T n)
      ≡ (read_result rt (rt.fault n) (find_account id T.accounts), at T (n + 1))
unfolding get_account statement ◌>>=◌
get_account-eq rt id T n = elim (Option-cases (rt.fault n)) [
  | inr (e, failed) ↦ simp failed
  | inl fine ↦ elim (Option-cases (find_account id T.accounts)) [
    | inl missing ↦ simp (fine, missing)
    | inr (row, found) ↦ simp (fine, found)
  ]
]

module _ {B : Type 0} {T : Tables} {Q : B → Tables → Type 0} {R : Response → Tables → Type 0}
    (rt : Runtime) where
  read-step :
      (o : Option Error) (found : Option AccountRow) (m : Action Account) (g : Error → Response)
      (f : Account → Handler B) (S : Tables) (n : ℕ)
      → m (at T n) ≡ (read_result rt o found, at S (n + 1))
      → ((e : Error) → R (g e) S)
      → ((row : AccountRow) → found ≡ some row → Guarantees S (f (scan_account rt row)) Q R)
      → Ends ((call m g >>= f) (at T n)) Q R
  unfolding ◌>>=◌ call
  read-step (some e) found m g f S n h r k = rw (h, ◌>>=◌, call, Ends) (r e)
  read-step none none m g f S n h r k = rw (h, ◌>>=◌, call, Ends) (r Error.no_rows)
  read-step none (some row) m g f S n h r k =
      rw (h, ◌>>=◌, call, Ends) ((k row refl).at_step (n + 1))

  -- Reading an account changes nothing; the handler goes on with the row that it has seen.
  pub G-get_account :
      (id : Uuid) (g : Error → Response) (f : Account → Handler B)
      → ((n : ℕ) (e : Error) → R (g e) (rt.others n T))
      → ((n : ℕ) (row : AccountRow)
          → find_account id (rt.others n T).accounts ≡ some row
          → Guarantees (rt.others n T) (f (scan_account rt row)) Q R)
      → Guarantees T (call (on_pool rt (get_account rt id)) g >>= f) Q R
  unfolding on_pool
  G-get_account id g f r k = record {
    at_step = λ n.
        read-step (rt.fault n) (find_account id (rt.others n T).accounts)
          (on_pool rt (get_account rt id)) g f (rt.others n T) n
          (get_account-eq rt id (rt.others n T) n) (r n) (k n);
  }
