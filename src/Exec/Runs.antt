-- ===== src/Exec/Runs.antt =====
-- Runs of calls to a known value and known tables, over a database that answers every statement.
use go_bank_ledger.Prelude.{ℕ, ◌+◌, ◌≡◌, Bool, true, false, not, Option, none, some}
use go_bank_ledger.Errors.{Error}
use go_bank_ledger.Sqlc.Tables.{Tables, World}
use go_bank_ledger.Runtime.{Runtime}
use go_bank_ledger.Exec.{
  Result, ok, Exec, Action, wrap, ◌>>=◌, or_fail, fail_if, statement, new_uuid,
}

abbrev pub at : Tables → ℕ → World
at T n = record { tables = T; tick = n }

module _ {E A B : Type 0} where
  pub bind-runs :
      {T U : Tables} {n k : ℕ} {a : A} {out : Result E B × World} (m : Exec E A) (f : A → Exec E B)
      → m (at T n) ≡ (ok a, at U k)
      → f a (at U k) ≡ out
      → (m >>= f) (at T n) ≡ out
  unfolding ◌>>=◌
  bind-runs m f e h = rw (e, ◌>>=◌) h

  pub or_fail-runs :
      {w : World} {a : A} {out : Result E B × World} (o : Option A) (e : E) (f : A → Exec E B)
      → o ≡ some a
      → f a w ≡ out
      → (or_fail o e >>= f) w ≡ out
  unfolding ◌>>=◌
  or_fail-runs o e f h k = rw h k

module _ {E B : Type 0} {w : World} {out : Result E B × World} where
  pub fail_if-runs :
      (b : Bool) (e : E) (f : Exec E B) → b ≡ false → f w ≡ out → (fail_if b e >>= λ _. f) w ≡ out
  unfolding ◌>>=◌
  fail_if-runs b e f h k = rw h k

module _ {B : Type 0} {T : Tables} {n : ℕ} {out : Result Error B × World} (rt : Runtime) where
  pub statement-runs :
      (f : Action B)
      → rt.fault n ≡ none
      → f (at T (n + 1)) ≡ out
      → (statement rt >>= λ _. f) (at T n) ≡ out
  unfolding ◌>>=◌ statement
  statement-runs f quiet k = rw quiet k

pub new_uuid-runs :
    {B : Type 0} {T : Tables} {n : ℕ} {out : Result Error B × World} (rt : Runtime)
    (f : ℕ → Action B)
    → f (rt.random_uuid n) (at T (n + 1)) ≡ out
    → (new_uuid rt >>= f) (at T n) ≡ out
unfolding ◌>>=◌ new_uuid
new_uuid-runs rt f k = k

pub not_of_true : (b : Bool) → b ≡ true → not b ≡ false
not_of_true b h = rw h

pub wrap-runs :
    {A : Type 0} {w v : World} {a : A} (g : Error → Error) (m : Action A)
    → m w ≡ (ok a, v)
    → wrap g m w ≡ (ok a, v)
unfolding wrap
wrap-runs g m h = rw (h, wrap)
