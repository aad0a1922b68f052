-- ===== src/Ledger/Steps/Follows.antt =====
-- Programs over the tables that do nothing but steps of the bank.
use go_bank_ledger.Prelude.{Bool, true, false, Option, none, some, Option-cases, inl, inr}
use go_bank_ledger.Errors.{Error}
use go_bank_ledger.Sqlc.Tables.{Tables, World}
use go_bank_ledger.Runtime.{Runtime}
use go_bank_ledger.Exec.{
  Result, Exec, Action, ok, err, continue, ◌>>=◌, pure, or_fail, fail_if, gets, wrap, statement,
  new_uuid, timestamp, tie_order,
}
use go_bank_ledger.Api.Http.{Response, call}
use go_bank_ledger.Ledger.Steps.{Steps, here, Steps-trans}

-- Wherever it starts, and whether it succeeds or fails, the program leaves tables that steps of the
-- bank lead to.
pub record Follows {E A : Type 0} (m : Exec E A) : Type 0 where
  pub at : (w : World) → Steps w.tables (m w).1.tables

module _ {E A B : Type 0} where
  continue-Steps :
      (r : Result E A) (w : World) (f : A → Exec E B)
      → ((a : A) → Follows (f a))
      → Steps w.tables (continue r f w).1.tables
  continue-Steps (ok a) w f h = (h a).at w
  continue-Steps (err e) w f h = here

  pub Follows-bind :
      {m : Exec E A} {f : A → Exec E B} → Follows m → ((a : A) → Follows (f a)) → Follows (m >>= f)
  unfolding ◌>>=◌
  Follows-bind {m} {f} h k = record {
    at = λ w. let (r, w') = m w in Steps-trans (h.at w) (continue-Steps r w' f k);
  }

module _ {E A : Type 0} where
  pub Follows-pure : (a : A) → Follows (pure {E = E} a)
  unfolding pure
  Follows-pure a = record { at = λ w. here }

  pub Follows-or_fail : (o : Option A) (e : E) → Follows (or_fail o e)
  unfolding or_fail
  Follows-or_fail none e = record { at = λ w. here }
  Follows-or_fail (some a) e = record { at = λ w. here }

  pub Follows-gets : (f : Tables → A) → Follows (gets {E = E} f)
  unfolding gets
  Follows-gets f = record { at = λ w. here }

pub Follows-fail_if : {E : Type 0} (b : Bool) (e : E) → Follows (fail_if b e)
unfolding fail_if
Follows-fail_if true e = record { at = λ w. here }
Follows-fail_if false e = record { at = λ w. here }

module _ {A : Type 0} where
  pub Follows-wrap : {m : Action A} (f : Error → Error) → Follows m → Follows (wrap f m)
  unfolding wrap
  Follows-wrap f h = record { at = λ w. h.at w }

  pub Follows-call : {m : Action A} (f : Error → Response) → Follows m → Follows (call m f)
  unfolding call
  Follows-call f h = record { at = λ w. h.at w }

module _ (rt : Runtime) where
  pub Follows-statement : Follows (statement rt)
  unfolding statement
  Follows-statement = record {
    at = λ w. elim (Option-cases (rt.fault w.tick)) [
      | inl fine ↦ rw fine here
      | inr (e, failed) ↦ rw failed here
    ];
  }

  pub Follows-new_uuid : Follows (new_uuid rt)
  unfolding new_uuid
  Follows-new_uuid = record { at = λ w. here }

  pub Follows-tie_order : Follows (tie_order rt)
  unfolding tie_order
  Follows-tie_order = record { at = λ w. here }

  pub Follows-timestamp : Follows (timestamp rt)
  unfolding timestamp
  Follows-timestamp = record { at = λ w. here }
