-- ===== src/Exec.antt =====
-- Calls that may fail over the state of the database: Go's `(value, error)` results with
-- `if err != nil { return err }`, and the early `return` of a handler.
pub mod Ensures
pub mod Runs
use go_bank_ledger.Prelude.{ℕ, ◌+◌, Bool, true, false, Option, none, some, if◌then◌else◌}
use go_bank_ledger.Errors.{Error}
use go_bank_ledger.Sqlc.Tables.{Tables, World}
use go_bank_ledger.Runtime.{Runtime}

pub data Result (E A : Type 0) : Type 0 where
  ok : A → Result E A
  err : E → Result E A

abbrev pub Exec : Type 0 → Type 0 → Type 0
Exec E A = World → Result E A × World

abbrev pub Action : Type 0 → Type 0
Action A = Exec Error A

abbrev pub continue : {E A B : Type 0} → Result E A → (A → Exec E B) → Exec E B
continue (ok a) f w = f a w
continue (err e) f w = (err e, w)

module _ {E A : Type 0} where
  unfoldable pub pure : A → Exec E A
  pure a w = (ok a, w)

  unfoldable pub fail : E → Exec E A
  fail e w = (err e, w)

  unfoldable pub or_fail : Option A → E → Exec E A
  or_fail none e w = (err e, w)
  or_fail (some a) e w = (ok a, w)

unfoldable pub fail_if : {E : Type 0} → Bool → E → Exec E Unit
fail_if true e w = (err e, w)
fail_if false e w = (ok tt, w)

unfoldable pub gets : {E A : Type 0} → (Tables → A) → Exec E A
gets f w = (ok (f w.tables), w)

unfoldable pub modify : {E : Type 0} → (Tables → Tables) → Exec E Unit
modify f w = (ok tt, record w { tables = f w.tables })

abbrev wrap_result : {A : Type 0} → (Error → Error) → Result Error A → Result Error A
wrap_result f (ok a) = ok a
wrap_result f (err e) = err (f e)

-- `if err != nil { return fmt.Errorf("…: %w", err) }`
unfoldable pub wrap : {A : Type 0} → (Error → Error) → Action A → Action A
wrap f m w = let (r, w') = m w in (wrap_result f r, w')

infixl 5 ◌>>=◌ ◌>>◌
-- Opening this opens the calls that it joins.
unfoldable pub ◌>>=◌ : {E A B : Type 0} → Exec E A → (A → Exec E B) → Exec E B
unfolding pure fail or_fail fail_if gets modify wrap
◌>>=◌ m f w = let (r, w') = m w in continue r f w'

abbrev pub ◌>>◌ : {E A B : Type 0} → Exec E A → Exec E B → Exec E B
m >> k = m >>= λ _. k

abbrev pub answer : Option Error → Action Unit
answer none w = (ok tt, w)
answer (some e) w = (err e, w)

module _ (rt : Runtime) where
  -- One round trip to the database.
  unfoldable pub statement : Action Unit
  statement w = answer (rt.fault w.tick) (record w { tick = w.tick + 1 })

  -- A fresh UUID.
  unfoldable pub new_uuid : Action ℕ
  new_uuid w = (ok (rt.random_uuid w.tick), record w { tick = w.tick + 1 })

  -- How the query that has just been asked orders rows that its ORDER BY leaves equal.
  unfoldable pub tie_order : Action (ℕ → ℕ)
  tie_order w = (ok (rt.tie_rank w.tick), w)

  unfoldable pub timestamp : Action ℕ
  timestamp w = (ok (rt.current_timestamp w.tick), record w { tick = w.tick + 1 })
