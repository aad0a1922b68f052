-- ===== src/Runtime.antt =====
-- What the program calls and does not implement: PostgreSQL's answers and text forms of numbers,
-- google/uuid, the clock, the context, and shopspring/decimal.
use go_bank_ledger.Prelude.{
  ℕ, String, Bool, true, false, Option, some, ℤ, pos, neg_ℤ, ◌≤ℤ◌, ◌≡◌, ◌↔◌,
}
use go_bank_ledger.Errors.{Error}
use go_bank_ledger.Sqlc.Models.{Uuid, Time}
use go_bank_ledger.Sqlc.Tables.{Tables}

-- Each answer depends on the step at which it is asked for, so any pattern of failures, of UUIDs
-- and of other sessions' work is some `Runtime`.
pub record Runtime : Type 0 where
  -- Whether the statement, BEGIN, ROLLBACK or COMMIT of this step fails. A failed COMMIT leaves
  -- nothing behind.
  pub fault : ℕ → Option Error
  -- gen_random_uuid() and uuid.New()
  pub random_uuid : ℕ → Uuid
  -- CURRENT_TIMESTAMP and NOW()
  pub current_timestamp : ℕ → Time
  -- What other sessions committed before the transaction, or the query outside of one, that begins
  -- at this step.
  pub others : ℕ → Tables → Tables
  -- Where a query at this step puts a row, by its id, among rows that its ORDER BY leaves equal: in
  -- ascending rank.
  pub tie_rank : ℕ → Uuid → ℕ
  -- `ctx.Done()` fired during the wait at this step.
  pub cancelled : ℕ → Bool
  -- PostgreSQL's reading and writing of a number with four decimals, in ten-thousandths.
  pub numeric_in : String → Option ℤ
  pub numeric_out : ℤ → String
  -- uuid.Parse and UUID.String
  pub uuid_parse : String → Option Uuid
  pub uuid_string : Uuid → String

-- The functions of shopspring/decimal that the program calls; `string_fixed` is `StringFixed(4)`.
pub record Decimals (Decimal : Type 0) : Type 0 where
  pub new_from_string : String → Option Decimal
  -- The error of `NewFromString` on a text that it refuses.
  pub parse_error : String → Error
  pub zero : Decimal
  pub neg : Decimal → Decimal
  pub string_fixed : Decimal → String
  pub less_than : Decimal → Decimal → Bool
  pub less_than_or_equal : Decimal → Decimal → Bool
  pub equal : Decimal → Decimal → Bool

-- What the program relies on. `units d` is the number of ten-thousandths that `StringFixed(4)`
-- prints (the half is rounded away from zero), and `of_units` an exact amount.
pub record NumericLaws {Decimal : Type 0} (rt : Runtime) (dec : Decimals Decimal) : Type 0 where
  pub units : Decimal → ℤ
  pub of_units : ℤ → Decimal
  pub units-of_units : (z : ℤ) → units (of_units z) ≡ z
  pub units-zero : units dec.zero ≡ pos 0
  pub units-neg : (d : Decimal) → units (dec.neg d) ≡ neg_ℤ (units d)
  -- Rounding keeps the order.
  pub less_than_mono : (a b : Decimal) → dec.less_than a b ≡ false → units b ≤ℤ units a
  pub equal_iff : (y z : ℤ) → (dec.equal (of_units y) (of_units z) ≡ true) ↔ (y ≡ z)
  -- PostgreSQL reads what `StringFixed(4)` writes, and `NewFromString` what PostgreSQL writes.
  pub numeric_in-string_fixed : (d : Decimal) → rt.numeric_in (dec.string_fixed d) ≡ some (units d)
  pub new_from_string-numeric_out :
      (z : ℤ) → dec.new_from_string (rt.numeric_out z) ≡ some (of_units z)
