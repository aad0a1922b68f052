-- ===== src/Ledger/Reconciliation.antt =====
-- `ReconcileAccount` of internal/service/ledger.go.
use go_bank_ledger.Prelude.{
  ℕ, ◌+◌, ◌≡◌, ◌≢◌, refl, not, Bool, true, false, none, some, ℤ, eqb_ℤ, if◌then◌else◌, arith, ◌+++◌,
}
use go_bank_ledger.Errors.{Error, plain}
use go_bank_ledger.Sqlc.Models.{Uuid}
use go_bank_ledger.Sqlc.Tables.{AccountRow, Tables, World}
use go_bank_ledger.Sqlc.Accounts.{find_account, fits_numeric, get_account}
use go_bank_ledger.Sqlc.Entries.{ledger_balance, get_account_balance}
use go_bank_ledger.Runtime.{Runtime, Decimals, NumericLaws}
use go_bank_ledger.Store.{on_pool}
use go_bank_ledger.Exec.{Result, ok, err, ◌>>=◌, statement, fail_if, pure}
use go_bank_ledger.Ledger.{reconcile_account}
use go_bank_ledger.Ledger.Invariant.{IsLedger}

module _ {Decimal : Type 0} {rt : Runtime} {dec : Decimals Decimal}
    (laws : NumericLaws rt dec) where
  abbrev pub mismatch : ℤ → ℤ → Error
  mismatch stored calculated = plain (
      "balance mismatch: stored "
      +++ (rt.numeric_out stored
          +++ (", calculated " +++ dec.string_fixed (laws.of_units calculated))))

  abbrev pub verdict : ℤ → ℤ → Result Error Bool
  verdict stored calculated =
      if eqb_ℤ stored calculated then ok true else err (mismatch stored calculated)

  equal-eq : (y z : ℤ) → dec.equal (laws.of_units y) (laws.of_units z) ≡ eqb_ℤ y z
  equal-eq y z = ground (arith, laws.equal_iff y z)

  verdict-runs :
      (b : Bool) (e : Error) (w : World)
      → (fail_if (not b) e >>= λ _. pure true) w ≡ (if b then ok true else err e, w)
  unfolding ◌>>=◌
  verdict-runs true e w = refl
  verdict-runs false e w = refl

  -- If the database answers both queries, the account exists when its balance is read, and the sum
  -- that the second query finds fits its type, then the call says yes when the balance is that sum,
  -- and otherwise reports both amounts; it changes nothing. Other sessions commit before each query.
  reconcile_account-eq :
      (id : Uuid) (row : AccountRow) (T A B : Tables) (n : ℕ)
      → A ≡ rt.others n T
      → B ≡ rt.others (n + 1) A
      → rt.fault n ≡ none
      → rt.fault (n + 1) ≡ none
      → find_account id A.accounts ≡ some row
      → fits_numeric (ledger_balance id B.entries) ≡ true
      → reconcile_account rt dec id (record { tables = T; tick = n }) ≡ (
        verdict row.balance (ledger_balance id B.entries),
        record { tables = B; tick = n + 1 + 1 },
      )
  unfolding reconcile_account get_account get_account_balance statement ◌>>=◌ on_pool
  reconcile_account-eq id row T A B n read summed q1 q2 found fits =
      simp
        (
          ← read,
          ← summed,
          q1,
          q2,
          found,
          fits,
          laws.new_from_string-numeric_out row.balance,
          laws.new_from_string-numeric_out (ledger_balance id B.entries),
          equal-eq,
        )
        (verdict-runs (eqb_ℤ row.balance (ledger_balance id B.entries)) _ _)

  verdict_iff :
      (y z : ℤ) → ((y ≡ z) → verdict y z ≡ ok true) × ((y ≢ z) → verdict y z ≡ err (mismatch y z))
  verdict_iff y z = (λ e. ground arith, λ ne. ground arith)

  -- On books that are kept where the balance is read, the reconciliation of an account that exists
  -- succeeds if no commit between its two queries changed the sum of the account's entries, and
  -- reports a mismatch if one did.
  pub reconcile_account-race :
      (id : Uuid) (row : AccountRow) (T A B : Tables) (n : ℕ)
      → A ≡ rt.others n T
      → B ≡ rt.others (n + 1) A
      → IsLedger A
      → rt.fault n ≡ none
      → rt.fault (n + 1) ≡ none
      → find_account id A.accounts ≡ some row
      → fits_numeric (ledger_balance id B.entries) ≡ true
      → let before = ledger_balance id A.entries in
        let after = ledger_balance id B.entries in
        let r = (reconcile_account rt dec id (record { tables = T; tick = n })).0 in
        ((before ≡ after) → r ≡ ok true) × ((before ≢ after) → r ≡ err (mismatch before after))
  reconcile_account-race id row T A B n read summed h q1 q2 found fits =
      rw
        (
          reconcile_account-eq id row T A B n read summed q1 q2 found fits,
          h.reconciled id row found,
        )
        (verdict_iff (ledger_balance id A.entries) (ledger_balance id B.entries))
