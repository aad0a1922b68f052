-- ===== src/Ledger/Outcomes.antt =====
-- `Deposit`, `Withdraw` and `Transfer` of internal/service/ledger.go as their callers see them: all
-- or nothing, and the books stay right.
use go_bank_ledger.Prelude.{
  ◌≡◌, ◌≢◌, refl, ◌⊎◌, inl, inr, String, Bool, true, false, some, ℤ, ℕ, ◌==◌, Option-cases,
  Bool-cases, arith,
}
use go_bank_ledger.Errors.{Error, invalid_amount, same_account_transfer}
use go_bank_ledger.Sqlc.Models.{Uuid}
use go_bank_ledger.Sqlc.Tables.{Tables, World}
use go_bank_ledger.Runtime.{Runtime, Decimals, NumericLaws}
use go_bank_ledger.Exec.{Result, Action, ok, err, fail_if, ◌>>=◌, ◌>>◌}
use go_bank_ledger.Exec.Ensures.{Returns, Ensures, Ensures-weaken}
use go_bank_ledger.Store.{exec_tx}
use go_bank_ledger.Store.Atomic.{Drift, still, more_commits, Outcome, exec_tx-Outcome}
use go_bank_ledger.Ledger.{
  validate_positive_amount, deposit, deposit_tx, withdraw, withdraw_tx, transfer, transfer_tx,
}
use go_bank_ledger.Ledger.Invariant.{IsLedger}
use go_bank_ledger.Ledger.Books.{Deposited-IsLedger, Withdrawn-IsLedger, Transferred-IsLedger}
use go_bank_ledger.Ledger.Transactions.{
  Deposited, Withdrawn, Transferred, deposit_tx-Ensures, withdraw_tx-Ensures, transfer_tx-Ensures,
}
use mathlib.Core.Path.{subst}

-- The effect `Spec` took place once, on tables that other sessions left.
pub record Committed (rt : Runtime) (Spec : Tables → Tables → Type 0) (T U : Tables) : Type 0 where
  pub seen : Tables
  pub drift : Drift rt T seen
  pub effect : Spec seen U

-- What a call that began at the tables `T` has done, by how it ended.
abbrev pub AllOrNothing :
    Runtime → (Tables → Tables → Type 0) → Tables → Result Error Unit × World → Type 0
AllOrNothing rt Spec T (ok a, w) = Committed rt Spec T w.tables
AllOrNothing rt Spec T (err e, w) = Drift rt T w.tables

module _ (rt : Runtime) (Spec : Tables → Tables → Type 0) (fn : Action Unit)
    (ensures : (T : Tables) → Ensures T fn (λ _ U. Spec T U)) where
  Outcome-AllOrNothing :
      (T : Tables) (r : Result Error Unit) (w : World)
      → Outcome rt fn T (r, w)
      → AllOrNothing rt Spec T (r, w)
  Outcome-AllOrNothing T (ok tt) w c = record {
    seen = c.seen;
    drift = c.drift;
    effect =
        subst (λ (x : Result Error Unit × World). Returns x (λ _ U. Spec c.seen U)) c.ran
          ((ensures c.seen).at c.start);
  }
  Outcome-AllOrNothing T (err e) w d = d

  exec_tx-AllOrNothing : (w : World) → AllOrNothing rt Spec w.tables (exec_tx rt fn w)
  exec_tx-AllOrNothing w =
      let (r, w') = exec_tx rt fn w in Outcome-AllOrNothing w.tables r w' (exec_tx-Outcome rt fn w)

module _ (rt : Runtime) (Spec : Tables → Tables → Type 0)
    (others_keep : (n : ℕ) (T : Tables) → IsLedger T → IsLedger (rt.others n T))
    (keeps : (T U : Tables) → IsLedger T → Spec T U → IsLedger U) where
  IsLedger-Drift : {T U : Tables} → Drift rt T U → IsLedger T → IsLedger U
  IsLedger-Drift still h = h
  IsLedger-Drift (more_commits n d) h = others_keep n _ (IsLedger-Drift d h)

  IsLedger-AllOrNothing :
      (T : Tables) (r : Result Error Unit) (w : World)
      → AllOrNothing rt Spec T (r, w)
      → IsLedger T
      → IsLedger w.tables
  IsLedger-AllOrNothing T (ok tt) w c h = keeps _ _ (IsLedger-Drift c.drift h) c.effect
  IsLedger-AllOrNothing T (err e) w d h = IsLedger-Drift d h

module _ {Decimal : Type 0} (rt : Runtime) (dec : Decimals Decimal) where
  -- The amount is refused before anything happens, or the rest runs with a positive decimal.
  pub record Validated (s : String) (k : Decimal → Action Unit) (w : World) : Type 0 where
    pub amount : Decimal
    pub parsed : dec.new_from_string s ≡ some amount
    pub positive : dec.less_than_or_equal amount dec.zero ≡ false
    pub runs : (validate_positive_amount rt dec s >>= k) w ≡ k amount w

  validate-cases :
      (s : String) (k : Decimal → Action Unit) (w : World)
      → ((validate_positive_amount rt dec s >>= k) w ≡ (err invalid_amount, w)) ⊎ Validated s k w
  unfolding validate_positive_amount ◌>>=◌
  validate-cases s k w = elim (Option-cases (dec.new_from_string s)) [
    | inl bad ↦ inl (ground arith)
    | inr (d, e) ↦ elim (Bool-cases (dec.less_than_or_equal d dec.zero)) [
      | inl refused ↦ inl (ground arith)
      | inr fine ↦ inr (record { amount = d; parsed = e; positive = fine; runs = ground arith })
    ]
  ]

-- The text was read as a positive decimal, and `P` holds of it in ten-thousandths.
pub record Accepted {Decimal : Type 0} {rt : Runtime} {dec : Decimals Decimal}
    (laws : NumericLaws rt dec) (s : String) (P : ℤ → Type 0) : Type 0 where
  pub amount : Decimal
  pub parsed : dec.new_from_string s ≡ some amount
  pub positive : dec.less_than_or_equal amount dec.zero ≡ false
  pub holds : P (laws.units amount)

module _ {Decimal : Type 0} {rt : Runtime} {dec : Decimals Decimal}
    (laws : NumericLaws rt dec) where
  abbrev pub DepositSpec : Uuid → String → Tables → Tables → Type 0
  DepositSpec id s T U = Accepted laws s (λ z. Deposited id z T U)

  abbrev pub WithdrawSpec : Uuid → String → Tables → Tables → Type 0
  WithdrawSpec id s T U = Accepted laws s (λ z. Withdrawn id z T U)

  abbrev pub TransferSpec : Uuid → Uuid → String → Tables → Tables → Type 0
  TransferSpec from_id to_id s T U =
      (from_id ≢ to_id) × Accepted laws s (λ z. Transferred from_id to_id z T U)

  -- A deposit that returns nil has moved the positive amount of its text from the settlement account
  -- to the account, both of one currency, exactly once, on tables that other sessions' commits led
  -- to; after one that returns an error only other sessions' commits have changed the tables.
  pub deposit-AllOrNothing :
      (id : Uuid) (s : String) (w : World)
      → AllOrNothing rt (DepositSpec id s) w.tables (deposit rt dec id s w)
  unfolding deposit
  deposit-AllOrNothing id s w =
      elim (validate-cases rt dec s (λ d. exec_tx rt (deposit_tx rt dec id d)) w) [
        | inl refused ↦ rw refused still
        | inr v ↦ rw v.runs (
            exec_tx-AllOrNothing rt (DepositSpec id s) _
              (λ T. Ensures-weaken _ _ _ (deposit_tx-Ensures laws id v.amount) λ x U d. record {
                amount = v.amount;
                parsed = v.parsed;
                positive = v.positive;
                holds = d;
              })
              w)
      ]

  -- A withdrawal that returns nil has moved the positive amount of its text, which the stored balance
  -- covered, from the account to the settlement account, both of one currency, exactly once, on
  -- tables that other sessions' commits led to; after one that returns an error only other sessions'
  -- commits have changed the tables.
  pub withdraw-AllOrNothing :
      (id : Uuid) (s : String) (w : World)
      → AllOrNothing rt (WithdrawSpec id s) w.tables (withdraw rt dec id s w)
  unfolding withdraw
  withdraw-AllOrNothing id s w =
      elim (validate-cases rt dec s (λ d. exec_tx rt (withdraw_tx rt dec id d)) w) [
        | inl refused ↦ rw refused still
        | inr v ↦ rw v.runs (
            exec_tx-AllOrNothing rt (WithdrawSpec id s) _
              (λ T. Ensures-weaken _ _ _ (withdraw_tx-Ensures laws id v.amount) λ x U d. record {
                amount = v.amount;
                parsed = v.parsed;
                positive = v.positive;
                holds = d;
              })
              w)
      ]

  fail_if-AllOrNothing :
      (Spec : Tables → Tables → Type 0) (b : Bool) (e : Error) (m : Action Unit) (w : World)
      → (b ≡ false → AllOrNothing rt Spec w.tables (m w))
      → AllOrNothing rt Spec w.tables ((fail_if b e >>= λ _. m) w)
  unfolding ◌>>=◌
  fail_if-AllOrNothing Spec true e m w h = still
  fail_if-AllOrNothing Spec false e m w h = h refl

  -- A transfer that returns nil was between two different accounts of one currency and has moved
  -- the positive amount of its text, which the sender's balance covered, exactly once, on tables that
  -- other sessions' commits led to; after one that returns an error only other sessions' commits have
  -- changed the tables.
  pub transfer-AllOrNothing :
      (from_id to_id : Uuid) (s : String) (w : World)
      → AllOrNothing rt (TransferSpec from_id to_id s) w.tables (transfer rt dec from_id to_id s w)
  unfolding transfer
  transfer-AllOrNothing from_id to_id s w =
      elim (validate-cases rt dec s
        (λ d.
          fail_if (from_id == to_id) same_account_transfer
          >> exec_tx rt (transfer_tx rt dec from_id to_id d))
        w) [
          | inl refused ↦ rw refused still
          | inr v ↦ rw v.runs (
              fail_if-AllOrNothing _ _ _ _ w λ differ.
                exec_tx-AllOrNothing rt (TransferSpec from_id to_id s) _
                  (λ T.
                    Ensures-weaken _ _ _ (transfer_tx-Ensures laws from_id to_id v.amount) λ x U d.
                      (
                        ground arith,
                        record {
                          amount = v.amount;
                          parsed = v.parsed;
                          positive = v.positive;
                          holds = d;
                        },
                      ))
                  w)
        ]

  module _ (others_keep : (n : ℕ) (T : Tables) → IsLedger T → IsLedger (rt.others n T)) where
    -- A deposit keeps the books if other sessions do, whether it succeeds or fails and whatever fails
    -- under it.
    pub deposit-IsLedger :
        (id : Uuid) (s : String) (w : World)
        → IsLedger w.tables
        → IsLedger (deposit rt dec id s w).1.tables
    deposit-IsLedger id s w h =
        IsLedger-AllOrNothing rt (DepositSpec id s) others_keep
          (λ T U k a. Deposited-IsLedger id _ T U k a.holds) w.tables _ _
          (deposit-AllOrNothing id s w) h

    -- A withdrawal keeps the books if other sessions do, whether it succeeds or fails and whatever
    -- fails under it: no account but a system account is overdrawn after it, and the other books are
    -- right as well.
    pub withdraw-IsLedger :
        (id : Uuid) (s : String) (w : World)
        → IsLedger w.tables
        → IsLedger (withdraw rt dec id s w).1.tables
    withdraw-IsLedger id s w h =
        IsLedger-AllOrNothing rt (WithdrawSpec id s) others_keep
          (λ T U k a. Withdrawn-IsLedger id _ T U k a.holds) w.tables _ _
          (withdraw-AllOrNothing id s w) h

    -- A transfer keeps the books if other sessions do, whether it succeeds or fails and whatever fails
    -- under it: every stored balance is the sum of its entries, only system accounts are overdrawn,
    -- the debits and credits of each transaction cancel, and all balances add up to 0.
    pub transfer-IsLedger :
        (from_id to_id : Uuid) (s : String) (w : World)
        → IsLedger w.tables
        → IsLedger (transfer rt dec from_id to_id s w).1.tables
    transfer-IsLedger from_id to_id s w h =
        IsLedger-AllOrNothing rt (TransferSpec from_id to_id s) others_keep
          (λ T U k a. Transferred-IsLedger from_id to_id _ T U k a.1.holds) w.tables _ _
          (transfer-AllOrNothing from_id to_id s w) h
