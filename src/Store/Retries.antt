-- ===== src/Store/Retries.antt =====
-- The loop of `ExecTx` in internal/db/store.go: how often it tries again.
use go_bank_ledger.Prelude.{
  ℕ, zero, suc, ◌+◌, ◌-◌, ◌<◌, ◌≡◌, true, false, Option, none, some, ltb, arith,
}
use mathlib.Core.Path.{subst}
use native.Mathlib.Numerals.{unary_clauses}
use go_bank_ledger.Errors.{Error, is_serialization_error}
use go_bank_ledger.Sqlc.Tables.{World}
use go_bank_ledger.Runtime.{Runtime}
use go_bank_ledger.Exec.{Result, Action, ok, err}
use go_bank_ledger.Store.{
  exec_tx_once, sleep_with_context, retry_wait, after_wait, next_attempt, after_attempt, attempts,
  exec_tx, max_attempts, exhausted,
}

module _ (rt : Runtime) (fn : Action Unit) where
  -- So many attempts in a row that end with a serialization conflict, each with a wait after it that
  -- nothing cancels.
  pub data Conflicts : ℕ → World → World → Type 0 where
    no_more : {w : World} → Conflicts 0 w w
    conflict :
        {k : ℕ} {w v u : World} {e : Error}
        → exec_tx_once rt fn w ≡ (err e, v)
        → is_serialization_error e ≡ true
        → rt.cancelled v.tick ≡ false
        → Conflicts k (record v { tick = v.tick + 1 }) u
        → Conflicts (suc k) w u

  -- An attempt that ends the loop: it commits, or fails with an error that is no conflict.
  abbrev pub Ends : Result Error Unit → Type 0
  Ends (ok a) = Unit
  Ends (err e) = is_serialization_error e ≡ false

  wait-passes :
      (duration : ℕ) (rest : Action Unit) (v : World) {out : Result Error Unit × World}
      → rt.cancelled v.tick ≡ false
      → rest (record v { tick = v.tick + 1 }) ≡ out
      → (let (r, w') = sleep_with_context rt duration v in after_wait rt r rest w') ≡ out
  unfolding sleep_with_context
  wait-passes duration rest v awake h = rw awake h

  attempts-conflict :
      (left attempt : ℕ) (last : Option Error) (w v : World) (e : Error)
      {out : Result Error Unit × World}
      → attempt + 1 < max_attempts
      → exec_tx_once rt fn w ≡ (err e, v)
      → is_serialization_error e ≡ true
      → rt.cancelled v.tick ≡ false
      → attempts rt left (attempt + 1) (some e) fn (record v { tick = v.tick + 1 }) ≡ out
      → attempts rt (suc left) attempt last fn w ≡ out
  unfolding attempts
  attempts-conflict left attempt last w v e few ran retry awake h =
      let again : ltb (attempt + 1) max_attempts ≡ true = ground arith in
      rw (ran, after_attempt, retry, next_attempt, again)
        (wait-passes (retry_wait attempt) (attempts rt left (attempt + 1) (some e) fn) v awake h)

  attempts-after :
      (k left attempt : ℕ) (last : Option Error) {w v : World} {out : Result Error Unit × World}
      → attempt + k < max_attempts
      → Conflicts k w v
      → ((before : Option Error) → attempts rt left (attempt + k) before fn v ≡ out)
      → attempts rt (k + left) attempt last fn w ≡ out
  attempts-after zero left attempt last few no_more h =
      let whole : 0 + left ≡ left = omega arith in rw whole (simp unary_clauses at h last)
  attempts-after (suc k) left attempt last {w = w} few
        (conflict {v = v} {e = e} ran retry awake more) h =
      let shift : suc k + left ≡ suc (k + left) = omega arith in
      let next : attempt + suc k ≡ attempt + 1 + k = omega arith in
      rw shift (
        attempts-conflict (k + left) attempt last w v e (omega arith) ran retry awake
          (attempts-after k left (attempt + 1) (some e) (omega arith) more (rw next at h)))

  attempts-ends :
      (left attempt : ℕ) (last : Option Error) (v u : World) (r : Result Error Unit)
      → exec_tx_once rt fn v ≡ (r, u)
      → Ends r
      → attempts rt (suc left) attempt last fn v ≡ (r, u)
  unfolding attempts
  attempts-ends left attempt last v u (ok tt) ran ends = rw ran
  attempts-ends left attempt last v u (err e) ran final = rw (ran, after_attempt, final)

  -- After fewer than ten conflicts ExecTx tries again, and what the next attempt returns, nil or an
  -- error that is no conflict, it returns, with the tables that this attempt leaves.
  pub exec_tx-retries :
      (k : ℕ) (w v u : World) (r : Result Error Unit)
      → k < 10
      → Conflicts k w v
      → exec_tx_once rt fn v ≡ (r, u)
      → Ends r
      → exec_tx rt fn w ≡ (r, u)
  unfolding exec_tx
  exec_tx-retries k w v u r few conflicts ran ends =
      let ten : k + suc (9 - k) ≡ max_attempts = omega arith in
      subst (λ n. attempts rt n 0 none fn w ≡ (r, u)) ten
        (attempts-after k (suc (9 - k)) 0 none (omega arith) conflicts
          (λ before. attempts-ends (9 - k) (0 + k) before v u r ran ends))

  -- A tenth conflict in a row ends ExecTx, without another wait, in an error that wraps that conflict.
  pub exec_tx-exhausted :
      (w v u : World) (e : Error)
      → Conflicts 9 w v
      → exec_tx_once rt fn v ≡ (err e, u)
      → is_serialization_error e ≡ true
      → exec_tx rt fn w ≡ (err (exhausted (some e)), u)
  unfolding exec_tx attempts
  exec_tx-exhausted w v u e conflicts ran retry =
      attempts-after 9 1 0 none (omega arith) conflicts (λ before. rw (ran, after_attempt, retry))
