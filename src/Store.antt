-- ===== src/Store.antt =====
-- internal/db/store.go: transactions with retries.
pub mod Backoff
pub mod Atomic
pub mod Retries
use go_bank_ledger.Prelude.{
  ℕ, zero, suc, ◌+◌, ◌*◌, Bool, true, false, not, Option, none, some, ltb, leb, if◌then◌else◌,
}
use go_bank_ledger.Errors.{
  Error, plain, wrapped, tx_and_rollback, context_done, is_serialization_error,
}
use go_bank_ledger.Sqlc.Tables.{Tables, World}
use go_bank_ledger.Runtime.{Runtime}
use go_bank_ledger.Exec.{Result, Action, ok, err}

-- Durations in nanoseconds.
abbrev pub millisecond : ℕ
millisecond = 1_000_000

abbrev pub second : ℕ
second = 1_000_000_000

-- The loop of `retryWait`, with the rounds left and `base`.
unfoldable pub double_until : ℕ → ℕ → ℕ
double_until zero base = base
double_until (suc rounds) base = elim (leb second (base * 2)) [
  | true ↦ second
  | false ↦ double_until rounds (base * 2)
]

unfoldable pub retry_wait : ℕ → ℕ
unfolding double_until
retry_wait attempt = double_until attempt (50 * millisecond)

abbrev pub max_attempts : ℕ
max_attempts = 10

-- The error after the last attempt.
abbrev pub exhausted : Option Error → Error
exhausted none = plain "transaction failed after 10 attempts due to serialization conflicts"
exhausted (some e) = wrapped "transaction failed after 10 attempts due to serialization conflicts" e

module _ (rt : Runtime) where
  -- A query of the embedded `Queries`, on the pool and so a transaction of its own: it sees what
  -- other sessions have committed.
  unfoldable pub on_pool : {A : Type 0} → Action A → Action A
  on_pool m w = m (record w { tables = rt.others w.tick w.tables })

  -- BEGIN: the transaction sees what other sessions have committed.
  unfoldable pub begin_tx : Action Unit
  begin_tx w = elim (rt.fault w.tick) [
    | some e ↦ (err e, record w { tick = w.tick + 1 })
    | none ↦ (ok tt, record w { tables = rt.others w.tick w.tables; tick = w.tick + 1 })
  ]

  -- ROLLBACK to the tables at BEGIN; a ROLLBACK that fails is undone by the server as well.
  unfoldable pub rollback : Tables → Error → Action Unit
  rollback snapshot e w = elim (rt.fault w.tick) [
    | some rb ↦ (err (tx_and_rollback e rb), record w { tables = snapshot; tick = w.tick + 1 })
    | none ↦ (err e, record w { tables = snapshot; tick = w.tick + 1 })
  ]

  unfoldable pub commit : Tables → Action Unit
  commit snapshot w = elim (rt.fault w.tick) [
    | some e ↦ (err (wrapped "commit failed" e), record w { tables = snapshot; tick = w.tick + 1 })
    | none ↦ (ok tt, record w { tick = w.tick + 1 })
  ]

  abbrev finish : Tables → Result Error Unit → Action Unit
  finish snapshot (ok a) w = commit snapshot w
  finish snapshot (err e) w = rollback snapshot e w

  abbrev run_body : Result Error Unit → Action Unit → Action Unit
  run_body (ok a) fn w = let (r, w') = fn w in finish w.tables r w'
  run_body (err e) fn w = (err e, w)

  -- `execTxOnce`
  unfoldable pub exec_tx_once : Action Unit → Action Unit
  exec_tx_once fn w = let (r, begun) = begin_tx w in run_body r fn begun

  -- `sleepWithContext`
  unfoldable pub sleep_with_context : ℕ → Action Unit
  sleep_with_context duration w =
      if rt.cancelled w.tick
      then (err context_done, record w { tick = w.tick + 1 })
      else (ok tt, record w { tick = w.tick + 1 })

  -- The body of the loop of `ExecTx` once an attempt has ended with `r`; `rest` is the next round.
  abbrev after_wait : Result Error Unit → Action Unit → Action Unit
  after_wait (ok a) rest w = rest w
  after_wait (err e) rest w = (err e, w)

  abbrev next_attempt : ℕ → Action Unit → Action Unit
  next_attempt attempt rest w =
      if ltb (attempt + 1) max_attempts
      then (let (r, w') = sleep_with_context (retry_wait attempt) w in after_wait r rest w')
      else rest w

  abbrev after_attempt : ℕ → Result Error Unit → (Error → Action Unit) → Action Unit
  after_attempt attempt (ok a) rest w = (ok tt, w)
  after_attempt attempt (err e) rest w =
      if is_serialization_error e then next_attempt attempt (rest e) w else (err e, w)

  -- The loop of `ExecTx`, with the attempts left, the index of the next one and `lastErr`.
  unfoldable pub attempts : ℕ → ℕ → Option Error → Action Unit → Action Unit
  attempts zero attempt last fn w = (err (exhausted last), w)
  attempts (suc left) attempt last fn w =
      let (r, w') = exec_tx_once fn w in
      after_attempt attempt r (λ e. attempts left (attempt + 1) (some e) fn) w'

  unfoldable pub exec_tx : Action Unit → Action Unit
  unfolding attempts
  exec_tx fn = attempts max_attempts 0 none fn
