-- ===== src/Store/Atomic.antt =====
-- What `ExecTx` of internal/db/store.go promises to its callers.
use go_bank_ledger.Prelude.{
  ℕ, zero, suc, ◌+◌, ◌≡◌, refl, Option, none, some, ltb, Option-cases, Bool-cases, inl, inr,
}
use go_bank_ledger.Errors.{Error, is_serialization_error}
use go_bank_ledger.Sqlc.Tables.{Tables, World}
use go_bank_ledger.Runtime.{Runtime}
use go_bank_ledger.Exec.{Result, Action, ok, err}
use go_bank_ledger.Store.{
  begin_tx, rollback, commit, finish, exec_tx_once, sleep_with_context, retry_wait, after_wait,
  next_attempt, after_attempt, attempts, exec_tx, max_attempts,
}

-- Tables that other sessions' commits alone lead to.
pub data Drift (rt : Runtime) (T : Tables) : Tables → Type 0 where
  still : Drift rt T T
  more_commits : {U : Tables} (n : ℕ) → Drift rt T U → Drift rt T (rt.others n U)

pub Drift-trans : {rt : Runtime} {T U V : Tables} → Drift rt T U → Drift rt U V → Drift rt T V
Drift-trans d still = d
Drift-trans d (more_commits n e) = more_commits n (Drift-trans d e)

-- The body ran to its end once, from tables that other sessions left, and the outcome is `U`.
pub record CommittedOnce (rt : Runtime) (fn : Action Unit) (T U : Tables) : Type 0 where
  pub seen : Tables
  pub start : ℕ
  pub finish : ℕ
  pub drift : Drift rt T seen
  pub ran :
      fn (record { tables = seen; tick = start }) ≡ (ok tt, record { tables = U; tick = finish })

abbrev pub Outcome : Runtime → Action Unit → Tables → Result Error Unit × World → Type 0
Outcome rt fn T (ok a, w) = CommittedOnce rt fn T w.tables
Outcome rt fn T (err e, w) = Drift rt T w.tables

module _ (rt : Runtime) (fn : Action Unit) (T : Tables) where
  commit-Outcome :
      (seen : Tables) (start : ℕ) (w : World)
      → Drift rt T seen
      → fn (record { tables = seen; tick = start }) ≡ (ok tt, w)
      → Outcome rt fn T (commit rt seen w)
  unfolding commit
  commit-Outcome seen start w d e = elim (Option-cases (rt.fault w.tick)) [
    | inl fine ↦
        rw (fine, Outcome, commit)
          (record { seen = seen; start = start; finish = w.tick; drift = d; ran = e })
    | inr (f, failed) ↦ rw (failed, Outcome, commit) d
  ]

  rollback-Outcome :
      (seen : Tables) (e : Error) (w : World)
      → Drift rt T seen
      → Outcome rt fn T (rollback rt seen e w)
  unfolding rollback
  rollback-Outcome seen e w d = elim (Option-cases (rt.fault w.tick)) [
    | inl fine ↦ rw (fine, Outcome, rollback) d
    | inr (f, failed) ↦ rw (failed, Outcome, rollback) d
  ]

  finish-Outcome :
      (seen : Tables) (start : ℕ) (r : Result Error Unit) (w : World)
      → Drift rt T seen
      → fn (record { tables = seen; tick = start }) ≡ (r, w)
      → Outcome rt fn T (finish rt seen r w)
  finish-Outcome seen start (ok tt) w d e = commit-Outcome seen start w d e
  finish-Outcome seen start (err f) w d e = rollback-Outcome seen f w d

  -- One attempt: the body's effect, or that of other sessions alone.
  exec_tx_once-Outcome : (w : World) → Drift rt T w.tables → Outcome rt fn T (exec_tx_once rt fn w)
  unfolding exec_tx_once begin_tx
  exec_tx_once-Outcome w d = elim (Option-cases (rt.fault w.tick)) [
    | inl fine ↦ rw (fine, Outcome, begin_tx) (finish-Outcome _ _ _ _ (more_commits w.tick d) refl)
    | inr (f, failed) ↦ rw (failed, Outcome, begin_tx) d
  ]

  sleep-Outcome :
      (duration : ℕ) (rest : Action Unit) (w : World)
      → Drift rt T w.tables
      → ((v : World) → Drift rt T v.tables → Outcome rt fn T (rest v))
      → Outcome rt fn T (let (r, w') = sleep_with_context rt duration w in after_wait rt r rest w')
  unfolding sleep_with_context
  sleep-Outcome duration rest w d k = elim (Bool-cases (rt.cancelled w.tick)) [
    | inl stopped ↦ rw stopped d
    | inr slept ↦ rw slept (k (record w { tick = w.tick + 1 }) d)
  ]

  next_attempt-Outcome :
      (attempt : ℕ) (rest : Action Unit) (w : World)
      → Drift rt T w.tables
      → ((v : World) → Drift rt T v.tables → Outcome rt fn T (rest v))
      → Outcome rt fn T (next_attempt rt attempt rest w)
  next_attempt-Outcome attempt rest w d k = elim (Bool-cases (ltb (attempt + 1) max_attempts)) [
    | inl again ↦ rw again (sleep-Outcome (retry_wait attempt) rest w d k)
    | inr last ↦ rw last (k w d)
  ]

  after_attempt-Outcome :
      (attempt : ℕ) (r : Result Error Unit) (rest : Error → Action Unit) (w : World)
      → Outcome rt fn T (r, w)
      → ((e : Error) (v : World) → Drift rt T v.tables → Outcome rt fn T (rest e v))
      → Outcome rt fn T (after_attempt rt attempt r rest w)
  after_attempt-Outcome attempt (ok tt) rest w o k = o
  after_attempt-Outcome attempt (err e) rest w o k = elim (Bool-cases (is_serialization_error e)) [
    | inl retry ↦ rw retry (next_attempt-Outcome attempt (rest e) w o (k e))
    | inr final ↦ rw final o
  ]

  attempts-Outcome :
      (left attempt : ℕ) (last : Option Error) (w : World)
      → Drift rt T w.tables
      → Outcome rt fn T (attempts rt left attempt last fn w)
  unfolding attempts
  attempts-Outcome zero attempt last w d = d
  attempts-Outcome (suc left) attempt last w d =
      let (r, w') = exec_tx_once rt fn w in
      after_attempt-Outcome attempt r _ w' (exec_tx_once-Outcome w d)
        (λ e v. attempts-Outcome left (attempt + 1) (some e) v)

-- If `ExecTx` returns nil, its function has run to its end and committed exactly once, on tables that
-- other sessions' commits led to; after an error nothing of it remains, whatever statement, COMMIT,
-- ROLLBACK or wait failed.
pub exec_tx-Outcome :
    (rt : Runtime) (fn : Action Unit) (w : World) → Outcome rt fn w.tables (exec_tx rt fn w)
unfolding exec_tx
exec_tx-Outcome rt fn w = attempts-Outcome rt fn w.tables max_attempts 0 none w still
