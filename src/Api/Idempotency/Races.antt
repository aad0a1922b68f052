-- ===== src/Api/Idempotency/Races.antt =====
-- Two requests with one key at the same time, in internal/api/middleware_idempotency.go.
use go_bank_ledger.Prelude.{
  String, ◌+◌, ◌≡◌, refl, ℕ, none, some, ltb, Bool-cases, Option-cases, inl, inr,
}
use go_bank_ledger.Sqlc.Models.{Uuid, IdempotencyKey}
use go_bank_ledger.Sqlc.Tables.{Tables}
use go_bank_ledger.Sqlc.Keys.{key_row, find_key, create_idempotency_key}
use go_bank_ledger.Runtime.{Runtime}
use go_bank_ledger.Store.{on_pool}
use go_bank_ledger.Store.Atomic.{Drift, still, more_commits}
use go_bank_ledger.Exec.{◌>>=◌, statement, timestamp}
use go_bank_ledger.Exec.Runs.{at}
use go_bank_ledger.Api.Http.{Web, Request, Response}
use go_bank_ledger.Api.Idempotency.{
  Next, idempotency_middleware, tracked, save_response, compound_hash,
}
use go_bank_ledger.Api.Idempotency.Replay.{IsTracked, key_of, middleware-tracked, lookup-miss}

module _ (rt : Runtime) (web : Web) where
  -- Where the key is taken, nothing is saved, and that is no error for the client.
  save-taken :
      (hash : String) (user : Uuid) (response : Response) (other : IdempotencyKey) (U : Tables)
      (k : ℕ)
      → key_row hash (rt.others k U).idempotency_keys ≡ some other
      → ((save_response rt web hash user (response, at U k)).0 ≡ response)
        × Drift rt U (save_response rt web hash user (response, at U k)).1.tables
  unfolding save_response on_pool create_idempotency_key statement timestamp ◌>>=◌
  save-taken hash user response other U k taken = elim (Bool-cases (ltb response.status 500)) [
    | inr large ↦ rw large (refl, still)
    | inl small ↦ elim (Option-cases (rt.fault k)) [
      | inr (e, failed) ↦ simp (small, failed) (refl, more_commits k still)
      | inl fine ↦ simp (small, fine, taken) (refl, more_commits k still)
    ]
  ]

  -- A request whose key is looked up before another request with the key has saved its answer runs
  -- the next handler as well, also if the other session has committed that answer when it ends: its
  -- effect stays, since only other sessions' commits change the tables after it, and its own response
  -- is sent.
  pub middleware-races :
      (after : Next) (req : Request) (user : Uuid) (response : Response) (other : IdempotencyKey)
      (T U : Tables) (n k : ℕ)
      → IsTracked rt web req user
      → rt.fault n ≡ none
      → find_key (key_of rt web req user) (rt.others n T).idempotency_keys ≡ none
      → after req (at (rt.others n T) (n + 1)) ≡ (response, at U k)
      → key_row (compound_hash rt web req user) (rt.others k U).idempotency_keys ≡ some other
      → ((idempotency_middleware rt web after req (at T n)).0 ≡ response)
        × Drift rt U (idempotency_middleware rt web after req (at T n)).1.tables
  unfolding tracked
  middleware-races after req user response other T U n k t quiet miss ran taken =
      rw
        (
          middleware-tracked rt web after req user (at T n) t,
          lookup-miss rt web (key_of rt web req user) T n quiet miss,
          ran,
        )
        (save-taken (compound_hash rt web req user) user response other U k taken)
