-- ===== src/Api/Idempotency/Steps.antt =====
-- The middleware of internal/api/middleware_idempotency.go as steps of the bank.
use go_bank_ledger.Prelude.{String, Bool-cases, Option-cases, inl, inr, ltb, ◌||◌, not}
use go_bank_ledger.Prelude.Text.{is_empty}
use go_bank_ledger.Sqlc.Models.{Uuid, IdempotencyKey}
use go_bank_ledger.Sqlc.Tables.{World}
use go_bank_ledger.Sqlc.Keys.{get_idempotency_key}
use go_bank_ledger.Runtime.{Runtime}
use go_bank_ledger.Store.{on_pool}
use go_bank_ledger.Exec.{Result, ok, err}
use go_bank_ledger.Ledger.Steps.{Steps, here, Steps-trans}
use go_bank_ledger.Ledger.Steps.Pool.{FollowsBank}
use go_bank_ledger.Sqlc.Querier.{new, pool}
use go_bank_ledger.Api.Http.{Web, Request, Response}
use go_bank_ledger.Api.Idempotency.{
  Next, idempotency_middleware, tracked, on_lookup, save_response, compound_hash, is_mutating,
  raw_key, user_of,
}

-- A handler, or a chain of them, that only takes steps of the bank.
abbrev pub NextSteps : Next → Type 0
NextSteps f = (req : Request) (w : World) → Steps w.tables (f req w).1.tables

module _ (rt : Runtime) (web : Web) (bank : FollowsBank (new rt pool)) where
  save_response-Steps :
      (hash : String) (user : Uuid) (response : Response) (w : World)
      → Steps w.tables (save_response rt web hash user (response, w)).1.tables
  unfolding save_response
  save_response-Steps hash user response w = elim (Bool-cases (ltb response.status 500)) [
    | inl small ↦ rw small ((bank.create_idempotency_key _).at w)
    | inr large ↦ rw large here
  ]

  on_lookup-Steps :
      {E : Type 0} (f : Next) (req : Request) (hash : String) (user : Uuid)
      (r : Result E IdempotencyKey) (w : World)
      → NextSteps f
      → Steps w.tables (on_lookup rt web f req hash user (r, w)).1.tables
  on_lookup-Steps f req hash user (ok key) w h = here
  on_lookup-Steps f req hash user (err e) w h =
      let (response, w') = f req w in
      Steps-trans (h req w) (save_response-Steps hash user response w')

  tracked-Steps :
      (f : Next) (req : Request) (user : Uuid) (w : World)
      → NextSteps f
      → Steps w.tables (tracked rt web f req user w).1.tables
  unfolding tracked
  tracked-Steps f req user w h =
      let (r, w') =
        on_pool rt
          (get_idempotency_key rt (record { id = compound_hash rt web req user; user_id = user }))
          w in
      Steps-trans ((bank.get_idempotency_key _).at w) (on_lookup-Steps f req _ user r w' h)

  pub idempotency_middleware-Steps :
      (f : Next) → NextSteps f → NextSteps (idempotency_middleware rt web f)
  unfolding idempotency_middleware
  idempotency_middleware-Steps f h req w =
      elim (Bool-cases (not (is_mutating req.method) || is_empty (raw_key req))) [
        | inl untracked ↦ simp untracked (h req w)
        | inr keyed ↦ elim (Option-cases (user_of rt req.claims)) [
          | inl nobody ↦ simp (keyed, nobody) (h req w)
          | inr (user, claimed) ↦ simp (keyed, claimed) (tracked-Steps f req user w h)
        ]
      ]
