-- ===== src/Api/Idempotency/Origin.antt =====
-- Where the answer to a request behind the middleware of internal/api/middleware_idempotency.go comes
-- from.
use go_bank_ledger.Prelude.{
  String, ◌≡◌, refl, some, Bool-cases, Option-cases, inl, inr, ltb, not, ◌||◌,
}
use go_bank_ledger.Prelude.Text.{is_empty}
use go_bank_ledger.Errors.{Error}
use go_bank_ledger.Sqlc.Models.{Uuid, IdempotencyKey}
use go_bank_ledger.Sqlc.Tables.{World}
use go_bank_ledger.Sqlc.Keys.{get_idempotency_key}
use go_bank_ledger.Runtime.{Runtime}
use go_bank_ledger.Store.{on_pool}
use go_bank_ledger.Exec.{Result, ok, err}
use go_bank_ledger.Api.Http.{Web, Request, Response}
use go_bank_ledger.Api.Idempotency.{
  Next, idempotency_middleware, tracked, save_response, compound_hash, is_mutating, raw_key,
  user_of, replay, on_lookup,
}

module _ (rt : Runtime) (web : Web) where
  -- The row that the middleware looks for.
  abbrev pub sought : Request → Uuid → World → Result Error IdempotencyKey
  sought req user w =
      (on_pool rt
        (get_idempotency_key rt (record { id = compound_hash rt web req user; user_id = user }))
        w).0

  -- A response behind the idempotency middleware: the handler's, or one from the table.
  pub data Tracked (next : Next) (req : Request) (w : World) : Response → Type 0 where
    answered : (w' : World) → Tracked next req w (next req w').0
    saved :
        {user : Uuid} {key : IdempotencyKey}
        → user_of rt req.claims ≡ some user
        → sought req user w ≡ ok key
        → Tracked next req w (replay key)

  save_response-same :
      (hash : String) (user : Uuid) (response : Response) (w : World)
      → (save_response rt web hash user (response, w)).0 ≡ response
  unfolding save_response
  save_response-same hash user response w = elim (Bool-cases (ltb response.status 500)) [
    | inl small ↦ rw small refl
    | inr large ↦ rw large refl
  ]

  on_lookup-Tracked :
      (next : Next) (req : Request) (hash : String) (user : Uuid) (r : Result Error IdempotencyKey)
      (w w' : World)
      → user_of rt req.claims ≡ some user
      → sought req user w ≡ r
      → Tracked next req w (on_lookup rt web next req hash user (r, w')).0
  on_lookup-Tracked next req hash user (ok key) w w' claimed found = saved claimed found
  on_lookup-Tracked next req hash user (err e) w w' claimed missed =
      let (response, w'') = next req w' in
      rw (save_response-same hash user response w'') (answered w')

  tracked-Tracked :
      (next : Next) (req : Request) (user : Uuid) (w : World)
      → user_of rt req.claims ≡ some user
      → Tracked next req w (tracked rt web next req user w).0
  unfolding tracked
  tracked-Tracked next req user w claimed =
      let (r, w') =
        on_pool rt
          (get_idempotency_key rt (record { id = compound_hash rt web req user; user_id = user }))
          w in
      on_lookup-Tracked next req _ user r w w' claimed refl

  pub idempotency_middleware-Tracked :
      (next : Next) (req : Request) (w : World)
      → Tracked next req w (idempotency_middleware rt web next req w).0
  unfolding idempotency_middleware
  idempotency_middleware-Tracked next req w =
      elim (Bool-cases (not (is_mutating req.method) || is_empty (raw_key req))) [
        | inl untracked ↦ rw untracked (answered w)
        | inr keyed ↦ elim (Option-cases (user_of rt req.claims)) [
          | inl nobody ↦ rw (keyed, nobody) (answered w)
          | inr (user, claimed) ↦ rw (keyed, claimed) (tracked-Tracked next req user w claimed)
        ]
      ]
