-- ===== src/Api/Idempotency/Replay.antt =====
-- When the middleware of internal/api/middleware_idempotency.go answers from the table.
use go_bank_ledger.Prelude.{
  ℕ, ◌+◌, ◌<◌, String, ◌+++◌, eq_iff, ◌≡◌, refl, true, false, none, some, ◌∷◌, ltb, ◌==◌, arith,
}
use go_bank_ledger.Prelude.Text.{is_empty}
use go_bank_ledger.Errors.{Error}
use go_bank_ledger.Sqlc.Models.{Uuid, IdempotencyKey, GetIdempotencyKeyParams}
use go_bank_ledger.Sqlc.Tables.{Tables, World}
use go_bank_ledger.Sqlc.Keys.{find_key, key_row, get_idempotency_key, create_idempotency_key}
use go_bank_ledger.Runtime.{Runtime}
use go_bank_ledger.Store.{on_pool}
use go_bank_ledger.Exec.{ok, err, ◌>>=◌, statement, timestamp}
use go_bank_ledger.Exec.Runs.{at}
use mathlib.Core.Path.{ap₂}
use go_bank_ledger.Ledger.Steps.{Steps}
use go_bank_ledger.Ledger.Steps.Lasting.{Steps-Lasting}
use go_bank_ledger.Api.Http.{Web, Request, Response}
use go_bank_ledger.Api.Idempotency.{
  Next, is_mutating, raw_key, user_of, compound_hash, save_response, replay, tracked,
  idempotency_middleware,
}

==_refl : (n : ℕ) → (n == n) ≡ true
==_refl n = ground arith

module _ (rt : Runtime) (web : Web) where
  abbrev pub key_of : Request → Uuid → GetIdempotencyKeyParams
  key_of req user = record { id = compound_hash rt web req user; user_id = user }

  -- The middleware tracks the request for this user.
  pub record IsTracked (req : Request) (user : Uuid) : Type 0 where
    pub mutating : is_mutating req.method ≡ true
    pub keyed : is_empty (raw_key req) ≡ false
    pub claimed : user_of rt req.claims ≡ some user

  pub middleware-tracked :
      (next : Next) (req : Request) (user : Uuid) (w : World)
      → IsTracked req user
      → idempotency_middleware rt web next req w ≡ tracked rt web next req user w
  unfolding idempotency_middleware
  middleware-tracked next req user w t = simp (t.mutating, t.keyed, t.claimed)

  lookup-hit :
      (arg : GetIdempotencyKeyParams) (key : IdempotencyKey) (T : Tables) (n : ℕ)
      → rt.fault n ≡ none
      → find_key arg (rt.others n T).idempotency_keys ≡ some key
      → on_pool rt (get_idempotency_key rt arg) (at T n) ≡ (ok key, at (rt.others n T) (n + 1))
  unfolding on_pool get_idempotency_key statement ◌>>=◌
  lookup-hit arg key T n quiet hit = simp (quiet, hit)

  pub lookup-miss :
      (arg : GetIdempotencyKeyParams) (T : Tables) (n : ℕ)
      → rt.fault n ≡ none
      → find_key arg (rt.others n T).idempotency_keys ≡ none
      → on_pool rt (get_idempotency_key rt arg) (at T n)
        ≡ (err Error.no_rows, at (rt.others n T) (n + 1))
  unfolding on_pool get_idempotency_key statement ◌>>=◌
  lookup-miss arg T n quiet miss = simp (quiet, miss)

  same_hash :
      (req again : Request) (user : Uuid)
      → raw_key again ≡ raw_key req
      → again.body ≡ req.body
      → compound_hash rt web again user ≡ compound_hash rt web req user
  unfolding compound_hash
  same_hash req again user k b =
      ap₂ (λ (x y : String). web.sha256_hex (x +++ (rt.uuid_string user +++ y))) k b

  -- A row saved for a request answers every later tracked request with the same key, user and body,
  -- whatever its method, path and account: the stored status and body come back, the next handler
  -- does not run and the tables stay as other sessions left them.
  pub middleware-replays :
      (next : Next) (req again : Request) (user : Uuid) (key : IdempotencyKey) (T : Tables) (n : ℕ)
      → IsTracked again user
      → raw_key again ≡ raw_key req
      → again.body ≡ req.body
      → rt.fault n ≡ none
      → find_key (key_of req user) (rt.others n T).idempotency_keys ≡ some key
      → idempotency_middleware rt web next again (at T n) ≡ (replay key, at (rt.others n T) (n + 1))
  unfolding tracked
  middleware-replays next req again user key T n t k b quiet hit = rw (
    middleware-tracked next again user (at T n) t,
    same_hash req again user k b,
    lookup-hit (key_of req user) key T n quiet hit,
  )

  -- The row that the middleware saves for a response at step `k`.
  abbrev pub saved_key : Request → Uuid → Response → ℕ → IdempotencyKey
  saved_key req user response k = record {
    id = compound_hash rt web req user;
    user_id = user;
    response_code = response.status;
    response_body = response.body;
    created_at = rt.current_timestamp (k + 1);
  }

  abbrev pub with_key : Request → Uuid → Response → Tables → ℕ → Tables
  with_key req user response U k = record U {
    idempotency_keys = saved_key req user response k ∷ U.idempotency_keys;
  }

  create_key-runs :
      (req : Request) (user : Uuid) (response : Response) (U : Tables) (k : ℕ)
      → rt.fault k ≡ none
      → key_row (compound_hash rt web req user) (rt.others k U).idempotency_keys ≡ none
      → (on_pool rt
          (create_idempotency_key rt (record {
            id = compound_hash rt web req user;
            user_id = user;
            response_code = response.status;
            response_body = response.body;
          }))
          (at U k)).1
        ≡ at (with_key req user response (rt.others k U) k) (k + 1 + 1)
  unfolding on_pool create_idempotency_key statement timestamp ◌>>=◌
  create_key-runs req user response U k quiet fresh = simp (quiet, fresh)

  find_key-saved :
      (req : Request) (user : Uuid) (response : Response) (U : Tables) (k : ℕ)
      → find_key (key_of req user) (with_key req user response U k).idempotency_keys
        ≡ some (saved_key req user response k)
  unfolding find_key
  find_key-saved req user response U k = simp (
    (eq_iff (compound_hash rt web req user) (compound_hash rt web req user)).1 refl,
    ==_refl user,
  )

  save-runs :
      (req : Request) (user : Uuid) (response : Response) (U : Tables) (k : ℕ)
      → response.status < 500
      → rt.fault k ≡ none
      → key_row (compound_hash rt web req user) (rt.others k U).idempotency_keys ≡ none
      → save_response rt web (compound_hash rt web req user) user (response, at U k)
        ≡ (response, at (with_key req user response (rt.others k U) k) (k + 1 + 1))
  unfolding save_response
  save-runs req user response U k small quiet fresh =
      let test : ltb response.status 500 ≡ true = ground arith in
      simp (test, create_key-runs req user response U k quiet fresh)

  -- A tracked request that is not in the table.
  pub middleware-first :
      (next : Next) (req : Request) (user : Uuid) (response : Response) (T U : Tables) (n k : ℕ)
      → IsTracked req user
      → rt.fault n ≡ none
      → find_key (key_of req user) (rt.others n T).idempotency_keys ≡ none
      → next req (at (rt.others n T) (n + 1)) ≡ (response, at U k)
      → response.status < 500
      → rt.fault k ≡ none
      → key_row (compound_hash rt web req user) (rt.others k U).idempotency_keys ≡ none
      → idempotency_middleware rt web next req (at T n)
        ≡ (response, at (with_key req user response (rt.others k U) k) (k + 1 + 1))
  unfolding tracked
  middleware-first next req user response T U n k t q1 miss ran small q2 fresh =
      rw
        (
          middleware-tracked next req user (at T n) t,
          lookup-miss (key_of req user) T n q1 miss,
          ran,
        )
        (save-runs req user response U k small q2 fresh)

  -- The request that comes when its answer has been saved in `V`, and the bank has gone on.
  pub middleware-again :
      (next : Next) (req : Request) (user : Uuid) (response : Response) (V : Tables) (k : ℕ)
      (again : World)
      → IsTracked req user
      → rt.fault again.tick ≡ none
      → Steps (with_key req user response V k) (rt.others again.tick again.tables)
      → idempotency_middleware rt web next req again ≡ (
        record response { cache_hit = true },
        at (rt.others again.tick again.tables) (again.tick + 1),
      )
  middleware-again next req user response V k again t quiet steps =
      middleware-replays next req req user (saved_key req user response k) again.tables again.tick t
        refl refl quiet ((Steps-Lasting steps).keys _ _ (find_key-saved req user response V k))

  -- A tracked request that is not in the table runs the next handler once and passes its response
  -- on. If that is no server error and the database answers, and the same request comes again after
  -- any steps of the bank, it gets the same status and body, marked as a hit, and changes nothing,
  -- whatever the next handler would do.
  middleware-once :
      (next next' : Next) (req : Request) (user : Uuid) (response : Response) (T U : Tables)
      (n k : ℕ) (again : World)
      → IsTracked req user
      → rt.fault n ≡ none
      → find_key (key_of req user) (rt.others n T).idempotency_keys ≡ none
      → next req (at (rt.others n T) (n + 1)) ≡ (response, at U k)
      → response.status < 500
      → rt.fault k ≡ none
      → key_row (compound_hash rt web req user) (rt.others k U).idempotency_keys ≡ none
      → rt.fault again.tick ≡ none
      → let V = with_key req user response (rt.others k U) k in
        let later = rt.others again.tick again.tables in
        Steps V later
        → (idempotency_middleware rt web next req (at T n) ≡ (response, at V (k + 1 + 1)))
          × (idempotency_middleware rt web next' req again
              ≡ (record response { cache_hit = true }, at later (again.tick + 1)))
  middleware-once next next' req user response T U n k again t q1 miss ran small q2 fresh q3 steps =
      (
        middleware-first next req user response T U n k t q1 miss ran small q2 fresh,
        middleware-again next' req user response (rt.others k U) k again t q3 steps,
      )
