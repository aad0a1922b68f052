-- ===== src/Api/Auth/Credentials.antt =====
-- `Register` and then `Login` of internal/api/handler.go.
use go_bank_ledger.Prelude.{
  ℕ, ◌+◌, ◌*◌, ◌≡◌, refl, String, false, none, some, List, ◌∷◌, Bool-cases, inl, inr, if◌then◌else◌,
  eq_iff,
}
use go_bank_ledger.Prelude.Text.{is_empty}
use go_bank_ledger.Sqlc.Models.{Uuid, User}
use go_bank_ledger.Sqlc.Tables.{Tables, World}
use go_bank_ledger.Sqlc.Users.{find_user, find_user_by_email, create_user, get_user_by_email}
use go_bank_ledger.Runtime.{Runtime}
use go_bank_ledger.Store.{on_pool}
use mathlib.Core.Path.{subst}
use go_bank_ledger.Ledger.Steps.{Steps, Steps-trans}
use go_bank_ledger.Ledger.Steps.Lasting.{Steps-Lasting}
use go_bank_ledger.Exec.{◌>>=◌, statement, new_uuid, timestamp}
use go_bank_ledger.Exec.Runs.{at}
use go_bank_ledger.Api.Http.{
  Web, Request, Response, AuthRequest, register_response, token_response, respond_json,
  respond_error, respond, call, Payload,
}
use go_bank_ledger.Api.Token.{generate_token}
use go_bank_ledger.Api.Auth.{register, login}

status-json :
    (web : Web) (status : ℕ) (payload : Payload) → (respond_json web status payload).status ≡ status
unfolding respond_json
status-json web status payload = refl

module _ (rt : Runtime) (web : Web) where
  -- The row that a registration at step n writes.
  abbrev pub registered : AuthRequest → String → ℕ → User
  registered input hashed n = record {
    id = rt.random_uuid (n + 1);
    email = input.email;
    hashed_password = hashed;
    created_at = some (rt.current_timestamp (n + 1 + 1));
  }

  abbrev pub with_user : User → Tables → Tables
  with_user user T = record T { users = user ∷ T.users }

  -- What a registration needs to be accepted: a body with an email and a password that bcrypt
  -- hashes, and an email and an id that no user has.
  pub record Accepted (input : AuthRequest) (hashed : String) (req : Request) (T : Tables) (n : ℕ)
      : Type 0 where
    pub decoded : web.decode_auth req.body ≡ some input
    pub email_given : is_empty input.email ≡ false
    pub password_given : is_empty input.password ≡ false
    pub hash : web.hash_password input.password ≡ some hashed
    pub fresh_id : find_user (rt.random_uuid (n + 1)) (rt.others n T).users ≡ none
    pub fresh_email : find_user_by_email input.email (rt.others n T).users ≡ none

  module _ (answers : (n : ℕ) → rt.fault n ≡ none) (secret : String) (sign : Uuid → ℕ → String)
      (signs : (id : Uuid) (expiry : ℕ)
        → web.sign_token secret id expiry ≡ some (sign id expiry)) where
    -- A day after the clock's time at a step.
    abbrev pub token_at : Uuid → ℕ → String
    token_at id n = sign id (rt.current_timestamp n + 24 * 3600)

    register-runs :
        (req : Request) (input : AuthRequest) (hashed : String) (T : Tables) (n : ℕ)
        → Accepted input hashed req T n
        → let user = registered input hashed n in
          respond (register rt web (some secret) req) (at T n) ≡ (
            respond_json web 201 (
                register_response
                  (rt.uuid_string user.id)
                  user.email
                  (token_at user.id (n + 1 + 1 + 1))),
            at (with_user user (rt.others n T)) (n + 1 + 1 + 1 + 1),
          )
    unfolding on_pool respond register call create_user statement new_uuid timestamp ◌>>=◌
        generate_token
    register-runs req input hashed T n h = simp (
      h.decoded, h.email_given, h.password_given, h.hash, answers, h.fresh_id, h.fresh_email, signs,
    )

    -- The answer to a login at step n, which finds the tables `T`.
    abbrev pub login_answer : User → String → Tables → ℕ → Response × World
    login_answer user password T n =
        if web.compare_password user.hashed_password password
        then (respond_json web 200 (token_response (token_at user.id (n + 1))), at T (n + 1 + 1))
        else (respond_error web 401 "invalid credentials", at T (n + 1))

    login-runs :
        (req : Request) (input : AuthRequest) (user : User) (w : World)
        → web.decode_auth req.body ≡ some input
        → find_user_by_email input.email (rt.others w.tick w.tables).users ≡ some user
        → respond (login rt web (some secret) req) w
          ≡ login_answer user input.password (rt.others w.tick w.tables) w.tick
    unfolding on_pool respond login call get_user_by_email statement timestamp ◌>>=◌ generate_token
    login-runs req input user w decoded found =
        elim (Bool-cases (web.compare_password user.hashed_password input.password)) [
          | inl same ↦ simp (decoded, answers, found, same, signs)
          | inr other ↦ simp (decoded, answers, found, other, signs)
        ]

    found-registered :
        (user : User) (email : String) (us : List User)
        → email ≡ user.email
        → find_user_by_email email (user ∷ us) ≡ some user
    unfolding find_user_by_email
    found-registered user email us e = rw (e, (eq_iff user.email user.email).1 refl)

    -- Over a database that answers, where tokens can be signed: a registration of a new email with a
    -- password is answered 201, and a login with that email that comes after any steps of the bank
    -- is answered 200 with a token of a day for the new user, if bcrypt accepts its password for the
    -- stored hash, and 401 otherwise; it changes no table. Other sessions take steps of the bank all
    -- the while.
    pub register-login :
        (others_step : (n : ℕ) (T : Tables) → Steps T (rt.others n T)) (req again : Request)
        (input claimed : AuthRequest) (hashed : String) (T : Tables) (n : ℕ) (w : World)
        → Accepted input hashed req T n
        → web.decode_auth again.body ≡ some claimed
        → claimed.email ≡ input.email
        → let user = registered input hashed n in
          let out = respond (register rt web (some secret) req) (at T n) in
          Steps out.1.tables w.tables
          → (out.0.status ≡ 201)
            × (respond (login rt web (some secret) again) w
                ≡ login_answer user claimed.password (rt.others w.tick w.tables) w.tick)
    register-login others_step req again input claimed hashed T n w h decoded same steps =
        let user = registered input hashed n in
        let runs = register-runs req input hashed T n h in
        let later =
          Steps-trans (subst (λ (x : Response × World). Steps x.1.tables w.tables) runs steps)
            (others_step w.tick w.tables) in
        (
          rw runs (status-json web 201 _),
          login-runs again claimed user w decoded (
              (Steps-Lasting later).users claimed.email user
                (found-registered user claimed.email (rt.others n T).users same)),
        )
