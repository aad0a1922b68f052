-- ===== src/Api/Auth.antt =====
-- The start of every protected handler of internal/api/handler.go, and `Register` and `Login`.
pub mod Credentials
use go_bank_ledger.Prelude.{String, Option, not, ◌||◌}
use go_bank_ledger.Prelude.Text.{is_empty}
use go_bank_ledger.Sqlc.Models.{Uuid}
use go_bank_ledger.Sqlc.Users.{create_user, get_user_by_email}
use go_bank_ledger.Runtime.{Runtime}
use go_bank_ledger.Sqlc.Querier.{new, pool}
use go_bank_ledger.Store.{on_pool}
use go_bank_ledger.Exec.{◌>>=◌, ◌>>◌, pure, or_fail, fail_if, timestamp}
use go_bank_ledger.Api.Http.{
  Web, Request, Response, Handler, register_response, token_response, respond_json, respond_error,
  call,
}
use go_bank_ledger.Api.Token.{generate_token}

module _ (rt : Runtime) (web : Web) where
  -- The user's id from the token, or 401.
  unfoldable pub authenticate : Request → Handler Uuid
  authenticate req = do
    claims ← or_fail req.claims (respond_error web 401 "invalid token")
    user_id_str ← or_fail claims (respond_error web 401 "invalid token")
    or_fail (rt.uuid_parse user_id_str) (respond_error web 401 "invalid token")

  -- `Register`, with the key in `TokenAuth`.
  unfoldable pub register : Option String → Request → Handler Response
  register auth req = do
    input ← or_fail (web.decode_auth req.body) (respond_error web 400 "invalid input")
    fail_if (is_empty input.email || is_empty input.password)
        (respond_error web 400 "email and password required")
    hashed ←
        or_fail (web.hash_password input.password) (respond_error web 500 "failed to hash password")
    user ←
        call ((new rt pool).create_user (record { email = input.email; hashed_password = hashed }))
          (λ e. respond_error web 409 "user already exists or failed")
    now ← call (timestamp rt) (λ e. respond_error web 500 "")
    token ←
        or_fail (generate_token web auth now user.id)
          (respond_error web 500 "failed to generate token")
    pure (respond_json web 201 (register_response (rt.uuid_string user.id) user.email token))

  -- `Login`
  unfoldable pub login : Option String → Request → Handler Response
  login auth req = do
    input ← or_fail (web.decode_auth req.body) (respond_error web 400 "invalid input")
    user ←
        call ((new rt pool).get_user_by_email input.email)
          (λ e. respond_error web 401 "invalid credentials")
    fail_if (not (web.compare_password user.hashed_password input.password))
        (respond_error web 401 "invalid credentials")
    now ← call (timestamp rt) (λ e. respond_error web 500 "")
    token ←
        or_fail (generate_token web auth now user.id)
          (respond_error web 500 "failed to generate token")
    pure (respond_json web 200 (token_response token))
