-- ===== src/Api/Token.antt =====
-- internal/api/middleware.go: the JWT key and tokens. The package variable `TokenAuth` is the key
-- that InitTokenAuth stored, if any.
use Prim.Native.String.{len}
use go_bank_ledger.Prelude.{ℕ, ◌+◌, ◌*◌, String, Option, none, some, ltb, if◌then◌else◌}
use go_bank_ledger.Prelude.Text.{is_empty}
use go_bank_ledger.Errors.{Error, plain}
use go_bank_ledger.Sqlc.Models.{Uuid}
use go_bank_ledger.Exec.{Result, ok, err}
use go_bank_ledger.Api.Http.{Web}

-- `InitTokenAuth`, from the old `TokenAuth` to the new; `len` counts bytes.
unfoldable pub init_token_auth : String → Option String → Result Error Unit × Option String
init_token_auth secret auth =
    if is_empty secret
    then (err (plain "JWT_SECRET environment variable is required"), auth)
    else if ltb (len secret) 32
    then (err (plain "JWT_SECRET must be at least 32 characters"), auth)
    else (ok tt, some secret)

-- `InitTokenAuthFromEnv`
unfoldable pub init_token_auth_from_env :
    (String → String) → Option String → Result Error Unit × Option String
unfolding init_token_auth
init_token_auth_from_env getenv auth = init_token_auth (getenv "JWT_SECRET") auth

-- `GenerateToken` at `now`, in seconds: the token expires after a day.
unfoldable pub generate_token : Web → Option String → ℕ → Uuid → Option String
generate_token web none now user_id = none
generate_token web (some secret) now user_id = web.sign_token secret user_id (now + 24 * 3600)
