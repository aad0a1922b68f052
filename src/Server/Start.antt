-- ===== src/Server/Start.antt =====
-- cmd/main.go: what `main` does before it serves, each error of which ends the program.
use Prim.Native.String.{len}
use go_bank_ledger.Prelude.{
  ◌≤◌, ◌≡◌, String, ◌+++◌, true, Option, none, some, List, [], ◌∷◌, if◌then◌else◌,
}
use go_bank_ledger.Prelude.Text.{is_empty}
use go_bank_ledger.Errors.{Error}
use go_bank_ledger.Exec.{Result, ok, err}
use go_bank_ledger.Config.{in_production, parse_allowed_origins, validate_environment}
use go_bank_ledger.Config.Database.{Fatal, on_render, resolve_db_url, Remote}
use go_bank_ledger.Api.Token.{init_token_auth_from_env}
use go_bank_ledger.Server.Chain.{Settings}

pub record Started : Type 0 where
  pub settings : Settings
  pub db_url : String
  pub address : String

abbrev and_then : {A B : Type 0} → Result Fatal A → (A → Result Fatal B) → Result Fatal B
and_then (ok a) f = f a
and_then (err e) f = err e

abbrev accepted : List String → Result Fatal Unit
accepted [] = ok tt
accepted (name ∷ names) = err (Fatal.environment (name ∷ names))

abbrev initialized : Result Error Unit × Option String → Result Fatal (Option String)
initialized (ok a, auth) = ok auth
initialized (err e, auth) = err (Fatal.token_auth e)

abbrev reached : Option Error → Result Fatal Unit
reached none = ok tt
reached (some e) = err (Fatal.unreachable e)

abbrev opened : Option Error → Result Fatal Unit
opened none = ok tt
opened (some e) = err (Fatal.unopened e)

abbrev listen_address : String → String
listen_address port = ":" +++ (if is_empty port then "8080" else port)

-- `open_db` is sql.Open, and `ping` the first PingContext.
module _ (getenv : String → String) (open_db ping : String → Option Error) where
  unfoldable pub start_up : Result Fatal Started
  unfolding validate_environment init_token_auth_from_env resolve_db_url parse_allowed_origins
  start_up = and_then (accepted (validate_environment getenv)) λ _.
      and_then (initialized (init_token_auth_from_env getenv none)) λ auth.
        and_then (resolve_db_url getenv) λ db_url. and_then (opened (open_db db_url)) λ _.
          and_then (reached (ping db_url)) λ _. ok (record {
            settings = record { token_auth = auth; origins = parse_allowed_origins getenv };
            db_url = db_url;
            address = listen_address (getenv "PORT");
          })

  -- The key for tokens is JWT_SECRET, and long enough.
  abbrev pub Keyed : Option String → Type 0
  Keyed auth = (auth ≡ some (getenv "JWT_SECRET")) × (32 ≤ len (getenv "JWT_SECRET"))

  -- What the server that `main` starts can rely on.
  pub record Ready (s : Started) : Type 0 where
    pub keyed : Keyed s.settings.token_auth
    pub connected : ping s.db_url ≡ none
    pub remote : on_render getenv ≡ true → Remote getenv s.db_url
    pub origins : in_production getenv ≡ true → s.settings.origins ≡ getenv "PROD_FRONTEND_URL" ∷ []
