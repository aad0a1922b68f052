-- ===== src/Config.antt =====
-- cmd/main.go: the environment variables that the start of the server reads.
pub mod Database
use Prim.Native.Char.{Char, code}
use go_bank_ledger.Prelude.{
  String, str_eq, ◌≡◌, refl, Bool, true, false, List, [], ◌∷◌, ◌==◌, if◌then◌else◌, arith,
}
use mathlib.Core.Path.{subst}
use go_bank_ledger.Prelude.Text.{is_empty, trim_space, trim_left, trim_right}

abbrev put_first : Char → List String → List String
put_first c [] = String.◌∷◌ c String.[] ∷ []
put_first c (part ∷ parts) = String.◌∷◌ c part ∷ parts

-- strings.Split(s, ",")
unfoldable pub split_commas : String → List String
split_commas String.[] = "" ∷ []
split_commas (String.◌∷◌ c s) =
    let rest = split_commas s in if code c == b',' then "" ∷ rest else put_first c rest

-- The loop of `parseAllowedOrigins`.
unfoldable pub trimmed_origins : List String → List String
trimmed_origins [] = []
trimmed_origins (origin ∷ origins) =
    let trimmed = trim_space origin in
    let rest = trimmed_origins origins in if is_empty trimmed then rest else trimmed ∷ rest

abbrev pub local_origins : List String
local_origins =
    "http://localhost:3000" ∷ "http://127.0.0.1:3000" ∷ "http://localhost:5173"
    ∷ "http://127.0.0.1:5173" ∷ []

abbrev or_local : List String → List String
or_local [] = local_origins
or_local (origin ∷ origins) = origin ∷ origins

module _ (getenv : String → String) where
  abbrev pub in_production : Bool
  in_production = str_eq (getenv "ENVIRONMENT") "production"

  -- `parseAllowedOrigins`
  unfoldable pub parse_allowed_origins : List String
  unfolding split_commas trimmed_origins
  parse_allowed_origins =
      let prod_url = getenv "PROD_FRONTEND_URL" in
      let origins = getenv "CORS_ALLOWED_ORIGINS" in
      if in_production
      then (if is_empty prod_url then [] else prod_url ∷ [])
      else if is_empty (trim_space origins)
      then local_origins
      else or_local (trimmed_origins (split_commas origins))

  unfoldable pub blank_variables : List String → List String
  blank_variables [] = []
  blank_variables (name ∷ names) =
      let rest = blank_variables names in
      if is_empty (trim_space (getenv name)) then name ∷ rest else rest

  -- `validateEnvironment`: the variables that its error names, none if it returns nil.
  unfoldable pub validate_environment : List String
  unfolding blank_variables
  validate_environment =
      blank_variables ("JWT_SECRET" ∷ (if in_production then "PROD_FRONTEND_URL" ∷ [] else []))

  not_empty_of_not_blank : (s : String) → is_empty (trim_space s) ≡ false → is_empty s ≡ false
  unfolding trim_space trim_left trim_right
  not_empty_of_not_blank String.[] e = e
  not_empty_of_not_blank (String.◌∷◌ c s) e = refl

  blank-cons :
      (name : String) (names : List String)
      → blank_variables (name ∷ names) ≡ []
      → (is_empty (trim_space (getenv name)) ≡ false) × (blank_variables names ≡ [])
  unfolding blank_variables
  blank-cons name names e = ground arith

  -- If the environment is accepted in production, the only allowed origin is PROD_FRONTEND_URL, and
  -- neither it nor JWT_SECRET is blank.
  pub parse_allowed_origins-production :
      in_production ≡ true
      → validate_environment ≡ []
      → (parse_allowed_origins ≡ getenv "PROD_FRONTEND_URL" ∷ [])
        × ((is_empty (trim_space (getenv "PROD_FRONTEND_URL")) ≡ false)
            × (is_empty (trim_space (getenv "JWT_SECRET")) ≡ false))
  unfolding parse_allowed_origins validate_environment
  parse_allowed_origins-production prod accepted =
      let names : List String = "PROD_FRONTEND_URL" ∷ [] in
      let all : blank_variables ("JWT_SECRET" ∷ names) ≡ [] =
        subst (λ (b : Bool). blank_variables ("JWT_SECRET" ∷ (if b then names else [])) ≡ []) prod
          accepted in
      let (secret, others) = blank-cons "JWT_SECRET" names all in
      let (url, none_left) = blank-cons "PROD_FRONTEND_URL" [] others in
      let given = not_empty_of_not_blank (getenv "PROD_FRONTEND_URL") url in
      (simp (prod, given), (url, secret))
