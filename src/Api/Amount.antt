-- ===== src/Api/Amount.antt =====
-- internal/api/amount.go; `none` is its error.
use go_bank_ledger.Prelude.{String, Option, none, some, if◌then◌else◌}
use go_bank_ledger.Prelude.Text.{trim_space, is_empty}
use go_bank_ledger.Api.Http.{JsonValue, Web}

abbrev trimmed_amount : String → Option String
trimmed_amount v = let amount = trim_space v in if is_empty amount then none else some amount

unfoldable pub normalize_amount_input : JsonValue → Option String
unfolding trim_space
normalize_amount_input (JsonValue.text v) = trimmed_amount v
normalize_amount_input (JsonValue.number v) = trimmed_amount v
normalize_amount_input (JsonValue.float64 v) = some v
normalize_amount_input JsonValue.other = none

unfoldable pub decode_amount_from_body : Web → String → Option String
decode_amount_from_body web body = elim (web.decode_amount body) [
  | none ↦ none
  | some value ↦ normalize_amount_input value
]
