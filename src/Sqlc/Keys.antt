-- ===== src/Sqlc/Keys.antt =====
-- db/sqlc/idempotency_keys.sql.go: the queries on the table `idempotency_keys`.
use go_bank_ledger.Prelude.{
  String, str_eq, Option, none, some, List, [], ◌∷◌, ◌&&◌, ◌==◌, if◌then◌else◌,
}
use go_bank_ledger.Errors.{Error}
use go_bank_ledger.Sqlc.Models.{IdempotencyKey, CreateIdempotencyKeyParams, GetIdempotencyKeyParams}
use go_bank_ledger.Sqlc.Accounts.{duplicate_key}
use go_bank_ledger.Sqlc.Entries.{is_some}
use go_bank_ledger.Runtime.{Runtime}
use go_bank_ledger.Exec.{
  Action, ◌>>=◌, ◌>>◌, pure, or_fail, fail_if, gets, modify, statement, timestamp,
}

-- The row with the primary key.
unfoldable pub key_row : String → List IdempotencyKey → Option IdempotencyKey
key_row id [] = none
key_row id (k ∷ ks) = if str_eq k.id id then some k else key_row id ks

-- `WHERE id = $1 AND user_id = $2`
unfoldable pub find_key : GetIdempotencyKeyParams → List IdempotencyKey → Option IdempotencyKey
find_key arg [] = none
find_key arg (k ∷ ks) =
    if str_eq k.id arg.id && (k.user_id == arg.user_id) then some k else find_key arg ks

module _ (rt : Runtime) where
  unfoldable pub create_idempotency_key : CreateIdempotencyKeyParams → Action IdempotencyKey
  create_idempotency_key arg = do
    statement rt
    now ← timestamp rt
    clash ← gets (λ t. key_row arg.id t.idempotency_keys)
    fail_if (is_some clash) duplicate_key
    let row : IdempotencyKey = record {
      id = arg.id;
      user_id = arg.user_id;
      response_code = arg.response_code;
      response_body = arg.response_body;
      created_at = now;
    }
    modify (λ t. record t { idempotency_keys = row ∷ t.idempotency_keys })
    pure row

  unfoldable pub get_idempotency_key : GetIdempotencyKeyParams → Action IdempotencyKey
  get_idempotency_key arg = do
    statement rt
    found ← gets (λ t. find_key arg t.idempotency_keys)
    or_fail found Error.no_rows
