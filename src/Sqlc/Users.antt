-- ===== src/Sqlc/Users.antt =====
-- db/sqlc/users.sql.go: the queries on the table `users`, whose `email` is UNIQUE.
use go_bank_ledger.Prelude.{
  String, str_eq, Option, none, some, List, [], ◌∷◌, ◌||◌, ◌==◌, if◌then◌else◌,
}
use go_bank_ledger.Errors.{Error}
use go_bank_ledger.Sqlc.Models.{Uuid, User, CreateUserParams, CreateUserRow}
use go_bank_ledger.Sqlc.Accounts.{duplicate_key}
use go_bank_ledger.Sqlc.Entries.{is_some}
use go_bank_ledger.Runtime.{Runtime}
use go_bank_ledger.Exec.{
  Action, ◌>>=◌, ◌>>◌, pure, or_fail, fail_if, gets, modify, statement, new_uuid, timestamp,
}

unfoldable pub find_user_by_email : String → List User → Option User
find_user_by_email email [] = none
find_user_by_email email (u ∷ us) =
    if str_eq u.email email then some u else find_user_by_email email us

unfoldable pub find_user : Uuid → List User → Option User
find_user id [] = none
find_user id (u ∷ us) = if u.id == id then some u else find_user id us

module _ (rt : Runtime) where
  unfoldable pub create_user : CreateUserParams → Action CreateUserRow
  create_user arg = do
    statement rt
    id ← new_uuid rt
    now ← timestamp rt
    taken ←
        gets (λ t. is_some (find_user id t.users) || is_some (find_user_by_email arg.email t.users))
    fail_if taken duplicate_key
    let row : User = record {
      id = id;
      email = arg.email;
      hashed_password = arg.hashed_password;
      created_at = some now;
    }
    modify (λ t. record t { users = row ∷ t.users })
    pure (record { id = id; email = arg.email; created_at = some now })

  unfoldable pub get_user_by_email : String → Action User
  get_user_by_email email = do
    statement rt
    found ← gets (λ t. find_user_by_email email t.users)
    or_fail found Error.no_rows
