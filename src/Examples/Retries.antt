-- ===== src/Examples/Retries.antt =====
-- The retries of `ExecTx` and the start of the server at concrete inputs.
use go_bank_ledger.Server.Start.{Started}
use go_bank_ledger.Prelude.{
  ◌+ℤ◌, Option, [], ◌∷◌, ◌≡◌, refl, arith, String, none, some, ltb, if◌then◌else◌, str_eq,
}
use go_bank_ledger.Errors.{Error, is_serialization_error}
use go_bank_ledger.Sqlc.Accounts.{update_account_balance, add_balance, all_fit}
use go_bank_ledger.Runtime.{Runtime}
use go_bank_ledger.Exec.{Action, err, ◌>>=◌, statement}
use go_bank_ledger.Exec.Runs.{at}
use go_bank_ledger.Store.{exec_tx, exec_tx_once, exhausted, begin_tx, commit}
use go_bank_ledger.Store.Retries.{no_more, conflict, exec_tx-retries, exec_tx-exhausted}
use go_bank_ledger.Examples.Bank.{bank, books, start, read_number}

abbrev serialization : Error
serialization = Error.pq "40001" "could not serialize access"

-- The first BEGIN meets a conflict.
abbrev busy_once : Runtime
busy_once = record bank { fault = λ n. if ltb n 1 then some serialization else none }

-- Every BEGIN meets a conflict.
abbrev busy : Runtime
busy = record bank { fault = λ n. some serialization }

abbrev credit_alice : Runtime → Action Unit
credit_alice rt = update_account_balance rt (record { balance = "+1"; id = 2 })

exec_tx-retries_example :
    exec_tx busy_once (credit_alice busy_once) start
    ≡ exec_tx_once busy_once (credit_alice busy_once) (at books 2)
unfolding exec_tx_once begin_tx is_serialization_error update_account_balance ◌>>=◌ statement
    read_number all_fit add_balance ◌+ℤ◌ commit
exec_tx-retries_example =
    exec_tx-retries busy_once (credit_alice busy_once) 1 start (at books 2)
      (exec_tx_once busy_once (credit_alice busy_once) (at books 2)).1
      (exec_tx_once busy_once (credit_alice busy_once) (at books 2)).0 (omega arith)
      (conflict refl refl refl no_more) refl tt

exec_tx-exhausted_example :
    exec_tx busy (credit_alice busy) start ≡ (err (exhausted (some serialization)), at books 19)
unfolding exec_tx_once begin_tx is_serialization_error
exec_tx-exhausted_example =
    exec_tx-exhausted busy (credit_alice busy) start (at books 18) (at books 19) serialization
      (conflict refl refl refl (
        conflict refl refl refl (
          conflict refl refl refl (
            conflict refl refl refl (
              conflict refl refl refl (
                conflict refl refl refl (
                  conflict refl refl refl
                    (conflict refl refl refl (conflict refl refl refl no_more)))))))))
      refl refl

abbrev secret : String
secret = "0123456789abcdef0123456789abcdef"

-- Production on Render.
abbrev pub variables : String → String
variables name =
    if str_eq name "JWT_SECRET"
    then secret
    else if str_eq name "DB_URL"
    then " postgres://db.internal:5432/bank "
    else if str_eq name "RENDER"
    then "true"
    else if str_eq name "ENVIRONMENT"
    then "production"
    else if str_eq name "PROD_FRONTEND_URL"
    then "https://bank.example"
    else ""

abbrev pub no_error : String → Option Error
no_error url = none

abbrev production : Started
production = record {
  settings = record { token_auth = some secret; origins = "https://bank.example" ∷ [] };
  db_url = "postgres://db.internal:5432/bank";
  address = ":8080";
}
