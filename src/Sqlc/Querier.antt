-- ===== src/Sqlc/Querier.antt =====
-- db/sqlc/querier.go and db/sqlc/db.go: the interface of the queries, and the queries on a connection.
use go_bank_ledger.Prelude.{String, Option, List}
use go_bank_ledger.Sqlc.Models.{
  Uuid, Account, Entry, User, IdempotencyKey, CreateAccountParams, UpdateAccountBalanceParams,
  CreateEntryParams, ListEntriesByAccountParams, CreateUserParams, CreateUserRow,
  CreateIdempotencyKeyParams, GetIdempotencyKeyParams,
}
use go_bank_ledger.Sqlc.Accounts
use go_bank_ledger.Sqlc.Entries
use go_bank_ledger.Sqlc.Users
use go_bank_ledger.Sqlc.Keys
use go_bank_ledger.Runtime.{Runtime}
use go_bank_ledger.Store.{on_pool}
use go_bank_ledger.Exec.{Action}

pub record Querier : Type 0 where
  pub create_account : CreateAccountParams → Action Account
  pub create_entry : CreateEntryParams → Action Entry
  pub create_idempotency_key : CreateIdempotencyKeyParams → Action IdempotencyKey
  pub create_user : CreateUserParams → Action CreateUserRow
  pub get_account : Uuid → Action Account
  pub get_account_balance : Uuid → Action String
  pub get_account_for_update : Uuid → Action Account
  pub get_idempotency_key : GetIdempotencyKeyParams → Action IdempotencyKey
  pub get_settlement_account : Action Account
  pub get_settlement_account_for_update : Action Account
  pub get_user_by_email : String → Action User
  pub list_accounts_by_owner : Option Uuid → Action (List Account)
  pub list_entries_by_account : ListEntriesByAccountParams → Action (List Entry)
  pub list_entries_by_transaction : Uuid → Action (List Entry)
  pub update_account_balance : UpdateAccountBalanceParams → Action Unit

-- What a DBTX is here: the pool of connections, or a transaction.
pub data Dbtx : Type 0 where
  pool transaction : Dbtx

module _ (rt : Runtime) where
  -- A statement on the pool is a transaction of its own.
  abbrev pub run_on : {A : Type 0} → Dbtx → Action A → Action A
  run_on pool m = on_pool rt m
  run_on transaction m = m

  abbrev pub new : Dbtx → Querier
  new db = record {
    create_account = λ arg. run_on db (Accounts.create_account rt arg);
    create_entry = λ arg. run_on db (Entries.create_entry rt arg);
    create_idempotency_key = λ arg. run_on db (Keys.create_idempotency_key rt arg);
    create_user = λ arg. run_on db (Users.create_user rt arg);
    get_account = λ id. run_on db (Accounts.get_account rt id);
    get_account_balance = λ account_id. run_on db (Entries.get_account_balance rt account_id);
    get_account_for_update = λ id. run_on db (Accounts.get_account_for_update rt id);
    get_idempotency_key = λ arg. run_on db (Keys.get_idempotency_key rt arg);
    get_settlement_account = run_on db (Accounts.get_settlement_account rt);
    get_settlement_account_for_update = run_on db (Accounts.get_settlement_account_for_update rt);
    get_user_by_email = λ email. run_on db (Users.get_user_by_email rt email);
    list_accounts_by_owner = λ owner_id. run_on db (Accounts.list_accounts_by_owner rt owner_id);
    list_entries_by_account = λ arg. run_on db (Entries.list_entries_by_account rt arg);
    list_entries_by_transaction =
        λ transaction_id. run_on db (Entries.list_entries_by_transaction rt transaction_id);
    update_account_balance = λ arg. run_on db (Accounts.update_account_balance rt arg);
  }
