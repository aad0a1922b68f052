-- ===== src/Sqlc/Models.antt =====
-- The Go structs of db/sqlc/models.go and the parameter structs of db/sqlc/*.sql.go. A nullable
-- column is an `Option`; a UUID is the number that its 128 bits spell.
use go_bank_ledger.Prelude.{ℕ, String, Bool, Option, ℤ}

abbrev pub Uuid : Type 0
Uuid = ℕ

abbrev pub Time : Type 0
Time = ℕ

-- A NUMERIC column is scanned into a Go string.
pub record Account : Type 0 where
  pub id : Uuid
  pub owner_id : Option Uuid
  pub name : String
  pub balance : String
  pub currency : String
  pub is_system : Bool
  pub created_at : Option Time

pub record Entry : Type 0 where
  pub id : Uuid
  pub account_id : Uuid
  pub debit : String
  pub credit : String
  pub transaction_id : Uuid
  pub operation_type : String
  pub description : Option String
  pub created_at : Option Time

pub record IdempotencyKey : Type 0 where
  pub id : String
  pub user_id : Uuid
  pub response_code : ℕ
  pub response_body : String
  pub created_at : Time

pub record User : Type 0 where
  pub id : Uuid
  pub email : String
  pub hashed_password : String
  pub created_at : Option Time

pub record CreateAccountParams : Type 0 where
  pub owner_id : Option Uuid
  pub name : String
  pub currency : String
  pub is_system : Bool

pub record UpdateAccountBalanceParams : Type 0 where
  pub balance : String
  pub id : Uuid

pub record CreateEntryParams : Type 0 where
  pub account_id : Uuid
  pub debit : String
  pub credit : String
  pub transaction_id : Uuid
  pub operation_type : String
  pub description : Option String

pub record ListEntriesByAccountParams : Type 0 where
  pub account_id : Uuid
  pub limit : ℤ
  pub offset : ℤ

pub record CreateIdempotencyKeyParams : Type 0 where
  pub id : String
  pub user_id : Uuid
  pub response_code : ℕ
  pub response_body : String

pub record GetIdempotencyKeyParams : Type 0 where
  pub id : String
  pub user_id : Uuid

pub record CreateUserParams : Type 0 where
  pub email : String
  pub hashed_password : String

pub record CreateUserRow : Type 0 where
  pub id : Uuid
  pub email : String
  pub created_at : Option Time
