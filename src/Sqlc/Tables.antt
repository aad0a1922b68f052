-- ===== src/Sqlc/Tables.antt =====
-- The rows of the tables that db/migrations/*.up.sql create. A NUMERIC(19,4) column is an integer
-- number of ten-thousandths. `World` is the database with the number of steps taken so far.
use go_bank_ledger.Prelude.{ℕ, String, Bool, Option, List, ℤ}
use go_bank_ledger.Sqlc.Models.{Uuid, Time, User, IdempotencyKey}

pub record AccountRow : Type 0 where
  pub id : Uuid
  pub owner_id : Option Uuid
  pub name : String
  pub balance : ℤ
  pub currency : String
  pub is_system : Bool
  pub created_at : Option Time

-- The enum `operation_type`.
pub data OperationType : Type 0 where
  deposit withdrawal transfer : OperationType

pub record EntryRow : Type 0 where
  pub id : Uuid
  pub account_id : Uuid
  pub debit : ℤ
  pub credit : ℤ
  pub transaction_id : Uuid
  pub operation_type : OperationType
  pub description : Option String
  pub created_at : Option Time

pub record Tables : Type 0 where
  pub accounts : List AccountRow
  pub entries : List EntryRow
  pub users : List User
  pub idempotency_keys : List IdempotencyKey

-- `tick` counts the calls that leave the program, so that each has its own answer.
pub record World : Type 0 where
  pub tables : Tables
  pub tick : ℕ
