-- ===== src/Api/Mapper.antt =====
-- internal/api/mapper.go
use go_bank_ledger.Prelude.{String, Option, none, some}
use go_bank_ledger.Sqlc.Models.{Uuid, Time, Account, Entry}
use go_bank_ledger.Runtime.{Runtime}
use go_bank_ledger.Api.Http.{AccountResponse, EntryResponse}

-- The dynamic types that `operationTypeToString` tells apart.
pub data OperationValue : Type 0 where
  nil : OperationValue
  text : String → OperationValue
  bytes : String → OperationValue
  other : OperationValue

unfoldable pub operation_type_to_string : OperationValue → String
operation_type_to_string nil = ""
operation_type_to_string (text t) = t
operation_type_to_string (bytes t) = t
operation_type_to_string other = ""

-- `sql.NullTime.Time`, the zero time for NULL.
abbrev pub time_or_zero : Option Time → Time
time_or_zero none = 0
time_or_zero (some t) = t

abbrev pub string_or_empty : Option String → String
string_or_empty none = ""
string_or_empty (some s) = s

module _ (rt : Runtime) where
  abbrev owner_string : Option Uuid → Option String
  owner_string none = none
  owner_string (some u) = some (rt.uuid_string u)

  unfoldable pub to_account_response : Account → AccountResponse
  to_account_response acc = record {
    id = rt.uuid_string acc.id;
    owner_id = owner_string acc.owner_id;
    name = acc.name;
    balance = acc.balance;
    currency = acc.currency;
    is_system = acc.is_system;
    created_at = time_or_zero acc.created_at;
  }

  unfoldable pub to_entry_response : Entry → EntryResponse
  unfolding operation_type_to_string
  to_entry_response entry = record {
    id = rt.uuid_string entry.id;
    account_id = rt.uuid_string entry.account_id;
    debit = entry.debit;
    credit = entry.credit;
    transaction_id = rt.uuid_string entry.transaction_id;
    operation_type = operation_type_to_string (text entry.operation_type);
    description = string_or_empty entry.description;
    created_at = time_or_zero entry.created_at;
  }
