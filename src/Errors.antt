-- ===== src/Errors.antt =====
-- Go's error values as internal/service/ledger.go, internal/db/store.go and the driver build them,
-- with `errors.Is` and `errors.As` along the chain of `%w`.
use go_bank_ledger.Prelude.{String, ◌+++◌, Bool, true, false, Option, none, some, str_eq}

-- `wrapped` is fmt.Errorf("text: %w", err); `tx_and_rollback` has `%w` for its first error and `%v`
-- for its second. `pq` is the driver's error with its SQLSTATE code.
pub data Error : Type 0 where
  insufficient_funds same_account_transfer invalid_amount currency_mismatch account_not_found :
      Error
  no_rows : Error
  context_done : Error
  plain : String → Error
  pq : String → String → Error
  wrapped : String → Error → Error
  tx_and_rollback : Error → Error → Error

-- `errors.As(err, &pqErr)`: the code of the first driver error along the chain.
unfoldable pub pq_code : Error → Option String
pq_code (pq code message) = some code
pq_code (wrapped text e) = pq_code e
pq_code (tx_and_rollback e rollback) = pq_code e
pq_code _ = none

-- The error at the end of the chain of `%w`, which `errors.Is` compares.
unfoldable pub root_cause : Error → Error
root_cause (wrapped text e) = root_cause e
root_cause (tx_and_rollback e rollback) = root_cause e
root_cause e = e

-- `errors.Is(err, ErrInsufficientFunds)`, and so on.
unfoldable pub is_insufficient_funds : Error → Bool
unfolding root_cause
is_insufficient_funds e = elim (root_cause e) [ insufficient_funds ↦ true | _ ↦ false ]

unfoldable pub is_invalid_amount : Error → Bool
unfolding root_cause
is_invalid_amount e = elim (root_cause e) [ invalid_amount ↦ true | _ ↦ false ]

unfoldable pub is_currency_mismatch : Error → Bool
unfolding root_cause
is_currency_mismatch e = elim (root_cause e) [ currency_mismatch ↦ true | _ ↦ false ]

-- `isSerializationError`
unfoldable pub is_serialization_error : Error → Bool
unfolding pq_code
is_serialization_error e = elim (pq_code e) [ none ↦ false | some code ↦ str_eq code "40001" ]

-- `err.Error()`
unfoldable pub error_text : Error → String
error_text insufficient_funds = "insufficient funds"
error_text same_account_transfer = "cannot transfer to the same account"
error_text invalid_amount = "amount must be positive"
error_text currency_mismatch = "currency mismatch"
error_text account_not_found = "account not found"
error_text no_rows = "sql: no rows in result set"
error_text context_done = "context canceled"
error_text (plain text) = text
error_text (pq code message) = "pq: " +++ message
error_text (wrapped text e) = text +++ (": " +++ error_text e)
error_text (tx_and_rollback e rollback) =
    "tx failed: " +++ (error_text e +++ (", rollback failed: " +++ error_text rollback))
