-- ===== src/Ledger/Movement.antt =====
-- What the four writes at the end of `Deposit`, `Withdraw` and `Transfer` of
-- internal/service/ledger.go amount to: one movement of money between two accounts.
pub mod Writes
pub mod Pair
use go_bank_ledger.Prelude.{◌≡◌, ◌≢◌, ◌⊎◌, none, some, List, [], ◌∷◌, ℤ, pos, neg_ℤ, ◌≤ℤ◌}
use go_bank_ledger.Sqlc.Models.{Uuid}
use go_bank_ledger.Sqlc.Tables.{EntryRow, OperationType, Tables}
use go_bank_ledger.Sqlc.Accounts.{find_account, add_balance}

-- One side of a movement.
pub record IsLeg (id tx_id : Uuid) (kind : OperationType) (out inn : ℤ) (e : EntryRow)
    : Type 0 where
  pub account : e.account_id ≡ id
  pub debit : e.debit ≡ out
  pub credit : e.credit ≡ inn
  pub tx : e.transaction_id ≡ tx_id
  pub op : e.operation_type ≡ kind

-- `amount` ten-thousandths went from `src` to `dst`: each got one entry under one transaction id,
-- both balances moved, and nothing else changed.
pub record Movement (src dst : Uuid) (op : OperationType) (amount : ℤ) (T U : Tables) : Type 0 where
  pub tx : Uuid
  pub first : EntryRow
  pub second : EntryRow
  pub positive : pos 1 ≤ℤ amount
  pub src_exists : find_account src T.accounts ≢ none
  pub dst_exists : find_account dst T.accounts ≢ none
  pub legs :
      (IsLeg src tx op amount (pos 0) first × IsLeg dst tx op (pos 0) amount second)
      ⊎ (IsLeg dst tx op (pos 0) amount first × IsLeg src tx op amount (pos 0) second)
  pub entries : U.entries ≡ second ∷ first ∷ T.entries
  pub accounts : U.accounts ≡ add_balance dst amount (add_balance src (neg_ℤ amount) T.accounts)
  pub users : U.users ≡ T.users
  pub keys : U.idempotency_keys ≡ T.idempotency_keys
