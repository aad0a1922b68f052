-- ===== src/Ledger/Steps/Sessions.antt =====
-- Other sessions that run this program too. What the program commits, it commits in the transactions
-- of internal/service/ledger.go and in three inserts of db/sqlc.
use go_bank_ledger.Prelude.{ℕ, String, List, [], ◌∷◌}
use go_bank_ledger.Sqlc.Models.{
  Uuid, CreateAccountParams, CreateUserParams, CreateIdempotencyKeyParams,
}
use go_bank_ledger.Sqlc.Tables.{Tables, World}
use go_bank_ledger.Sqlc.Accounts.{create_account}
use go_bank_ledger.Sqlc.Users.{create_user}
use go_bank_ledger.Sqlc.Keys.{create_idempotency_key}
use go_bank_ledger.Runtime.{Runtime, Decimals, NumericLaws}
use go_bank_ledger.Exec.Runs.{at}
use go_bank_ledger.Ledger.{deposit, withdraw, transfer}
use go_bank_ledger.Ledger.Steps.{Steps, here, Steps-trans}
use go_bank_ledger.Ledger.Steps.Queries.{
  create_account-Follows, create_user-Follows, create_idempotency_key-Follows, deposit-Follows,
  withdraw-Follows, transfer-Follows,
}

-- What a session asks the database to commit.
pub data Commit : Type 0 where
  deposit_to : Uuid → String → Commit
  withdraw_from : Uuid → String → Commit
  transfer_between : Uuid → Uuid → String → Commit
  open_account : CreateAccountParams → Commit
  add_user : CreateUserParams → Commit
  save_key : CreateIdempotencyKeyParams → Commit

-- The same database and libraries, with other work of other sessions.
abbrev pub beside : Runtime → (ℕ → Tables → Tables) → Runtime
beside rt others = record rt { others = others }

abbrev pub laws_beside :
    {Decimal : Type 0} {rt : Runtime} {dec : Decimals Decimal} (others : ℕ → Tables → Tables)
    → NumericLaws rt dec
    → NumericLaws (beside rt others) dec
laws_beside others laws = record {
  units = laws.units;
  of_units = laws.of_units;
  units-of_units = laws.units-of_units;
  units-zero = laws.units-zero;
  units-neg = laws.units-neg;
  less_than_mono = laws.less_than_mono;
  equal_iff = laws.equal_iff;
  numeric_in-string_fixed = laws.numeric_in-string_fixed;
  new_from_string-numeric_out = laws.new_from_string-numeric_out;
}

-- A serializable transaction runs as if it were alone.
abbrev pub alone : Runtime → Runtime
alone rt = beside rt (λ n T. T)

module _ {Decimal : Type 0} (rt : Runtime) (dec : Decimals Decimal) where
  -- The tables after a session's commit that starts at a step of its own.
  unfoldable pub committed : Commit → World → World
  committed (deposit_to id s) w = (deposit (alone rt) dec id s w).1
  committed (withdraw_from id s) w = (withdraw (alone rt) dec id s w).1
  committed (transfer_between from_id to_id s) w = (transfer (alone rt) dec from_id to_id s w).1
  committed (open_account arg) w = (create_account (alone rt) arg w).1
  committed (add_user arg) w = (create_user (alone rt) arg w).1
  committed (save_key arg) w = (create_idempotency_key (alone rt) arg w).1

  unfoldable pub committed_all : List (ℕ × Commit) → Tables → Tables
  unfolding committed
  committed_all [] T = T
  committed_all ((n, c) ∷ cs) T = committed_all cs (committed c (at T n)).tables

  -- The database as this session finds it: between its own transactions come commits of others.
  abbrev pub among : (ℕ → List (ℕ × Commit)) → Runtime
  among commits = beside rt (λ n. committed_all (commits n))

module _ {Decimal : Type 0} {rt : Runtime} {dec : Decimals Decimal}
    (laws : NumericLaws rt dec) where
  abbrev laws_alone : NumericLaws (alone rt) dec
  laws_alone = laws_beside (λ n T. T) laws

  committed-Steps : (c : Commit) (w : World) → Steps w.tables (committed rt dec c w).tables
  unfolding committed
  committed-Steps (deposit_to id s) w = (deposit-Follows laws_alone (λ n T. here) id s).at w
  committed-Steps (withdraw_from id s) w = (withdraw-Follows laws_alone (λ n T. here) id s).at w
  committed-Steps (transfer_between from_id to_id s) w =
      (transfer-Follows laws_alone (λ n T. here) from_id to_id s).at w
  committed-Steps (open_account arg) w = (create_account-Follows (alone rt) arg).at w
  committed-Steps (add_user arg) w = (create_user-Follows (alone rt) arg).at w
  committed-Steps (save_key arg) w = (create_idempotency_key-Follows (alone rt) arg).at w

  pub committed_all-Steps :
      (cs : List (ℕ × Commit)) (T : Tables) → Steps T (committed_all rt dec cs T)
  unfolding committed_all
  committed_all-Steps [] T = here
  committed_all-Steps ((n, c) ∷ cs) T =
      Steps-trans (committed-Steps c (at T n)) (committed_all-Steps cs _)
