-- ===== src/Ledger/Steps/Queries.antt =====
-- The queries of db/sqlc and the operations of internal/service/ledger.go as steps of the bank.
use go_bank_ledger.Prelude.{ℕ, ◌+◌, refl, String, Option, Option-cases, Bool-cases, inl, inr}
use go_bank_ledger.Errors.{Error}
use go_bank_ledger.Sqlc.Models.{
  Uuid, CreateAccountParams, CreateUserParams, CreateIdempotencyKeyParams, GetIdempotencyKeyParams,
  ListEntriesByAccountParams,
}
use go_bank_ledger.Sqlc.Tables.{Tables, World}
use go_bank_ledger.Sqlc.Accounts.{
  find_account, owner_listed, create_account, get_account, list_accounts_by_owner,
}
use go_bank_ledger.Sqlc.Entries.{
  get_account_balance, list_entries_by_account, list_entries_by_transaction,
}
use go_bank_ledger.Sqlc.Users.{find_user, find_user_by_email, create_user, get_user_by_email}
use go_bank_ledger.Sqlc.Keys.{key_row, create_idempotency_key, get_idempotency_key}
use go_bank_ledger.Runtime.{Runtime, Decimals, NumericLaws}
use go_bank_ledger.Store.{on_pool}
use go_bank_ledger.Exec.{Action, Result, ok, err, ◌>>=◌, statement, new_uuid, timestamp}
use go_bank_ledger.Store.Atomic.{Drift, still, more_commits}
use go_bank_ledger.Ledger.{deposit, withdraw, transfer, reconcile_account}
use go_bank_ledger.Ledger.Outcomes.{
  AllOrNothing, DepositSpec, WithdrawSpec, TransferSpec, deposit-AllOrNothing,
  withdraw-AllOrNothing, transfer-AllOrNothing,
}
use go_bank_ledger.Ledger.Steps.{
  LedgerStep, deposited, withdrawn, transferred, opened, registered, remembered, Steps, here, next,
  Steps-trans,
}
use go_bank_ledger.Ledger.Steps.Follows.{
  Follows, Follows-bind, Follows-pure, Follows-or_fail, Follows-gets, Follows-fail_if, Follows-wrap,
  Follows-statement, Follows-tie_order,
}

pub ruleset follows = (
  Follows-bind, Follows-pure, Follows-or_fail, Follows-gets, Follows-fail_if, Follows-wrap,
  Follows-statement, Follows-tie_order,
)

-- Outside a transaction other sessions' commits come first.
pub Follows-on_pool :
    (rt : Runtime) (others_step : (n : ℕ) (T : Tables) → Steps T (rt.others n T)) {A : Type 0}
    {m : Action A}
    → Follows m
    → Follows (on_pool rt m)
unfolding on_pool
Follows-on_pool rt others_step h = record {
  at = λ w.
      Steps-trans (others_step w.tick w.tables)
        (h.at (record w { tables = rt.others w.tick w.tables }));
}

module _ (rt : Runtime) where
  pub get_account-Follows : (id : Uuid) → Follows (get_account rt id)
  unfolding get_account
  get_account-Follows id = search follows

  pub list_accounts_by_owner-Follows :
      (owner : Option Uuid) → Follows (list_accounts_by_owner rt owner)
  unfolding list_accounts_by_owner
  list_accounts_by_owner-Follows owner = search follows

  pub list_entries_by_account-Follows :
      (arg : ListEntriesByAccountParams) → Follows (list_entries_by_account rt arg)
  unfolding list_entries_by_account
  list_entries_by_account-Follows arg = search follows depth 10

  pub list_entries_by_transaction-Follows :
      (id : Uuid) → Follows (list_entries_by_transaction rt id)
  unfolding list_entries_by_transaction
  list_entries_by_transaction-Follows id = search follows

  pub get_account_balance-Follows : (id : Uuid) → Follows (get_account_balance rt id)
  unfolding get_account_balance
  get_account_balance-Follows id = search follows

  pub get_user_by_email-Follows : (email : String) → Follows (get_user_by_email rt email)
  unfolding get_user_by_email
  get_user_by_email-Follows email = search follows

  pub get_idempotency_key-Follows :
      (arg : GetIdempotencyKeyParams) → Follows (get_idempotency_key rt arg)
  unfolding get_idempotency_key
  get_idempotency_key-Follows arg = search follows

  pub create_account-Follows : (arg : CreateAccountParams) → Follows (create_account rt arg)
  unfolding create_account statement new_uuid timestamp ◌>>=◌
  create_account-Follows arg = record {
    at = λ w. elim (Option-cases (rt.fault w.tick)) [
      | inr (e, failed) ↦ simp failed here
      | inl fine ↦
          elim (Option-cases (find_account (rt.random_uuid (w.tick + 1)) w.tables.accounts)) [
            | inr (r, clash) ↦ simp (fine, clash) here
            | inl fresh ↦ elim (Bool-cases (owner_listed arg.owner_id w.tables.users)) [
              | inl known ↦ simp (fine, fresh, known) (next here (opened _ fresh refl refl))
              | inr unknown ↦ simp (fine, fresh, unknown) here
            ]
          ]
    ];
  }

  pub create_user-Follows : (arg : CreateUserParams) → Follows (create_user rt arg)
  unfolding create_user statement new_uuid timestamp ◌>>=◌
  create_user-Follows arg = record {
    at = λ w. elim (Option-cases (rt.fault w.tick)) [
      | inr (e, failed) ↦ simp failed here
      | inl fine ↦ elim (Option-cases (find_user (rt.random_uuid (w.tick + 1)) w.tables.users)) [
        | inr (u, clash) ↦ simp (fine, clash) here
        | inl fresh ↦ elim (Option-cases (find_user_by_email arg.email w.tables.users)) [
          | inr (u, taken) ↦ simp (fine, fresh, taken) here
          | inl free ↦ simp (fine, fresh, free) (next here (registered _ fresh free refl))
        ]
      ]
    ];
  }

  pub create_idempotency_key-Follows :
      (arg : CreateIdempotencyKeyParams) → Follows (create_idempotency_key rt arg)
  unfolding create_idempotency_key statement timestamp ◌>>=◌
  create_idempotency_key-Follows arg = record {
    at = λ w. elim (Option-cases (rt.fault w.tick)) [
      | inr (e, failed) ↦ simp failed here
      | inl fine ↦ elim (Option-cases (key_row arg.id w.tables.idempotency_keys)) [
        | inr (k, clash) ↦ simp (fine, clash) here
        | inl fresh ↦ simp (fine, fresh) (next here (remembered _ fresh refl))
      ]
    ];
  }

module _ {Decimal : Type 0} {rt : Runtime} {dec : Decimals Decimal}
    (laws : NumericLaws rt dec) where
  module _ (others_step : (n : ℕ) (T : Tables) → Steps T (rt.others n T)) where
    pub reconcile_account-Follows : (id : Uuid) → Follows (reconcile_account rt dec id)
    unfolding reconcile_account
    reconcile_account-Follows id =
        search
          (
            follows,
            Follows-on_pool rt others_step,
            get_account-Follows rt,
            get_account_balance-Follows rt,
          )
          depth 20

    Steps-Drift : {T U : Tables} → Drift rt T U → Steps T U
    Steps-Drift still = here
    Steps-Drift (more_commits n d) = Steps-trans (Steps-Drift d) (others_step n _)

    AllOrNothing-Steps :
        (Spec : Tables → Tables → Type 0) (T : Tables) (r : Result Error Unit) (w : World)
        → ((T U : Tables) → Spec T U → LedgerStep T U)
        → AllOrNothing rt Spec T (r, w)
        → Steps T w.tables
    AllOrNothing-Steps Spec T (ok tt) w step c = next (Steps-Drift c.drift) (step _ _ c.effect)
    AllOrNothing-Steps Spec T (err e) w step d = Steps-Drift d

    pub deposit-Follows : (id : Uuid) (s : String) → Follows (deposit rt dec id s)
    deposit-Follows id s = record {
      at = λ w.
          AllOrNothing-Steps (DepositSpec laws id s) w.tables _ _ (λ T U a. deposited id _ a.holds)
            (deposit-AllOrNothing laws id s w);
    }

    pub withdraw-Follows : (id : Uuid) (s : String) → Follows (withdraw rt dec id s)
    withdraw-Follows id s = record {
      at = λ w.
          AllOrNothing-Steps (WithdrawSpec laws id s) w.tables _ _ (λ T U a. withdrawn id _ a.holds)
            (withdraw-AllOrNothing laws id s w);
    }

    pub transfer-Follows :
        (from_id to_id : Uuid) (s : String) → Follows (transfer rt dec from_id to_id s)
    transfer-Follows from_id to_id s = record {
      at = λ w.
          AllOrNothing-Steps (TransferSpec laws from_id to_id s) w.tables _ _
            (λ T U a. transferred from_id to_id _ a.0 a.1.holds)
            (transfer-AllOrNothing laws from_id to_id s w);
    }
