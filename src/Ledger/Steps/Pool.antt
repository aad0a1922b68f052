-- ===== src/Ledger/Steps/Pool.antt =====
-- What a client of the interface in db/sqlc/querier.go may rely on: the queries that the handlers, the
-- middleware and `ReconcileAccount` ask for are steps of the bank.
use go_bank_ledger.Prelude.{ℕ, String, Option}
use go_bank_ledger.Sqlc.Models.{
  Uuid, CreateAccountParams, CreateUserParams, CreateIdempotencyKeyParams, GetIdempotencyKeyParams,
  ListEntriesByAccountParams,
}
use go_bank_ledger.Sqlc.Tables.{Tables}
use go_bank_ledger.Sqlc.Querier.{Querier, new, pool}
use go_bank_ledger.Runtime.{Runtime}
use go_bank_ledger.Ledger.Steps.{Steps}
use go_bank_ledger.Ledger.Steps.Follows.{Follows}
use go_bank_ledger.Ledger.Steps.Queries.{
  Follows-on_pool, get_account-Follows, list_accounts_by_owner-Follows,
  list_entries_by_account-Follows, list_entries_by_transaction-Follows, get_user_by_email-Follows,
  get_account_balance-Follows, get_idempotency_key-Follows, create_account-Follows,
  create_user-Follows, create_idempotency_key-Follows,
}

pub record FollowsBank (q : Querier) : Type 0 where
  pub create_account : (arg : CreateAccountParams) → Follows (q.create_account arg)
  pub create_idempotency_key :
      (arg : CreateIdempotencyKeyParams) → Follows (q.create_idempotency_key arg)
  pub create_user : (arg : CreateUserParams) → Follows (q.create_user arg)
  pub get_account : (id : Uuid) → Follows (q.get_account id)
  pub get_account_balance : (id : Uuid) → Follows (q.get_account_balance id)
  pub get_idempotency_key : (arg : GetIdempotencyKeyParams) → Follows (q.get_idempotency_key arg)
  pub get_user_by_email : (email : String) → Follows (q.get_user_by_email email)
  pub list_accounts_by_owner : (owner : Option Uuid) → Follows (q.list_accounts_by_owner owner)
  pub list_entries_by_account :
      (arg : ListEntriesByAccountParams) → Follows (q.list_entries_by_account arg)
  pub list_entries_by_transaction : (id : Uuid) → Follows (q.list_entries_by_transaction id)

-- The queries on the pool, where other sessions take steps of the bank as well.
pub pool-FollowsBank :
    (rt : Runtime) → ((n : ℕ) (T : Tables) → Steps T (rt.others n T)) → FollowsBank (new rt pool)
pool-FollowsBank rt others_step = record {
  create_account = λ arg. Follows-on_pool rt others_step (create_account-Follows rt arg);
  create_idempotency_key =
      λ arg. Follows-on_pool rt others_step (create_idempotency_key-Follows rt arg);
  create_user = λ arg. Follows-on_pool rt others_step (create_user-Follows rt arg);
  get_account = λ id. Follows-on_pool rt others_step (get_account-Follows rt id);
  get_account_balance = λ id. Follows-on_pool rt others_step (get_account_balance-Follows rt id);
  get_idempotency_key = λ arg. Follows-on_pool rt others_step (get_idempotency_key-Follows rt arg);
  get_user_by_email = λ email. Follows-on_pool rt others_step (get_user_by_email-Follows rt email);
  list_accounts_by_owner =
      λ owner. Follows-on_pool rt others_step (list_accounts_by_owner-Follows rt owner);
  list_entries_by_account =
      λ arg. Follows-on_pool rt others_step (list_entries_by_account-Follows rt arg);
  list_entries_by_transaction =
      λ id. Follows-on_pool rt others_step (list_entries_by_transaction-Follows rt id);
}
