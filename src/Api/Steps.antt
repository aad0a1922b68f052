-- ===== src/Api/Steps.antt =====
-- Every handler of internal/api/handler.go does nothing but steps of the bank.
use go_bank_ledger.Prelude.{ℕ, String, Option, List, [], ◌∷◌, Bool, true, false, if◌then◌else◌}
use go_bank_ledger.Sqlc.Models.{Uuid, Entry}
use go_bank_ledger.Sqlc.Tables.{Tables}
use go_bank_ledger.Runtime.{Runtime, Decimals, NumericLaws}
use go_bank_ledger.Ledger.Steps.{Steps}
use go_bank_ledger.Ledger.Steps.Follows.{
  Follows-fail_if, Follows-bind, Follows-or_fail, Follows, Follows-call, Follows-timestamp,
  Follows-pure,
}
use go_bank_ledger.Ledger.Steps.Queries.{
  follows, reconcile_account-Follows, deposit-Follows, withdraw-Follows, transfer-Follows,
}
use go_bank_ledger.Ledger.Steps.Pool.{FollowsBank, pool-FollowsBank}
use go_bank_ledger.Sqlc.Querier.{new, pool}
use go_bank_ledger.Api.Http.{Web, Request, Handler}
use go_bank_ledger.Api.Auth.{authenticate, register, login}
use go_bank_ledger.Api.Accounts.{create_account_handler, list_accounts_handler, get_account_handler}
use go_bank_ledger.Api.Money.{deposit_handler, withdraw_handler, transfer_handler}
use go_bank_ledger.Api.Queries.{
  get_entries_handler, authorized, get_transactions_handler, owns, reconcile_handler,
}

module _ (rt : Runtime) (web : Web) (bank : FollowsBank (new rt pool)) where
  pub authenticate-Follows : (req : Request) → Follows (authenticate rt web req)
  unfolding authenticate
  authenticate-Follows req = search follows

  pub register-Follows : (auth : Option String) (req : Request) → Follows (register rt web auth req)
  unfolding register
  register-Follows auth req = Follows-bind (Follows-or_fail _ _) λ input.
      Follows-bind (Follows-fail_if _ _) λ _. Follows-bind (Follows-or_fail _ _) λ hashed.
        Follows-bind (Follows-call _ (bank.create_user _)) λ user.
          Follows-bind (Follows-call _ (Follows-timestamp rt))
            λ now. Follows-bind (Follows-or_fail _ _) λ token. search follows

  pub login-Follows : (auth : Option String) (req : Request) → Follows (login rt web auth req)
  unfolding login
  login-Follows auth req = Follows-bind (Follows-or_fail _ _) λ input.
      Follows-bind (Follows-call _ (bank.get_user_by_email _)) λ user.
        Follows-bind (Follows-fail_if _ _) λ _.
          Follows-bind (Follows-call _ (Follows-timestamp rt))
            λ now. Follows-bind (Follows-or_fail _ _) λ token. search follows

  pub create_account_handler-Follows : (req : Request) → Follows (create_account_handler rt web req)
  unfolding create_account_handler
  create_account_handler-Follows req =
      search (follows, Follows-call, authenticate-Follows, bank.create_account) depth 20

  pub list_accounts_handler-Follows : (req : Request) → Follows (list_accounts_handler rt web req)
  unfolding list_accounts_handler
  list_accounts_handler-Follows req =
      search (follows, Follows-call, authenticate-Follows, bank.list_accounts_by_owner) depth 20

  pub get_account_handler-Follows : (req : Request) → Follows (get_account_handler rt web req)
  unfolding get_account_handler
  get_account_handler-Follows req =
      search (follows, Follows-call, authenticate-Follows, bank.get_account) depth 20

  pub get_entries_handler-Follows : (req : Request) → Follows (get_entries_handler rt web req)
  unfolding get_entries_handler
  get_entries_handler-Follows req =
      search
        (
          follows, Follows-call, authenticate-Follows, bank.get_account,
          bank.list_entries_by_account,
        )
        depth 20

  if-Follows :
      {A : Type 0} (b : Bool) (m n : Handler A)
      → Follows m
      → Follows n
      → Follows (if b then m else n)
  if-Follows true m n h k = h
  if-Follows false m n h k = k

  authorized-Follows :
      (user : Uuid) (entries : List Entry) → Follows (authorized rt web user entries)
  unfolding authorized
  authorized-Follows user [] = Follows-pure false
  authorized-Follows user (entry ∷ entries) =
      Follows-bind (Follows-call _ (bank.get_account entry.account_id)) λ acc.
        if-Follows (owns acc.owner_id user) _ _ (Follows-pure true)
          (authorized-Follows user entries)

  pub get_transactions_handler-Follows :
      (req : Request) → Follows (get_transactions_handler rt web req)
  unfolding get_transactions_handler
  get_transactions_handler-Follows req =
      search
        (
          follows, Follows-call, authenticate-Follows, authorized-Follows,
          bank.list_entries_by_transaction,
        )
        depth 20

module _ {Decimal : Type 0} {rt : Runtime} {dec : Decimals Decimal} (laws : NumericLaws rt dec)
    (web : Web) where
  module _ (others_step : (n : ℕ) (T : Tables) → Steps T (rt.others n T)) where
    pub reconcile_handler-Follows : (req : Request) → Follows (reconcile_handler rt dec web req)
    unfolding reconcile_handler
    reconcile_handler-Follows req =
        search
          (
            follows,
            Follows-call,
            authenticate-Follows rt web (pool-FollowsBank rt others_step),
            (pool-FollowsBank rt others_step).get_account,
            reconcile_account-Follows laws others_step,
          )
          depth 20

    pub deposit_handler-Follows : (req : Request) → Follows (deposit_handler rt dec web req)
    unfolding deposit_handler
    deposit_handler-Follows req =
        search
          (
            follows,
            Follows-call,
            authenticate-Follows rt web (pool-FollowsBank rt others_step),
            (pool-FollowsBank rt others_step).get_account,
            deposit-Follows laws others_step,
          )
          depth 20

    pub withdraw_handler-Follows : (req : Request) → Follows (withdraw_handler rt dec web req)
    unfolding withdraw_handler
    withdraw_handler-Follows req =
        search
          (
            follows,
            Follows-call,
            authenticate-Follows rt web (pool-FollowsBank rt others_step),
            (pool-FollowsBank rt others_step).get_account,
            withdraw-Follows laws others_step,
          )
          depth 20

    pub transfer_handler-Follows : (req : Request) → Follows (transfer_handler rt dec web req)
    unfolding transfer_handler
    transfer_handler-Follows req =
        search
          (
            follows,
            Follows-call,
            authenticate-Follows rt web (pool-FollowsBank rt others_step),
            (pool-FollowsBank rt others_step).get_account,
            transfer-Follows laws others_step,
          )
          depth 30
