-- ===== src/Api/Money/Success/Cash.antt =====
-- A deposit and a withdrawal through `Deposit` and `Withdraw` of internal/api/handler.go that go through.
use go_bank_ledger.Prelude.{ℕ, ◌+◌, ◌≡◌, String, false, true, none, some, pos, neg_ℤ, ◌≤ℤ◌}
use go_bank_ledger.Sqlc.Models.{Uuid}
use go_bank_ledger.Sqlc.Tables.{AccountRow, Tables}
use go_bank_ledger.Sqlc.Accounts.{find_account, find_settlement, add_balance, all_fit, fits_numeric}
use go_bank_ledger.Sqlc.Entries.{find_entry}
use go_bank_ledger.Runtime.{Runtime, Decimals, NumericLaws}
use go_bank_ledger.Exec.Runs.{at}
use go_bank_ledger.Ledger.Progress.Deposit.{deposit-succeeds}
use go_bank_ledger.Ledger.Progress.Withdraw.{withdraw-succeeds}
use go_bank_ledger.Api.Http.{Web, Request, respond}
use go_bank_ledger.Api.Money.{deposit_handler, withdraw_handler}
use go_bank_ledger.Api.Money.Answers.{
  DepositServed, WithdrawServed, deposit_handler-Served, withdraw_handler-Served,
}
use go_bank_ledger.Api.Money.Reports.{Payment, deposit_handler-report, withdraw_handler-report}
use go_bank_ledger.Api.Money.Success.{report-ok, Served-done}

module _ {Decimal : Type 0} {rt : Runtime} {dec : Decimals Decimal} (laws : NumericLaws rt dec)
    (web : Web) where
  -- The tables allow the deposit of the amount in the text: account and settlement account have one
  -- currency and the id of the latter leads to it, the amount rounds to at least one
  -- ten-thousandth, entry ids are fresh, and no balance leaves its type.
  pub record Fundable (id : Uuid) (text : String) (T : Tables) : Type 0 where
    pub amount : Decimal
    pub system : AccountRow
    pub account : AccountRow
    pub parsed : dec.new_from_string text ≡ some amount
    pub positive : dec.less_than_or_equal amount dec.zero ≡ false
    pub settlement : find_settlement T.accounts ≡ some system
    pub system_found : find_account system.id T.accounts ≡ some system
    pub account_found : find_account id T.accounts ≡ some account
    pub currency : account.currency ≡ system.currency
    pub some_units : pos 1 ≤ℤ laws.units amount
    pub fits : fits_numeric (laws.units amount) ≡ true
    pub fresh : (m : ℕ) → find_entry (rt.random_uuid m) T.entries ≡ none
    pub account_fits : all_fit (add_balance id (laws.units amount) T.accounts) ≡ true
    pub system_fits :
        all_fit (
          add_balance system.id
            (neg_ℤ (laws.units amount))
            (add_balance id (laws.units amount) T.accounts))
        ≡ true

  -- The tables allow the withdrawal of the amount in the text: account and settlement account have one
  -- currency and the id of the latter leads to it, the balance covers the amount, the amount rounds to at least one
  -- ten-thousandth, entry ids are fresh, and no balance leaves its type.
  pub record Withdrawable (id : Uuid) (text : String) (T : Tables) : Type 0 where
    pub amount : Decimal
    pub system : AccountRow
    pub account : AccountRow
    pub parsed : dec.new_from_string text ≡ some amount
    pub positive : dec.less_than_or_equal amount dec.zero ≡ false
    pub settlement : find_settlement T.accounts ≡ some system
    pub system_found : find_account system.id T.accounts ≡ some system
    pub account_found : find_account id T.accounts ≡ some account
    pub currency : account.currency ≡ system.currency
    pub covered : dec.less_than (laws.of_units account.balance) amount ≡ false
    pub some_units : pos 1 ≤ℤ laws.units amount
    pub fits : fits_numeric (laws.units amount) ≡ true
    pub fresh : (m : ℕ) → find_entry (rt.random_uuid m) T.entries ≡ none
    pub account_fits : all_fit (add_balance id (neg_ℤ (laws.units amount)) T.accounts) ≡ true
    pub system_fits :
        all_fit (
          add_balance system.id
            (laws.units amount)
            (add_balance id (neg_ℤ (laws.units amount)) T.accounts))
        ≡ true

  -- Over a database that answers, where UUIDs do not repeat, a request for a deposit that passes all
  -- tests of the handler, over the tables that other sessions left when the account is read, and that
  -- the tables allow, which they left when the transaction begins, is answered 200, and has added
  -- the amount in its body once, to an account that its user owns, or nobody.
  pub deposit_handler-succeeds :
      (answers : (n : ℕ) → rt.fault n ≡ none)
      (distinct : (n m : ℕ) → rt.random_uuid n ≡ rt.random_uuid m → n ≡ m) (req : Request)
      (id : Uuid) (text : String) (T : Tables) (n : ℕ)
      → Payment rt web req id text (rt.others n T)
      → Fundable id text (rt.others (n + 1) (rt.others n T))
      → let out = respond (deposit_handler rt dec web req) (at T n) in
        (out.0.status ≡ 200) × DepositServed laws web req T out.1.tables
  deposit_handler-succeeds answers distinct req id text T n p f =
      let succeeds =
        deposit-succeeds laws answers distinct id text f.amount f.system f.account (rt.others n T)
          (n + 1) f.parsed f.positive f.settlement f.system_found f.account_found f.currency
          f.some_units f.fits f.fresh f.account_fits f.system_fits in
      let out = respond (deposit_handler rt dec web req) (at T n) in
      let answered : out.0.status ≡ 200 =
        rw (deposit_handler-report rt dec web req id text T n p (answers n))
          (report-ok laws web _ _ _ succeeds) in
      (
        answered,
        Served-done (DepositServed laws web req) T _ (deposit_handler-Served laws web req T n)
            answered,
      )

  -- Over a database that answers, where UUIDs do not repeat, a request for a withdrawal that passes all
  -- tests of the handler, over the tables that other sessions left when the account is read, and that
  -- the tables allow, which they left when the transaction begins, is answered 200, and has taken
  -- the amount in its body once, from an account that its user owns, or nobody.
  pub withdraw_handler-succeeds :
      (answers : (n : ℕ) → rt.fault n ≡ none)
      (distinct : (n m : ℕ) → rt.random_uuid n ≡ rt.random_uuid m → n ≡ m) (req : Request)
      (id : Uuid) (text : String) (T : Tables) (n : ℕ)
      → Payment rt web req id text (rt.others n T)
      → Withdrawable id text (rt.others (n + 1) (rt.others n T))
      → let out = respond (withdraw_handler rt dec web req) (at T n) in
        (out.0.status ≡ 200) × WithdrawServed laws web req T out.1.tables
  withdraw_handler-succeeds answers distinct req id text T n p f =
      let succeeds =
        withdraw-succeeds laws answers distinct id text f.amount f.system f.account (rt.others n T)
          (n + 1) f.parsed f.positive f.settlement f.system_found f.account_found f.currency
          f.covered f.some_units f.fits f.fresh f.account_fits f.system_fits in
      let out = respond (withdraw_handler rt dec web req) (at T n) in
      let answered : out.0.status ≡ 200 =
        rw (withdraw_handler-report rt dec web req id text T n p (answers n))
          (report-ok laws web _ _ _ succeeds) in
      (
        answered,
        Served-done (WithdrawServed laws web req) T _ (withdraw_handler-Served laws web req T n)
            answered,
      )
