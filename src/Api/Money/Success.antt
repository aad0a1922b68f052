-- ===== src/Api/Money/Success.antt =====
-- A transfer through `Transfer` of internal/api/handler.go that goes through.
pub mod Cash
use go_bank_ledger.Prelude.{
  ℕ, ◌+◌, ◌≡◌, ◌≢◌, refl, String, false, true, none, some, pos, neg_ℤ, ◌≤ℤ◌,
}
use go_bank_ledger.Sqlc.Models.{Uuid}
use go_bank_ledger.Sqlc.Tables.{AccountRow, Tables, World}
use go_bank_ledger.Sqlc.Accounts.{find_account, add_balance, all_fit, fits_numeric}
use go_bank_ledger.Sqlc.Entries.{find_entry}
use go_bank_ledger.Runtime.{Runtime, Decimals, NumericLaws}
use go_bank_ledger.Exec.{Result, ok, err}
use go_bank_ledger.Errors.{Error}
use go_bank_ledger.Exec.Runs.{at}
use go_bank_ledger.Ledger.Progress.Transfer.{transfer-succeeds}
use go_bank_ledger.Api.Http.{Web, Request, Response, respond, respond_json}
use go_bank_ledger.Api.Money.{transfer_handler}
use go_bank_ledger.Api.Money.Answers.{
  Served, done, refused, TransferServed, transfer_handler-Served,
}
use go_bank_ledger.Api.Money.Reports.{Transferable, report, transfer_handler-Reports}

pub Served-done :
    {rt : Runtime} (Done : Tables → Tables → Type 0) (T : Tables) (out : Response × World)
    → Served rt Done T out
    → out.0.status ≡ 200
    → Done T out.1.tables
Served-done Done T out (done s d) e = d
Served-done Done T out (refused ne d) e = absurd (ne e)

module _ {Decimal : Type 0} {rt : Runtime} {dec : Decimals Decimal} (laws : NumericLaws rt dec)
    (web : Web) where
  -- The tables allow the transfer of the amount in the text: the accounts are two of one currency,
  -- the balance covers at least one ten-thousandth, entry ids are fresh, and no balance leaves its
  -- type.
  pub record Payable (from_id to_id : Uuid) (text : String) (T : Tables) : Type 0 where
    pub amount : Decimal
    pub source : AccountRow
    pub target : AccountRow
    pub parsed : dec.new_from_string text ≡ some amount
    pub positive : dec.less_than_or_equal amount dec.zero ≡ false
    pub differ : from_id ≢ to_id
    pub source_found : find_account from_id T.accounts ≡ some source
    pub target_found : find_account to_id T.accounts ≡ some target
    pub currency : source.currency ≡ target.currency
    pub covered : dec.less_than (laws.of_units source.balance) amount ≡ false
    pub some_units : pos 1 ≤ℤ laws.units amount
    pub fits : fits_numeric (laws.units amount) ≡ true
    pub fresh : (m : ℕ) → find_entry (rt.random_uuid m) T.entries ≡ none
    pub source_fits : all_fit (add_balance from_id (neg_ℤ (laws.units amount)) T.accounts) ≡ true
    pub target_fits :
        all_fit (
          add_balance to_id
            (laws.units amount)
            (add_balance from_id (neg_ℤ (laws.units amount)) T.accounts))
        ≡ true

  pub report-ok :
      (status : Error → ℕ) (message : String) (out : Result Error Unit × World)
      → out.0 ≡ ok tt
      → (report rt web status message out).0.status ≡ 200
  unfolding respond_json
  report-ok status message (ok tt, w) e = refl
  report-ok status message (err f, w) e = cc

  -- Over a database that answers, where UUIDs do not repeat, a request for a transfer that passes all
  -- tests of the handler, over the tables that other sessions left when the account is read, and that
  -- the tables allow, which they left when the transaction begins, is answered 200, and has moved the
  -- amount in its body once, from an account that its user owns, or nobody.
  pub transfer_handler-succeeds :
      (answers : (n : ℕ) → rt.fault n ≡ none)
      (distinct : (n m : ℕ) → rt.random_uuid n ≡ rt.random_uuid m → n ≡ m) (req : Request)
      (from_id to_id : Uuid) (text : String) (T : Tables) (n : ℕ)
      → let seen = rt.others n T in
        let out = respond (transfer_handler rt dec web req) (at T n) in
        Transferable rt web req from_id to_id text seen
        → Payable from_id to_id text (rt.others (n + 1) seen)
        → (out.0.status ≡ 200) × TransferServed laws web req T out.1.tables
  transfer_handler-succeeds answers distinct req from_id to_id text T n t p =
      let succeeds =
        transfer-succeeds laws answers distinct from_id to_id text p.amount p.source p.target
          (rt.others n T) (n + 1) p.parsed p.positive p.differ p.source_found p.target_found
          p.currency p.covered p.some_units p.fits p.fresh p.source_fits p.target_fits in
      let out = respond (transfer_handler rt dec web req) (at T n) in
      let answered : out.0.status ≡ 200 =
        rw (transfer_handler-Reports rt dec web req from_id to_id text T n t (answers n))
          (report-ok _ _ _ succeeds) in
      (
        answered,
        Served-done (TransferServed laws web req) T _ (transfer_handler-Served laws web req T n)
            answered,
      )
