-- ===== src/Api/Money/Reports.antt =====
-- How `Deposit`, `Withdraw` and `Transfer` of internal/api/handler.go report what the ledger service returned.
use go_bank_ledger.Prelude.{ℕ, ◌+◌, ◌≡◌, refl, String, false, none, some}
use go_bank_ledger.Prelude.Text.{is_empty}
use go_bank_ledger.Errors.{Error, error_text}
use go_bank_ledger.Sqlc.Models.{Uuid}
use go_bank_ledger.Sqlc.Tables.{Tables, World}
use go_bank_ledger.Sqlc.Accounts.{get_account}
use go_bank_ledger.Runtime.{Runtime, Decimals}
use go_bank_ledger.Store.{on_pool}
use go_bank_ledger.Exec.{Result, Action, ok, err, pure, ◌>>◌, ◌>>=◌, statement}
use go_bank_ledger.Exec.Runs.{at}
use go_bank_ledger.Ledger.{deposit, withdraw, transfer}
use go_bank_ledger.Api.Http.{
  Web, Request, Response, TransferRequest, message_response, respond, respond_json, respond_error,
  call,
}
use go_bank_ledger.Api.Amount.{normalize_amount_input, decode_amount_from_body}
use go_bank_ledger.Api.Auth.{authenticate}
use go_bank_ledger.Api.Money.{
  first_non_blank, transfer_handler, deposit_handler, withdraw_handler, deposit_status,
  withdraw_status,
}
use go_bank_ledger.Api.Money.Answers.{Authorized}

module _ (rt : Runtime) (web : Web) where
  -- A request for a transfer that passes all of the handler's tests.
  pub record Transferable (req : Request) (from_id to_id : Uuid) (text : String) (T : Tables)
      : Type 0 where
    pub input : TransferRequest
    pub authorized : Authorized rt req from_id T
    pub decoded : web.decode_transfer req.body ≡ some input
    pub from_given : is_empty (first_non_blank input.from_id input.from_account_id) ≡ false
    pub to_given : is_empty (first_non_blank input.to_id input.to_account_id) ≡ false
    pub from_parsed :
        rt.uuid_parse (first_non_blank input.from_id input.from_account_id) ≡ some from_id
    pub to_parsed : rt.uuid_parse (first_non_blank input.to_id input.to_account_id) ≡ some to_id
    pub amount : normalize_amount_input input.amount ≡ some text

  -- A request for a deposit or a withdrawal that passes all of its handler's tests.
  pub record Payment (req : Request) (id : Uuid) (text : String) (T : Tables) : Type 0 where
    pub authorized : Authorized rt req id T
    pub id_parsed : rt.uuid_parse req.path_id ≡ some id
    pub amount : decode_amount_from_body web req.body ≡ some text

  -- What becomes of the ledger's return: 200 with a message, or a status and the text of the error.
  abbrev pub report : (Error → ℕ) → String → Result Error Unit × World → Response × World
  report status message (ok a, w) = (respond_json web 200 (message_response message), w)
  report status message (err e, w) = (respond_error web (status e) (error_text e), w)

  abbrev pub transfer_report : Result Error Unit × World → Response × World
  transfer_report = report (λ e. 400) "transfer successful"

  call-report :
      (status : Error → ℕ) (message : String) (m : Action Unit) (w : World)
      (out : Result Error Unit × World)
      → m w ≡ out
      → respond
          (call m (λ e. respond_error web (status e) (error_text e))
            >> pure (respond_json web 200 (message_response message)))
          w
        ≡ report status message out
  unfolding respond call ◌>>=◌
  call-report status message m w (ok tt, v) e = rw e refl
  call-report status message m w (err f, v) e = rw e refl

module _ {Decimal : Type 0} (rt : Runtime) (dec : Decimals Decimal) (web : Web) where
  -- A request for a transfer that passes all tests, over the tables that other sessions left when
  -- the account is read, calls the ledger once and adds nothing to what that does: nil becomes 200,
  -- and every error, be it the client's, the database's or the tenth conflict in a row, becomes 400
  -- with the text of the error.
  pub transfer_handler-Reports :
      (req : Request) (from_id to_id : Uuid) (text : String) (T : Tables) (n : ℕ)
      → Transferable rt web req from_id to_id text (rt.others n T)
      → rt.fault n ≡ none
      → respond (transfer_handler rt dec web req) (at T n)
        ≡ transfer_report rt web (transfer rt dec from_id to_id text (at (rt.others n T) (n + 1)))
  unfolding on_pool respond transfer_handler authenticate call get_account statement ◌>>=◌
  transfer_handler-Reports req from_id to_id text T n t quiet =
      let a = t.authorized in
      simp
        (
          a.claims, a.parsed, t.decoded, t.from_given, t.to_given, t.from_parsed, t.to_parsed,
          t.amount, quiet, a.found, a.allowed,
        )
        (call-report rt web (λ e. 400) "transfer successful" (transfer rt dec from_id to_id text)
          (at (rt.others n T) (n + 1)) _ refl)

  pub deposit_handler-report :
      (req : Request) (id : Uuid) (text : String) (T : Tables) (n : ℕ)
      → Payment rt web req id text (rt.others n T)
      → rt.fault n ≡ none
      → respond (deposit_handler rt dec web req) (at T n)
        ≡ report rt web deposit_status "deposit successful"
            (deposit rt dec id text (at (rt.others n T) (n + 1)))
  unfolding on_pool respond deposit_handler authenticate call get_account statement ◌>>=◌
  deposit_handler-report req id text T n p quiet =
      let a = p.authorized in
      simp (a.claims, a.parsed, p.id_parsed, p.amount, quiet, a.found, a.allowed)
        (call-report rt web deposit_status "deposit successful" (deposit rt dec id text)
          (at (rt.others n T) (n + 1)) _ refl)

  pub withdraw_handler-report :
      (req : Request) (id : Uuid) (text : String) (T : Tables) (n : ℕ)
      → Payment rt web req id text (rt.others n T)
      → rt.fault n ≡ none
      → respond (withdraw_handler rt dec web req) (at T n)
        ≡ report rt web withdraw_status "withdrawal successful"
            (withdraw rt dec id text (at (rt.others n T) (n + 1)))
  unfolding on_pool respond withdraw_handler authenticate call get_account statement ◌>>=◌
  withdraw_handler-report req id text T n p quiet =
      let a = p.authorized in
      simp (a.claims, a.parsed, p.id_parsed, p.amount, quiet, a.found, a.allowed)
        (call-report rt web withdraw_status "withdrawal successful" (withdraw rt dec id text)
          (at (rt.others n T) (n + 1)) _ refl)
