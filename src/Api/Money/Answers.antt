-- ===== src/Api/Money/Answers.antt =====
-- `Deposit`, `Withdraw` and `Transfer` of internal/api/handler.go: who may move money, and what a
-- 200 stands for.
use go_bank_ledger.Prelude.{ℕ, ◌≡◌, ◌≢◌, refl, false, some, String, arith}
use go_bank_ledger.Errors.{Error}
use go_bank_ledger.Sqlc.Models.{Uuid}
use go_bank_ledger.Sqlc.Tables.{AccountRow, Tables, World}
use go_bank_ledger.Sqlc.Accounts.{find_account}
use go_bank_ledger.Runtime.{Runtime, Decimals, NumericLaws}
use go_bank_ledger.Exec.{Result, ok, err}
use go_bank_ledger.Exec.Runs.{at}
use go_bank_ledger.Store.Atomic.{Drift, still, more_commits, Drift-trans}
use go_bank_ledger.Ledger.Outcomes.{
  Committed, DepositSpec, WithdrawSpec, TransferSpec, deposit-AllOrNothing, withdraw-AllOrNothing,
  transfer-AllOrNothing,
}
use go_bank_ledger.Api.Http.{
  Web, Request, Response, Handler, TransferRequest, respond, denied, respond_error, respond_json,
}
use go_bank_ledger.Api.Amount.{decode_amount_from_body, normalize_amount_input}
use go_bank_ledger.Api.Money.{
  deposit_status, withdraw_status, first_non_blank, deposit_handler, withdraw_handler,
  transfer_handler,
}
use go_bank_ledger.Api.Money.Reply.{Ends, Guarantees, G-or_fail, G-fail_if, G-get_account}
use go_bank_ledger.Api.Money.Guards.{G-authenticate, G-ledger}

-- The request carries a valid token of a user who owns the account `id`, or nobody owns it.
pub record Authorized (rt : Runtime) (req : Request) (id : Uuid) (T : Tables) : Type 0 where
  pub token : String
  pub user : Uuid
  pub row : AccountRow
  pub claims : req.claims ≡ some (some token)
  pub parsed : rt.uuid_parse token ≡ some user
  pub found : find_account id T.accounts ≡ some row
  pub allowed : denied row.owner_id user ≡ false

-- A request at the tables `T` that came out as a response and a world: it was done, or refused.
pub data Served (rt : Runtime) (Done : Tables → Tables → Type 0) (T : Tables)
    (out : Response × World) : Type 0 where
  done : out.0.status ≡ 200 → Done T out.1.tables → Served rt Done T out
  refused : out.0.status ≢ 200 → Drift rt T out.1.tables → Served rt Done T out

deposit_status-ne : (e : Error) → deposit_status e ≢ 200
unfolding deposit_status
deposit_status-ne e = ground arith

withdraw_status-ne : (e : Error) → withdraw_status e ≢ 200
unfolding withdraw_status
withdraw_status-ne e = ground arith

module _ {Decimal : Type 0} {rt : Runtime} {dec : Decimals Decimal} (laws : NumericLaws rt dec)
    (web : Web) where
  pub record DepositServed (req : Request) (T U : Tables) : Type 0 where
    pub id : Uuid
    pub text : String
    pub path : rt.uuid_parse req.path_id ≡ some id
    pub body : decode_amount_from_body web req.body ≡ some text
    pub seen : Tables
    pub drift : Drift rt T seen
    pub authorized : Authorized rt req id seen
    pub done : Committed rt (DepositSpec laws id text) seen U

  pub record WithdrawServed (req : Request) (T U : Tables) : Type 0 where
    pub id : Uuid
    pub text : String
    pub path : rt.uuid_parse req.path_id ≡ some id
    pub body : decode_amount_from_body web req.body ≡ some text
    pub seen : Tables
    pub drift : Drift rt T seen
    pub authorized : Authorized rt req id seen
    pub done : Committed rt (WithdrawSpec laws id text) seen U

  pub record TransferServed (req : Request) (T U : Tables) : Type 0 where
    pub input : TransferRequest
    pub from_id : Uuid
    pub to_id : Uuid
    pub text : String
    pub body : web.decode_transfer req.body ≡ some input
    pub from_parsed :
        rt.uuid_parse (first_non_blank input.from_id input.from_account_id) ≡ some from_id
    pub to_parsed : rt.uuid_parse (first_non_blank input.to_id input.to_account_id) ≡ some to_id
    pub amount : normalize_amount_input input.amount ≡ some text
    pub seen : Tables
    pub drift : Drift rt T seen
    pub authorized : Authorized rt req from_id seen
    pub done : Committed rt (TransferSpec laws from_id to_id text) seen U

  -- What an answer says: 200 that the request was served, anything else that nothing was done.
  abbrev pub Answers : (Tables → Tables → Type 0) → Tables → Response → Tables → Type 0
  Answers Served T r U = (r.status ≡ 200) × Served T U

  abbrev pub Refuses : Tables → Response → Tables → Type 0
  Refuses T r U = (r.status ≢ 200) × Drift rt T U

  refuse :
      {T U : Tables} (code : ℕ) (message : String)
      → code ≢ 200
      → Drift rt T U
      → Refuses T (respond_error web code message) U
  unfolding respond_error
  refuse code message h d = (h, d)

  deposit_handler-Guarantees :
      (req : Request) (T : Tables)
      → Guarantees T (deposit_handler rt dec web req) (Answers (DepositServed req) T) (Refuses T)
  unfolding deposit_handler respond_json
  deposit_handler-Guarantees req T =
      G-authenticate rt web req _ (refuse 401 _ (omega arith) still) λ token user c p.
        G-or_fail _ _ _ (refuse 400 _ (omega arith) still) λ id path.
          G-get_account rt id _ _ (λ n e. refuse 404 _ (omega arith) (more_commits n still))
            λ n row found.
              G-fail_if _ _ _ (refuse 403 _ (omega arith) (more_commits n still)) λ allowed.
                G-or_fail _ _ _ (refuse 400 _ (omega arith) (more_commits n still)) λ text body.
                  G-ledger rt web (DepositSpec laws id text) _ _ _
                    (deposit-AllOrNothing laws id text)
                    (λ U done. (
                      refl,
                      record {
                        id = id;
                        text = text;
                        path = path;
                        body = body;
                        seen = rt.others n T;
                        drift = more_commits n still;
                        authorized = record {
                          token = token;
                          user = user;
                          row = row;
                          claims = c;
                          parsed = p;
                          found = found;
                          allowed = allowed;
                        };
                        done = done;
                      },
                    ))
                    (λ e U d.
                      refuse _ _ (deposit_status-ne e) (Drift-trans (more_commits n still) d))

  withdraw_handler-Guarantees :
      (req : Request) (T : Tables)
      → Guarantees T (withdraw_handler rt dec web req) (Answers (WithdrawServed req) T) (Refuses T)
  unfolding withdraw_handler respond_json
  withdraw_handler-Guarantees req T =
      G-authenticate rt web req _ (refuse 401 _ (omega arith) still) λ token user c p.
        G-or_fail _ _ _ (refuse 400 _ (omega arith) still) λ id path.
          G-get_account rt id _ _ (λ n e. refuse 404 _ (omega arith) (more_commits n still))
            λ n row found.
              G-fail_if _ _ _ (refuse 403 _ (omega arith) (more_commits n still)) λ allowed.
                G-or_fail _ _ _ (refuse 400 _ (omega arith) (more_commits n still)) λ text body.
                  G-ledger rt web (WithdrawSpec laws id text) _ _ _
                    (withdraw-AllOrNothing laws id text)
                    (λ U done. (
                      refl,
                      record {
                        id = id;
                        text = text;
                        path = path;
                        body = body;
                        seen = rt.others n T;
                        drift = more_commits n still;
                        authorized = record {
                          token = token;
                          user = user;
                          row = row;
                          claims = c;
                          parsed = p;
                          found = found;
                          allowed = allowed;
                        };
                        done = done;
                      },
                    ))
                    (λ e U d.
                      refuse _ _ (withdraw_status-ne e) (Drift-trans (more_commits n still) d))

  transfer_handler-Guarantees :
      (req : Request) (T : Tables)
      → Guarantees T (transfer_handler rt dec web req) (Answers (TransferServed req) T) (Refuses T)
  unfolding transfer_handler respond_json
  transfer_handler-Guarantees req T =
      G-authenticate rt web req _ (refuse 401 _ (omega arith) still) λ token user c p.
        G-or_fail _ _ _ (refuse 400 _ (omega arith) still) λ input body.
          G-fail_if _ _ _ (refuse 400 _ (omega arith) still) λ from_given.
            G-fail_if _ _ _ (refuse 400 _ (omega arith) still) λ to_given.
              G-or_fail _ _ _ (refuse 400 _ (omega arith) still) λ from_id from_parsed.
                G-or_fail _ _ _ (refuse 400 _ (omega arith) still) λ to_id to_parsed.
                  G-or_fail _ _ _ (refuse 400 _ (omega arith) still) λ text amount.
                    G-get_account rt from_id _ _
                      (λ n e. refuse 404 _ (omega arith) (more_commits n still))
                      λ n row found.
                        G-fail_if _ _ _ (refuse 403 _ (omega arith) (more_commits n still))
                          λ allowed.
                            G-ledger rt web (TransferSpec laws from_id to_id text) _ _ _
                              (transfer-AllOrNothing laws from_id to_id text)
                              (λ U done. (
                                refl,
                                record {
                                  input = input;
                                  from_id = from_id;
                                  to_id = to_id;
                                  text = text;
                                  body = body;
                                  from_parsed = from_parsed;
                                  to_parsed = to_parsed;
                                  amount = amount;
                                  seen = rt.others n T;
                                  drift = more_commits n still;
                                  authorized = record {
                                    token = token;
                                    user = user;
                                    row = row;
                                    claims = c;
                                    parsed = p;
                                    found = found;
                                    allowed = allowed;
                                  };
                                  done = done;
                                },
                              ))
                              (λ e U d.
                                refuse 400 _ (omega arith) (Drift-trans (more_commits n still) d))

  Served-respond :
      (Done : Tables → Tables → Type 0) (T : Tables) (m : Handler Response) (n : ℕ)
      → Guarantees T m (Answers Done T) (Refuses T)
      → Served rt Done T (respond m (at T n))
  unfolding respond
  Served-respond Done T m n g = let (r, w) = m (at T n) in cases r w (g.at_step n)
    where
      cases :
          (r : Result Response Response) (w : World)
          → Ends (r, w) (Answers Done T) (Refuses T)
          → Served rt Done T (respond (λ _. (r, w)) w)
      cases (ok response) w a = done a.0 a.1
      cases (err response) w a = refused a.0 a.1

  -- If a deposit is answered with 200, it was done once, by the amount of the body, for a user with a
  -- valid token who owned the account of the path, or nobody owned it; after any other answer only
  -- other sessions' commits have changed the tables.
  pub deposit_handler-Served :
      (req : Request) (T : Tables) (n : ℕ)
      → Served rt (DepositServed req) T (respond (deposit_handler rt dec web req) (at T n))
  deposit_handler-Served req T n =
      Served-respond (DepositServed req) T _ n (deposit_handler-Guarantees req T)

  -- If a withdrawal is answered with 200, it was done once, by the amount of the body, for a user
  -- with a valid token who owned the account of the path, or nobody owned it; after any other answer
  -- only other sessions' commits have changed the tables.
  pub withdraw_handler-Served :
      (req : Request) (T : Tables) (n : ℕ)
      → Served rt (WithdrawServed req) T (respond (withdraw_handler rt dec web req) (at T n))
  withdraw_handler-Served req T n =
      Served-respond (WithdrawServed req) T _ n (withdraw_handler-Guarantees req T)

  -- If a transfer is answered with 200, it was done once, by the amount and between the accounts of
  -- the body, for a user with a valid token who owned the sender's account, or nobody owned it; after
  -- any other answer only other sessions' commits have changed the tables.
  pub transfer_handler-Served :
      (req : Request) (T : Tables) (n : ℕ)
      → Served rt (TransferServed req) T (respond (transfer_handler rt dec web req) (at T n))
  transfer_handler-Served req T n =
      Served-respond (TransferServed req) T _ n (transfer_handler-Guarantees req T)
