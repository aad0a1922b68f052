-- ===== src/Api/Money/Verdicts.antt =====
-- `Transfer` of internal/api/handler.go on every request, over a database that answers its first query.
use go_bank_ledger.Prelude.{
  ℕ, ◌+◌, ◌≡◌, ◌⊎◌, inl, inr, refl, ap, String, true, false, none, some, Option-cases, Bool-cases,
  arith,
}
use go_bank_ledger.Prelude.Text.{is_empty}
use go_bank_ledger.Sqlc.Models.{Uuid}
use go_bank_ledger.Sqlc.Tables.{AccountRow, Tables, World}
use go_bank_ledger.Sqlc.Accounts.{find_account, get_account}
use go_bank_ledger.Runtime.{Runtime, Decimals}
use go_bank_ledger.Store.{on_pool}
use go_bank_ledger.Exec.{◌>>=◌, statement}
use go_bank_ledger.Exec.Runs.{at}
use go_bank_ledger.Ledger.{transfer}
use go_bank_ledger.Api.Http.{
  Web, Request, Response, TransferRequest, respond, respond_json, respond_error, call, denied,
}
use go_bank_ledger.Api.Amount.{normalize_amount_input}
use go_bank_ledger.Api.Auth.{authenticate}
use go_bank_ledger.Api.Money.{first_non_blank, transfer_handler}
use go_bank_ledger.Api.Money.Reports.{Transferable, transfer_report, transfer_handler-Reports}

module _ (rt : Runtime) (web : Web) (req : Request) where
  -- The body asks for this transfer.
  pub record Asks (from_id to_id : Uuid) (text : String) : Type 0 where
    pub input : TransferRequest
    pub decoded : web.decode_transfer req.body ≡ some input
    pub from_given : is_empty (first_non_blank input.from_id input.from_account_id) ≡ false
    pub to_given : is_empty (first_non_blank input.to_id input.to_account_id) ≡ false
    pub from_parsed :
        rt.uuid_parse (first_non_blank input.from_id input.from_account_id) ≡ some from_id
    pub to_parsed : rt.uuid_parse (first_non_blank input.to_id input.to_account_id) ≡ some to_id
    pub amount : normalize_amount_input input.amount ≡ some text

  -- The token names this user.
  pub record Sender (user : Uuid) : Type 0 where
    pub token : String
    pub claims : req.claims ≡ some (some token)
    pub parsed : rt.uuid_parse token ≡ some user

  -- Why a request is turned away, with the status for it.
  pub data Refusal (seen : Tables) : ℕ → Type 0 where
    nobody : ((user : Uuid) → ¬ Sender user) → Refusal seen 401
    malformed :
        {user : Uuid}
        → Sender user
        → ((from_id to_id : Uuid) (text : String) → ¬ Asks from_id to_id text)
        → Refusal seen 400
    unknown :
        {user from_id to_id : Uuid} {text : String}
        → Sender user
        → Asks from_id to_id text
        → find_account from_id seen.accounts ≡ none
        → Refusal seen 404
    foreign :
        {user from_id to_id : Uuid} {text : String} {row : AccountRow}
        → Sender user
        → Asks from_id to_id text
        → find_account from_id seen.accounts ≡ some row
        → denied row.owner_id user ≡ true
        → Refusal seen 403

  module _ {Decimal : Type 0} (dec : Decimals Decimal) (T : Tables) (n : ℕ) where
    -- The ledger was called once, and reported on; or the request was turned away.
    pub data Verdict (out : Response × World) : Type 0 where
      asked :
          {from_id to_id : Uuid} {text : String}
          → Transferable rt web req from_id to_id text (rt.others n T)
          → out
            ≡ transfer_report rt web
                (transfer rt dec from_id to_id text (at (rt.others n T) (n + 1)))
          → Verdict out
      turned_away :
          {status : ℕ}
          → Refusal (rt.others n T) status
          → out.0.status ≡ status
          → (out.1.tables ≡ T) ⊎ (out.1.tables ≡ rt.others n T)
          → Verdict out

    abbrev answer : Response × World
    answer = respond (transfer_handler rt dec web req) (at T n)

    turn :
        {status : ℕ} (message : String) (U : Tables) (k : ℕ)
        → Refusal (rt.others n T) status
        → answer ≡ (respond_error web status message, at U k)
        → (U ≡ T) ⊎ (U ≡ rt.others n T)
        → Verdict answer
    unfolding respond_error respond_json
    turn message U k r e tables = rw e (turned_away r refl tables)

    -- A body that asks for a transfer.
    Asks-Verdict :
        (from_id to_id : Uuid) (text : String) (user : Uuid)
        → rt.fault n ≡ none
        → Sender user
        → Asks from_id to_id text
        → Verdict answer
    unfolding on_pool respond transfer_handler authenticate call get_account statement ◌>>=◌
    Asks-Verdict from_id to_id text user quiet s a =
        elim (Option-cases (find_account from_id (rt.others n T).accounts)) [
          | inl missing ↦
              turn "from account not found" (rt.others n T) (n + 1) (unknown s a missing)
                (simp (
                  s.claims, s.parsed, a.decoded, a.from_given, a.to_given, a.from_parsed,
                  a.to_parsed, a.amount, quiet, missing,
                ))
                (inr refl)
          | inr (row, found) ↦ elim (Bool-cases (denied row.owner_id user)) [
            | inl is_denied ↦
                turn "access denied" (rt.others n T) (n + 1) (foreign s a found is_denied)
                  (simp (
                    s.claims, s.parsed, a.decoded, a.from_given, a.to_given, a.from_parsed,
                    a.to_parsed, a.amount, quiet, found, is_denied,
                  ))
                  (inr refl)
            | inr allowed ↦
                let t : Transferable rt web req from_id to_id text (rt.others n T) = record {
                  input = a.input;
                  authorized = record {
                    token = s.token;
                    user = user;
                    row = row;
                    claims = s.claims;
                    parsed = s.parsed;
                    found = found;
                    allowed = allowed;
                  };
                  decoded = a.decoded;
                  from_given = a.from_given;
                  to_given = a.to_given;
                  from_parsed = a.from_parsed;
                  to_parsed = a.to_parsed;
                  amount = a.amount;
                } in
                asked t (transfer_handler-Reports rt dec web req from_id to_id text T n t quiet)
          ]
        ]

    Sender-Verdict : rt.fault n ≡ none → (user : Uuid) → Sender user → Verdict answer
    unfolding on_pool respond transfer_handler authenticate ◌>>=◌
    Sender-Verdict quiet user s =
        let unfit : ((f t : Uuid) (x : String) → ¬ Asks f t x) → Refusal (rt.others n T) 400 =
          malformed s in
        elim (Option-cases (web.decode_transfer req.body)) [
          | inl nothing ↦
              turn "invalid input" T n (unfit λ f t x a. grind arith)
                (simp (s.claims, s.parsed, nothing)) (inl refl)
          | inr (input, decoded) ↦
              let from = first_non_blank input.from_id input.from_account_id in
              let to = first_non_blank input.to_id input.to_account_id in
              elim (Bool-cases (is_empty from)) [
                | inl blank_from ↦
                    turn "from_id (or from_account_id) is required" T n
                      (unfit λ f t x a. grind arith)
                      (simp (s.claims, s.parsed, decoded, blank_from)) (inl refl)
                | inr from_given ↦ elim (Bool-cases (is_empty to)) [
                  | inl blank_to ↦
                      turn "to_id (or to_account_id) is required" T n (unfit λ f t x a. grind arith)
                        (simp (s.claims, s.parsed, decoded, from_given, blank_to)) (inl refl)
                  | inr to_given ↦ elim (Option-cases (rt.uuid_parse from)) [
                    | inl no_from ↦
                        turn "invalid from_id format" T n (unfit λ f t x a. grind arith)
                          (simp (s.claims, s.parsed, decoded, from_given, to_given, no_from))
                          (inl refl)
                    | inr (from_id, from_parsed) ↦ elim (Option-cases (rt.uuid_parse to)) [
                      | inl no_to ↦
                          turn "invalid to_id format" T n (unfit λ f t x a. grind arith)
                            (simp (
                              s.claims, s.parsed, decoded, from_given, to_given, from_parsed, no_to,
                            ))
                            (inl refl)
                      | inr (to_id, to_parsed) ↦
                          elim (Option-cases (normalize_amount_input input.amount)) [
                            | inl no_amount ↦
                                turn "invalid input" T n (unfit λ f t x a. grind arith)
                                  (simp (
                                    s.claims, s.parsed, decoded, from_given, to_given, from_parsed,
                                    to_parsed, no_amount,
                                  ))
                                  (inl refl)
                            | inr (text, amount) ↦
                                Asks-Verdict from_id to_id text user quiet s (record {
                                  input = input;
                                  decoded = decoded;
                                  from_given = from_given;
                                  to_given = to_given;
                                  from_parsed = from_parsed;
                                  to_parsed = to_parsed;
                                  amount = amount;
                                })
                          ]
                    ]
                  ]
                ]
              ]
        ]

    -- If the database answers the query for the account, a request for a transfer is answered in one
    -- of these ways. It calls the ledger once and adds nothing to what that does: nil becomes 200, and
    -- every error 400 with its text; then its token names a user who owns the account to be debited, or
    -- nobody does, as other sessions left it, and its body asks for that transfer. Or it leaves the
    -- tables to other sessions and is turned away: with 401 if its token names no user, 400 if its body
    -- asks for no transfer, 404 if there is no account, and 403 if the account is somebody else's.
    pub transfer_handler-Verdict : rt.fault n ≡ none → Verdict answer
    unfolding on_pool respond transfer_handler authenticate ◌>>=◌
    transfer_handler-Verdict quiet = elim (Option-cases req.claims) [
      | inl none_given ↦
          turn "invalid token" T n (nobody λ user s. grind arith) (simp none_given) (inl refl)
      | inr (claims, given) ↦ elim (Option-cases claims) [
        | inl no_text ↦
            turn "invalid token" T n (nobody λ user s. grind arith) (simp (given, no_text))
              (inl refl)
        | inr (token, text) ↦ elim (Option-cases (rt.uuid_parse token)) [
          | inl no_user ↦
              turn "invalid token" T n (nobody λ user s. grind arith) (simp (given, text, no_user))
                (inl refl)
          | inr (user, parsed) ↦
              Sender-Verdict quiet user
                (record { token = token; claims = rw given (ap some text); parsed = parsed })
        ]
      ]
    ]
