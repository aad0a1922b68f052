-- ===== src/Api/Accounts/Access.antt =====
-- `CreateAccount` and then `GetAccount` of internal/api/handler.go.
use go_bank_ledger.Prelude.{
  ℕ, ◌+◌, ◌≡◌, refl, String, false, none, some, ◌∷◌, ℤ, pos, ◌==◌, if◌then◌else◌, arith, true,
  Bool-cases, inl, inr,
}
use go_bank_ledger.Prelude.Text.{is_empty}
use go_bank_ledger.Sqlc.Models.{Uuid}
use go_bank_ledger.Sqlc.Tables.{AccountRow, Tables, World}
use go_bank_ledger.Sqlc.Accounts.{
  find_account, owner_listed, create_account, get_account, scan_account,
}
use go_bank_ledger.Runtime.{Runtime}
use go_bank_ledger.Store.{on_pool}
use mathlib.Core.Path.{subst}
use go_bank_ledger.Ledger.Steps.{Steps, Steps-trans}
use go_bank_ledger.Ledger.Steps.Lasting.{Steps-Lasting}
use go_bank_ledger.Exec.{◌>>=◌, statement, new_uuid, timestamp}
use go_bank_ledger.Exec.Runs.{at}
use go_bank_ledger.Api.Http.{
  Web, Request, Response, Payload, account_response, respond_json, respond_error, respond, call,
  denied,
}
use go_bank_ledger.Api.Mapper.{to_account_response}
use go_bank_ledger.Api.Auth.{authenticate}
use go_bank_ledger.Api.Accounts.{create_account_handler, get_account_handler}

module _ (rt : Runtime) (web : Web) where
  -- The row that CreateAccount writes at step n.
  abbrev pub opened : Uuid → String → ℕ → AccountRow
  opened user name n = record {
    id = rt.random_uuid (n + 1);
    owner_id = some user;
    name = name;
    balance = pos 0;
    currency = "USD";
    is_system = false;
    created_at = some (rt.current_timestamp (n + 1 + 1));
  }

  abbrev pub with_account : AccountRow → Tables → Tables
  with_account row T = record T { accounts = row ∷ T.accounts }

  -- The request carries a valid token of the user.
  pub record SentBy (user : Uuid) (req : Request) : Type 0 where
    pub text : String
    pub claims : req.claims ≡ some (some text)
    pub parsed : rt.uuid_parse text ≡ some user

  -- The body that shows an account.
  abbrev pub shown : AccountRow → Payload
  shown row = account_response (to_account_response rt (scan_account rt row))

  -- The answer to a request for an account.
  abbrev pub account_answer : AccountRow → Uuid → Response
  account_answer row user =
      if denied row.owner_id user
      then respond_error web 403 "access denied"
      else respond_json web 200 (shown row)

  module _ (answers : (n : ℕ) → rt.fault n ≡ none) where
    create-runs :
        (user : Uuid) (req : Request) (name : String) (T : Tables) (n : ℕ)
        → SentBy user req
        → web.decode_account_name req.body ≡ some name
        → is_empty name ≡ false
        → find_account (rt.random_uuid (n + 1)) (rt.others n T).accounts ≡ none
        → owner_listed (some user) (rt.others n T).users ≡ true
        → let row = opened user name n in
          respond (create_account_handler rt web req) (at T n) ≡ (
            respond_json web 201 (shown row),
            at (with_account row (rt.others n T)) (n + 1 + 1 + 1),
          )
    unfolding on_pool respond create_account_handler authenticate call create_account statement
        new_uuid timestamp ◌>>=◌
    create-runs user req name T n sent decoded given fresh known =
        simp (sent.claims, sent.parsed, decoded, given, answers, fresh, known)

    get-runs :
        (user id : Uuid) (req : Request) (row : AccountRow) (w : World)
        → SentBy user req
        → rt.uuid_parse req.path_id ≡ some id
        → find_account id (rt.others w.tick w.tables).accounts ≡ some row
        → respond (get_account_handler rt web req) w
          ≡ (account_answer row user, at (rt.others w.tick w.tables) (w.tick + 1))
    unfolding on_pool respond get_account_handler authenticate call get_account statement ◌>>=◌
    get-runs user id req row w sent parsed found = elim (Bool-cases (denied row.owner_id user)) [
      | inl other ↦ simp (sent.claims, sent.parsed, parsed, answers, found, other)
      | inr own ↦ simp (sent.claims, sent.parsed, parsed, answers, found, own)
    ]

    found-opened :
        (row : AccountRow) (T : Tables)
        → find_account row.id (with_account row T).accounts ≡ some row
    unfolding find_account
    found-opened row T = ground arith

    account_answer-own :
        (row : AccountRow) (user asking : Uuid)
        → row.owner_id ≡ some user
        → account_answer row asking ≡ (
            if user == asking
            then respond_json web 200 (shown row)
            else respond_error web 403 "access denied")
    unfolding denied respond_json
    account_answer-own row user asking own = elim (Bool-cases (user == asking)) [
      | inl e ↦ simp (own, e)
      | inr e ↦ simp (own, e)
    ]

    -- Over a database that answers, a user's request for an account with a name, under an id that no
    -- account has, is answered 201 with the new account, empty and in USD. Asked for by that id
    -- after any steps of the bank, the account comes back to its owner, at most with another balance,
    -- and any other user gets 403; no table changes. Other sessions take steps of the bank all the
    -- while.
    pub create-get :
        (others_step : (n : ℕ) (T : Tables) → Steps T (rt.others n T)) (user asking : Uuid)
        (req again : Request) (name : String) (T : Tables) (n : ℕ) (w : World)
        → SentBy user req
        → web.decode_account_name req.body ≡ some name
        → is_empty name ≡ false
        → find_account (rt.random_uuid (n + 1)) (rt.others n T).accounts ≡ none
        → owner_listed (some user) (rt.others n T).users ≡ true
        → SentBy asking again
        → rt.uuid_parse again.path_id ≡ some (rt.random_uuid (n + 1))
        → let row = opened user name n in
          let out = respond (create_account_handler rt web req) (at T n) in
          let answer = respond (get_account_handler rt web again) w in
          Steps out.1.tables w.tables
          → (out.0 ≡ respond_json web 201 (shown row))
            × ((balance : ℤ) × ((answer.0 ≡ (
                    if user == asking
                    then respond_json web 200 (shown (record row { balance = balance }))
                    else respond_error web 403 "access denied"))
                  × (answer.1.tables ≡ rt.others w.tick w.tables)))
    create-get others_step user asking req again name T n w sent decoded given fresh known asked
          parsed steps =
        let row = opened user name n in
        let runs = create-runs user req name T n sent decoded given fresh known in
        let later =
          Steps-trans (subst (λ (x : Response × World). Steps x.1.tables w.tables) runs steps)
            (others_step w.tick w.tables) in
        let (balance, found) =
          (Steps-Lasting later).accounts row.id row (found-opened row (rt.others n T)) in
        let seen : AccountRow = record row { balance = balance } in
        rw (runs, get-runs asking row.id again seen w asked parsed found)
          (refl, (balance, (account_answer-own seen user asking refl, refl)))
