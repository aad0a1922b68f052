-- ===== src/Examples/Handlers.antt =====
-- The theorems on users, accounts, pages and the interceptor at concrete requests.
use go_bank_ledger.Prelude.{◌+◌, ◌≡◌, refl, some, List, [], ◌∷◌, map, ℤ, pos, neg_ℤ, ◌+ℤ◌, arith}
use go_bank_ledger.Sqlc.Tables.{AccountRow, Tables}
use go_bank_ledger.Sqlc.Accounts.{
  find_account, owner_listed, create_account, scan_account, fits_numeric, add_balance, all_fit,
}
use go_bank_ledger.Sqlc.Users.{find_user, find_user_by_email, create_user}
use go_bank_ledger.Runtime.{Runtime}
use go_bank_ledger.Store.{on_pool}
use go_bank_ledger.Ledger.Steps.{Steps, here}
use go_bank_ledger.Exec.{◌>>=◌, statement, new_uuid, timestamp}
use go_bank_ledger.Exec.Runs.{at}
use go_bank_ledger.Api.Http.{
  Web, Request, AuthRequest, respond, respond_json, account_list, JsonValue, denied, call,
}
use go_bank_ledger.Api.Mapper.{to_account_response}
use go_bank_ledger.Api.Auth.{authenticate, register, login}
use go_bank_ledger.Api.Token.{generate_token}
use go_bank_ledger.Api.Auth.Credentials.{
  Accepted, registered, with_user, login_answer, register-login,
}
use go_bank_ledger.Api.Accounts.{create_account_handler, get_account_handler, list_accounts_handler}
use go_bank_ledger.Api.Accounts.Access.{SentBy, opened, shown, with_account, create-get}
use go_bank_ledger.Api.Accounts.Listing.{OwnAccounts, list_accounts_handler-OwnAccounts}
use go_bank_ledger.Api.Idempotency.Interceptor.{
  Recorded, intercepted, calls_of, intercepted-Recorded,
}
use go_bank_ledger.Api.Amount.{normalize_amount_input}
use go_bank_ledger.Api.Money.{first_non_blank, transfer_handler}
use go_bank_ledger.Api.Money.Reports.{Transferable}
use go_bank_ledger.Api.Money.Verdicts.{Verdict, transfer_handler-Verdict}
use go_bank_ledger.Api.Queries.{get_entries_handler}
use go_bank_ledger.Api.Queries.Offsets.{Paged, get_entries_handler-Paged}
use go_bank_ledger.Api.Queries.Statement.{Listed, get_entries_handler-Listed}
use go_bank_ledger.Api.Money.Answers.{TransferServed}
use go_bank_ledger.Api.Money.Success.{Payable, transfer_handler-succeeds}
use go_bank_ledger.Examples.Witnesses.{fresh_ids, distinct_ids}
use go_bank_ledger.Examples.Bank.{
  bank, alice, bob, bank_laws, decimals, web, books, start, request, read_number, exact, round,
}

abbrev dora : AuthRequest
dora = record { email = "dora@bank.example"; password = "open sesame" }

-- Every body is Dora's.
abbrev signing : Web
signing = record web { decode_auth = λ s. some dora; sign_token = λ key id expiry. some key }

dora-Accepted : Accepted bank signing dora "open sesame" request books 0
unfolding find_user find_user_by_email
dora-Accepted = record {
  decoded = refl;
  email_given = refl;
  password_given = refl;
  hash = refl;
  fresh_id = refl;
  fresh_email = refl;
}

dora_last :
    let out = respond (register bank signing (some "key") request) start in
    Steps out.1.tables (with_user bank signing (registered bank signing dora "open sesame" 0) books)
unfolding on_pool respond register call create_user statement new_uuid timestamp ◌>>=◌
    generate_token find_user find_user_by_email
dora_last = here

register-login_example :
    let user = registered bank signing dora "open sesame" 0 in
    let out = respond (register bank signing (some "key") request) start in
    (out.0.status ≡ 201)
    × (respond (login bank signing (some "key") request) (at (with_user bank signing user books) 4)
        ≡ login_answer bank signing
            (λ n. refl)
            "key"
            (λ id expiry. "key")
            (λ id expiry. refl)
            user
            "open sesame"
            (with_user bank signing user books)
            4)
register-login_example =
    let user = registered bank signing dora "open sesame" 0 in
    register-login bank signing (λ n. refl) "key" (λ id expiry. "key") (λ id expiry. refl)
      (λ n T. here) request request dora dora "open sesame" books 0
      (at (with_user bank signing user books) 4) dora-Accepted refl refl dora_last

by_7 : SentBy bank web 7 request
unfolding read_number
by_7 = record { text = "+1111111"; claims = refl; parsed = refl }

-- Ids that are short to write.
abbrev low : Runtime
low = record bank { random_uuid = λ n. n + 4 }

abbrev opening : Request
opening = record request { body = "Savings"; path_id = "+11111" }

low_7 : SentBy low web 7 opening
unfolding read_number
low_7 = record { text = "+1111111"; claims = refl; parsed = refl }

abbrev savings : AccountRow
savings = opened low web 7 "Savings" 0

abbrev opened_books : Tables
opened_books = with_account low web savings books

savings_last : Steps (respond (create_account_handler low web opening) start).1.tables opened_books
unfolding on_pool respond create_account_handler authenticate call create_account statement new_uuid
    timestamp ◌>>=◌ find_account owner_listed read_number
savings_last = here

create-get_example :
    let out = respond (create_account_handler low web opening) start in
    let answer = respond (get_account_handler low web opening) (at opened_books 3) in
    (out.0 ≡ respond_json web 201 (shown low web savings))
    × ((balance : ℤ) × ((answer.0
            ≡ respond_json web 200 (shown low web (record savings { balance = balance })))
          × (answer.1.tables ≡ opened_books)))
unfolding find_account owner_listed read_number
create-get_example =
    create-get low web (λ n. refl) (λ n T. here) 7 7 opening opening "Savings" books 0
      (at opened_books 3) low_7 refl refl refl refl low_7 refl savings_last

list_accounts_handler-OwnAccounts_example :
    (rows : List AccountRow) × (OwnAccounts 7 books rows
      × (respond (list_accounts_handler bank web request) start ≡ (
        respond_json web 200
            (account_list (map (to_account_response bank) (map (scan_account bank) rows))),
        at books 1,
      )))
list_accounts_handler-OwnAccounts_example =
    list_accounts_handler-OwnAccounts bank web 7 request books 0 by_7 refl

intercepted-Recorded_example :
    Recorded
      (intercepted (calls_of (some 201) ("{}" ∷ "\n" ∷ [])))
      (calls_of (some 201) ("{}" ∷ "\n" ∷ []))
intercepted-Recorded_example =
    intercepted-Recorded (some 201) ("{}" ∷ "\n" ∷ [])
      (omega arith, omega arith, omega arith, omega arith)

-- User 7 sends three units from account 2 to account 3.
request-Transferable : Transferable bank web request 2 3 "+111" books
unfolding first_non_blank normalize_amount_input read_number find_account denied
request-Transferable = record {
  input = record {
    amount = JsonValue.number "+111";
    from_id = "+11";
    to_id = " ";
    from_account_id = "";
    to_account_id = "+111";
  };
  authorized = record {
    token = "+1111111";
    user = 7;
    row = alice;
    claims = refl;
    parsed = refl;
    found = refl;
    allowed = refl;
  };
  decoded = refl;
  from_given = refl;
  to_given = refl;
  from_parsed = refl;
  to_parsed = refl;
  amount = refl;
}

transfer_handler-Verdict_example :
    Verdict bank web request decimals books 0
      (respond (transfer_handler bank decimals web request) start)
transfer_handler-Verdict_example = transfer_handler-Verdict bank web request decimals books 0 refl

books-Payable : Payable bank_laws web 2 3 "+111" books
unfolding read_number exact round find_account fits_numeric add_balance all_fit neg_ℤ ◌+ℤ◌
books-Payable = record {
  amount = pos 30;
  source = alice;
  target = bob;
  parsed = refl;
  positive = refl;
  differ = omega arith;
  source_found = refl;
  target_found = refl;
  currency = refl;
  covered = refl;
  some_units = omega arith;
  fits = refl;
  fresh = fresh_ids;
  source_fits = refl;
  target_fits = refl;
}

transfer_handler-succeeds_example :
    let out = respond (transfer_handler bank decimals web request) start in
    (out.0.status ≡ 200) × TransferServed bank_laws web request books out.1.tables
transfer_handler-succeeds_example =
    transfer_handler-succeeds bank_laws web (λ n. refl) distinct_ids request 2 3 "+111" books 0
      request-Transferable books-Payable

get_entries_handler-Listed_example :
    Listed bank web request books (respond (get_entries_handler bank web request) start)
get_entries_handler-Listed_example = get_entries_handler-Listed bank web request books 0

-- The offset of the request is 2 ^ 31.
get_entries_handler-Paged_example :
    Paged bank web request 2 books 2 (respond (get_entries_handler bank web request) start)
unfolding read_number find_account denied
get_entries_handler-Paged_example =
    get_entries_handler-Paged bank web request 2 books 0
      (record {
        token = "+1111111";
        user = 7;
        row = alice;
        claims = refl;
        parsed = refl;
        found = refl;
        allowed = refl;
      })
      refl refl refl
