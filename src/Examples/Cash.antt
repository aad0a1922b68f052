-- ===== src/Examples/Cash.antt =====
-- Alice, user 7, pays three units into account 2 and takes three units from it.
use go_bank_ledger.Prelude.{◌≡◌, refl, pos, neg_ℤ, ◌+ℤ◌, arith}
use go_bank_ledger.Sqlc.Accounts.{find_account, find_settlement, fits_numeric, add_balance, all_fit}
use go_bank_ledger.Api.Http.{respond, denied}
use go_bank_ledger.Api.Amount.{decode_amount_from_body, normalize_amount_input}
use go_bank_ledger.Api.Money.{deposit_handler, withdraw_handler}
use go_bank_ledger.Api.Money.Answers.{DepositServed, WithdrawServed}
use go_bank_ledger.Api.Money.Reports.{Payment}
use go_bank_ledger.Api.Money.Success.Cash.{
  Fundable, Withdrawable, deposit_handler-succeeds, withdraw_handler-succeeds,
}
use go_bank_ledger.Examples.Witnesses.{fresh_ids, distinct_ids}
use go_bank_ledger.Examples.Bank.{
  bank, alice, settlement, bank_laws, decimals, web, books, start, request, read_number, exact,
  round,
}

request-Payment : Payment bank web request 2 "+111" books
unfolding decode_amount_from_body normalize_amount_input read_number find_account denied
request-Payment = record {
  authorized = record {
    token = "+1111111";
    user = 7;
    row = alice;
    claims = refl;
    parsed = refl;
    found = refl;
    allowed = refl;
  };
  id_parsed = refl;
  amount = refl;
}

books-Fundable : Fundable bank_laws web 2 "+111" books
unfolding read_number exact round find_account find_settlement fits_numeric add_balance all_fit
    neg_ℤ ◌+ℤ◌
books-Fundable = record {
  amount = pos 30;
  system = settlement;
  account = alice;
  parsed = refl;
  positive = refl;
  settlement = refl;
  system_found = refl;
  account_found = refl;
  currency = refl;
  some_units = omega arith;
  fits = refl;
  fresh = fresh_ids;
  account_fits = refl;
  system_fits = refl;
}

books-Withdrawable : Withdrawable bank_laws web 2 "+111" books
unfolding read_number exact round find_account find_settlement fits_numeric add_balance all_fit
    neg_ℤ ◌+ℤ◌
books-Withdrawable = record {
  amount = pos 30;
  system = settlement;
  account = alice;
  parsed = refl;
  positive = refl;
  settlement = refl;
  system_found = refl;
  account_found = refl;
  currency = refl;
  covered = refl;
  some_units = omega arith;
  fits = refl;
  fresh = fresh_ids;
  account_fits = refl;
  system_fits = refl;
}

deposit_handler-succeeds_example :
    let out = respond (deposit_handler bank decimals web request) start in
    (out.0.status ≡ 200) × DepositServed bank_laws web request books out.1.tables
deposit_handler-succeeds_example =
    deposit_handler-succeeds bank_laws web (λ n. refl) distinct_ids request 2 "+111" books 0
      request-Payment books-Fundable

withdraw_handler-succeeds_example :
    let out = respond (withdraw_handler bank decimals web request) start in
    (out.0.status ≡ 200) × WithdrawServed bank_laws web request books out.1.tables
withdraw_handler-succeeds_example =
    withdraw_handler-succeeds bank_laws web (λ n. refl) distinct_ids request 2 "+111" books 0
      request-Payment books-Withdrawable
