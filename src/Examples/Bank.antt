-- ===== src/Examples/Bank.antt =====
-- Concrete stand-ins for the libraries, under which the laws of `NumericLaws` hold: decimals are
-- hundred-thousandths, and a number is written in strokes behind its sign.
use Prim.Native.Char.{code}
use go_bank_ledger.Prelude.{
  ℕ, zero, suc, ◌+◌, ◌*◌, ◌/◌, ◌≡◌, ◌↔◌, refl, Bool, true, false, Option, none, some, [], ◌∷◌,
  String, ℤ, pos, negsuc, pos_part, neg_part, neg_ℤ, ◌≤ℤ◌, leb_ℤ, ltb_ℤ, eqb_ℤ, arith, ◌==◌,
  if◌then◌else◌,
}
use go_bank_ledger.Prelude.Int.{sub_ℕ}
use go_bank_ledger.Errors.{plain}
use go_bank_ledger.Sqlc.Models.{Uuid, User}
use go_bank_ledger.Sqlc.Tables.{AccountRow, EntryRow, OperationType, Tables, World}
use go_bank_ledger.Runtime.{Runtime, Decimals, NumericLaws}
use go_bank_ledger.Api.Http.{Web, Request, JsonValue, Payload}

strokes : ℕ → String
strokes zero = String.[]
strokes (suc n) = String.◌∷◌ "1" (strokes n)

count_strokes : String → Option ℕ
count_strokes String.[] = some 0
count_strokes (String.◌∷◌ c s) =
    let rest = count_strokes s in
    if code c == b'1' then elim rest [ none ↦ none | some n ↦ some (suc n) ] else none

count-strokes : (n : ℕ) → count_strokes (strokes n) ≡ some n
unfolding count_strokes strokes
count-strokes zero = refl
count-strokes (suc n) = rw (count-strokes n)

unfoldable pub write_number : ℤ → String
unfolding strokes
write_number (pos n) = String.◌∷◌ "+" (strokes n)
write_number (negsuc n) = String.◌∷◌ "-" (strokes (suc n))

abbrev signed : Option ℕ → Bool → Option ℤ
signed none minus = none
signed (some n) true = some (sub_ℕ 0 n)
signed (some n) false = some (pos n)

unfoldable pub read_number : String → Option ℤ
unfolding count_strokes
read_number String.[] = none
read_number (String.◌∷◌ c s) =
    if code c == b'+'
    then signed (count_strokes s) false
    else if code c == b'-'
    then signed (count_strokes s) true
    else none

pub read-write : (z : ℤ) → read_number (write_number z) ≡ some z
unfolding read_number write_number
read-write (pos n) = rw (count-strokes n)
read-write (negsuc n) = rw (count-strokes n) (ground arith)

abbrev pub read_id : String → Option Uuid
read_id s = elim (read_number s) [ none ↦ none | some z ↦ some (pos_part z) ]

abbrev pub bank : Runtime
bank = record {
  fault = λ n. none;
  random_uuid = λ n. n + 1000;
  current_timestamp = λ n. n;
  others = λ n T. T;
  tie_rank = λ n id. id;
  cancelled = λ n. false;
  numeric_in = read_number;
  numeric_out = write_number;
  uuid_parse = read_id;
  uuid_string = λ n. write_number (pos n);
}

-- Half of a ten-thousandth is rounded away from zero.
unfoldable pub round : ℤ → ℤ
round (pos n) = pos ((n + 5) / 10)
round (negsuc n) = sub_ℕ 0 ((n + 6) / 10)

unfoldable pub exact : ℤ → ℤ
exact z = sub_ℕ (10 * pos_part z) (10 * neg_part z)

abbrev pub read_decimal : String → Option ℤ
read_decimal s = elim (read_number s) [ none ↦ none | some z ↦ some (exact z) ]

abbrev pub decimals : Decimals ℤ
decimals = record {
  new_from_string = read_decimal;
  parse_error = λ s. plain "no number";
  zero = pos 0;
  neg = neg_ℤ;
  string_fixed = λ d. write_number (round d);
  less_than = ltb_ℤ;
  less_than_or_equal = leb_ℤ;
  equal = eqb_ℤ;
}

pub round-exact : (z : ℤ) → round (exact z) ≡ z
unfolding round exact
round-exact z = ground arith

pub round-neg : (d : ℤ) → round (neg_ℤ d) ≡ neg_ℤ (round d)
unfolding round neg_ℤ
round-neg d = ground arith

pub round-mono : (a b : ℤ) → ltb_ℤ a b ≡ false → round b ≤ℤ round a
unfolding round
round-mono a b h = ground arith

pub equal-exact : (y z : ℤ) → (eqb_ℤ (exact y) (exact z) ≡ true) ↔ (y ≡ z)
unfolding exact
equal-exact y z = ground arith

pub read_decimal-write : (z : ℤ) → read_decimal (write_number z) ≡ some (exact z)
read_decimal-write z = rw (read-write z, read_decimal)

pub round-zero : round (pos 0) ≡ pos 0
unfolding round
round-zero = refl

abbrev pub bank_laws : NumericLaws bank decimals
bank_laws = record {
  units = round;
  of_units = exact;
  units-of_units = round-exact;
  units-zero = round-zero;
  units-neg = round-neg;
  less_than_mono = round-mono;
  equal_iff = equal-exact;
  numeric_in-string_fixed = λ d. read-write (round d);
  new_from_string-numeric_out = read_decimal-write;
}

-- Alice (2) holds five units that came in by one deposit; Bob (3) holds nothing.
abbrev pub settlement : AccountRow
settlement = record {
  id = 1;
  owner_id = none;
  name = "Settlement Account";
  balance = negsuc 4;
  currency = "USD";
  is_system = true;
  created_at = some 0;
}

abbrev pub alice : AccountRow
alice = record {
  id = 2;
  owner_id = some 7;
  name = "Alice";
  balance = pos 5;
  currency = "USD";
  is_system = false;
  created_at = some 1;
}

abbrev pub bob : AccountRow
bob = record {
  id = 3;
  owner_id = some 8;
  name = "Bob";
  balance = pos 0;
  currency = "USD";
  is_system = false;
  created_at = some 2;
}

abbrev entry_to_alice : EntryRow
entry_to_alice = record {
  id = 20;
  account_id = 2;
  debit = pos 0;
  credit = pos 5;
  transaction_id = 40;
  operation_type = OperationType.deposit;
  description = some "External deposit";
  created_at = some 3;
}

abbrev entry_from_settlement : EntryRow
entry_from_settlement = record {
  id = 21;
  account_id = 1;
  debit = pos 5;
  credit = pos 0;
  transaction_id = 40;
  operation_type = OperationType.deposit;
  description = some "Deposit to account 2";
  created_at = some 3;
}

abbrev customer : Uuid → String → User
customer id email = record {
  id = id;
  email = email;
  hashed_password = "secret";
  created_at = some 0;
}

abbrev pub books : Tables
books = record {
  accounts = settlement ∷ alice ∷ bob ∷ [];
  entries = entry_from_settlement ∷ entry_to_alice ∷ [];
  users =
      customer 7 "alice@bank.example"
      ∷ customer 8 "bob@bank.example"
      ∷ customer 9 "carol@bank.example"
      ∷ [];
  idempotency_keys = [];
}

abbrev pub start : World
start = record { tables = books; tick = 0 }

-- Every body asks for three units, from Alice to Bob; nothing is hashed.
abbrev pub web : Web
web = record {
  decode_auth = λ s. none;
  decode_account_name = λ s. some s;
  decode_amount = λ s. some (JsonValue.text s);
  decode_transfer = λ s. some (record {
    amount = JsonValue.number "+111";
    from_id = "+11";
    to_id = " ";
    from_account_id = "";
    to_account_id = "+111";
  });
  encode = λ p. elim p [ Payload.message_response m ↦ m | Payload.error_response m ↦ m | _ ↦ "" ];
  hash_password = λ s. some s;
  compare_password = λ s t. true;
  sign_token = λ secret user expiry. some secret;
  sha256_hex = λ s. s;
}

-- User 7 asks about account 2.
abbrev pub request : Request
request = record {
  method = "POST";
  path_id = "+11";
  limit = "";
  offset = "2147483648";
  x_idempotency_key = "";
  idempotency_key = "k1";
  claims = some (some "+1111111");
  body = "+111";
}
