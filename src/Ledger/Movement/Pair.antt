-- ===== src/Ledger/Movement/Pair.antt =====
-- The tail of each transaction of internal/service/ledger.go: two entries, then two updates.
use go_bank_ledger.Prelude.{
  ◌≡◌, ◌∙◌, ap, inl, inr, String, Option, some, ℤ, pos, neg_ℤ, ◌≤ℤ◌, true, arith,
}
use go_bank_ledger.Sqlc.Models.{Uuid, CreateEntryParams, UpdateAccountBalanceParams}
use go_bank_ledger.Sqlc.Tables.{OperationType, Tables}
use go_bank_ledger.Sqlc.Accounts.{find_account, update_account_balance}
use go_bank_ledger.Sqlc.Accounts.Lookup.{add_balance_comm}
use go_bank_ledger.Sqlc.Entries.{passes_checks, operation_type_in, create_entry}
use go_bank_ledger.Sqlc.Entries.Sums.{passes_checks-cases}
use go_bank_ledger.Runtime.{Runtime, Decimals, NumericLaws}
use go_bank_ledger.Exec.{Action, ◌>>◌}
use go_bank_ledger.Exec.Ensures.{Ensures, Ensures-bind, Ensures-weaken}
use go_bank_ledger.Ledger.Movement.{Movement}
use go_bank_ledger.Ledger.Movement.Writes.{
  EntryWritten, BalanceUpdated, create_entry-Ensures, update_account_balance-Ensures,
}

abbrev pub post_pair :
    Runtime
    → CreateEntryParams
    → CreateEntryParams
    → UpdateAccountBalanceParams
    → UpdateAccountBalanceParams
    → Action Unit
post_pair rt c1 c2 u1 u2 = do
  create_entry rt c1
  create_entry rt c2
  update_account_balance rt u1
  update_account_balance rt u2

pub record PairWritten (rt : Runtime) (c1 c2 : CreateEntryParams)
    (u1 u2 : UpdateAccountBalanceParams) (T U : Tables) : Type 0 where
  pub one : Tables
  pub two : Tables
  pub three : Tables
  pub first : EntryWritten rt c1 T one
  pub second : EntryWritten rt c2 one two
  pub third : BalanceUpdated rt u1 two three
  pub fourth : BalanceUpdated rt u2 three U

post_pair-Ensures :
    (rt : Runtime) (c1 c2 : CreateEntryParams) (u1 u2 : UpdateAccountBalanceParams) {T : Tables}
    → Ensures T (post_pair rt c1 c2 u1 u2) (λ _ U. PairWritten rt c1 c2 u1 u2 T U)
post_pair-Ensures rt c1 c2 u1 u2 = Ensures-bind _ _ _ _ (create_entry-Ensures rt c1) λ e1 one w1.
    Ensures-bind _ _ _ _ (create_entry-Ensures rt c2) λ e2 two w2.
      Ensures-bind _ _ _ _ (update_account_balance-Ensures rt u1) λ x three w3.
        Ensures-weaken _ _ _ (update_account_balance-Ensures rt u2) λ y U w4. record {
          one = one;
          two = two;
          three = three;
          first = w1;
          second = w2;
          third = w3;
          fourth = w4;
        }

module _ {Decimal : Type 0} {rt : Runtime} {dec : Decimals Decimal} (laws : NumericLaws rt dec)
    (src dst tx : Uuid) (op : OperationType) (label : String) (amount : Decimal)
    (desc1 desc2 : Option String) (labelled : operation_type_in label ≡ some op) where
  abbrev debit_leg : Option String → CreateEntryParams
  debit_leg desc = record {
    account_id = src;
    debit = dec.string_fixed amount;
    credit = dec.string_fixed dec.zero;
    transaction_id = tx;
    operation_type = label;
    description = desc;
  }

  abbrev credit_leg : Option String → CreateEntryParams
  credit_leg desc = record {
    account_id = dst;
    debit = dec.string_fixed dec.zero;
    credit = dec.string_fixed amount;
    transaction_id = tx;
    operation_type = label;
    description = desc;
  }

  abbrev lower_src : UpdateAccountBalanceParams
  lower_src = record { balance = dec.string_fixed (dec.neg amount); id = src }

  abbrev raise_dst : UpdateAccountBalanceParams
  raise_dst = record { balance = dec.string_fixed amount; id = dst }

  amount_read : (z : ℤ) → rt.numeric_in (dec.string_fixed amount) ≡ some z → z ≡ laws.units amount
  amount_read z e = cc (laws.numeric_in-string_fixed amount)

  zero_read : (z : ℤ) → rt.numeric_in (dec.string_fixed dec.zero) ≡ some z → z ≡ pos 0
  zero_read z e = cc (laws.numeric_in-string_fixed dec.zero, laws.units-zero)

  minus_read :
      (z : ℤ)
      → rt.numeric_in (dec.string_fixed (dec.neg amount)) ≡ some z
      → z ≡ neg_ℤ (laws.units amount)
  minus_read z e = cc (laws.numeric_in-string_fixed (dec.neg amount), laws.units-neg amount)

  op_read : (o : OperationType) → operation_type_in label ≡ some o → o ≡ op
  op_read o e = cc

  positive_amount :
      (debit credit : ℤ)
      → passes_checks debit credit ≡ true
      → rt.numeric_in (dec.string_fixed amount) ≡ some debit
      → rt.numeric_in (dec.string_fixed dec.zero) ≡ some credit
      → pos 1 ≤ℤ laws.units amount
  positive_amount debit credit h e z =
      grind (arith, passes_checks-cases debit credit h, amount_read debit e, zero_read credit z)

  debit_first-Movement :
      (T U : Tables)
      → PairWritten rt (debit_leg desc1) (credit_leg desc2) lower_src raise_dst T U
      → Movement src dst op (laws.units amount) T U
  debit_first-Movement T U p = record {
    tx = tx;
    first = p.first.row;
    second = p.second.row;
    positive =
        positive_amount p.first.row.debit p.first.row.credit p.first.checked p.first.debit
          p.first.credit;
    src_exists = p.first.owner;
    dst_exists =
        λ e. p.second.owner (ap (λ (t : Tables). find_account dst t.accounts) p.first.tables ∙ e);
    legs = inl (
      record {
        account = p.first.account;
        debit = amount_read p.first.row.debit p.first.debit;
        credit = zero_read p.first.row.credit p.first.credit;
        tx = p.first.tx;
        op = op_read p.first.row.operation_type p.first.op;
      },
      record {
        account = p.second.account;
        debit = zero_read p.second.row.debit p.second.debit;
        credit = amount_read p.second.row.credit p.second.credit;
        tx = p.second.tx;
        op = op_read p.second.row.operation_type p.second.op;
      },
    );
    entries = cc (p.first.tables, p.second.tables, p.third.tables, p.fourth.tables);
    accounts = cc (
      p.first.tables,
      p.second.tables,
      p.third.tables,
      p.fourth.tables,
      minus_read p.third.delta p.third.parsed,
      amount_read p.fourth.delta p.fourth.parsed,
    );
    users = ground (arith, p.first.tables, p.second.tables, p.third.tables, p.fourth.tables);
    keys = ground (arith, p.first.tables, p.second.tables, p.third.tables, p.fourth.tables);
  }

  credit_first-Movement :
      (T U : Tables)
      → PairWritten rt (credit_leg desc1) (debit_leg desc2) raise_dst lower_src T U
      → Movement src dst op (laws.units amount) T U
  credit_first-Movement T U p = record {
    tx = tx;
    first = p.first.row;
    second = p.second.row;
    positive =
        positive_amount p.second.row.debit p.second.row.credit p.second.checked p.second.debit
          p.second.credit;
    dst_exists = p.first.owner;
    src_exists =
        λ e. p.second.owner (ap (λ (t : Tables). find_account src t.accounts) p.first.tables ∙ e);
    legs = inr (
      record {
        account = p.first.account;
        debit = zero_read p.first.row.debit p.first.debit;
        credit = amount_read p.first.row.credit p.first.credit;
        tx = p.first.tx;
        op = op_read p.first.row.operation_type p.first.op;
      },
      record {
        account = p.second.account;
        debit = amount_read p.second.row.debit p.second.debit;
        credit = zero_read p.second.row.credit p.second.credit;
        tx = p.second.tx;
        op = op_read p.second.row.operation_type p.second.op;
      },
    );
    entries = cc (p.first.tables, p.second.tables, p.third.tables, p.fourth.tables);
    accounts = cc (
      p.first.tables,
      p.second.tables,
      p.third.tables,
      p.fourth.tables,
      amount_read p.third.delta p.third.parsed,
      minus_read p.fourth.delta p.fourth.parsed,
      add_balance_comm src dst (neg_ℤ (laws.units amount)) (laws.units amount) T.accounts,
    );
    users = ground (arith, p.first.tables, p.second.tables, p.third.tables, p.fourth.tables);
    keys = ground (arith, p.first.tables, p.second.tables, p.third.tables, p.fourth.tables);
  }

  pub debit_first-Ensures :
      {T : Tables}
      → Ensures T
          (post_pair rt (debit_leg desc1) (credit_leg desc2) lower_src raise_dst)
          (λ _ U. Movement src dst op (laws.units amount) T U)
  debit_first-Ensures {T} =
      Ensures-weaken _ _ _ (post_pair-Ensures rt _ _ _ _) λ x U p. debit_first-Movement T U p

  pub credit_first-Ensures :
      {T : Tables}
      → Ensures T
          (post_pair rt (credit_leg desc1) (debit_leg desc2) raise_dst lower_src)
          (λ _ U. Movement src dst op (laws.units amount) T U)
  credit_first-Ensures {T} =
      Ensures-weaken _ _ _ (post_pair-Ensures rt _ _ _ _) λ x U p. credit_first-Movement T U p
