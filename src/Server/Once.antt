-- ===== src/Server/Once.antt =====
-- A client that sends a request again: the idempotency middleware around the money handlers, as
-- cmd/main.go puts them together.
use go_bank_ledger.Prelude.{◌+◌, ◌≡◌, refl, ℕ, true, String, Option, none, some, ◌<◌}
use go_bank_ledger.Sqlc.Models.{Uuid}
use go_bank_ledger.Sqlc.Tables.{Tables, World}
use go_bank_ledger.Sqlc.Keys.{key_row, find_key}
use go_bank_ledger.Runtime.{Runtime, Decimals, NumericLaws}
use go_bank_ledger.Exec.Runs.{at}
use go_bank_ledger.Store.Atomic.{Drift, still, more_commits}
use mathlib.Core.Path.{subst}
use go_bank_ledger.Ledger.Steps.{Steps, Steps-trans}
use go_bank_ledger.Api.Http.{Web, Request, Response}
use go_bank_ledger.Api.Money.Answers.{
  Served, DepositServed, WithdrawServed, TransferServed, deposit_handler-Served,
  withdraw_handler-Served, transfer_handler-Served,
}
use go_bank_ledger.Api.Idempotency.{compound_hash}
use go_bank_ledger.Api.Idempotency.Replay.{IsTracked, key_of, middleware-first, middleware-again}
use go_bank_ledger.Server.{HttpRequest, GuardedEndpoint, Platform, Reply, to_reply, request_of}
use go_bank_ledger.Server.Chain.{Settings, guarded_endpoint, tracked_endpoint}

module _ {Rate Limiter Decimal : Type 0} (platform : Platform Rate Limiter) {rt : Runtime}
    {dec : Decimals Decimal} (laws : NumericLaws rt dec) (web : Web) (settings : Settings) where
  -- What the answer of an endpoint that moves money stands for.
  abbrev pub MoneyServed : GuardedEndpoint → Request → Tables → Response × World → Type 0
  MoneyServed GuardedEndpoint.deposit req T out = Served rt (DepositServed laws web req) T out
  MoneyServed GuardedEndpoint.withdraw req T out = Served rt (WithdrawServed laws web req) T out
  MoneyServed GuardedEndpoint.transfer req T out = Served rt (TransferServed laws web req) T out
  MoneyServed _ req T out = Unit

  money_served :
      (endpoint : GuardedEndpoint) (req : Request) (T : Tables) (n : ℕ)
      → MoneyServed endpoint req T
          (guarded_endpoint platform rt dec web settings endpoint req (at T n))
  unfolding guarded_endpoint
  money_served GuardedEndpoint.deposit req T n = deposit_handler-Served laws web req T n
  money_served GuardedEndpoint.withdraw req T n = withdraw_handler-Served laws web req T n
  money_served GuardedEndpoint.transfer req T n = transfer_handler-Served laws web req T n
  money_served GuardedEndpoint.create_account req T n = tt
  money_served GuardedEndpoint.list_accounts req T n = tt
  money_served GuardedEndpoint.get_account req T n = tt
  money_served GuardedEndpoint.get_entries req T n = tt
  money_served GuardedEndpoint.reconcile req T n = tt
  money_served GuardedEndpoint.get_transactions req T n = tt

  -- The request sent at `T` and again at `S`: the first reply is the handler's, with the effect that
  -- it stands for, the second is the same, marked as a hit, and changes nothing.
  pub record SentTwice (endpoint : GuardedEndpoint) (id : String) (user_text : Option String)
      (http : HttpRequest) (T S : Tables) (out : Response × World) (first second : Reply × World)
      : Type 0 where
    pub served : MoneyServed endpoint (request_of http id (some user_text)) T out
    pub first_reply : first.0 ≡ to_reply out.0
    pub second_reply : second.0 ≡ to_reply (record out.0 { cache_hit = true })
    pub left : Tables
    pub saved_later : Drift rt out.1.tables left
    pub entries : first.1.tables.entries ≡ left.entries
    pub accounts : first.1.tables.accounts ≡ left.accounts
    pub unchanged : Drift rt S second.1.tables

  -- Over a database that answers, a request with an idempotency key that is sent again, after its
  -- answer has come and any steps of the bank, runs its handler once, if that answer was no server
  -- error and nobody else saved an answer under its hash before: the first answer is the handler's,
  -- with what a deposit, withdrawal or transfer did, and the second is the same, marked as a hit, and
  -- changes nothing.
  pub tracked_endpoint-twice :
      (answers : (n : ℕ) → rt.fault n ≡ none)
      (others_step : (n : ℕ) (T : Tables) → Steps T (rt.others n T)) (endpoint : GuardedEndpoint)
      (id : String) (user_text : Option String) (http : HttpRequest) (user : Uuid) (T : Tables)
      (n : ℕ) (again : World)
      → let req = request_of http id (some user_text) in
        let run = tracked_endpoint platform rt dec web settings endpoint id user_text http in
        let seen = rt.others n T in
        let out = guarded_endpoint platform rt dec web settings endpoint req (at seen (n + 1)) in
        IsTracked rt web req user
        → find_key (key_of rt web req user) seen.idempotency_keys ≡ none
        → out.0.status < 500
        → key_row
            (compound_hash rt web req user)
            (rt.others out.1.tick out.1.tables).idempotency_keys
          ≡ none
        → Steps (run (at T n)).1.tables again.tables
        → SentTwice endpoint id user_text http seen again.tables out (run (at T n)) (run again)
  unfolding tracked_endpoint
  tracked_endpoint-twice answers others_step endpoint id user_text http user T n again t miss small
        fresh steps =
      let req = request_of http id (some user_text) in
      let f = guarded_endpoint platform rt dec web settings endpoint in
      let (response, w) = f req (at (rt.others n T) (n + 1)) in
      let first =
        middleware-first rt web f req user response T w.tables n w.tick t (answers _) miss refl
          small (answers _) fresh in
      let later =
        Steps-trans (subst (λ (x : Response × World). Steps x.1.tables again.tables) first steps)
          (others_step again.tick again.tables) in
      rw
        (
          first,
          middleware-again rt web f req user response (rt.others w.tick w.tables) w.tick again t
              (answers _) later,
        )
        (record {
          served = money_served endpoint req (rt.others n T) (n + 1);
          first_reply = refl;
          second_reply = refl;
          left = rt.others w.tick w.tables;
          saved_later = more_commits w.tick still;
          entries = refl;
          accounts = refl;
          unchanged = more_commits again.tick still;
        })
