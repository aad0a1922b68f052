-- ===== src/Server/Twice.antt =====
-- A client that sends a request to the server of cmd/main.go again.
use go_bank_ledger.Prelude.{ℕ, ◌+◌, ◌≡◌, ap, ◌∙◌, List, String, Option, none, some, ◌<◌}
use mathlib.Core.Path.{subst}
use go_bank_ledger.Sqlc.Models.{Uuid}
use go_bank_ledger.Sqlc.Tables.{Tables, World}
use go_bank_ledger.Sqlc.Keys.{key_row, find_key}
use go_bank_ledger.Runtime.{Runtime, Decimals, NumericLaws}
use go_bank_ledger.Exec.Runs.{at}
use go_bank_ledger.Api.Http.{Web, Response}
use go_bank_ledger.Api.Idempotency.{compound_hash}
use go_bank_ledger.Api.Idempotency.Replay.{IsTracked, key_of}
use go_bank_ledger.Server.{
  HttpRequest, GuardedEndpoint, Platform, Reply, to_reply, request_of, request_size_limiter,
}
use go_bank_ledger.Server.Chain.{Server, Settings, guarded_endpoint, serve, serve_all}
use go_bank_ledger.Server.Once.{MoneyServed, tracked_endpoint-twice}
use go_bank_ledger.Server.Passage.{Passes, serve-Reaches}
use go_bank_ledger.Server.Books.{serve_all-Steps}
use go_bank_ledger.Store.Atomic.{Drift}
use go_bank_ledger.Ledger.Steps.{Steps}

module _ {Rate Limiter Decimal : Type 0} (platform : Platform Rate Limiter) {rt : Runtime}
    {dec : Decimals Decimal} (laws : NumericLaws rt dec) (web : Web) (settings : Settings) where
  -- Both replies are the handler's, which ran once, with the effect that its answer stands for.
  pub record ServedTwice (endpoint : GuardedEndpoint) (id : String) (user_text : Option String)
      (http : HttpRequest) (T S : Tables) (out : Response × World)
      (first second : Reply × Server Rate Limiter) : Type 0 where
    pub served :
        MoneyServed platform laws web settings endpoint
          (request_of (request_size_limiter http) id (some user_text))
          T
          out
    pub first_status : first.0.status ≡ out.0.status
    pub first_body : first.0.body ≡ out.0.body
    pub second_status : second.0.status ≡ out.0.status
    pub second_body : second.0.body ≡ out.0.body
    pub left : Tables
    pub saved_later : Drift rt out.1.tables left
    pub entries : first.1.world.tables.entries ≡ left.entries
    pub accounts : first.1.world.tables.accounts ≡ left.accounts
    pub unchanged : Drift rt S second.1.world.tables

  -- Over a database that answers, a request for a protected route with an idempotency key, which
  -- passes the token check and the limits and is sent again after its answer and any number of other
  -- requests, runs its handler once, if that answer was no server error and nobody else saved an
  -- answer under its hash before it did: both replies have the status and the body of the handler's
  -- answer, with what a deposit, withdrawal or transfer did, and the second request changes nothing.
  -- Other sessions take steps of the bank all the while.
  pub serve-twice :
      (answers : (n : ℕ) → rt.fault n ≡ none)
      (others_step : (n : ℕ) (T : Tables) → Steps T (rt.others n T)) (endpoint : GuardedEndpoint)
      (id : String) (user_text : Option String) (http : HttpRequest) (user : Uuid) (now later : ℕ)
      (traffic : List (ℕ × HttpRequest)) (server : Server Rate Limiter)
      → let req = request_of (request_size_limiter http) id (some user_text) in
        let w = server.world in
        let seen = rt.others w.tick w.tables in
        let out =
          guarded_endpoint platform rt dec web settings endpoint req (at seen (w.tick + 1)) in
        let first = serve platform rt dec web settings now http server in
        let between = serve_all platform rt dec web settings traffic first.1 in
        let second = serve platform rt dec web settings later http between in
        IsTracked rt web req user
        → find_key (key_of rt web req user) seen.idempotency_keys ≡ none
        → out.0.status < 500
        → key_row
            (compound_hash rt web req user)
            (rt.others out.1.tick out.1.tables).idempotency_keys
          ≡ none
        → Passes platform rt dec web settings endpoint id user_text now http server
        → Passes platform rt dec web settings endpoint id user_text later http between
        → ServedTwice endpoint id user_text http seen between.world.tables out first second
  unfolding to_reply
  serve-twice answers others_step endpoint id user_text http user now later traffic server t miss
        small fresh passes passes_again =
      let w = server.world in
      let first = serve platform rt dec web settings now http server in
      let between = serve_all platform rt dec web settings traffic first.1 in
      let r =
        serve-Reaches platform rt dec web settings endpoint id user_text now http server passes in
      let r_again =
        serve-Reaches platform rt dec web settings endpoint id user_text later http between
          passes_again in
      let s =
        tracked_endpoint-twice platform laws web settings answers others_step endpoint id user_text
          (request_size_limiter http) user w.tables w.tick between.world t miss small fresh
          (subst (λ (v : World). Steps v.tables between.world.tables) r.world
            (serve_all-Steps platform laws web settings others_step traffic first.1)) in
      record {
        served = s.served;
        first_status = r.status ∙ ap (λ (x : Reply). x.status) s.first_reply;
        first_body = r.body ∙ ap (λ (x : Reply). x.body) s.first_reply;
        second_status = r_again.status ∙ ap (λ (x : Reply). x.status) s.second_reply;
        second_body = r_again.body ∙ ap (λ (x : Reply). x.body) s.second_reply;
        left = s.left;
        saved_later = s.saved_later;
        entries = ap (λ (v : World). v.tables.entries) r.world ∙ s.entries;
        accounts = ap (λ (v : World). v.tables.accounts) r.world ∙ s.accounts;
        unchanged = rw r_again.world s.unchanged;
      }
