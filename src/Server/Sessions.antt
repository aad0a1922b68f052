-- ===== src/Server/Sessions.antt =====
-- Several instances of cmd/main.go on one database.
use go_bank_ledger.Prelude.{ℕ, ◌≡◌, pos, List}
use go_bank_ledger.Sqlc.Tables.{AccountRow}
use go_bank_ledger.Runtime.{Runtime, Decimals, NumericLaws}
use go_bank_ledger.Ledger.Steps.{IsBank, Steps-IsBank}
use go_bank_ledger.Ledger.Steps.Lasting.{Lasting, Steps-Lasting}
use go_bank_ledger.Ledger.Steps.Sessions.{
  Commit, laws_beside, committed_all, among, committed_all-Steps,
}
use go_bank_ledger.Api.Http.{Web}
use go_bank_ledger.Server.{HttpRequest, Platform}
use go_bank_ledger.Server.Chain.{Server, Settings, serve_all}
use go_bank_ledger.Server.Books.{migrated, serve_all-IsBank, serve_all-Steps}

module _ {Rate Limiter Decimal : Type 0} (platform : Platform Rate Limiter) {rt : Runtime}
    {dec : Decimals Decimal} (laws : NumericLaws rt dec) (web : Web) (settings : Settings)
    (commits : ℕ → List (ℕ × Commit)) where
  -- On the tables that the migrations leave, every sequence of requests leaves a bank that is right,
  -- and takes nothing back that was there before it, whatever other sessions of this program commit
  -- between any two of its transactions and queries, and whatever of that fails.
  pub serve_all-among :
      (settlement : AccountRow) (before after : List (ℕ × HttpRequest))
      (server : Server Rate Limiter)
      → settlement.balance ≡ pos 0
      → server.world.tables ≡ migrated settlement
      → let run = serve_all platform (among rt dec commits) dec web settings in
        let middle = run before server in
        let end = run after middle in
        (IsBank middle.world.tables × IsBank end.world.tables)
        × Lasting middle.world.tables end.world.tables
  serve_all-among settlement before after server zero fresh =
      let others = λ (n : ℕ). committed_all rt dec (commits n) in
      let others_step = λ (n : ℕ). committed_all-Steps laws (commits n) in
      let steps = serve_all-Steps platform (laws_beside others laws) web settings others_step in
      let middle = serve_all platform (among rt dec commits) dec web settings before server in
      let right : IsBank middle.world.tables =
        serve_all-IsBank platform (laws_beside others laws) web settings others_step settlement
          before server zero fresh in
      ((right, Steps-IsBank (steps after middle) right), Steps-Lasting (steps after middle))
