-- ===== src/Server/Journal.antt =====
-- What the server of cmd/main.go does to the journal.
use go_bank_ledger.Prelude.{ℕ, List}
use go_bank_ledger.Sqlc.Tables.{Tables}
use go_bank_ledger.Runtime.{Runtime, Decimals, NumericLaws}
use go_bank_ledger.Ledger.Steps.{IsBank, Steps, Steps-IsBank}
use go_bank_ledger.Ledger.Journal.{journal_of, Journals, Tells, Steps-Journals, IsLedger-Tells}
use go_bank_ledger.Api.Http.{Web}
use go_bank_ledger.Server.{HttpRequest, Platform}
use go_bank_ledger.Server.Chain.{Server, Settings, serve_all}
use go_bank_ledger.Server.Books.{serve_all-Steps}

module _ {Rate Limiter Decimal : Type 0} (platform : Platform Rate Limiter) {rt : Runtime}
    {dec : Decimals Decimal} (laws : NumericLaws rt dec) (web : Web) (settings : Settings)
    (others_step : (n : ℕ) (T : Tables) → Steps T (rt.others n T)) where
  -- On a bank that is right, whatever the server is asked does nothing to the journal, which is the
  -- entries without their order, but to add movements: each a debit and a credit of one positive
  -- amount under one transaction id, if other sessions only take steps of the bank. Afterwards every
  -- stored balance is the one that the journal tells, and every transaction in it nets to 0.
  pub serve_all-Journals :
      (traffic : List (ℕ × HttpRequest)) (server : Server Rate Limiter)
      → IsBank server.world.tables
      → let U = (serve_all platform rt dec web settings traffic server).world.tables in
        Journals (journal_of server.world.tables) (journal_of U) × Tells U (journal_of U)
  serve_all-Journals traffic server right =
      let steps = serve_all-Steps platform laws web settings others_step traffic server in
      (Steps-Journals steps, IsLedger-Tells (Steps-IsBank steps right).ledger)
