-- ===== src/Examples/Instances.antt =====
-- The theorems on several instances and on the journal, at concrete inputs.
use go_bank_ledger.Prelude.{ℕ, refl, List, [], ◌∷◌, ◌==◌, if◌then◌else◌}
use go_bank_ledger.Ledger.Steps.{IsBank, here}
use go_bank_ledger.Ledger.Steps.Lasting.{Lasting}
use go_bank_ledger.Ledger.Steps.Sessions.{Commit, deposit_to, add_user, among}
use go_bank_ledger.Server.Chain.{Server, new_server, serve_all}
use go_bank_ledger.Server.Sessions.{serve_all-among}
use go_bank_ledger.Server.Books.{migrated, migrated-IsBank}
use go_bank_ledger.Server.Journal.{serve_all-Journals}
use go_bank_ledger.Ledger.Journal.{Journals, Tells, journal_of}
use go_bank_ledger.Examples.Bank.{bank, decimals, bank_laws, web}
use go_bank_ledger.Examples.Requests.{platform, settings, settlement_0, traffic}

-- Before its second step somebody registers, and before the third there is a deposit.
abbrev commits : ℕ → List (ℕ × Commit)
commits n =
    if n == 1
    then (50, add_user (record { email = "dora@bank.example"; hashed_password = "x" })) ∷ []
    else (if n == 2 then (70, deposit_to 2 "+111") ∷ [] else [])

abbrev empty_bank : Server Unit ℕ
empty_bank = new_server platform tt 9 (record { tables = migrated settlement_0; tick = 0 })

serve_all-among_example :
    let run = serve_all platform (among bank decimals commits) decimals web settings in
    let middle = run traffic empty_bank in
    let end = run traffic middle in
    (IsBank middle.world.tables × IsBank end.world.tables)
    × Lasting middle.world.tables end.world.tables
unfolding new_server
serve_all-among_example =
    serve_all-among platform bank_laws web settings commits settlement_0 traffic traffic empty_bank
      refl refl

serve_all-Journals_example :
    let U = (serve_all platform bank decimals web settings traffic empty_bank).world.tables in
    Journals (journal_of (migrated settlement_0)) (journal_of U) × Tells U (journal_of U)
unfolding new_server
serve_all-Journals_example =
    serve_all-Journals platform bank_laws web settings (λ n T. here) traffic empty_bank
      (migrated-IsBank settlement_0 refl)
