-- ===== src/Sqlc/Entries/Pages.antt =====
-- The pages of `ListEntriesByAccount` in db/sqlc/entries.sql.go.
use go_bank_ledger.Prelude.{
  ℕ, ◌+◌, ◌≡◌, List, [], ◌∷◌, ◌++◌, map, pos, ltb_ℤ, Bool, ◌&&◌, false, arith,
}
use mathlib.Core.List.{Perm}
use go_bank_ledger.Sqlc.Models.{Uuid, Entry, ListEntriesByAccountParams}
use go_bank_ledger.Sqlc.Tables.{EntryRow, Tables}
use go_bank_ledger.Sqlc.Sorting.{
  All, InOrder, no_later, no_later_total, ranked, sort_by-Perm, sort_ranked-InOrder,
}
use go_bank_ledger.Sqlc.Entries.{
  newest_first, of_account, take, drop, scan_entry, list_entries_by_account,
}
use go_bank_ledger.Runtime.{Runtime}
use go_bank_ledger.Exec.{ok}
use go_bank_ledger.Exec.Runs.{at}

-- The rows of an account, newest first.
pub record History (id : Uuid) (T : Tables) (rows : List EntryRow) : Type 0 where
  pub ordered : InOrder (λ (e f : EntryRow). no_later f.created_at e.created_at) rows
  pub complete : Perm rows (of_account id T.entries)

pub newest_first-History :
    (id : Uuid) (rank : Uuid → ℕ) (T : Tables)
    → History id T (newest_first rank (of_account id T.entries))
unfolding newest_first
newest_first-History id rank T = record {
  ordered = sort_ranked-InOrder _ _ (λ e f. no_later_total f.created_at e.created_at) _;
  complete = sort_by-Perm _ _;
}

-- No two entries of the list, or of the list and the entry, have the same time.
abbrev Differs : EntryRow → EntryRow → Type 0
Differs e f = (no_later f.created_at e.created_at && no_later e.created_at f.created_at) ≡ false

abbrev pub Untied : List EntryRow → Type 0
Untied [] = Unit
Untied (e ∷ es) = All (Differs e) es × Untied es

abbrev newer : (Uuid → ℕ) → EntryRow → EntryRow → Bool
newer rank = ranked (λ e f. no_later f.created_at e.created_at) (λ e. rank e.id)

pub not_negative : (n : ℕ) → ltb_ℤ (pos n) (pos 0) ≡ false
not_negative n = ground arith

module _ (rt : Runtime) where
  abbrev pub page : Uuid → List EntryRow → ℕ → ℕ → List Entry
  page id rows limit offset = map (scan_entry rt) (take limit (drop offset rows))

  abbrev pub ask : Uuid → ℕ → ℕ → ListEntriesByAccountParams
  ask id limit offset = record { account_id = id; limit = pos limit; offset = pos offset }

  -- Two pages that follow each other, and the page of both sizes.
  pub record Continued (id : Uuid) (T : Tables) (limit more offset n m k : ℕ) : Type 0 where
    pub rows : List EntryRow
    pub history : History id T rows
    pub first :
        list_entries_by_account rt (ask id limit offset) (at T n)
        ≡ (ok (page id rows limit offset), at T (n + 1))
    pub second :
        list_entries_by_account rt (ask id more (offset + limit)) (at T m)
        ≡ (ok (page id rows more (offset + limit)), at T (m + 1))
    pub whole :
        list_entries_by_account rt (ask id (limit + more) offset) (at T k)
        ≡ (ok (page id rows limit offset ++ page id rows more (offset + limit)), at T (k + 1))
