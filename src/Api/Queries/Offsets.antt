-- ===== src/Api/Queries/Offsets.antt =====
-- What an authorized request gets from `GetEntries` of internal/api/handler.go, whatever its offset.
use go_bank_ledger.Prelude.{ℕ, ◌+◌, ◌≡◌, refl, none, some, List, map, ℤ, pos, negsuc}
use go_bank_ledger.Sqlc.Models.{Uuid}
use go_bank_ledger.Sqlc.Tables.{EntryRow, Tables, World}
use go_bank_ledger.Sqlc.Accounts.{get_account}
use go_bank_ledger.Sqlc.Entries.{list_entries_by_account}
use go_bank_ledger.Sqlc.Entries.Pages.{History, page, not_negative, newest_first-History}
use go_bank_ledger.Runtime.{Runtime}
use go_bank_ledger.Store.{on_pool}
use go_bank_ledger.Exec.{◌>>=◌, statement, tie_order}
use go_bank_ledger.Exec.Runs.{at}
use go_bank_ledger.Api.Http.{
  Web, Request, Response, call, respond, respond_json, respond_error, entry_list,
}
use go_bank_ledger.Api.Mapper.{to_entry_response}
use go_bank_ledger.Api.Auth.{authenticate}
use go_bank_ledger.Api.Money.Answers.{Authorized}
use go_bank_ledger.Api.Queries.{page_limit, page_offset, get_entries_handler}
use go_bank_ledger.Api.Queries.Paging.{NamesLimit, NamesOffset, page_limit-Names, page_offset-Names}
use go_bank_ledger.Api.Queries.Statement.{is_negative}

module _ (rt : Runtime) (web : Web) where
  -- A page of the account in the tables `U`, or the report that the database refused the offset.
  pub data Paged (req : Request) (id : Uuid) (U : Tables) (k : ℕ) (out : Response × World)
      : Type 0 where
    page_given :
        {rows : List EntryRow} {limit offset : ℕ}
        → History id U rows
        → NamesLimit req.limit limit
        → NamesOffset req.offset (pos offset)
        → out ≡ (
          respond_json web 200
              (entry_list (map (to_entry_response rt) (page rt id rows limit offset))),
          at U k,
        )
        → Paged req id U k out
    page_refused :
        {m : ℕ}
        → NamesOffset req.offset (negsuc m)
        → out ≡ (respond_error web 500 "failed to fetch entries", at U k)
        → Paged req id U k out

  Paged-offset :
      (req : Request) (id : Uuid) (T : Tables) (n limit : ℕ) (offset : ℤ)
      → Authorized rt req id (rt.others n T)
      → rt.uuid_parse req.path_id ≡ some id
      → rt.fault n ≡ none
      → rt.fault (n + 1) ≡ none
      → page_limit req.limit ≡ pos limit
      → NamesLimit req.limit limit
      → page_offset req.offset ≡ offset
      → NamesOffset req.offset offset
      → Paged req id
          (rt.others (n + 1) (rt.others n T))
          (n + 1 + 1)
          (respond (get_entries_handler rt web req) (at T n))
  unfolding on_pool respond get_entries_handler authenticate call get_account
      list_entries_by_account statement tie_order ◌>>=◌
  Paged-offset req id T n limit (pos o) a parsed q1 q2 l ln s sn =
      page_given (newest_first-History id (rt.tie_rank (n + 1 + 1)) _) ln sn (
        simp (
          a.claims,
          a.parsed,
          parsed,
          q1,
          a.found,
          a.allowed,
          l,
          s,
          q2,
          not_negative limit,
          not_negative o,
        ))
  Paged-offset req id T n limit (negsuc m) a parsed q1 q2 l ln s sn = page_refused sn (
      simp (
        a.claims,
        a.parsed,
        parsed,
        q1,
        a.found,
        a.allowed,
        l,
        s,
        q2,
        not_negative limit,
        is_negative m,
      ))

  -- Over a database that answers both queries, a request with a valid token for an account that is the
  -- user's, or nobody's, gets 200 with the page that its parameters name, unless the number in its
  -- "offset" has a remainder by 2 ^ 32 of 2 ^ 31 or more: then it goes to the database as a negative
  -- number, which PostgreSQL refuses, and the answer is 500. No table changes.
  pub get_entries_handler-Paged :
      (req : Request) (id : Uuid) (T : Tables) (n : ℕ)
      → Authorized rt req id (rt.others n T)
      → rt.uuid_parse req.path_id ≡ some id
      → rt.fault n ≡ none
      → rt.fault (n + 1) ≡ none
      → Paged req id
          (rt.others (n + 1) (rt.others n T))
          (n + 1 + 1)
          (respond (get_entries_handler rt web req) (at T n))
  get_entries_handler-Paged req id T n a parsed q1 q2 =
      let (limit, (asked, names)) = page_limit-Names req.limit in
      Paged-offset req id T n limit (page_offset req.offset) a parsed q1 q2 asked names refl
        (page_offset-Names req.offset)
