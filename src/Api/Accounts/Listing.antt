-- ===== src/Api/Accounts/Listing.antt =====
-- What `ListAccounts` of internal/api/handler.go shows.
use go_bank_ledger.Prelude.{
  ℕ, ◌+◌, ◌≡◌, refl, none, some, List, [], ◌∷◌, ◌++◌, map, Bool, true, false, Bool-cases,
  Option-cases, inl, inr, if◌then◌else◌,
}
use mathlib.Core.List.{Perm, perm_middle}
use mathlib.Core.List.Perm
use go_bank_ledger.Sqlc.Models.{Uuid}
use go_bank_ledger.Sqlc.Tables.{AccountRow, Tables}
use go_bank_ledger.Sqlc.Sorting.{
  All, InOrder, sort_by-All, no_later, no_later_total, sort_by-Perm, sort_ranked-InOrder,
}
use go_bank_ledger.Sqlc.Accounts.{owned_by, newest_first, list_accounts_by_owner, scan_account}
use go_bank_ledger.Runtime.{Runtime}
use go_bank_ledger.Store.{on_pool}
use go_bank_ledger.Exec.{◌>>=◌, statement, tie_order}
use go_bank_ledger.Exec.Runs.{at}
use go_bank_ledger.Api.Http.{Web, Request, account_list, respond_json, respond, call}
use go_bank_ledger.Api.Mapper.{to_account_response}
use go_bank_ledger.Api.Queries.{owns}
use go_bank_ledger.Api.Auth.{authenticate}
use go_bank_ledger.Api.Accounts.{list_accounts_handler}
use go_bank_ledger.Api.Accounts.Access.{SentBy}

-- Whether the user owns them is the same for all the accounts.
abbrev pub AllOwned : Bool → Uuid → List AccountRow → Type 0
AllOwned b user = All (λ (r : AccountRow). owns r.owner_id user ≡ b)

-- The user's accounts, newest first, beside those of others.
pub record OwnAccounts (user : Uuid) (T : Tables) (rows : List AccountRow) : Type 0 where
  pub others : List AccountRow
  pub own : AllOwned true user rows
  pub foreign : AllOwned false user others
  pub complete : Perm (rows ++ others) T.accounts
  pub ordered : InOrder (λ (r s : AccountRow). no_later s.created_at r.created_at) rows

abbrev not_owned : Uuid → List AccountRow → List AccountRow
not_owned user [] = []
not_owned user (r ∷ rs) = if owns r.owner_id user then not_owned user rs else r ∷ not_owned user rs

owned_by-cons :
    (user : Uuid) (r : AccountRow) (rs : List AccountRow)
    → owned_by (some user) (r ∷ rs)
      ≡ (if owns r.owner_id user then r ∷ owned_by (some user) rs else owned_by (some user) rs)
unfolding owned_by owns
owned_by-cons user r rs = elim (Option-cases r.owner_id) [
  | inl nobody ↦ simp nobody
  | inr (owner, somebody) ↦ simp somebody
]

owned-split :
    (user : Uuid) (rs : List AccountRow) → Perm (owned_by (some user) rs ++ not_owned user rs) rs
unfolding owned_by
owned-split user [] = Perm.refl []
owned-split user (r ∷ rs) = elim (Bool-cases (owns r.owner_id user)) [
  | inl mine ↦ rw (owned_by-cons user r rs, mine) (Perm.cons r (owned-split user rs))
  | inr other ↦
      rw (owned_by-cons user r rs, other)
        (Perm.trans (perm_middle (owned_by (some user) rs) (not_owned user rs))
          (Perm.cons r (owned-split user rs)))
]

owned_by-AllOwned :
    (user : Uuid) (rs : List AccountRow) → AllOwned true user (owned_by (some user) rs)
unfolding owned_by
owned_by-AllOwned user [] = tt
owned_by-AllOwned user (r ∷ rs) = elim (Bool-cases (owns r.owner_id user)) [
  | inl mine ↦ rw (owned_by-cons user r rs, mine) (mine, owned_by-AllOwned user rs)
  | inr other ↦ rw (owned_by-cons user r rs, other) (owned_by-AllOwned user rs)
]

not_owned-AllOwned : (user : Uuid) (rs : List AccountRow) → AllOwned false user (not_owned user rs)
not_owned-AllOwned user [] = tt
not_owned-AllOwned user (r ∷ rs) = elim (Bool-cases (owns r.owner_id user)) [
  | inl mine ↦ rw mine (not_owned-AllOwned user rs)
  | inr other ↦ rw other (other, not_owned-AllOwned user rs)
]

newest_first-OwnAccounts :
    (user : Uuid) (rank : Uuid → ℕ) (T : Tables)
    → OwnAccounts user T (newest_first rank (owned_by (some user) T.accounts))
unfolding newest_first
newest_first-OwnAccounts user rank T = record {
  others = not_owned user T.accounts;
  own = sort_by-All _ _ _ (owned_by-AllOwned user T.accounts);
  foreign = not_owned-AllOwned user T.accounts;
  complete =
      Perm.trans (Perm.append_right (not_owned user T.accounts) (sort_by-Perm _ _))
        (owned-split user T.accounts);
  ordered = sort_ranked-InOrder _ _ (λ r s. no_later_total s.created_at r.created_at) _;
}

module _ (rt : Runtime) (web : Web) where
  list-runs :
      (user : Uuid) (req : Request) (T U : Tables) (n : ℕ)
      → U ≡ rt.others n T
      → SentBy rt web user req
      → rt.fault n ≡ none
      → respond (list_accounts_handler rt web req) (at T n) ≡ (
        respond_json web 200 (
            account_list (
              map (to_account_response rt) (
                map
                  (scan_account rt)
                  (newest_first (rt.tie_rank (n + 1)) (owned_by (some user) U.accounts))))),
        at U (n + 1),
      )
  unfolding on_pool respond list_accounts_handler authenticate call list_accounts_by_owner statement
      tie_order ◌>>=◌
  list-runs user req T U n seen sent quiet = simp (← seen, sent.claims, sent.parsed, quiet)

  -- Where the database answers, ListAccounts answers a user with a valid token 200 and a list that
  -- shows every account of the user once, newest first, and no account that somebody else or nobody
  -- owns, in the tables as other sessions left them. It changes no table.
  pub list_accounts_handler-OwnAccounts :
      (user : Uuid) (req : Request) (T : Tables) (n : ℕ)
      → SentBy rt web user req
      → rt.fault n ≡ none
      → let U = rt.others n T in
        (rows : List AccountRow) × (OwnAccounts user U rows
          × (respond (list_accounts_handler rt web req) (at T n) ≡ (
            respond_json web 200
                (account_list (map (to_account_response rt) (map (scan_account rt) rows))),
            at U (n + 1),
          )))
  list_accounts_handler-OwnAccounts user req T n sent quiet =
      let U = rt.others n T in
      (
        newest_first (rt.tie_rank (n + 1)) (owned_by (some user) U.accounts),
        (
          newest_first-OwnAccounts user (rt.tie_rank (n + 1)) U,
          list-runs user req T U n refl sent quiet,
        ),
      )
