-- ===== src/Api/Queries/Statement.antt =====
-- Who is shown the entries of an account by `GetEntries` of internal/api/handler.go, and which.
use go_bank_ledger.Prelude.{
  ℕ, String, ◌+◌, ◌≡◌, ◌≢◌, refl, some, List, map, ℤ, pos, negsuc, ltb_ℤ, true, inl, inr,
  Option-cases, arith,
}
use go_bank_ledger.Sqlc.Models.{Uuid, Entry}
use go_bank_ledger.Sqlc.Tables.{EntryRow, Tables, World}
use go_bank_ledger.Sqlc.Entries.{newest_first, of_account, list_entries_by_account}
use go_bank_ledger.Sqlc.Entries.Pages.{History, page, not_negative, newest_first-History}
use go_bank_ledger.Runtime.{Runtime}
use go_bank_ledger.Store.{on_pool}
use go_bank_ledger.Store.Atomic.{Drift, still, more_commits}
use go_bank_ledger.Exec.{Result, ok, err, ◌>>=◌, pure, statement, tie_order}
use go_bank_ledger.Exec.Runs.{at}
use go_bank_ledger.Api.Http.{
  Web, Request, Response, Handler, call, respond, respond_json, entry_list,
}
use go_bank_ledger.Api.Mapper.{to_entry_response}
use go_bank_ledger.Api.Money.Answers.{Authorized}
use go_bank_ledger.Api.Money.Reply.{Ends, Guarantees, G-or_fail, G-fail_if, G-get_account}
use go_bank_ledger.Api.Money.Guards.{G-authenticate}
use go_bank_ledger.Api.Queries.{page_limit, get_entries_handler}
use go_bank_ledger.Api.Queries.Access.{Bad, refuses}
use go_bank_ledger.Api.Queries.Paging.{NamesLimit, NamesOffset, page_limit-Names, page_offset-Names}

-- A page of an account's history that was shown to the user of the request: `seen` is what the
-- account was read from, `listing` what the entries were.
pub record Stated (rt : Runtime) (web : Web) (req : Request) (T : Tables) (body : String)
    : Type 0 where
  pub id : Uuid
  pub path : rt.uuid_parse req.path_id ≡ some id
  pub seen : Tables
  pub drift : Drift rt T seen
  pub authorized : Authorized rt req id seen
  pub listing : Tables
  pub later : Drift rt seen listing
  pub rows : List EntryRow
  pub history : History id listing rows
  pub limit : ℕ
  pub offset : ℕ
  pub limited : NamesLimit req.limit limit
  pub skipped : NamesOffset req.offset (pos offset)
  pub content :
      body ≡ web.encode (entry_list (map (to_entry_response rt) (page rt id rows limit offset)))

-- A request at the tables `T` that came out as a response and a world.
pub data Listed (rt : Runtime) (web : Web) (req : Request) (T : Tables) (out : Response × World)
    : Type 0 where
  stated :
      out.0.status ≡ 200
      → Drift rt T out.1.tables
      → Stated rt web req T out.0.body
      → Listed rt web req T out
  withheld : out.0.status ≢ 200 → Drift rt T out.1.tables → Listed rt web req T out

abbrev Good : Runtime → Web → Request → Tables → Response → Tables → Type 0
Good rt web req T r U = (r.status ≡ 200) × (Drift rt T U × Stated rt web req T r.body)

pub is_negative : (n : ℕ) → ltb_ℤ (negsuc n) (pos 0) ≡ true
is_negative n = ground arith

module _ {T : Tables} {Q : Response → Tables → Type 0} {R : Response → Tables → Type 0}
    (rt : Runtime) where
  -- The page is read, or the database says no, as it does to a negative limit or offset.
  G-page :
      (id : Uuid) (limit offset : ℤ) (response : Response) (f : List Entry → Handler Response)
      → ((n : ℕ) → R response (rt.others n T))
      → ((n l o : ℕ)
          → limit ≡ pos l
          → offset ≡ pos o
          → Guarantees
              (rt.others n T)
              (f (
                page rt id
                  (newest_first (rt.tie_rank (n + 1)) (of_account id (rt.others n T).entries))
                  l
                  o))
              Q
              R)
      → Guarantees T
          (call
              (on_pool rt (
                list_entries_by_account rt
                  (record { account_id = id; limit = limit; offset = offset })))
              (λ e. response)
            >>= f)
          Q
          R
  unfolding on_pool list_entries_by_account statement tie_order call ◌>>=◌
  G-page id (negsuc l) offset response f r k = record {
    at_step = λ n. elim (Option-cases (rt.fault n)) [
      | inr (e, failed) ↦ simp failed (r n)
      | inl fine ↦ simp (fine, is_negative l) (r n)
    ];
  }
  G-page id (pos l) (negsuc o) response f r k = record {
    at_step = λ n. elim (Option-cases (rt.fault n)) [
      | inr (e, failed) ↦ simp failed (r n)
      | inl fine ↦ simp (fine, not_negative l, is_negative o) (r n)
    ];
  }
  G-page id (pos l) (pos o) response f r k = record {
    at_step = λ n. elim (Option-cases (rt.fault n)) [
      | inr (e, failed) ↦ simp failed (r n)
      | inl fine ↦ simp (fine, not_negative l, not_negative o) ((k n l o refl refl).at_step (n + 1))
    ];
  }

limit-named : (text : String) (l : ℕ) → page_limit text ≡ pos l → NamesLimit text l
limit-named text l e =
    let (k, (asked, names)) = page_limit-Names text in
    let same : k ≡ l = grind arith in rw (← same) names

module _ (rt : Runtime) (web : Web) where
  get_entries_handler-Guarantees :
      (req : Request) (T : Tables)
      → Guarantees T (get_entries_handler rt web req) (Good rt web req T) (Bad rt T)
  unfolding get_entries_handler respond_json pure
  get_entries_handler-Guarantees req T =
      G-authenticate rt web req _ (refuses rt web 401 _ (omega arith) still) λ token user c p.
        G-or_fail _ _ _ (refuses rt web 400 _ (omega arith) still) λ id path.
          G-get_account rt id _ _ (λ n e. refuses rt web 404 _ (omega arith) (more_commits n still))
            λ n row found.
              let d : Drift rt T (rt.others n T) = more_commits n still in
              G-fail_if _ _ _ (refuses rt web 403 _ (omega arith) d) λ allowed.
                G-page rt id _ _ _ _ (λ m. refuses rt web 500 _ (omega arith) (more_commits m d))
                  λ m l o limited skipped. record {
                    at_step = λ k. (
                      refl,
                      (
                        more_commits m d,
                        record {
                          id = id;
                          path = path;
                          seen = rt.others n T;
                          drift = d;
                          authorized = record {
                            token = token;
                            user = user;
                            row = row;
                            claims = c;
                            parsed = p;
                            found = found;
                            allowed = allowed;
                          };
                          listing = rt.others m (rt.others n T);
                          later = more_commits m still;
                          rows = _;
                          history =
                              newest_first-History id (rt.tie_rank (m + 1))
                                (rt.others m (rt.others n T));
                          limit = l;
                          offset = o;
                          limited = limit-named req.limit l limited;
                          skipped = rw (← skipped) (page_offset-Names req.offset);
                          content = refl;
                        },
                      ),
                    );
                  }

  Listed-Ends :
      (req : Request) (T : Tables) (r : Result Response Response) (w : World)
      → Ends (r, w) (Good rt web req T) (Bad rt T)
      → Listed rt web req T (respond (λ _. (r, w)) w)
  unfolding respond
  Listed-Ends req T (ok response) w e = stated e.0 e.1.0 e.1.1
  Listed-Ends req T (err response) w e = withheld e.0 e.1

  -- `GetEntries` changes nothing, so that only other sessions' commits show in the tables; if it
  -- answers 200, the token is valid, the user owns the account, or nobody does, and the body is a page
  -- of the account's entries, newest first. Its size is the number in the parameter "limit", at most
  -- 100, and 20 where that is no positive number. It begins after the number of entries in "offset",
  -- or at the first where that is no number or a negative one; a number of 2 ^ 31 or more counts by
  -- its remainder by 2 ^ 32.
  pub get_entries_handler-Listed :
      (req : Request) (T : Tables) (n : ℕ)
      → Listed rt web req T (respond (get_entries_handler rt web req) (at T n))
  unfolding respond
  get_entries_handler-Listed req T n =
      let (r, w) = get_entries_handler rt web req (at T n) in
      Listed-Ends req T r w ((get_entries_handler-Guarantees req T).at_step n)
