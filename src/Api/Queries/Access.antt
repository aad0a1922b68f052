-- ===== src/Api/Queries/Access.antt =====
-- Who may read a transaction through `GetTransactions` of internal/api/handler.go.
use go_bank_ledger.Prelude.{
  ℕ, ◌+◌, ◌≡◌, ◌≢◌, refl, sym, Bool, true, false, some, List, [], ◌∷◌, map, inl, inr, Option-cases,
  Bool-cases, String, arith, if◌then◌else◌,
}
use mathlib.Core.Path.{subst}
use go_bank_ledger.Sqlc.Models.{Uuid, Entry, Account}
use go_bank_ledger.Sqlc.Tables.{AccountRow, Tables, World}
use go_bank_ledger.Sqlc.Accounts.{find_account, get_account}
use go_bank_ledger.Sqlc.Entries.{
  list_entries_by_transaction, oldest_first, of_transaction, scan_entry,
}
use go_bank_ledger.Runtime.{Runtime}
use go_bank_ledger.Store.{on_pool}
use go_bank_ledger.Store.Atomic.{Drift, still, more_commits}
use go_bank_ledger.Exec.{Result, Exec, continue, ok, err, ◌>>=◌, pure, statement, tie_order}
use go_bank_ledger.Exec.Runs.{at}
use go_bank_ledger.Api.Http.{
  Web, Request, Response, Handler, call, respond, respond_error, respond_json, entry_list,
}
use go_bank_ledger.Api.Mapper.{to_entry_response}
use go_bank_ledger.Api.Money.Reply.{Ends, Guarantees, G-or_fail, G-fail_if, G-get_account}
use go_bank_ledger.Api.Money.Guards.{G-authenticate}
use go_bank_ledger.Api.Queries.{owns, authorized, get_transactions_handler}

-- One of the entries belongs to an account that the user was seen to own.
pub data OwnsOneOf (rt : Runtime) (user : Uuid) (T : Tables) : List Entry → Type 0 where
  here :
      {entry : Entry} {entries : List Entry} (seen : Tables) (row : AccountRow)
      → Drift rt T seen
      → find_account entry.account_id seen.accounts ≡ some row
      → owns row.owner_id user ≡ true
      → OwnsOneOf rt user T (entry ∷ entries)
  there :
      {entry : Entry} {entries : List Entry}
      → OwnsOneOf rt user T entries
      → OwnsOneOf rt user T (entry ∷ entries)

-- The entries of a transaction, oldest first, with some order among equal times.
abbrev pub listed : Runtime → (Uuid → ℕ) → Uuid → Tables → List Entry
listed rt rank id T = map (scan_entry rt) (oldest_first rank (of_transaction id T.entries))

-- A transaction that was shown to the user of the request.
pub record Shown (rt : Runtime) (web : Web) (req : Request) (T : Tables) (body : String)
    : Type 0 where
  pub token : String
  pub user : Uuid
  pub id : Uuid
  pub claims : req.claims ≡ some (some token)
  pub parsed : rt.uuid_parse token ≡ some user
  pub path : rt.uuid_parse req.path_id ≡ some id
  pub rank : Uuid → ℕ
  pub listing : Tables
  pub drift : Drift rt T listing
  pub owns_one : OwnsOneOf rt user T (listed rt rank id listing)
  pub content :
      body ≡ web.encode (entry_list (map (to_entry_response rt) (listed rt rank id listing)))

-- A request at the tables `T` that came out as a response and a world.
pub data Answered (rt : Runtime) (web : Web) (req : Request) (T : Tables) (out : Response × World)
    : Type 0 where
  shown :
      out.0.status ≡ 200
      → Drift rt T out.1.tables
      → Shown rt web req T out.0.body
      → Answered rt web req T out
  hidden : out.0.status ≢ 200 → Drift rt T out.1.tables → Answered rt web req T out

abbrev Good : Runtime → Web → Request → Tables → Response → Tables → Type 0
Good rt web req T r U = (r.status ≡ 200) × (Drift rt T U × Shown rt web req T r.body)

abbrev pub Bad : Runtime → Tables → Response → Tables → Type 0
Bad rt T r U = (r.status ≢ 200) × Drift rt T U

continue_assoc :
    {E A B C : Type 0} (r : Result E A) (k : A → Exec E B) (f : B → Exec E C) (v : World)
    → (let (s, u) = continue r k v in continue s f u) ≡ continue r (λ a. k a >>= f) v
unfolding ◌>>=◌
continue_assoc (ok a) k f v = refl
continue_assoc (err e) k f v = refl

bind_assoc :
    {E A B C : Type 0} (m : Exec E A) (k : A → Exec E B) (f : B → Exec E C) (w : World)
    → (m >>= k >>= f) w ≡ (m >>= λ a. k a >>= f) w
unfolding ◌>>=◌
bind_assoc m k f w = let (r, v) = m w in continue_assoc r k f v

module _ {T : Tables} {Q : Response → Tables → Type 0} {R : Response → Tables → Type 0}
    (rt : Runtime) (web : Web) where
  G-list :
      (id : Uuid) (response : Response) (f : List Entry → Handler Response)
      → ((n : ℕ) → R response (rt.others n T))
      → ((n : ℕ) (rank : Uuid → ℕ)
          → Guarantees (rt.others n T) (f (listed rt rank id (rt.others n T))) Q R)
      → Guarantees T
          (call (on_pool rt (list_entries_by_transaction rt id)) (λ e. response) >>= f)
          Q
          R
  unfolding on_pool list_entries_by_transaction statement tie_order call ◌>>=◌
  G-list id response f r k = record {
    at_step = λ n. elim (Option-cases (rt.fault n)) [
      | inr (e, failed) ↦ simp failed (r n)
      | inl fine ↦ simp fine ((k n (rt.tie_rank (n + 1))).at_step (n + 1))
    ];
  }

  -- The loop changes nothing, and finds an entry of the user if it says yes.
  G-authorized :
      (user : Uuid) (entries : List Entry) (f : Bool → Handler Response) (S : Tables)
      → Drift rt T S
      → ((U : Tables)
          → Drift rt T U
          → R (respond_error web 500 "failed to authorize transaction") U)
      → ((b : Bool) (U : Tables)
          → Drift rt T U
          → (b ≡ true → OwnsOneOf rt user T entries)
          → Guarantees U (f b) Q R)
      → Guarantees S (authorized rt web user entries >>= f) Q R
  unfolding authorized ◌>>=◌
  G-authorized user [] f S d r k = record { at_step = λ n. (k false S d (λ e. cc)).at_step n }
  G-authorized user (entry ∷ entries) f S d r k =
      let look : Handler Account =
        call (on_pool rt (get_account rt entry.account_id))
          (λ e. respond_error web 500 "failed to authorize transaction") in
      let next : Account → Handler Bool =
        λ acc. if owns acc.owner_id user then pure true else authorized rt web user entries in
      let flat : Guarantees S (look >>= λ acc. next acc >>= f) Q R =
        G-get_account rt entry.account_id _ _ (λ n e. r _ (more_commits n d))
          λ n row found.
            let d' : Drift rt T (rt.others n S) = more_commits n d in
            elim (Bool-cases (owns row.owner_id user)) [
              | inl mine ↦ rw mine (record {
                at_step = λ m.
                    (k true (rt.others n S) d' λ e. here (rt.others n S) row d' found mine).at_step
                      m;
              })
              | inr foreign ↦ rw foreign (
                  G-authorized user entries f (rt.others n S) d' r
                    λ b U u h. k b U u (λ e. there (h e)))
            ] in
      record {
        at_step = λ n.
            subst (λ (x : Result Response Response × World). Ends x Q R)
              (sym (bind_assoc look next f (at S n))) (flat.at_step n);
      }

module _ (rt : Runtime) (web : Web) where
  pub refuses :
      {T U : Tables} (code : ℕ) (message : String)
      → code ≢ 200
      → Drift rt T U
      → Bad rt T (respond_error web code message) U
  unfolding respond_error respond_json
  refuses code message h d = (h, d)

  get_transactions_handler-Guarantees :
      (req : Request) (T : Tables)
      → Guarantees T (get_transactions_handler rt web req) (Good rt web req T) (Bad rt T)
  unfolding get_transactions_handler respond_json pure
  get_transactions_handler-Guarantees req T =
      G-authenticate rt web req _ (refuses 401 _ (omega arith) still) λ token user c p.
        G-or_fail _ _ _ (refuses 400 _ (omega arith) still) λ id path.
          G-list rt web id _ _ (λ n. refuses 500 _ (omega arith) (more_commits n still))
            λ n rank.
              let listing = rt.others n T in
              let d : Drift rt T listing = more_commits n still in
              G-fail_if _ _ _ (refuses 404 _ (omega arith) d) λ some_entry.
                G-authorized rt web user (listed rt rank id listing) _ listing d
                  (λ U u. refuses 500 _ (omega arith) u)
                  λ b U u owned. G-fail_if _ _ _ (refuses 403 _ (omega arith) u) λ allowed. record {
                    at_step = λ m. (
                      refl,
                      (
                        u,
                        record {
                          token = token;
                          user = user;
                          id = id;
                          claims = c;
                          parsed = p;
                          path = path;
                          rank = rank;
                          listing = listing;
                          drift = d;
                          owns_one = owned (ground arith);
                          content = refl;
                        },
                      ),
                    );
                  }

  Answered-Ends :
      (req : Request) (T : Tables) (r : Result Response Response) (w : World)
      → Ends (r, w) (Good rt web req T) (Bad rt T)
      → Answered rt web req T (respond (λ _. (r, w)) w)
  unfolding respond
  Answered-Ends req T (ok response) w e = shown e.0 e.1.0 e.1.1
  Answered-Ends req T (err response) w e = hidden e.0 e.1

  -- `GetTransactions` changes nothing, so that only other sessions' commits show in the tables; if it
  -- answers 200, the token is valid, the user was seen to own the account of at least one entry of the
  -- transaction, and the body is the list of its entries at the time of the query.
  pub get_transactions_handler-Answered :
      (req : Request) (T : Tables) (n : ℕ)
      → Answered rt web req T (respond (get_transactions_handler rt web req) (at T n))
  unfolding respond
  get_transactions_handler-Answered req T n =
      let (r, w) = get_transactions_handler rt web req (at T n) in
      Answered-Ends req T r w ((get_transactions_handler-Guarantees req T).at_step n)
