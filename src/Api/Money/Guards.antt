-- ===== src/Api/Money/Guards.antt =====
-- Rules for the start and the end of the handlers in internal/api/handler.go: the token, and the call
-- of the ledger.
use go_bank_ledger.Prelude.{ℕ, ◌≡◌, refl, sym, inl, inr, Option-cases, Option, none, some, String}
use go_bank_ledger.Errors.{Error}
use go_bank_ledger.Sqlc.Models.{Uuid}
use go_bank_ledger.Sqlc.Tables.{Tables, World}
use go_bank_ledger.Runtime.{Runtime}
use go_bank_ledger.Exec.{Result, Action, ok, err, ◌>>=◌, pure, or_fail}
use mathlib.Core.Path.{subst}
use go_bank_ledger.Exec.Runs.{at}
use go_bank_ledger.Store.Atomic.{Drift}
use go_bank_ledger.Ledger.Outcomes.{AllOrNothing, Committed}
use go_bank_ledger.Api.Http.{Web, Request, Response, Handler, call, respond_error}
use go_bank_ledger.Api.Auth.{authenticate}
use go_bank_ledger.Api.Money.Reply.{Ends, Guarantees, G-or_fail}

ends_of_AllOrNothing :
    (rt : Runtime) (T : Tables) (Q R : Response → Tables → Type 0) (Spec : Tables → Tables → Type 0)
    (res : Result Error Unit) (w : World) (m : Action Unit) (g : Error → Response)
    (response : Response) (n : ℕ)
    → m (at T n) ≡ (res, w)
    → AllOrNothing rt Spec T (res, w)
    → ((U : Tables) → Committed rt Spec T U → Q response U)
    → ((e : Error) (U : Tables) → Drift rt T U → R (g e) U)
    → Ends ((call m g >>= λ _. pure response) (at T n)) Q R
unfolding call ◌>>=◌
ends_of_AllOrNothing rt T Q R Spec (ok tt) w m g response n h a q r =
    rw (h, ◌>>=◌, call, Ends) (q w.tables a)
ends_of_AllOrNothing rt T Q R Spec (err e) w m g response n h a q r =
    rw (h, ◌>>=◌, call, Ends) (r e w.tables a)

-- The token's text and the user that it names.
token_of : Option (Option String) → Option String
token_of (some (some token)) = some token
token_of _ = none

token_of-eq :
    (c : Option (Option String)) {token : String} → token_of c ≡ some token → c ≡ some (some token)
unfolding token_of
token_of-eq none e = cc
token_of-eq (some none) e = cc
token_of-eq (some (some t)) e = cc

module _ (rt : Runtime) (web : Web) where
  authenticate-flat :
      (req : Request) (f : Uuid → Handler Response) (w : World)
      → (authenticate rt web req >>= f) w
        ≡ (or_fail (token_of req.claims) (respond_error web 401 "invalid token") >>= λ token.
              or_fail (rt.uuid_parse token) (respond_error web 401 "invalid token") >>= f)
            w
  unfolding authenticate ◌>>=◌ token_of
  authenticate-flat req f w = elim (Option-cases req.claims) [
    | inl missing ↦ simp missing
    | inr (c, e) ↦ elim (Option-cases c) [
      | inl no_text ↦ simp (e, no_text)
      | inr (t, e') ↦ simp (e, e')
    ]
  ]

module _ {T : Tables} {Q : Response → Tables → Type 0} {R : Response → Tables → Type 0}
    (rt : Runtime) (web : Web) where
  pub G-authenticate :
      (req : Request) (f : Uuid → Handler Response)
      → R (respond_error web 401 "invalid token") T
      → ((token : String) (user : Uuid)
          → req.claims ≡ some (some token)
          → rt.uuid_parse token ≡ some user
          → Guarantees T (f user) Q R)
      → Guarantees T (authenticate rt web req >>= f) Q R
  G-authenticate req f r k =
      let flat : Guarantees T
          (or_fail (token_of req.claims) (respond_error web 401 "invalid token") >>= λ token.
            or_fail (rt.uuid_parse token) (respond_error web 401 "invalid token") >>= f)
          Q R =
        G-or_fail _ _ _ r λ token c. G-or_fail _ _ _ r λ user p. k token user (token_of-eq _ c) p in
      record {
        at_step = λ n.
            subst (λ (x : Result Response Response × World). Ends x Q R)
              (sym (authenticate-flat rt web req f (at T n))) (flat.at_step n);
      }

  pub G-ledger :
      (Spec : Tables → Tables → Type 0) (m : Action Unit) (g : Error → Response)
      (response : Response)
      → ((w : World) → AllOrNothing rt Spec w.tables (m w))
      → ((U : Tables) → Committed rt Spec T U → Q response U)
      → ((e : Error) (U : Tables) → Drift rt T U → R (g e) U)
      → Guarantees T (call m g >>= λ _. pure response) Q R
  G-ledger Spec m g response a q r = record {
    at_step = λ n.
        let (res, w) = m (at T n) in
        ends_of_AllOrNothing rt T Q R Spec res w m g response n refl (a (at T n)) q r;
  }
