-- ===== src/Docs/Answers.antt =====
-- What it takes for a handler of internal/api/handler.go to answer as docs/docs.go says.
use go_bank_ledger.Prelude.{
  ℕ, String, ◌≡◌, refl, Bool, true, false, ◌&&◌, ◌||◌, Option, none, some, List, [], ◌∷◌, str_eq,
  ◌==◌, if◌then◌else◌,
}
use go_bank_ledger.Errors.{Error}
use go_bank_ledger.Sqlc.Tables.{World}
use go_bank_ledger.Exec.{Result, Action, ok, err, continue, ◌>>=◌, pure, or_fail, fail_if}
use go_bank_ledger.Api.Http.{
  Web, Response, Handler, Payload, error_response, respond, respond_json, respond_error, call,
}
use go_bank_ledger.Docs.{Schema, ref, array_of, DocumentedResponse, Operation}

abbrev schema_eq : Schema → Schema → Bool
schema_eq (ref a) (ref b) = str_eq a b
schema_eq (array_of a) (array_of b) = str_eq a b
schema_eq _ _ = false

-- The status is listed, with this schema.
abbrev pub documents : List DocumentedResponse → ℕ → Schema → Bool
documents [] status schema = false
documents (r ∷ rs) status schema =
    ((r.status == status) && schema_eq r.schema schema) || documents rs status schema

-- The struct, or the slice of structs, that `respondJSON` is given.
abbrev pub schema_of : Payload → Schema
schema_of (Payload.error_response m) = ref "internal_api.ErrorResponse"
schema_of (Payload.message_response m) = ref "internal_api.MessageResponse"
schema_of (Payload.token_response token) = ref "internal_api.TokenResponse"
schema_of (Payload.register_response user email token) = ref "internal_api.RegisterResponse"
schema_of (Payload.account_response account) = ref "internal_api.AccountResponse"
schema_of (Payload.account_list accounts) = array_of "internal_api.AccountResponse"
schema_of (Payload.entry_list entries) = array_of "internal_api.EntryResponse"
schema_of (Payload.reconcile_response b m) = ref "internal_api.ReconcileResponse"

-- The response has a documented status and the body that is documented for it.
pub record Documented (op : Operation) (web : Web) (response : Response) : Type 0 where
  pub payload : Payload
  pub body : response.body ≡ web.encode payload
  pub listed : documents op.responses response.status (schema_of payload) ≡ true

module _ {op : Operation} {web : Web} where
  pub Documented-json :
      (status : ℕ) (payload : Payload)
      → documents op.responses status (schema_of payload) ≡ true
      → Documented op web (respond_json web status payload)
  unfolding respond_json
  Documented-json status payload h = record { payload = payload; body = refl; listed = h }

  pub Documented-error :
      (status : ℕ) (message : String)
      → documents op.responses status (ref "internal_api.ErrorResponse") ≡ true
      → Documented op web (respond_error web status message)
  unfolding respond_error
  Documented-error status message h = Documented-json status (error_response message) h

  -- One of two documented statuses.
  pub Documented-if :
      (b : Bool) (first second : ℕ) (message : String)
      → documents op.responses first (ref "internal_api.ErrorResponse") ≡ true
      → documents op.responses second (ref "internal_api.ErrorResponse") ≡ true
      → Documented op web (respond_error web (if b then first else second) message)
  Documented-if true first second message h k = Documented-error first message h
  Documented-if false first second message h k = Documented-error second message k

module _ (op : Operation) (web : Web) where
  abbrev FailsAs : {A : Type 0} → Result Response A → Type 0
  FailsAs (ok a) = Unit
  FailsAs (err response) = Documented op web response

  -- Where the handler returns early, it answers as documented.
  pub record Fails {A : Type 0} (m : Handler A) : Type 0 where
    pub at : (w : World) → FailsAs (m w).0

  -- It answers as documented.
  pub record Answers (m : Handler Response) : Type 0 where
    pub at : (w : World) → Documented op web (respond m w).0

module _ {op : Operation} {web : Web} where
  module _ {A B : Type 0} where
    continue-Fails :
        (r : Result Response A) (w : World) (f : A → Handler B)
        → FailsAs op web r
        → ((a : A) → Fails op web (f a))
        → FailsAs op web (continue r f w).0
    continue-Fails (ok a) w f h k = (k a).at w
    continue-Fails (err e) w f h k = h

    pub Fails-bind :
        {m : Handler A} {f : A → Handler B}
        → Fails op web m
        → ((a : A) → Fails op web (f a))
        → Fails op web (m >>= f)
    unfolding ◌>>=◌
    Fails-bind {m} {f} h k = record {
      at = λ w. let (r, w') = m w in continue-Fails r w' f (h.at w) k;
    }

  module _ {A : Type 0} where
    continue-Answers :
        (r : Result Response A) (w : World) (f : A → Handler Response)
        → FailsAs op web r
        → ((a : A) → Answers op web (f a))
        → Documented op web (respond (continue r f) w).0
    unfolding respond
    continue-Answers (ok a) w f h k = (k a).at w
    continue-Answers (err e) w f h k = h

    pub Answers-bind :
        {m : Handler A} {f : A → Handler Response}
        → Fails op web m
        → ((a : A) → Answers op web (f a))
        → Answers op web (m >>= f)
    unfolding ◌>>=◌ respond
    Answers-bind {m} {f} h k = record {
      at = λ w. let (r, w') = m w in continue-Answers r w' f (h.at w) k;
    }

    pub Fails-or_fail :
        (o : Option A) {response : Response}
        → Documented op web response
        → Fails op web (or_fail o response)
    unfolding or_fail
    Fails-or_fail none h = record { at = λ w. h }
    Fails-or_fail (some a) h = record { at = λ w. tt }

    call-Fails :
        (r : Result Error A) (w : World) (g : Error → Response)
        → ((e : Error) → Documented op web (g e))
        → FailsAs op web (call (λ v. (r, w)) g w).0
    unfolding call
    call-Fails (ok a) w g h = tt
    call-Fails (err e) w g h = h e

    pub Fails-call :
        (m : Action A) {g : Error → Response}
        → ((e : Error) → Documented op web (g e))
        → Fails op web (call m g)
    unfolding call
    Fails-call m {g} h = record { at = λ w. let (r, w') = m w in call-Fails r w' g h }

    pub Fails-pure : (a : A) → Fails op web (pure a)
    unfolding pure
    Fails-pure a = record { at = λ w. tt }

  pub Fails-fail_if :
      (b : Bool) {response : Response}
      → Documented op web response
      → Fails op web (fail_if b response)
  unfolding fail_if
  Fails-fail_if true h = record { at = λ w. h }
  Fails-fail_if false h = record { at = λ w. tt }

  pub Answers-pure :
      {response : Response} → Documented op web response → Answers op web (pure response)
  unfolding pure respond
  Answers-pure h = record { at = λ w. h }
