-- ===== src/Docs/Routes.antt =====
-- The routes of cmd/main.go and the paths of docs/docs.go.
use go_bank_ledger.Prelude.{
  String, ◌≡◌, refl, sym, Bool, true, false, ◌&&◌, Option, none, some, List, [], ◌∷◌, str_eq,
  Bool-cases, Option-cases, inl, inr, arith, eq_iff, if◌then◌else◌,
}
use mathlib.Core.Option.{some-injective, map as map_option, bind}
use go_bank_ledger.Sqlc.Sorting.{All}
use go_bank_ledger.Server.{OpenEndpoint, GuardedEndpoint, Endpoint, open_to_all, guarded, routes}
use go_bank_ledger.Docs.{Operation}
use go_bank_ledger.Docs.Accounts.{list_accounts_doc, create_account_doc, get_account_doc}
use go_bank_ledger.Docs.Money.{deposit_doc, withdraw_doc, transfer_doc}
use go_bank_ledger.Docs.Queries.{get_entries_doc, reconcile_doc, get_transactions_doc}
use go_bank_ledger.Docs.Users.{register_doc, login_doc}
use go_bank_ledger.Docs.Paths.{paths}

abbrev pub operation_of : GuardedEndpoint → Operation
operation_of GuardedEndpoint.create_account = create_account_doc
operation_of GuardedEndpoint.list_accounts = list_accounts_doc
operation_of GuardedEndpoint.get_account = get_account_doc
operation_of GuardedEndpoint.deposit = deposit_doc
operation_of GuardedEndpoint.withdraw = withdraw_doc
operation_of GuardedEndpoint.transfer = transfer_doc
operation_of GuardedEndpoint.get_entries = get_entries_doc
operation_of GuardedEndpoint.reconcile = reconcile_doc
operation_of GuardedEndpoint.get_transactions = get_transactions_doc

-- What the document says of an endpoint, if anything, and if the endpoint is behind the token check.
abbrev pub described : Endpoint → Option (Operation × Bool)
described (guarded endpoint) = some (operation_of endpoint, true)
described (open_to_all OpenEndpoint.register) = some (register_doc, false)
described (open_to_all OpenEndpoint.login) = some (login_doc, false)
described (open_to_all _) = none

-- An operation, and if it asks for a token.
abbrev pub with_security : Operation → Operation × Bool
with_security op = (op, op.secured)

-- The document writes the methods in small letters.
abbrev pub method_key : String → String
method_key method =
    if str_eq method "GET" then "get" else (if str_eq method "POST" then "post" else "")

abbrev pub looked_up : {A : Type 0} → String → String → List (String × String × A) → Option A
looked_up method path [] = none
looked_up method path ((m, p, a) ∷ rest) =
    if str_eq m method && str_eq p path then some a else looked_up method path rest

looked_up-All :
    {A : Type 0} (P : String × String × A → Type 0) (method path : String)
    (table : List (String × String × A)) (a : A)
    → All P table
    → looked_up method path table ≡ some a
    → P (method, path, a)
looked_up-All P method path [] a h e = ground arith
looked_up-All P method path ((m, p, b) ∷ rest) a h e =
    elim (Bool-cases (str_eq m method && str_eq p path)) [
      | inl hit ↦
          let m_same : str_eq m method ≡ true = ground arith in
          let p_same : str_eq p path ≡ true = ground arith in
          let a_same : b ≡ a = some-injective b a (simp hit at e) in
          rw (← (eq_iff m method).0 m_same, ← (eq_iff p path).0 p_same, ← a_same) h.0
      | inr miss ↦ looked_up-All P method path rest a h.1 (simp miss at e)
    ]

-- What the document has at a route's method and path.
abbrev AsRouted : String × String × Endpoint → Type 0
AsRouted (method, path, endpoint) =
    map_option with_security (looked_up (method_key method) path paths) ≡ described endpoint

-- There is a route at the path, at every method that the document's key stands for.
abbrev Routed : String → String → Type 0
Routed key path =
    (method : String)
    → method_key method ≡ key
    → ((endpoint : Endpoint) × (looked_up method path routes ≡ some endpoint))

abbrev HasRoute : String × String × Operation → Type 0
HasRoute (key, path, op) = Routed key path

routes-AsRouted : All AsRouted routes
routes-AsRouted = (
  refl,
  (
    refl,
    (
      refl,
      (
        refl,
        (
          refl,
          (
            refl,
            (refl, (refl, (refl, (refl, (refl, (refl, (refl, (refl, (refl, (refl, tt)))))))))),
          ),
        ),
      ),
    ),
  ),
)

-- Of the methods in the table, "GET" alone is written "get", and "POST" alone "post".
key_get : (method : String) → method_key method ≡ "get" → "GET" ≡ method
key_get method h = elim (Bool-cases (str_eq method "GET")) [
  | inl same ↦ sym ((eq_iff method "GET").0 same)
  | inr other ↦ elim (Bool-cases (str_eq method "POST")) [
    | inl post ↦ (let no = (eq_iff "post" "get").1 (simp (other, post) at h) in ground arith)
    | inr neither ↦ (let no = (eq_iff "" "get").1 (simp (other, neither) at h) in ground arith)
  ]
]

key_post : (method : String) → method_key method ≡ "post" → "POST" ≡ method
key_post method h = elim (Bool-cases (str_eq method "GET")) [
  | inl get ↦ (let no = (eq_iff "get" "post").1 (simp (get) at h) in ground arith)
  | inr other ↦ elim (Bool-cases (str_eq method "POST")) [
    | inl same ↦ sym ((eq_iff method "POST").0 same)
    | inr neither ↦ (let no = (eq_iff "" "post").1 (simp (other, neither) at h) in ground arith)
  ]
]

get_route :
    {endpoint : Endpoint} (path : String)
    → looked_up "GET" path routes ≡ some endpoint
    → Routed "get" path
get_route {endpoint} path routed method h = rw (← key_get method h) (endpoint, routed)

post_route :
    {endpoint : Endpoint} (path : String)
    → looked_up "POST" path routes ≡ some endpoint
    → Routed "post" path
post_route {endpoint} path routed method h = rw (← key_post method h) (endpoint, routed)

paths-HasRoute : All HasRoute paths
paths-HasRoute = (
  get_route "/accounts" refl,
  (
    post_route "/accounts" refl,
    (
      get_route "/accounts/{id}" refl,
      (
        post_route "/accounts/{id}/deposit" refl,
        (
          get_route "/accounts/{id}/entries" refl,
          (
            get_route "/accounts/{id}/reconcile" refl,
            (
              post_route "/accounts/{id}/withdraw" refl,
              (
                post_route "/login" refl,
                (
                  post_route "/register" refl,
                  (get_route "/transactions/{id}" refl, (post_route "/transfers" refl, tt)),
                ),
              ),
            ),
          ),
        ),
      ),
    ),
  ),
)

-- The document and the routes agree at every method and path: the document has an operation there if
-- and only if there is a route to the endpoint that the operation describes, and the operation asks
-- for a token if and only if the route is in the group behind the token check. It has nothing for the
-- metrics, the two checks and its own page.
pub routes-documented :
    (method path : String)
    → map_option with_security (looked_up (method_key method) path paths)
      ≡ bind (looked_up method path routes) described
unfolding bind
routes-documented method path = elim (Option-cases (looked_up method path routes)) [
  | inr (endpoint, routed) ↦
      rw routed (looked_up-All AsRouted method path routes endpoint routes-AsRouted routed)
  | inl missing ↦ rw missing (elim (Option-cases (looked_up (method_key method) path paths)) [
    | inl nothing ↦ rw nothing refl
    | inr (op, found) ↦
        let (endpoint, routed) =
          looked_up-All HasRoute (method_key method) path paths op paths-HasRoute found method
            refl in
        grind arith
  ])
]
