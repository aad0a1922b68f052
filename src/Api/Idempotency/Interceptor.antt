-- ===== src/Api/Idempotency/Interceptor.antt =====
-- `responseBufferInterceptor` of internal/api/middleware_idempotency.go, around a ResponseWriter.
use go_bank_ledger.Prelude.{
  ℕ, ◌≤◌, ◌≡◌, ◌≢◌, ◌∙◌, refl, ap, String, Bool, true, false, not, ◌&&◌, ◌||◌, Option, none, some,
  ◌+++◌, List, [], ◌∷◌, map, leb, ◌==◌, if◌then◌else◌, Bool-cases, inl, inr, arith,
}

-- net/http's ResponseWriter: what the client is sent, with 0 for a status that is not sent yet, and
-- if a call has panicked, which ends the handler.
pub record Sent : Type 0 where
  pub status : ℕ
  pub body : String
  pub panicked : Bool

-- What a handler calls.
pub data Call : Type 0 where
  write_header : ℕ → Call
  write : String → Call

abbrev or_ok : ℕ → ℕ
or_ok status = if status == 0 then 200 else status

-- The codes that WriteHeader takes, and those that announce another one.
abbrev is_code : ℕ → Bool
is_code code = leb 100 code && leb code 999

abbrev is_informational : ℕ → Bool
is_informational code = leb 100 code && leb code 199 && not (code == 101)

-- Statuses that come without a body.
abbrev has_body : ℕ → Bool
has_body status = not (leb 100 status && leb status 199) && not (status == 204 || status == 304)

-- The first status that is not informational counts, and a Write without one sends 200. Where the
-- status has no body, Write fails and sends nothing.
abbrev write_status : ℕ → Sent → Sent
write_status code s =
    if not (s.status == 0)
    then s
    else if not (is_code code)
    then record s { panicked = true }
    else if is_informational code
    then s
    else record s { status = code }

abbrev write_body : String → Sent → Sent
write_body b s =
    let status = or_ok s.status in
    record s { status = status; body = if has_body status then s.body +++ b else s.body }

unfoldable pub send : Call → Sent → Sent
send (write_header code) s = if s.panicked then s else write_status code s
send (write b) s = if s.panicked then s else write_body b s

pub record Interceptor : Type 0 where
  pub status_code : ℕ
  pub body_buffer : String
  pub response_writer : Sent

-- `WriteHeader` and `Write`
unfoldable pub intercept : Call → Interceptor → Interceptor
unfolding send
intercept (write_header code) i = if i.response_writer.panicked then i else record i {
  status_code = code;
  response_writer = send (write_header code) i.response_writer;
}
intercept (write b) i = if i.response_writer.panicked then i else record i {
  status_code = or_ok i.status_code;
  body_buffer = i.body_buffer +++ b;
  response_writer = send (write b) i.response_writer;
}

unfoldable pub send_all : List Call → Sent → Sent
unfolding send
send_all [] s = s
send_all (c ∷ cs) s = send_all cs (send c s)

unfoldable pub intercept_all : List Call → Interceptor → Interceptor
unfolding intercept
intercept_all [] i = i
intercept_all (c ∷ cs) i = intercept_all cs (intercept c i)

abbrev pub untouched : Sent
untouched = record { status = 0; body = ""; panicked = false }

abbrev new_interceptor : Interceptor
new_interceptor = record { status_code = 0; body_buffer = ""; response_writer = untouched }

-- The run of the next handler, with the status that is set where it wrote nothing.
unfoldable pub intercepted : List Call → Interceptor
unfolding intercept_all
intercepted calls =
    let i = intercept_all calls new_interceptor in record i { status_code = or_ok i.status_code }

-- The interceptor has seen what the client is sent, and that has a body.
record Agrees (i : Interceptor) : Type 0 where
  calm : i.response_writer.panicked ≡ false
  allowed : has_body (or_ok i.response_writer.status) ≡ true
  status : i.status_code ≡ i.response_writer.status
  body : i.body_buffer ≡ i.response_writer.body

-- The calls of a handler that sets a status at most once, before it writes.
abbrev pub calls_of : Option ℕ → List String → List Call
calls_of none bs = map write bs
calls_of (some status) bs = write_header status ∷ map write bs

-- No status, or one that ends the header and comes with a body.
abbrev pub Ordinary : Option ℕ → Type 0
Ordinary none = Unit
Ordinary (some status) = (200 ≤ status) × (status ≤ 999) × (status ≢ 204) × (status ≢ 304)

forward : (c : Call) (i : Interceptor) → (intercept c i).response_writer ≡ send c i.response_writer
unfolding intercept send
forward (write_header code) i = elim (Bool-cases i.response_writer.panicked) [
  | inl over ↦ simp over
  | inr calm ↦ simp calm
]
forward (write b) i = elim (Bool-cases i.response_writer.panicked) [
  | inl over ↦ simp over
  | inr calm ↦ simp calm
]

forwards :
    (cs : List Call) (i : Interceptor)
    → (intercept_all cs i).response_writer ≡ send_all cs i.response_writer
unfolding intercept_all send_all
forwards [] i = refl
forwards (c ∷ cs) i = forwards cs (intercept c i) ∙ ap (send_all cs) (forward c i)

or_ok_twice : (status : ℕ) → or_ok (or_ok status) ≡ or_ok status
or_ok_twice status = ground arith

write-Agrees : (b : String) (i : Interceptor) → Agrees i → Agrees (intercept (write b) i)
unfolding intercept
write-Agrees b i h = rw h.calm (record {
  calm = refl;
  allowed = rw (or_ok_twice i.response_writer.status) h.allowed;
  status = ap or_ok h.status;
  body = rw (h.allowed, h.body) refl;
})

writes-Agrees :
    (bs : List String) (i : Interceptor) → Agrees i → Agrees (intercept_all (map write bs) i)
unfolding intercept_all
writes-Agrees [] i h = h
writes-Agrees (b ∷ bs) i h = writes-Agrees bs _ (write-Agrees b i h)

start-Agrees :
    (status : ℕ) → Ordinary (some status) → Agrees (intercept (write_header status) new_interceptor)
unfolding intercept
start-Agrees status h =
    let code : is_code status ≡ true = ground arith in
    let last : is_informational status ≡ false = ground arith in
    let sent : or_ok status ≡ status = ground arith in
    rw (code, last)
      (record { calm = refl; allowed = rw sent (ground arith); status = refl; body = refl })

-- What the middleware saves is what the client was sent.
pub record Recorded (i : Interceptor) (calls : List Call) : Type 0 where
  pub forwarded : i.response_writer ≡ send_all calls untouched
  pub status : i.status_code ≡ or_ok i.response_writer.status
  pub body : i.body_buffer ≡ i.response_writer.body

recorded :
    (calls : List Call)
    → Agrees (intercept_all calls new_interceptor)
    → Recorded (intercepted calls) calls
unfolding intercepted
recorded calls h = record {
  forwarded = forwards calls new_interceptor;
  status = ap or_ok h.status;
  body = h.body;
}

-- A handler calls WriteHeader once or never, and then Write any number of times; the status, where it
-- sets one, is from 200 to 999 and not 204 or 304, which come without a body. The client is sent what
-- it would be sent without the interceptor, and the interceptor holds the status and the body that the
-- client gets, where the server sends 200 for a status that was never set.
pub intercepted-Recorded :
    (status : Option ℕ) (bs : List String)
    → Ordinary status
    → Recorded (intercepted (calls_of status bs)) (calls_of status bs)
unfolding intercept_all
intercepted-Recorded none bs h = recorded (map write bs) (
    writes-Agrees bs new_interceptor
      (record { calm = refl; allowed = refl; status = refl; body = refl }))
intercepted-Recorded (some status) bs h =
    recorded (write_header status ∷ map write bs) (writes-Agrees bs _ (start-Agrees status h))
