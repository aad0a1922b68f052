-- ===== src/Exec/Ensures.antt =====
-- What a call guarantees when it returns without an error, with one rule for each way to build a
-- call.
use go_bank_ledger.Prelude.{ℕ, ◌+◌, ◌≡◌, refl, Bool, true, false, Option, none, some}
use go_bank_ledger.Errors.{Error}
use go_bank_ledger.Sqlc.Tables.{Tables, World}
use go_bank_ledger.Runtime.{Runtime}
use go_bank_ledger.Exec.{
  Result, ok, err, Exec, Action, answer, continue, wrap, ◌>>=◌, pure, or_fail, fail_if, gets,
  modify, statement, new_uuid, timestamp,
}

abbrev pub Returns : {E A : Type 0} → Result E A × World → (A → Tables → Type 0) → Type 0
Returns (ok a, w) Q = Q a w.tables
Returns (err e, w) Q = Unit

-- From the tables `T` the call returns an error, or a value and tables that meet `Q`.
pub record Ensures {E A : Type 0} (T : Tables) (m : Exec E A) (Q : A → Tables → Type 0)
    : Type 0 where
  pub at : (tick : ℕ) → Returns (m (record { tables = T; tick = tick })) Q

module _ {E A B : Type 0} where
  Returns-continue :
      (r : Result E A) (w : World) (f : A → Exec E B) (Q : A → Tables → Type 0)
      (R : B → Tables → Type 0)
      → Returns (r, w) Q
      → ((a : A) (U : Tables) → Q a U → Ensures U (f a) R)
      → Returns (continue r f w) R
  Returns-continue (ok a) w f Q R h k = (k a w.tables h).at w.tick
  Returns-continue (err e) w f Q R h k = tt

  pub Ensures-bind :
      {T : Tables} (m : Exec E A) (f : A → Exec E B) (Q : A → Tables → Type 0)
      (R : B → Tables → Type 0)
      → Ensures T m Q
      → ((a : A) (U : Tables) → Q a U → Ensures U (f a) R)
      → Ensures T (m >>= f) R
  unfolding ◌>>=◌
  Ensures-bind {T} m f Q R h k = record {
    at = λ n.
        let (r, w') = m (record { tables = T; tick = n }) in Returns-continue r w' f Q R (h.at n) k;
  }

pub Ensures-pure :
    {E A : Type 0} {T : Tables} (a : A) (Q : A → Tables → Type 0)
    → Q a T
    → Ensures T (pure {E = E} a) Q
unfolding pure
Ensures-pure a Q q = record { at = λ n. q }

module _ {E A : Type 0} where
  Returns-weaken :
      (r : Result E A) (w : World) (Q R : A → Tables → Type 0)
      → ((a : A) (U : Tables) → Q a U → R a U)
      → Returns (r, w) Q
      → Returns (r, w) R
  Returns-weaken (ok a) w Q R k h = k a w.tables h
  Returns-weaken (err e) w Q R k h = tt

  pub Ensures-weaken :
      {T : Tables} (m : Exec E A) (Q R : A → Tables → Type 0)
      → Ensures T m Q
      → ((a : A) (U : Tables) → Q a U → R a U)
      → Ensures T m R
  Ensures-weaken {T} m Q R h k = record {
    at = λ n. let (r, w) = m (record { tables = T; tick = n }) in Returns-weaken r w Q R k (h.at n);
  }

-- A block that ends in `modify`.
pub Ensures-modify_last :
    {E : Type 0} {T : Tables} (g : Tables → Tables) (Q : Unit → Tables → Type 0)
    → Q tt (g T)
    → Ensures T (modify {E = E} g) Q
unfolding modify
Ensures-modify_last g Q q = record { at = λ n. q }

-- Steps that only pass on or stop, in front of the rest of a block.
module _ {E B : Type 0} {T : Tables} {R : B → Tables → Type 0} where
  pub Ensures-or_fail :
      {A : Type 0} (o : Option A) (e : E) (f : A → Exec E B)
      → ((a : A) → o ≡ some a → Ensures T (f a) R)
      → Ensures T (or_fail o e >>= f) R
  unfolding ◌>>=◌
  Ensures-or_fail none e f k = record { at = λ n. tt }
  Ensures-or_fail (some a) e f k = record { at = λ n. (k a refl).at n }

  pub Ensures-fail_if :
      (b : Bool) (e : E) (f : Exec E B)
      → (b ≡ false → Ensures T f R)
      → Ensures T (fail_if b e >>= λ _. f) R
  unfolding ◌>>=◌
  Ensures-fail_if true e f k = record { at = λ n. tt }
  Ensures-fail_if false e f k = record { at = λ n. (k refl).at n }

  pub Ensures-gets :
      {A : Type 0} (g : Tables → A) (f : A → Exec E B)
      → Ensures T (f (g T)) R
      → Ensures T (gets g >>= f) R
  unfolding ◌>>=◌
  Ensures-gets g f k = record { at = λ n. k.at n }

  pub Ensures-modify :
      (g : Tables → Tables) (f : Exec E B) → Ensures (g T) f R → Ensures T (modify g >>= λ _. f) R
  unfolding ◌>>=◌
  Ensures-modify g f k = record { at = λ n. k.at n }

Returns-answer :
    {B : Type 0} {T : Tables} {R : B → Tables → Type 0} (o : Option Error) (f : Action B)
    → Ensures T f R
    → (n : ℕ) → Returns ((answer o >>= λ _. f) (record { tables = T; tick = n })) R
unfolding ◌>>=◌
Returns-answer none f k n = k.at n
Returns-answer (some e) f k n = tt

-- Calls that leave the tables alone.
module _ {B : Type 0} {T : Tables} {R : B → Tables → Type 0} (rt : Runtime) where
  pub Ensures-statement : (f : Action B) → Ensures T f R → Ensures T (statement rt >>= λ _. f) R
  unfolding statement ◌>>=◌
  Ensures-statement f k = record { at = λ n. Returns-answer (rt.fault n) f k (n + 1) }

  pub Ensures-new_uuid :
      (f : ℕ → Action B) → ((id : ℕ) → Ensures T (f id) R) → Ensures T (new_uuid rt >>= f) R
  unfolding new_uuid ◌>>=◌
  Ensures-new_uuid f k = record { at = λ n. (k (rt.random_uuid n)).at (n + 1) }

  pub Ensures-timestamp :
      (f : ℕ → Action B) → ((now : ℕ) → Ensures T (f now) R) → Ensures T (timestamp rt >>= f) R
  unfolding timestamp ◌>>=◌
  Ensures-timestamp f k = record { at = λ n. (k (rt.current_timestamp n)).at (n + 1) }

module _ {A : Type 0} where
  Returns-wrap :
      (g : Error → Error) (r : Result Error A) (w : World) (Q : A → Tables → Type 0)
      → Returns (r, w) Q
      → Returns (wrap g (λ _. (r, w)) w) Q
  unfolding wrap
  Returns-wrap g (ok a) w Q h = h
  Returns-wrap g (err e) w Q h = tt

  -- Wrapping an error does not touch what a success guarantees.
  pub Ensures-wrap :
      {T : Tables} (g : Error → Error) (m : Action A) (Q : A → Tables → Type 0)
      → Ensures T m Q
      → Ensures T (wrap g m) Q
  unfolding wrap
  Ensures-wrap {T} g m Q h = record {
    at = λ n. let (r, w') = m (record { tables = T; tick = n }) in Returns-wrap g r w' Q (h.at n);
  }
