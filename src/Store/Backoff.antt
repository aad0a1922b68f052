-- ===== src/Store/Backoff.antt =====
-- The waits of `retryWait` in internal/db/store.go.
use go_bank_ledger.Prelude.{
  ℕ, zero, suc, ◌*◌, ◌^◌, ◌≤◌, ◌<◌, min, ◌≡◌, ◌∙◌, ap, leb, Bool-cases, inl, inr, arith,
}
use native.Mathlib.Nat.{pow-suc}
use go_bank_ledger.Store.{millisecond, second, double_until, retry_wait}

pow2-pos : (n : ℕ) → 1 ≤ 2 ^ n
pow2-pos zero = omega arith
pow2-pos (suc n) = omega (arith, pow-suc 2 n, pow2-pos n)

double_pow2 : (base n : ℕ) → base * 2 * 2 ^ n ≡ base * 2 ^ suc n
double_pow2 base n = rw pow-suc (omega arith)

-- Doubling once more does not fall below the doubled base.
le-double_pow2 : (base n : ℕ) → base * 2 ≤ base * 2 ^ suc n
le-double_pow2 base n = rw (← double_pow2 base n) (grind (arith, pow2-pos n))

double_until-eq :
    (rounds base : ℕ) → base < second → double_until rounds base ≡ min (base * 2 ^ rounds) second
unfolding double_until
double_until-eq zero base h = omega arith
double_until-eq (suc rounds) base h = elim (Bool-cases (leb second (base * 2))) [
  | inl capped ↦ rw (capped, double_until) (ground (arith, le-double_pow2 base rounds))
  | inr more ↦
      rw (more, double_until)
        (double_until-eq rounds (base * 2) (ground arith)
          ∙ ap (λ (n : ℕ). min n second) (double_pow2 base rounds))
]

-- The wait before retry `n` is 50 ms doubled `n` times, and never more than a second.
pub retry_wait-eq : (n : ℕ) → retry_wait n ≡ min (50 * millisecond * 2 ^ n) second
unfolding retry_wait
retry_wait-eq n = double_until-eq n (50 * millisecond) (omega arith)
