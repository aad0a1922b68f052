-- ===== src/RateLimit/Paths.antt =====
-- `matchPath` of internal/ratelimit/ratelimit.go.
use Prim.Native.String.append
use go_bank_ledger.Prelude.{
  ◌≡◌, refl, ◌↔◌, String, ◌+++◌, str_eq, eq_iff, true, false, ◌||◌, inl, inr, Bool-cases,
}
use go_bank_ledger.Prelude.Text.{is_empty}
use go_bank_ledger.RateLimit.{match_path, ends_with_star, without_last}
use text.Mathlib.Text.{starts_with}
use text.Mathlib.TextEquality.{starts_with_iff}

is_empty-star : (p : String) → is_empty (p +++ "*") ≡ false
is_empty-star String.[] = refl
is_empty-star (String.◌∷◌ c s) = rw append.cons refl

without_last-star : (p : String) → without_last (p +++ "*") ≡ p
unfolding without_last
without_last-star String.[] = refl
without_last-star (String.◌∷◌ c s) =
    rw (append.cons c s "*") (simp (is_empty-star s, without_last-star s))

ends_with_star-star : (p : String) → ends_with_star (p +++ "*") ≡ true
unfolding ends_with_star
ends_with_star-star String.[] = refl
ends_with_star-star (String.◌∷◌ c s) =
    rw (append.cons c s "*") (simp (is_empty-star s, ends_with_star-star s))

match_path-eq :
    (p path : String)
    → match_path (p +++ "*") path ≡ (str_eq (p +++ "*") path || starts_with path p)
unfolding match_path
match_path-eq p path = simp (ends_with_star-star p, without_last-star p)

-- A pattern that ends with a star matches the paths that begin with what stands before the star,
-- and no other.
match_path-star :
    (p path : String)
    → (match_path (p +++ "*") path ≡ true) ↔ ((rest : String) × (p +++ rest ≡ path))
match_path-star p path = rw (match_path-eq p path) (elim (Bool-cases (str_eq (p +++ "*") path)) [
  | inl same ↦ rw same ((λ h. ("*", (eq_iff (p +++ "*") path).0 same)), (λ r. refl))
  | inr differ ↦ rw differ (starts_with_iff path p)
])
