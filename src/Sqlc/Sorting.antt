-- ===== src/Sqlc/Sorting.antt =====
-- ORDER BY in db/sqlc/*.sql.go.
use go_bank_ledger.Prelude.{
  ℕ, ◌≡◌, Bool, true, false, not, ◌&&◌, ◌||◌, Option, none, some, List, [], ◌∷◌, leb, if◌then◌else◌,
  arith, Bool-cases, inl, inr,
}
use mathlib.Core.List.{IsChain, Perm}
use mathlib.Core.List.Perm

-- `a` stands no later than `b` in ascending order, where NULLs come last.
abbrev pub no_later : Option ℕ → Option ℕ → Bool
no_later a none = true
no_later none (some b) = false
no_later (some a) (some b) = leb a b

pub no_later_total : (a b : Option ℕ) → no_later a b ≡ false → no_later b a ≡ true
no_later_total a b e = ground arith

module _ {ℓ} {A : Type ℓ} where
  -- Insertion sort.
  unfoldable pub insert_by : (A → A → Bool) → A → List A → List A
  insert_by before e [] = e ∷ []
  insert_by before e (f ∷ fs) = if before e f then e ∷ f ∷ fs else f ∷ insert_by before e fs

  unfoldable pub sort_by : (A → A → Bool) → List A → List A
  unfolding insert_by
  sort_by before [] = []
  sort_by before (e ∷ es) = insert_by before e (sort_by before es)

-- What an order leaves equal is ordered by rank.
abbrev pub ranked {ℓ} : {A : Type ℓ} → (A → A → Bool) → (A → ℕ) → A → A → Bool
ranked before rank x y = before x y && (not (before y x) || leb (rank x) (rank y))

-- Each row stands before its neighbour.
abbrev pub InOrder {ℓ} : {A : Type ℓ} → (A → A → Bool) → List A → Type ℓ
InOrder before = IsChain (λ x y. before x y ≡ true)

abbrev pub All {ℓ} : {A : Type ℓ} → (A → Type ℓ) → List A → Type ℓ
All P [] = Unit
All P (x ∷ xs) = P x × All P xs

module _ {ℓ} {A : Type ℓ} (before : A → A → Bool) where
  insert-Perm : (e : A) (es : List A) → Perm (insert_by before e es) (e ∷ es)
  unfolding insert_by
  insert-Perm e [] = Perm.refl (e ∷ [])
  insert-Perm e (f ∷ fs) = elim (Bool-cases (before e f)) [
    | inl first ↦ rw first (Perm.refl (e ∷ f ∷ fs))
    | inr later ↦ rw later (Perm.trans (Perm.cons f (insert-Perm e fs)) (Perm.swap e f fs))
  ]

  pub sort_by-Perm : (es : List A) → Perm (sort_by before es) es
  unfolding sort_by
  sort_by-Perm [] = Perm.refl []
  sort_by-Perm (e ∷ es) =
      Perm.trans (insert-Perm e (sort_by before es)) (Perm.cons e (sort_by-Perm es))

  insert-All :
      (P : A → Type ℓ) (e : A) (es : List A) → P e → All P es → All P (insert_by before e es)
  unfolding insert_by
  insert-All P e [] h hs = (h, hs)
  insert-All P e (f ∷ fs) h hs = elim (Bool-cases (before e f)) [
    | inl first ↦ rw first (h, hs)
    | inr later ↦ rw later (hs.0, insert-All P e fs h hs.1)
  ]

  pub sort_by-All : (P : A → Type ℓ) (es : List A) → All P es → All P (sort_by before es)
  unfolding sort_by
  sort_by-All P [] hs = hs
  sort_by-All P (e ∷ es) hs = insert-All P e (sort_by before es) hs.0 (sort_by-All P es hs.1)

  module _ (total : (x y : A) → before x y ≡ false → before y x ≡ true) where
    insert_after :
        (e f : A) (fs : List A)
        → before f e ≡ true
        → InOrder before (f ∷ fs)
        → InOrder before (f ∷ insert_by before e fs)
    unfolding insert_by
    insert_after e f [] h chain = IsChain.cons-cons h (IsChain.singleton e)
    insert_after e f (g ∷ gs) h (IsChain.cons-cons next chain) = elim (Bool-cases (before e g)) [
      | inl first ↦ rw first (IsChain.cons-cons h (IsChain.cons-cons first chain))
      | inr later ↦ rw later (IsChain.cons-cons next (insert_after e g gs (total e g later) chain))
    ]

    insert-InOrder :
        (e : A) (es : List A) → InOrder before es → InOrder before (insert_by before e es)
    unfolding insert_by
    insert-InOrder e [] chain = IsChain.singleton e
    insert-InOrder e (f ∷ fs) chain = elim (Bool-cases (before e f)) [
      | inl first ↦ rw first (IsChain.cons-cons first chain)
      | inr later ↦ rw later (insert_after e f fs (total e f later) chain)
    ]

    pub sort_by-InOrder : (es : List A) → InOrder before (sort_by before es)
    unfolding sort_by
    sort_by-InOrder [] = IsChain.nil
    sort_by-InOrder (e ∷ es) = insert-InOrder e (sort_by before es) (sort_by-InOrder es)

module _ {ℓ} {A : Type ℓ} (before : A → A → Bool) (rank : A → ℕ)
    (total : (x y : A) → before x y ≡ false → before y x ≡ true) where
  ranked_total : (x y : A) → ranked before rank x y ≡ false → ranked before rank y x ≡ true
  ranked_total x y e = let t = total x y in ground arith

  ranked-InOrder : (es : List A) → InOrder (ranked before rank) es → InOrder before es
  ranked-InOrder [] chain = IsChain.nil
  ranked-InOrder (e ∷ []) chain = IsChain.singleton e
  ranked-InOrder (e ∷ f ∷ es) (IsChain.cons-cons h chain) =
      IsChain.cons-cons (ground arith) (ranked-InOrder (f ∷ es) chain)

  -- Sorted by the finer order, a list is in the order.
  pub sort_ranked-InOrder : (es : List A) → InOrder before (sort_by (ranked before rank) es)
  sort_ranked-InOrder es = ranked-InOrder _ (sort_by-InOrder (ranked before rank) ranked_total es)
