-- ===== src/Api/Queries/Paging.antt =====
-- The paging parameters of `GetEntries` in internal/api/handler.go, by the number that strconv.Atoi
-- reads.
use go_bank_ledger.Prelude.{
  ℕ, ◌+◌, ◌*◌, ◌/◌, ◌%◌, ◌≤◌, ◌<◌, ◌^◌, ◌≡◌, ◌≢◌, refl, String, Option, some, none, ℤ, pos, negsuc,
  Bool-cases, inl, inr, ltb, arith,
}
use go_bank_ledger.Prelude.Text.{atoi}
use go_bank_ledger.Api.Queries.{to_int32, page_limit, page_offset, limit_of, offset_of}

-- The limit for a parameter: its number, at most 100, and 20 without a positive number.
pub data NamesLimit (text : String) : ℕ → Type 0 where
  named : {k : ℕ} → atoi text ≡ some (pos k) → 1 ≤ k → k ≤ 100 → NamesLimit text k
  capped : {k : ℕ} → atoi text ≡ some (pos k) → 100 < k → NamesLimit text 100
  unnamed : ((k : ℕ) → 1 ≤ k → atoi text ≢ some (pos k)) → NamesLimit text 20

-- The offset for a parameter that is a number below 2 ^ 31, or no number, or a negative one. A larger
-- number keeps its lower 32 bits, with the uppermost as the sign.
pub data NamesOffset (text : String) : ℤ → Type 0 where
  kept : {k : ℕ} → atoi text ≡ some (pos k) → k < 2 ^ 31 → NamesOffset text (pos k)
  wrapped :
      {k o : ℕ} (turns : ℕ)
      → atoi text ≡ some (pos k)
      → k ≡ turns * 2 ^ 32 + o
      → 1 ≤ turns
      → o < 2 ^ 31
      → NamesOffset text (pos o)
  negative :
      {k m : ℕ} (turns : ℕ)
      → atoi text ≡ some (pos k)
      → k + m + 1 ≡ (turns + 1) * 2 ^ 32
      → m < 2 ^ 31
      → NamesOffset text (negsuc m)
  unnamed : ((k : ℕ) → atoi text ≢ some (pos k)) → NamesOffset text (pos 0)

to_int32-small : (v : ℕ) → v < 2 ^ 31 → to_int32 v ≡ pos v
unfolding to_int32
to_int32-small v h = ground arith

limit-Names : (text : String) (o : Option ℤ) → atoi text ≡ o → NamesLimit text (limit_of o)
limit-Names text none e = unnamed (λ k one f. grind arith)
limit-Names text (some (negsuc v)) e = unnamed (λ k one f. grind arith)
limit-Names text (some (pos v)) e = elim (Bool-cases (ltb 0 v)) [
  | inr zero ↦
      let same : limit_of (some (pos v)) ≡ 20 = rw zero refl in
      rw same (unnamed λ k one f. grind arith)
  | inl positive ↦ elim (Bool-cases (ltb 100 v)) [
    | inl large ↦
        let same : limit_of (some (pos v)) ≡ 100 = ground arith in rw same (capped e (ground arith))
    | inr small ↦
        let same : limit_of (some (pos v)) ≡ v = ground arith in
        rw same (named e (ground arith) (ground arith))
  ]
]

NamesLimit-bounds : {text : String} {k : ℕ} → NamesLimit text k → (1 ≤ k) × (k ≤ 100)
NamesLimit-bounds (named e lo hi) = (lo, hi)
NamesLimit-bounds (capped e h) = (omega arith, omega arith)
NamesLimit-bounds (unnamed h) = (omega arith, omega arith)

-- Whatever the text of the parameter, between 1 and 100 entries are asked for.
pub page_limit-Names :
    (text : String) → (limit : ℕ) × ((page_limit text ≡ pos limit) × NamesLimit text limit)
unfolding page_limit
page_limit-Names text =
    let names = limit-Names text (atoi text) refl in
    let (low, high) = NamesLimit-bounds names in
    (limit_of (atoi text), (to_int32-small _ (omega arith), names))

offset-Names :
    (text : String) (o : Option ℤ) → atoi text ≡ o → NamesOffset text (to_int32 (offset_of o))
unfolding to_int32
offset-Names text none e = unnamed (λ k f. grind arith)
offset-Names text (some (negsuc v)) e = unnamed (λ k f. grind arith)
offset-Names text (some (pos v)) e = elim (Bool-cases (ltb (v % 2 ^ 32) (2 ^ 31))) [
  | inl low ↦ elim (Bool-cases (ltb v (2 ^ 32))) [
    | inl small ↦
        let below : v < 2 ^ 31 = ground arith in rw (to_int32-small v below) (kept e below)
    | inr large ↦ rw low (wrapped (v / 2 ^ 32) e (omega arith) (ground arith) (ground arith))
  ]
  | inr high ↦ rw high (negative (v / 2 ^ 32) e (ground arith) (ground arith))
]

pub page_offset-Names : (text : String) → NamesOffset text (page_offset text)
unfolding page_offset
page_offset-Names text = offset-Names text (atoi text) refl
