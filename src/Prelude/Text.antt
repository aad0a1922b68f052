-- ===== src/Prelude/Text.antt =====
-- Go's strings.TrimSpace and strconv.Atoi.
use Prim.Native.Nat.{ℕ, ◌+◌, ◌-◌, ◌*◌, ◌^◌}
use Prim.Native.Char.{code}
use Prim.Native.String.{String}
use mathlib.Core.Bool.{Bool, true, false, ◌&&◌, ◌||◌}
use mathlib.Core.Option.{Option, none, some}
use go_bank_ledger.Prelude.Tests.{leb, ◌==◌, if◌then◌else◌}
use go_bank_ledger.Prelude.Int.{ℤ, pos, sub_ℕ}

-- unicode.IsSpace
unfoldable pub is_space : ℕ → Bool
is_space c =
    leb 9 c && leb c 13
    || c == 0x20
    || c == 0x85
    || c == 0xa0
    || c == 0x1680
    || leb 0x2000 c && leb c 0x200a
    || c == 0x2028
    || c == 0x2029
    || c == 0x202f
    || c == 0x205f
    || c == 0x3000

abbrev pub is_empty : String → Bool
is_empty String.[] = true
is_empty (String.◌∷◌ c s) = false

unfoldable pub trim_left : String → String
unfolding is_space
trim_left String.[] = String.[]
trim_left (String.◌∷◌ c s) = if is_space (code c) then trim_left s else String.◌∷◌ c s

unfoldable pub trim_right : String → String
unfolding is_space
trim_right String.[] = String.[]
trim_right (String.◌∷◌ c s) =
    let rest = trim_right s in
    if is_space (code c) && is_empty rest then String.[] else String.◌∷◌ c rest

unfoldable pub trim_space : String → String
unfolding trim_left trim_right
trim_space s = trim_right (trim_left s)

-- The digits after the sign.
unfoldable pub digits_value : String → ℕ → Option ℕ
digits_value String.[] n = some n
digits_value (String.◌∷◌ c s) n =
    if leb b'0' (code c) && leb (code c) b'9'
    then digits_value s (n * 10 + (code c - b'0'))
    else none

abbrev in_int64 : Option ℕ → Bool → Option ℤ
in_int64 none minus = none
in_int64 (some n) true = if leb n (2 ^ 63) then some (sub_ℕ 0 n) else none
in_int64 (some n) false = if leb (n + 1) (2 ^ 63) then some (pos n) else none

abbrev digits : String → Option ℕ
digits String.[] = none
digits (String.◌∷◌ c s) = digits_value (String.◌∷◌ c s) 0

-- strconv.Atoi, on 64-bit integers.
unfoldable pub atoi : String → Option ℤ
unfolding digits_value
atoi String.[] = none
atoi (String.◌∷◌ c s) =
    if code c == b'-'
    then in_int64 (digits s) true
    else if code c == b'+'
    then in_int64 (digits s) false
    else in_int64 (digits (String.◌∷◌ c s)) false
