-- ===== src/Base/Numbers.antt =====
-- Go's strconv.ParseInt in base 10 for 32 bits.
use Prim.Native.Char.{code}
use Prim.Native.Nat.{ℕ, zero, suc, ◌+◌, ◌-◌, ◌*◌, ◌<◌}
use Prim.Native.String.{String}
use mathlib.Core.Path.{◌≡◌, refl}
use mathlib.Core.Bool.{Bool, ◌&&◌}
use mathlib.Core.Option.{Option, none, some}
use native.Mathlib.Omega.{arith}
use device_mounter.Base.Tests.{ltb, leb, ◌==◌, if◌then◌else◌}
use device_mounter.Base.Int.{ℤ, pos, negsuc}

abbrev is_digit : ℕ → Bool
is_digit c = leb b'0' c && leb c b'9'

-- The loop of `strconv.ParseUint` in base 10 for 32 bits behind `n`: none is a syntax error, and a
-- number that is out of range ends it with the largest one.
unfoldable parse_digits : ℕ → String → Option ℕ
parse_digits n String.[] = some n
parse_digits n (String.◌∷◌ c s) =
    let next = n * 10 + (code c - b'0') in
    let rest = parse_digits next s in
    if is_digit (code c) then (if ltb 4294967295 next then some 4294967295 else rest) else none

unfoldable parse_uint32 : String → Option ℕ
unfolding parse_digits
parse_uint32 String.[] = none
parse_uint32 (String.◌∷◌ c s) = parse_digits 0 (String.◌∷◌ c s)

abbrev positive : Option ℕ → ℤ
positive none = pos 0
positive (some n) = if ltb n 2147483648 then pos n else pos 2147483647

abbrev negative : Option ℕ → ℤ
negative none = pos 0
negative (some zero) = pos 0
negative (some (suc n)) = if ltb n 2147483647 then negsuc n else negsuc 2147483647

-- `v, _ := strconv.ParseInt(s, 10, 32)`: zero after a syntax error, and the nearest number of 32 bits
-- if it is out of range.
unfoldable pub parse_int32 : String → ℤ
unfolding parse_uint32
parse_int32 String.[] = pos 0
parse_int32 (String.◌∷◌ c s) =
    if code c == b'-'
    then negative (parse_uint32 s)
    else if code c == b'+'
    then positive (parse_uint32 s)
    else positive (parse_uint32 (String.◌∷◌ c s))

parsed : (parse_int32 "-12" ≡ negsuc 11) × (parse_int32 "4294967296" ≡ pos 2147483647)
unfolding parse_int32
parsed = (refl, refl)

abbrev exact_positive : Option ℕ → Option ℤ
exact_positive none = none
exact_positive (some n) = if ltb n 2147483648 then some (pos n) else none

abbrev exact_negative : Option ℕ → Option ℤ
exact_negative none = none
exact_negative (some zero) = some (pos 0)
exact_negative (some (suc n)) = if ltb n 2147483648 then some (negsuc n) else none

-- `strconv.ParseInt(s, 10, 32)` if it ends without an error.
unfoldable pub exact_int32 : String → Option ℤ
unfolding parse_uint32
exact_int32 String.[] = none
exact_int32 (String.◌∷◌ c s) =
    if code c == b'-'
    then exact_negative (parse_uint32 s)
    else if code c == b'+'
    then exact_positive (parse_uint32 s)
    else exact_positive (parse_uint32 (String.◌∷◌ c s))

exact :
    (exact_int32 "+12" ≡ some (pos 12))
    × (exact_int32 "2147483648" ≡ none)
    × (exact_int32 "-2147483648" ≡ some (negsuc 2147483647))
    × (exact_int32 "1x" ≡ none)
unfolding exact_int32
exact = (refl, refl, refl, refl)

exact_positive_bounds :
    (digits : Option ℕ) (n : ℕ) → exact_positive digits ≡ some (pos n) → n < 2147483648
exact_positive_bounds none n h = ground arith
exact_positive_bounds (some m) n h = ground arith

exact_negative_bounds :
    (digits : Option ℕ) (n : ℕ) → exact_negative digits ≡ some (pos n) → n < 2147483648
exact_negative_bounds none n h = ground arith
exact_negative_bounds (some zero) n h = ground arith
exact_negative_bounds (some (suc m)) n h = ground arith

-- A number that is read is below 2^31.
pub exact_int32_bounds : (s : String) (n : ℕ) → exact_int32 s ≡ some (pos n) → n < 2147483648
unfolding exact_int32
exact_int32_bounds String.[] n h = ground arith
exact_int32_bounds (String.◌∷◌ c s) n h = ground (
  arith,
  exact_negative_bounds (parse_uint32 s) n,
  exact_positive_bounds (parse_uint32 s) n,
  exact_positive_bounds (parse_uint32 (String.◌∷◌ c s)) n,
)
