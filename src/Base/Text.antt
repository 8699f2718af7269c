-- ===== src/Base/Text.antt =====
-- Text as a list of code points, with what the program uses of Go's strings and strconv.
use Prim.Native.Char.{code}
use Prim.Native.String.{String}
use mathlib.Core.List.{reverse}
use veyport.Base.Tests.{leb, ◌==◌, if◌then◌else◌}
use veyport.Base.Int.{ℤ, pos, negsuc, neg, ◌≤ℤ◌, max_int64, min_int64}
use Prim.Native.Nat.{ℕ, zero, suc, ◌+◌, ◌-◌, ◌*◌}
use mathlib.Core.Path.{◌≡◌, refl}
use mathlib.Core.Bool.{Bool, true, false, ◌&&◌, ◌||◌}
use mathlib.Core.List.{List, [], ◌∷◌}
use mathlib.Core.Option.{Option, none, some}
use native.Mathlib.Omega.{arith}

abbrev pub Text : Type 0
Text = List ℕ

-- A literal's code points.
abbrev pub codes : String → Text
codes String.[] = []
codes (String.◌∷◌ c s) = code c ∷ codes s

-- unicode.IsSpace
unfoldable pub is_space : ℕ → Bool
is_space r =
    (leb 0x09 r && leb r 0x0d)
    || (r == 0x20
        || (r == 0x85
            || (r == 0xa0
                || (r == 0x1680
                    || ((leb 0x2000 r && leb r 0x200a)
                        || (r == 0x2028
                            || (r == 0x2029 || (r == 0x202f || (r == 0x205f || r == 0x3000)))))))))

unfoldable pub trim_left : Text → Text
unfolding is_space
trim_left [] = []
trim_left (r ∷ s) = elim (is_space r) [ true ↦ trim_left s | false ↦ r ∷ s ]

-- strings.TrimSpace
unfoldable pub trim_space : Text → Text
unfolding trim_left
trim_space s = reverse (trim_left (reverse (trim_left s)))

unfoldable pub is_digit : ℕ → Bool
is_digit r = leb b'0' r && leb r b'9'

-- The value of a run of digits after `n`; none at any other character.
unfoldable pub digits_from : ℕ → Text → Option ℕ
unfolding is_digit
digits_from n [] = some n
digits_from n (r ∷ s) = elim (is_digit r) [
  | true ↦ digits_from (10 * n + (r - b'0')) s
  | false ↦ none
]

abbrev non_empty_digits : Text → Option ℕ
unfolding digits_from
non_empty_digits [] = none
non_empty_digits (r ∷ s) = digits_from 0 (r ∷ s)

abbrev in_int64 : Bool → Option ℕ → Option ℤ
in_int64 negative none = none
in_int64 true (some n) = if leb n 9223372036854775808 then some (neg (pos n)) else none
in_int64 false (some n) = if leb n 9223372036854775807 then some (pos n) else none

-- strconv.Atoi on a 64-bit platform: a sign, then decimal digits, in range; none is its error.
unfoldable pub atoi : Text → Option ℤ
unfolding digits_from neg
atoi [] = none
atoi (r ∷ s) =
    if r == b'-'
    then in_int64 true (non_empty_digits s)
    else if r == b'+'
    then in_int64 false (non_empty_digits s)
    else in_int64 false (non_empty_digits (r ∷ s))

pub in_int64_range :
    (b : Bool) (o : Option ℕ) (z : ℤ) → in_int64 b o ≡ some z → (min_int64 ≤ℤ z) × (z ≤ℤ max_int64)
unfolding neg
in_int64_range b none z h = ground arith
in_int64_range true (some n) z h = ground arith
in_int64_range false (some n) z h = ground arith

pub atoi_range : (s : Text) (z : ℤ) → atoi s ≡ some z → (min_int64 ≤ℤ z) × (z ≤ℤ max_int64)
unfolding atoi
atoi_range [] z h = ground arith
atoi_range (r ∷ s) z h = ground (
  arith,
  in_int64_range true (non_empty_digits s) z,
  in_int64_range false (non_empty_digits s) z,
  in_int64_range false (non_empty_digits (r ∷ s)) z,
)

atoi_reads : atoi (trim_space (codes " -120 ")) ≡ some (negsuc 119)
unfolding atoi trim_space
atoi_reads = refl

-- What a leading byte of UTF-8 asks for: the number of bytes that follow, and the range of the first.
abbrev lead : ℕ → Option (ℕ × (ℕ × ℕ))
lead b =
    if leb b 0x7f
    then some (0, (0x80, 0xbf))
    else if leb 0xc2 b && leb b 0xdf
    then some (1, (0x80, 0xbf))
    else if b == 0xe0
    then some (2, (0xa0, 0xbf))
    else if b == 0xed
    then some (2, (0x80, 0x9f))
    else if leb 0xe1 b && leb b 0xef
    then some (2, (0x80, 0xbf))
    else if b == 0xf0
    then some (3, (0x90, 0xbf))
    else if leb 0xf1 b && leb b 0xf3
    then some (3, (0x80, 0xbf))
    else if b == 0xf4
    then some (3, (0x80, 0x8f))
    else none

abbrev utf8_from : ℕ → ℕ → ℕ → Text → Bool
utf8_from n lo hi [] = n == 0
utf8_from zero lo hi (b ∷ bs) = elim (lead b) [
  | none ↦ false
  | some (n, (lo', hi')) ↦ utf8_from n lo' hi' bs
]
utf8_from (suc n) lo hi (b ∷ bs) = (leb lo b && leb b hi) && utf8_from n 0x80 0xbf bs

-- utf8.Valid
unfoldable pub utf8_valid : Text → Bool
utf8_valid bs = utf8_from 0 0x80 0xbf bs

-- len of a string whose code points these are.
abbrev rune_length : ℕ → ℕ
rune_length r = if leb r 0x7f then 1 else if leb r 0x7ff then 2 else if leb r 0xffff then 3 else 4

unfoldable pub byte_length : Text → ℕ
byte_length [] = 0
byte_length (r ∷ rs) = rune_length r + byte_length rs
