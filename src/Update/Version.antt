-- ===== src/Update/Version.antt =====
-- version.go. A string is the list of its code points; the two regular expressions are read from
-- left to right, which is all that they match, as each part ends where the next must begin.
use veyport.Base.{
  ℕ, ◌+◌, ◌-◌, ◌*◌, ◌^◌, ◌==◌, leb, ltb, Bool, true, false, ◌&&◌, ◌||◌, not, Option, none, some,
  List, [], ◌∷◌, ◌++◌, if◌then◌else◌, length, any,
}
use veyport.Base.Text.{Text}
pub mod Ordering

infixl 1 ◌>>=◌
abbrev ◌>>=◌ {ℓ κ} : {A : Type ℓ} {B : Type κ} → Option A → (A → Option B) → Option B
none >>= f = none
some x >>= f = f x

pub record ParsedVersion : Type 0 where
  pub major : ℕ
  pub minor : ℕ
  pub patch : ℕ
  pub pre : List Text
  pub ahead : ℕ

abbrev pub is_digit : ℕ → Bool
is_digit c = leb 48 c && leb c 57

-- [0-9A-Za-z.-]
abbrev pub is_identifier : ℕ → Bool
is_identifier c =
    is_digit c || ((leb 65 c && leb c 90) || ((leb 97 c && leb c 122) || (c == 46 || c == 45)))

-- [0-9a-f]
abbrev pub is_hex : ℕ → Bool
is_hex c = is_digit c || (leb 97 c && leb c 102)

unfoldable pub span : (ℕ → Bool) → Text → Text × Text
span p [] = ([], [])
span p (c ∷ cs) = let (a, b) = span p cs in if p c then (c ∷ a, b) else ([], c ∷ cs)

-- strconv.ParseUint(ds, 10, 64) of digits; none is out of range.
unfoldable pub digits_value : ℕ → Text → Option ℕ
digits_value n [] = some n
digits_value n (d ∷ ds) =
    let m = n * 10 + (d - 48) in
    let rest = digits_value m ds in if leb (2 ^ 64) m then none else rest

-- 0|[1-9][0-9]*
unfoldable pub is_number : Text → Bool
is_number [] = false
is_number (d ∷ []) = true
is_number (d ∷ e ∷ ds) = not (d == 48)

-- A number, and what follows it.
unfoldable pub read_number : Text → Option (Text × Text)
read_number t = let (ds, rest) = span is_digit t in if is_number ds then some (ds, rest) else none

unfoldable pub expect : ℕ → Text → Option Text
expect c [] = none
expect c (d ∷ ds) = if d == c then some ds else none

unfoldable pub skip_v : Text → Text
skip_v [] = []
skip_v (c ∷ cs) = if c == 118 then cs else c ∷ cs

-- v?N.N.N, and what follows.
unfoldable pub read_core : Text → Option (Text × Text × Text × Text)
read_core raw = do
  (a, r1) ← read_number (skip_v raw)
  r2 ← expect 46 r1
  (b, r3) ← read_number r2
  r4 ← expect 46 r3
  (c, r5) ← read_number r4
  some (a, b, c, r5)

-- (?:\+([0-9A-Za-z.-]+))?$
unfoldable pub read_build : Text → Option Text
read_build [] = some []
read_build (c ∷ cs) =
    let (build, rest) = span is_identifier cs in
    if c == 43 && (not (length build == 0) && length rest == 0) then some build else none

-- (?:-([0-9A-Za-z.-]+))?, and what follows.
unfoldable pub read_pre : Text → Option (Text × Text)
read_pre [] = some ([], [])
read_pre (c ∷ cs) =
    let (pre, rest) = span is_identifier cs in
    if not (c == 45) then some ([], c ∷ cs) else if length pre == 0 then none else some (pre, rest)

-- strings.Split(group, ".")
unfoldable pub split_dots : Text → Text → List Text
split_dots seen [] = seen ∷ []
split_dots seen (c ∷ cs) =
    if c == 46 then seen ∷ split_dots [] cs else split_dots (seen ++ c ∷ []) cs

unfoldable pub all_digits : Text → Bool
all_digits [] = true
all_digits (c ∷ cs) = is_digit c && all_digits cs

unfoldable pub is_numeric : Text → Bool
is_numeric s = all_digits s && not (length s == 0)

abbrev starts_with_zero : Text → Bool
starts_with_zero [] = false
starts_with_zero (c ∷ cs) = c == 48

abbrev is_refused : Bool → Text → Bool
is_refused prerelease id =
    length id == 0 || (prerelease && (is_numeric id && (ltb 1 (length id) && starts_with_zero id)))

unfoldable pub version_identifiers : Text → Bool → Option (List Text)
version_identifiers group prerelease =
    let ids = split_dots [] group in
    if length group == 0
    then some []
    else if any (is_refused prerelease) ids
    then none
    else some ids

unfoldable pub starts_with : Text → Text → Bool
starts_with [] t = true
starts_with (c ∷ cs) [] = false
starts_with (c ∷ cs) (d ∷ ds) = c == d && starts_with cs ds

unfoldable pub contains : Text → Text → Bool
contains w [] = starts_with w []
contains w (c ∷ cs) = starts_with w (c ∷ cs) || contains w cs

abbrev dirty : Text
dirty = 100 ∷ 105 ∷ 114 ∷ 116 ∷ 121 ∷ []

abbrev staging : Text
staging = 45 ∷ 115 ∷ 116 ∷ 97 ∷ 103 ∷ 105 ∷ 110 ∷ 103 ∷ []

unfoldable pub historical_tail : Text → Text × Text → Option Text
historical_tail ds (hex, rest) =
    if not (starts_with_zero ds)
      && ((leb 7 (length hex) && leb (length hex) 64)
          && (starts_with staging rest && length rest == length staging))
    then some ds
    else none

-- -([1-9][0-9]*)-g[0-9a-f]{7,64}-staging$, of which the count is kept.
unfoldable pub read_historical : Text → Option Text
unfolding historical_tail
read_historical t = do
  r1 ← expect 45 t
  (ds, r2) ← read_number r1
  r3 ← expect 45 r2
  r4 ← expect 103 r3
  historical_tail ds (span is_hex r4)

unfoldable pub parse_numbers : Text → Text → Text → List Text → Text → Option ParsedVersion
parse_numbers a b c pre ahead = do
  x ← digits_value 0 a
  y ← digits_value 0 b
  z ← digits_value 0 c
  n ← digits_value 0 ahead
  some (record { major = x; minor = y; patch = z; pre = pre; ahead = n })

unfoldable pub parse_semantic : Text → Text → Text → Text → Option ParsedVersion
unfolding parse_numbers
parse_semantic a b c rest = do
  (pre, r) ← read_pre rest
  build ← read_build r
  ids ← version_identifiers pre true
  other ← version_identifiers build false
  parse_numbers a b c ids []

unfoldable pub parse_matched : Text → Text → Text → Text → Option Text → Option ParsedVersion
unfolding parse_numbers parse_semantic
parse_matched a b c rest (some ahead) = parse_numbers a b c [] ahead
parse_matched a b c rest none = parse_semantic a b c rest

-- parseVersion; none is its error.
unfoldable pub parse_version : Text → Option ParsedVersion
unfolding parse_matched
parse_version raw =
    if ltb 128 (length raw) || contains dirty raw
    then none
    else do (a, b, c, rest) ← read_core raw; parse_matched a b c rest (read_historical rest)

pub data Order : Type 0 where
  less equal greater : Order

unfoldable pub compare_numbers : ℕ → ℕ → Order
compare_numbers a b = if ltb a b then less else if ltb b a then greater else equal

-- strings.Compare
unfoldable pub compare_text : Text → Text → Order
compare_text [] [] = equal
compare_text [] (d ∷ ds) = less
compare_text (c ∷ cs) [] = greater
compare_text (c ∷ cs) (d ∷ ds) =
    let rest = compare_text cs ds in if ltb c d then less else if ltb d c then greater else rest

unfoldable pub compare_identifier : Text → Text → Order
compare_identifier p q =
    let pn = is_numeric p in
    let qn = is_numeric q in
    if (pn && qn) && not (length p == length q)
    then compare_numbers (length p) (length q)
    else if pn && not qn
    then less
    else if qn && not pn
    then greater
    else compare_text p q

abbrev pub then_by : Order → Order → Order
then_by less o = less
then_by greater o = greater
then_by equal o = o

-- The identifiers that both have, and then the lengths.
unfoldable pub compare_identifiers : List Text → List Text → Order
compare_identifiers [] [] = equal
compare_identifiers [] (q ∷ qs) = less
compare_identifiers (p ∷ ps) [] = greater
compare_identifiers (p ∷ ps) (q ∷ qs) = then_by (compare_identifier p q) (compare_identifiers ps qs)

unfoldable pub compare_prerelease : List Text → List Text → Order
compare_prerelease x y =
    if length x == 0 || length y == 0
    then compare_numbers (length y) (length x)
    else compare_identifiers x y

-- CompareVersions of two versions that were read.
unfoldable pub compare_parsed : ParsedVersion → ParsedVersion → Order
compare_parsed x y = then_by (compare_numbers x.major y.major) (
    then_by (compare_numbers x.minor y.minor) (
      then_by (compare_numbers x.patch y.patch) (
        if not (x.ahead == 0) || not (y.ahead == 0)
        then compare_numbers x.ahead y.ahead
        else compare_prerelease x.pre y.pre)))

unfoldable pub compare_read : Option ParsedVersion → Option ParsedVersion → Option Order
compare_read none y = none
compare_read (some x) none = none
compare_read (some x) (some y) = some (compare_parsed x y)

unfoldable pub compare_versions : Text → Text → Option Order
unfolding compare_read
compare_versions a b = compare_read (parse_version a) (parse_version b)
