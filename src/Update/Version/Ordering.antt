-- ===== src/Update/Version/Ordering.antt =====
-- The comparison of versions is an order.
use veyport.Base.{
  ℕ, ◌≡◌, ◌==◌, refl, Bool, true, false, Option, none, some, List, [], ◌∷◌, arith, length,
  if◌then◌else◌, ◌||◌, ◌&&◌, not, is_some, map_option,
}
use veyport.Base.Text.{Text}
use veyport.Update.Version.{
  ParsedVersion, parse_version, Order, less, equal, greater, compare_numbers, compare_text,
  compare_identifier, then_by, compare_identifiers, compare_prerelease, compare_parsed,
  compare_read, compare_versions,
}

unfoldable pub flip : Order → Order
flip less = greater
flip equal = equal
flip greater = less

compare_numbers-flip : (a b : ℕ) → compare_numbers b a ≡ flip (compare_numbers a b)
unfolding compare_numbers flip
compare_numbers-flip a b = ground arith

compare_text-flip : (a b : Text) → compare_text b a ≡ flip (compare_text a b)
unfolding compare_text flip
compare_text-flip [] [] = refl
compare_text-flip [] (d ∷ ds) = refl
compare_text-flip (c ∷ cs) [] = refl
compare_text-flip (c ∷ cs) (d ∷ ds) = ground (arith, compare_text-flip cs ds)

compare_identifier-flip : (p q : Text) → compare_identifier q p ≡ flip (compare_identifier p q)
unfolding compare_identifier flip
compare_identifier-flip p q =
    ground (arith, compare_text-flip p q, compare_numbers-flip (length p) (length q))

compare_identifiers-flip :
    (x y : List Text) → compare_identifiers y x ≡ flip (compare_identifiers x y)
unfolding compare_identifiers flip
compare_identifiers-flip [] [] = refl
compare_identifiers-flip [] (q ∷ qs) = refl
compare_identifiers-flip (p ∷ ps) [] = refl
compare_identifiers-flip (p ∷ ps) (q ∷ qs) =
    ground (arith, compare_identifier-flip p q, compare_identifiers-flip ps qs)

compare_prerelease-flip : (x y : List Text) → compare_prerelease y x ≡ flip (compare_prerelease x y)
unfolding compare_prerelease
compare_prerelease-flip x y =
    ground (arith, compare_numbers-flip (length y) (length x), compare_identifiers-flip x y)

last : ParsedVersion → ParsedVersion → Order
last x y =
    if not (x.ahead == 0) || not (y.ahead == 0)
    then compare_numbers x.ahead y.ahead
    else compare_prerelease x.pre y.pre

last-flip : (x y : ParsedVersion) → last y x ≡ flip (last x y)
unfolding last
last-flip x y =
    ground (arith, compare_numbers-flip x.ahead y.ahead, compare_prerelease-flip x.pre y.pre)

then_by-flips : (a b c d : Order) → c ≡ flip a → d ≡ flip b → then_by c d ≡ flip (then_by a b)
unfolding flip
then_by-flips a b c d h k = ground arith

-- The later comparisons only decide between versions that the earlier ones leave equal.
compare_parsed-flip : (x y : ParsedVersion) → compare_parsed y x ≡ flip (compare_parsed x y)
unfolding compare_parsed last
compare_parsed-flip x y = then_by-flips _ _ _ _ (compare_numbers-flip x.major y.major) (
    then_by-flips _ _ _ _ (compare_numbers-flip x.minor y.minor)
      (then_by-flips _ _ _ _ (compare_numbers-flip x.patch y.patch) (last-flip x y)))

-- What the order of x and y, and that of y and z, leave for the order of x and z.
unfoldable pub is_coherent : Order → Order → Order → Bool
is_coherent equal equal equal = true
is_coherent equal less less = true
is_coherent equal greater greater = true
is_coherent less equal less = true
is_coherent less less less = true
is_coherent greater equal greater = true
is_coherent greater greater greater = true
is_coherent less greater q = true
is_coherent greater less q = true
is_coherent _ _ _ = false

compare_numbers-coherent :
    (a b c : ℕ)
    → is_coherent (compare_numbers a b) (compare_numbers b c) (compare_numbers a c) ≡ true
unfolding compare_numbers is_coherent
compare_numbers-coherent a b c = ground arith

compare_text-coherent :
    (a b c : Text) → is_coherent (compare_text a b) (compare_text b c) (compare_text a c) ≡ true
unfolding compare_text is_coherent
compare_text-coherent [] [] [] = refl
compare_text-coherent [] [] (e ∷ c) = refl
compare_text-coherent [] (d ∷ b) [] = refl
compare_text-coherent [] (d ∷ b) (e ∷ c) = ground arith
compare_text-coherent (x ∷ a) [] [] = refl
compare_text-coherent (x ∷ a) [] (e ∷ c) = refl
compare_text-coherent (x ∷ a) (d ∷ b) [] = ground arith
compare_text-coherent (x ∷ a) (d ∷ b) (e ∷ c) = ground (arith, compare_text-coherent a b c)

compare_identifier-coherent :
    (p q r : Text)
    → is_coherent (compare_identifier p q) (compare_identifier q r) (compare_identifier p r) ≡ true
unfolding compare_identifier compare_numbers is_coherent
compare_identifier-coherent p q r = ground (arith, compare_text-coherent p q r)

then_by-coherent :
    (a b c x y z : Order)
    → is_coherent a b c ≡ true
    → is_coherent x y z ≡ true
    → is_coherent (then_by a x) (then_by b y) (then_by c z) ≡ true
unfolding is_coherent
then_by-coherent a b c x y z h k = ground arith

compare_identifiers-coherent :
    (x y z : List Text)
    → is_coherent (compare_identifiers x y) (compare_identifiers y z) (compare_identifiers x z)
      ≡ true
unfolding compare_identifiers is_coherent
compare_identifiers-coherent [] [] [] = refl
compare_identifiers-coherent [] [] (r ∷ z) = refl
compare_identifiers-coherent [] (q ∷ y) [] = refl
compare_identifiers-coherent [] (q ∷ y) (r ∷ z) = ground arith
compare_identifiers-coherent (p ∷ x) [] [] = refl
compare_identifiers-coherent (p ∷ x) [] (r ∷ z) = refl
compare_identifiers-coherent (p ∷ x) (q ∷ y) [] = ground arith
compare_identifiers-coherent (p ∷ x) (q ∷ y) (r ∷ z) =
    then_by-coherent _ _ _ _ _ _ (compare_identifier-coherent p q r)
      (compare_identifiers-coherent x y z)

compare_prerelease-coherent :
    (x y z : List Text)
    → is_coherent (compare_prerelease x y) (compare_prerelease y z) (compare_prerelease x z) ≡ true
unfolding compare_prerelease compare_numbers is_coherent
compare_prerelease-coherent x y z = ground (arith, compare_identifiers-coherent x y z)

last-coherent : (x y z : ParsedVersion) → is_coherent (last x y) (last y z) (last x z) ≡ true
unfolding last compare_numbers is_coherent
last-coherent x y z = ground (arith, compare_prerelease-coherent x.pre y.pre z.pre)

compare_parsed-coherent :
    (x y z : ParsedVersion)
    → is_coherent (compare_parsed x y) (compare_parsed y z) (compare_parsed x z) ≡ true
unfolding compare_parsed last
compare_parsed-coherent x y z =
    then_by-coherent _ _ _ _ _ _ (compare_numbers-coherent x.major y.major z.major) (
      then_by-coherent _ _ _ _ _ _ (compare_numbers-coherent x.minor y.minor z.minor) (
        then_by-coherent _ _ _ _ _ _ (compare_numbers-coherent x.patch y.patch z.patch)
          (last-coherent x y z)))

-- The answers on the pairs of three versions: where the first two are given, so is the last, and it
-- fits them.
unfoldable pub are_coherent : Option Order → Option Order → Option Order → Bool
are_coherent none p q = true
are_coherent (some o) none q = true
are_coherent (some o) (some p) none = false
are_coherent (some o) (some p) (some q) = is_coherent o p q

read-flip :
    (x y : Option ParsedVersion)
    → (is_some (compare_read x y) ≡ (is_some x && is_some y))
      × (compare_read y x ≡ map_option flip (compare_read x y))
unfolding compare_read
read-flip none none = (refl, refl)
read-flip none (some y) = (refl, refl)
read-flip (some x) none = (refl, refl)
read-flip (some x) (some y) = (refl, rw (compare_parsed-flip x y) refl)

read-coherent :
    (x y z : Option ParsedVersion)
    → are_coherent (compare_read x y) (compare_read y z) (compare_read x z) ≡ true
unfolding compare_read are_coherent
read-coherent none y z = refl
read-coherent (some x) none z = refl
read-coherent (some x) (some y) none = refl
read-coherent (some x) (some y) (some z) = compare_parsed-coherent x y z

-- The comparison of versions is an order on the versions that can be read. It answers exactly when
-- both versions can be read, so that an error of one comparison is an error of the other way round;
-- the other way round gives the opposite answer; and of three versions the order of the first two
-- and that of the last two determine that of the outer two wherever they agree: less than less is
-- less, equal versions may replace each other, and greater than greater is greater.
pub compare_versions-is_coherent :
    (a b c : Text)
    → (is_some (compare_versions a b) ≡ (is_some (parse_version a) && is_some (parse_version b)))
      × ((compare_versions b a ≡ map_option flip (compare_versions a b))
          × (are_coherent (compare_versions a b) (compare_versions b c) (compare_versions a c)
              ≡ true))
unfolding compare_versions
compare_versions-is_coherent a b c =
    let (read, other) = read-flip (parse_version a) (parse_version b) in
    (read, (other, read-coherent (parse_version a) (parse_version b) (parse_version c)))
