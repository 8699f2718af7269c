-- ===== src/Base/Lists.antt =====
-- Lists measured by native numbers; a list as the rows of a table, read and written by Boolean tests.
use Prim.Native.Nat.{ℕ, suc, ◌+◌, ◌≤◌}
use mathlib.Core.Path.{◌≡◌, refl}
use mathlib.Core.Bool.{Bool, true, false, ◌||◌, not}
use mathlib.Core.List.{List, [], ◌∷◌, ◌++◌}
use mathlib.Core.Option.{Option, none, some}
use native.Mathlib.Omega.{arith}
use veyport.Base.Tests.{if◌then◌else◌}

abbrev pub map_option {ℓ κ} : {A : Type ℓ} {B : Type κ} → (A → B) → Option A → Option B
map_option f none = none
map_option f (some x) = some (f x)

module _ {ℓ} {A : Type ℓ} where
  abbrev pub length : List A → ℕ
  length [] = 0
  length (x ∷ xs) = suc (length xs)

  pub length-append : (xs ys : List A) → length (xs ++ ys) ≡ length xs + length ys
  length-append [] ys = omega arith
  length-append (x ∷ xs) ys = omega (arith, length-append xs ys)

  -- SELECT … WHERE test
  unfoldable pub select : (A → Bool) → List A → List A
  select test [] = []
  select test (x ∷ xs) = if test x then x ∷ select test xs else select test xs

  -- The first row that passes.
  unfoldable pub find : (A → Bool) → List A → Option A
  find test [] = none
  find test (x ∷ xs) = if test x then some x else find test xs

  unfoldable pub any : (A → Bool) → List A → Bool
  any test [] = false
  any test (x ∷ xs) = test x || any test xs

  -- The number of rows that pass, as RowsAffected reports it.
  unfoldable pub count_where : (A → Bool) → List A → ℕ
  count_where test [] = 0
  count_where test (x ∷ xs) = if test x then suc (count_where test xs) else count_where test xs

  -- UPDATE … SET f WHERE test
  unfoldable pub update_where : (A → Bool) → (A → A) → List A → List A
  update_where test f [] = []
  update_where test f (x ∷ xs) = (if test x then f x else x) ∷ update_where test f xs

  pub length-update_where :
      (test : A → Bool) (f : A → A) (xs : List A) → length (update_where test f xs) ≡ length xs
  unfolding update_where
  length-update_where test f [] = refl
  length-update_where test f (x ∷ xs) = omega (arith, length-update_where test f xs)

  -- A row is selected or deleted, and none is lost.
  pub length-select :
      (test : A → Bool) (xs : List A)
      → length (select (λ x. not (test x)) xs) + count_where test xs ≡ length xs
  unfolding select count_where
  length-select test [] = omega arith
  length-select test (x ∷ xs) = ground (arith, length-select test xs)

  -- When no row passes, an update changes nothing.
  pub update_where-none :
      (test : A → Bool) (f : A → A) (xs : List A)
      → any test xs ≡ false
      → update_where test f xs ≡ xs
  unfolding update_where any
  update_where-none test f [] h = refl
  update_where-none test f (x ∷ xs) h = ground (arith, update_where-none test f xs)

  pub count_where-none :
      (test : A → Bool) (xs : List A) → any test xs ≡ false → count_where test xs ≡ 0
  unfolding count_where any
  count_where-none test [] h = refl
  count_where-none test (x ∷ xs) h = ground (arith, count_where-none test xs)

  -- After an update that makes its own test fail, no row passes it.
  pub any-update_where :
      (test : A → Bool) (f : A → A) (xs : List A)
      → ((x : A) → test (f x) ≡ false)
      → any test (update_where test f xs) ≡ false
  unfolding update_where any
  any-update_where test f [] h = refl
  any-update_where test f (x ∷ xs) h = ground (arith, h x, any-update_where test f xs h)

  -- An update that keeps what another test reads keeps its answer.
  pub any-update_where_keep :
      (test seen : A → Bool) (f : A → A) (xs : List A)
      → ((x : A) → seen (f x) ≡ seen x)
      → any seen (update_where test f xs) ≡ any seen xs
  unfolding update_where any
  any-update_where_keep test seen f [] h = refl
  any-update_where_keep test seen f (x ∷ xs) h =
      ground (arith, h x, any-update_where_keep test seen f xs h)

  pub any-select :
      (test keep : A → Bool) (xs : List A) → any test xs ≡ false → any test (select keep xs) ≡ false
  unfolding select any
  any-select test keep [] h = refl
  any-select test keep (x ∷ xs) h = ground (arith, any-select test keep xs)

  -- What is deleted is gone.
  pub any-select-not :
      (test : A → Bool) (xs : List A) → any test (select (λ x. not (test x)) xs) ≡ false
  unfolding select any
  any-select-not test [] = refl
  any-select-not test (x ∷ xs) = ground (arith, any-select-not test xs)

  -- A deletion that spares what another test selects does not change that selection.
  pub select-select :
      (test keep : A → Bool) (xs : List A)
      → ((x : A) → test x ≡ true → keep x ≡ true)
      → select test (select keep xs) ≡ select test xs
  unfolding select
  select-select test keep [] h = refl
  select-select test keep (x ∷ xs) h = ground (arith, h x, select-select test keep xs h)

  pub any-append :
      (test : A → Bool) (xs ys : List A) → any test (xs ++ ys) ≡ (any test xs || any test ys)
  unfolding any
  any-append test [] ys = refl
  any-append test (x ∷ xs) ys = ground (arith, any-append test xs ys)

  -- Two updates by one function, the first of which takes rows out of the second's reach, are one.
  pub update_where-twice :
      (p q : A → Bool) (f : A → A) (xs : List A)
      → ((x : A) → q (f x) ≡ false)
      → update_where q f (update_where p f xs) ≡ update_where (λ x. p x || q x) f xs
  unfolding update_where
  update_where-twice p q f [] h = refl
  update_where-twice p q f (x ∷ xs) h = ground (arith, h x, update_where-twice p q f xs h)

  -- An update that brings no row into another test's reach.
  pub any-update_where_down :
      (test seen : A → Bool) (f : A → A) (xs : List A)
      → ((x : A) → seen x ≡ false → seen (f x) ≡ false)
      → any seen xs ≡ false
      → any seen (update_where test f xs) ≡ false
  unfolding update_where any
  any-update_where_down test seen f [] h d = refl
  any-update_where_down test seen f (x ∷ xs) h d =
      ground (arith, h x, any-update_where_down test seen f xs h)

  -- An update that keeps what a test selects selects no fewer rows.
  pub count_where-update_where_le :
      (seen test : A → Bool) (f : A → A) (xs : List A)
      → ((x : A) → seen x ≡ true → seen (f x) ≡ true)
      → count_where seen xs ≤ count_where seen (update_where test f xs)
  unfolding update_where count_where
  count_where-update_where_le seen test f [] h = omega arith
  count_where-update_where_le seen test f (x ∷ xs) h =
      ground (arith, h x, count_where-update_where_le seen test f xs h)

  -- The rows that a test selects after an update, by what it says of each row's new value.
  pub count_where-update_where :
      (seen before test : A → Bool) (f : A → A) (xs : List A)
      → ((x : A) → seen (if test x then f x else x) ≡ before x)
      → count_where seen (update_where test f xs) ≡ count_where before xs
  unfolding update_where count_where
  count_where-update_where seen before test f [] h = refl
  count_where-update_where seen before test f (x ∷ xs) h =
      ground (arith, h x, count_where-update_where seen before test f xs h)

  pub count_where-any :
      (test : A → Bool) (xs : List A) → count_where test xs ≡ 0 → any test xs ≡ false
  unfolding any count_where
  count_where-any test [] h = refl
  count_where-any test (x ∷ xs) h = ground (arith, count_where-any test xs)

  -- The first row that passes a test which an update does not change.
  pub find-update_where :
      (seen test : A → Bool) (f : A → A) (xs : List A) (o : Option A)
      → ((x : A) → seen (f x) ≡ seen x)
      → find seen xs ≡ o
      → find seen (update_where test f xs) ≡ map_option (λ x. if test x then f x else x) o
  unfolding update_where find
  find-update_where seen test f [] o h e = ground arith
  find-update_where seen test f (x ∷ xs) o h e =
      ground (arith, h x, find-update_where seen test f xs o h)

  -- A test that implies another fails wherever that one does.
  pub any-imp :
      (p q : A → Bool) (xs : List A)
      → ((x : A) → q x ≡ true → p x ≡ true)
      → any p xs ≡ false
      → any q xs ≡ false
  unfolding any
  any-imp p q [] h e = refl
  any-imp p q (x ∷ xs) h e = ground (arith, h x, any-imp p q xs h)

  -- The first row that passes does pass, and any row does that fails no test.
  pub find-passes : (p : A → Bool) (xs : List A) (x : A) → find p xs ≡ some x → p x ≡ true
  unfolding find
  find-passes p [] x h = ground arith
  find-passes p (y ∷ xs) x h = ground (arith, find-passes p xs x)

  pub find-any :
      (p bad : A → Bool) (xs : List A) (x : A)
      → find p xs ≡ some x
      → any bad xs ≡ false
      → bad x ≡ false
  unfolding find any
  find-any p bad [] x h e = ground arith
  find-any p bad (y ∷ xs) x h e = ground (arith, find-any p bad xs x)

  pub find-none : (p : A → Bool) (xs : List A) → find p xs ≡ none → any p xs ≡ false
  unfolding find any
  find-none p [] h = refl
  find-none p (y ∷ xs) h = ground (arith, find-none p xs)

  pub find-append :
      (p : A → Bool) (xs : List A) (x : A)
      → find p xs ≡ none
      → p x ≡ true
      → find p (xs ++ x ∷ []) ≡ some x
  unfolding find
  find-append p [] x h e = ground arith
  find-append p (y ∷ xs) x h e = ground (arith, find-append p xs x)
