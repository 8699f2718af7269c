-- ===== src/Base/Counts.antt =====
-- Counting the rows that pass a test, through a deletion and an insertion.
use veyport.Base.{
  ◌+◌, ◌≤◌, ◌<◌, ◌≡◌, Bool, true, false, List, [], ◌∷◌, ◌++◌, arith, if◌then◌else◌, any,
  count_where, select, not, Bool-cases, inl, inr,
}

module _ {ℓ} {A : Type ℓ} where
  pub count_where-append :
      (p : A → Bool) (xs ys : List A)
      → count_where p (xs ++ ys) ≡ count_where p xs + count_where p ys
  unfolding count_where
  count_where-append p [] ys = omega arith
  count_where-append p (x ∷ xs) ys = ground (arith, count_where-append p xs ys)

  pub count_where-select_le :
      (p keep : A → Bool) (xs : List A) → count_where p (select keep xs) ≤ count_where p xs
  unfolding count_where select
  count_where-select_le p keep [] = omega arith
  count_where-select_le p keep (x ∷ xs) = ground (arith, count_where-select_le p keep xs)

  -- What is taken out of the rows that pass another test.
  pub count_where-select :
      (p q : A → Bool) (b : Bool) (xs : List A)
      → ((x : A) → q x ≡ true → p x ≡ b)
      → count_where p (select (λ x. not (q x)) xs) + (if b then count_where q xs else 0)
        ≡ count_where p xs
  unfolding count_where select
  count_where-select p q true [] h = omega arith
  count_where-select p q false [] h = omega arith
  count_where-select p q b (x ∷ xs) h = ground (arith, h x, count_where-select p q b xs h)

  pub any-count_where : (p : A → Bool) (xs : List A) → any p xs ≡ true → 0 < count_where p xs
  unfolding count_where any
  any-count_where p [] h = ground arith
  any-count_where p (x ∷ xs) h = ground (arith, any-count_where p xs)

  pub any-select-true :
      (p keep : A → Bool) (xs : List A) → any p (select keep xs) ≡ true → any p xs ≡ true
  unfolding select any
  any-select-true p keep [] h = h
  any-select-true p keep (x ∷ xs) h = ground (arith, any-select-true p keep xs)

  -- A row that passes, and with it every test that it passes.
  pub any-element :
      (p : A → Bool) (xs : List A)
      → any p xs ≡ true
      → (x : A) × ((p x ≡ true) × ((q : A → Bool) → q x ≡ true → any q xs ≡ true))
  unfolding any
  any-element p [] h = ground arith
  any-element p (x ∷ xs) h = elim (Bool-cases (p x)) [
    | inl e ↦ (x, (e, λ q d. ground arith))
    | inr e ↦
        let (y, (py, all)) = any-element p xs (ground arith) in
        (y, (py, λ q d. ground (arith, all q d)))
  ]
