-- ===== src/Prelude/Table.antt =====
-- Database tables as lists of rows, with the queries that the services make of them.
use Prim.Native.Nat.{ℕ, ◌+◌, ◌≤◌}
use mathlib.Core.Path.{◌≡◌, refl}
use mathlib.Core.Bool.{Bool, true, false}
use mathlib.Core.Logic.{inl, inr}
use mathlib.Core.Option.{Option, none, some}
use mathlib.Core.List.{List, [], ◌∷◌}
use native.Mathlib.Omega.{arith}
use ctreader.Prelude.Tests.{if◌then◌else◌, Bool-cases}

module _ {ℓ} {A : Type ℓ} where
  -- `findUnique` and `findFirst`: the first row that passes the test.
  unfoldable pub find_first : (A → Bool) → List A → Option A
  find_first p [] = none
  find_first p (x ∷ xs) = let rest = find_first p xs in if p x then some x else rest

  -- `updateMany`: every row that passes the test is changed.
  unfoldable pub update_many : (A → Bool) → (A → A) → List A → List A
  update_many p f [] = []
  update_many p f (x ∷ xs) = (if p x then f x else x) ∷ update_many p f xs

  -- `count`.
  unfoldable pub count : (A → Bool) → List A → ℕ
  count p [] = 0
  count p (x ∷ xs) = (if p x then 1 else 0) + count p xs

  pub find_first-passes :
      (p : A → Bool) (xs : List A) {a : A} → find_first p xs ≡ some a → p a ≡ true
  unfolding find_first
  find_first-passes p [] h = cc
  find_first-passes p (x ∷ xs) {a} h = ground (arith, find_first-passes p xs {a = a})

  pub find_first-none : (p : A → Bool) (xs : List A) → find_first p xs ≡ none → count p xs ≡ 0
  unfolding find_first count
  find_first-none p [] h = refl
  find_first-none p (x ∷ xs) h = ground (arith, find_first-none p xs)

  pub count-zero_find : (p : A → Bool) (xs : List A) → count p xs ≡ 0 → find_first p xs ≡ none
  unfolding find_first count
  count-zero_find p [] h = refl
  count-zero_find p (x ∷ xs) h = ground (arith, count-zero_find p xs)

  -- Tests that agree on every row count alike.
  pub count-congr : (p q : A → Bool) (xs : List A) → ((a : A) → p a ≡ q a) → count p xs ≡ count q xs
  unfolding count
  count-congr p q [] h = refl
  count-congr p q (x ∷ xs) h = ground (arith, h x, count-congr p q xs h)

  pub count-le :
      (p q : A → Bool) (xs : List A) → ((a : A) → p a ≡ true → q a ≡ true) → count p xs ≤ count q xs
  unfolding count
  count-le p q [] h = omega arith
  count-le p q (x ∷ xs) h = ground (arith, h x, count-le p q xs h)

  -- An update that takes every row it changes out of the test leaves none to count.
  pub count-update_clears :
      (p : A → Bool) (f : A → A) (xs : List A)
      → ((a : A) → p a ≡ true → p (f a) ≡ false)
      → count p (update_many p f xs) ≡ 0
  unfolding count update_many
  count-update_clears p f [] h = refl
  count-update_clears p f (x ∷ xs) h = ground (arith, h x, count-update_clears p f xs h)

  -- An update that does not change what a test says of a row does not change its count.
  pub count-update_same :
      (p q : A → Bool) (f : A → A) (xs : List A)
      → ((a : A) → p a ≡ true → q (f a) ≡ q a)
      → count q (update_many p f xs) ≡ count q xs
  unfolding count update_many
  count-update_same p q f [] h = refl
  count-update_same p q f (x ∷ xs) h = ground (arith, h x, count-update_same p q f xs h)

  -- An update that puts no row under a test does not raise its count.
  pub count-update_le :
      (p q : A → Bool) (f : A → A) (xs : List A)
      → ((a : A) → p a ≡ true → q (f a) ≡ true → q a ≡ true)
      → count q (update_many p f xs) ≤ count q xs
  unfolding count update_many
  count-update_le p q f [] h = omega arith
  count-update_le p q f (x ∷ xs) h = ground (arith, h x, count-update_le p q f xs h)

  -- No row that a query finds passes a test that counts none.
  pub count-zero_found :
      (p q : A → Bool) (xs : List A) {a : A}
      → count p xs ≡ 0
      → find_first q xs ≡ some a
      → p a ≡ false
  unfolding count find_first
  count-zero_found p q [] h e = cc
  count-zero_found p q (x ∷ xs) {a} h e = ground (arith, count-zero_found p q xs {a = a})

  -- Where at most one row passes, an update that reaches it and clears the test leaves none.
  pub count-update_only :
      (p q : A → Bool) (f : A → A) (xs : List A) {a : A}
      → ((b : A) → p (f b) ≡ false)
      → count p xs ≤ 1
      → find_first p xs ≡ some a
      → q a ≡ true
      → count p (update_many q f xs) ≡ 0
  unfolding count find_first update_many
  count-update_only p q f [] h one e reach = cc
  count-update_only p q f (x ∷ xs) {a} h one e reach = ground (
    arith,
    h x,
    count-update_only p q f xs {a = a} h,
    count-update_le q p f xs (λ b passes now. ground (arith, h b)),
  )

  -- A query by what an update leaves alone finds the same row, updated.
  pub find_first-update :
      (p q : A → Bool) (f : A → A) (xs : List A) {a : A}
      → ((b : A) → p (f b) ≡ p b)
      → find_first p xs ≡ some a
      → find_first p (update_many q f xs) ≡ some (if q a then f a else a)
  unfolding find_first update_many
  find_first-update p q f [] h e = cc
  find_first-update p q f (x ∷ xs) {a} h e = elim (Bool-cases (p x)) [
    | inl passes ↦ ground (arith, h x)
    | inr fails ↦ ground (arith, h x, find_first-update p q f xs {a = a} h)
  ]

  -- An update that reaches every row of a test and clears it there leaves none.
  pub count-update_covers :
      (p q : A → Bool) (f : A → A) (xs : List A)
      → ((a : A) → q a ≡ true → p a ≡ true)
      → ((a : A) → q (f a) ≡ false)
      → count q (update_many p f xs) ≡ 0
  unfolding count update_many
  count-update_covers p q f [] h g = refl
  count-update_covers p q f (x ∷ xs) h g =
      ground (arith, h x, g x, count-update_covers p q f xs h g)
