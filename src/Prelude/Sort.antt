-- ===== src/Prelude/Sort.antt =====
-- `findMany`: the rows that pass a test, in the ascending order of a number, up to a limit.
use Prim.Native.Nat.{ℕ, zero, suc, ◌≤◌, min}
use mathlib.Core.Logic.{inl, inr}
use ctreader.Prelude.Table.{count}
use mathlib.Core.Path.{◌≡◌, refl, ◌∙◌}
use mathlib.Core.Bool.{Bool, true, ◌&&◌}
use mathlib.Core.List.{List, [], ◌∷◌, Memᴰ}
use mathlib.Core.List.Memᴰ
use native.Mathlib.Omega.{arith}
use ctreader.Prelude.Tests.{leb, if◌then◌else◌, Bool-cases}
use ctreader.Prelude.Lists.{all, take, keep, All, length, length-take}

module _ {ℓ} {A : Type ℓ} where
  unfoldable pub insert_by : (A → ℕ) → A → List A → List A
  insert_by key a [] = a ∷ []
  insert_by key a (x ∷ xs) =
      let rest = x ∷ insert_by key a xs in if leb (key a) (key x) then a ∷ x ∷ xs else rest

  unfoldable pub order_by : (A → ℕ) → List A → List A
  unfolding insert_by
  order_by key [] = []
  order_by key (x ∷ xs) = insert_by key x (order_by key xs)

  -- The keys do not fall along the list.
  abbrev pub IsOrdered : (A → ℕ) → List A → Type 0
  IsOrdered key [] = Unit
  IsOrdered key (x ∷ []) = Unit
  IsOrdered key (x ∷ y ∷ ys) = (key x ≤ key y) × IsOrdered key (y ∷ ys)

  insert_by-IsOrdered :
      (key : A → ℕ) (a : A) (xs : List A) → IsOrdered key xs → IsOrdered key (insert_by key a xs)
  unfolding insert_by
  insert_by-IsOrdered key a [] h = tt
  insert_by-IsOrdered key a (x ∷ []) h = ground arith
  insert_by-IsOrdered key a (x ∷ y ∷ ys) h = ground (arith, insert_by-IsOrdered key a (y ∷ ys) h.1)

  pub order_by-IsOrdered : (key : A → ℕ) (xs : List A) → IsOrdered key (order_by key xs)
  unfolding order_by
  order_by-IsOrdered key [] = tt
  order_by-IsOrdered key (x ∷ xs) =
      insert_by-IsOrdered key x (order_by key xs) (order_by-IsOrdered key xs)

  pub take-IsOrdered :
      (key : A → ℕ) (n : ℕ) (xs : List A) → IsOrdered key xs → IsOrdered key (take n xs)
  take-IsOrdered key zero xs h = tt
  take-IsOrdered key (suc n) [] h = tt
  take-IsOrdered key (suc zero) (x ∷ []) h = tt
  take-IsOrdered key (suc (suc n)) (x ∷ []) h = tt
  take-IsOrdered key (suc zero) (x ∷ y ∷ ys) h = tt
  take-IsOrdered key (suc (suc n)) (x ∷ y ∷ ys) h = (h.0, take-IsOrdered key (suc n) (y ∷ ys) h.1)

  all-insert_by :
      (p : A → Bool) (key : A → ℕ) (a : A) (xs : List A)
      → all p (insert_by key a xs) ≡ p a && all p xs
  unfolding insert_by
  all-insert_by p key a [] = refl
  all-insert_by p key a (x ∷ xs) = ground (arith, all-insert_by p key a xs)

  -- Sorting keeps what holds of every row.
  pub all-order_by : (p : A → Bool) (key : A → ℕ) (xs : List A) → all p (order_by key xs) ≡ all p xs
  unfolding order_by
  all-order_by p key [] = refl
  all-order_by p key (x ∷ xs) =
      ground (arith, all-insert_by p key x (order_by key xs), all-order_by p key xs)

  pub all-take : (p : A → Bool) (n : ℕ) (xs : List A) → all p xs ≡ true → all p (take n xs) ≡ true
  all-take p zero xs h = refl
  all-take p (suc n) [] h = refl
  all-take p (suc n) (x ∷ xs) h = ground (arith, all-take p n xs)

  -- The rows that a filter keeps pass its test, and so they do after an ordered, limited query.
  pub all-keep : (p : A → Bool) (xs : List A) → all p (keep p xs) ≡ true
  all-keep p [] = refl
  all-keep p (x ∷ xs) = ground (arith, all-keep p xs)

  unfoldable pub find_many : (A → Bool) → (A → ℕ) → ℕ → List A → List A
  find_many p key limit xs = take limit (order_by key (keep p xs))

  pub all-find_many :
      (p : A → Bool) (key : A → ℕ) (limit : ℕ) (xs : List A)
      → all p (find_many p key limit xs) ≡ true
  unfolding find_many
  all-find_many p key limit xs = all-take p limit _ (all-order_by p key (keep p xs) ∙ all-keep p xs)

  pub find_many-IsOrdered :
      (p : A → Bool) (key : A → ℕ) (limit : ℕ) (xs : List A)
      → IsOrdered key (find_many p key limit xs)
  unfolding find_many
  find_many-IsOrdered p key limit xs =
      take-IsOrdered key limit _ (order_by-IsOrdered key (keep p xs))

  length-insert_by :
      (key : A → ℕ) (a : A) (xs : List A) → length (insert_by key a xs) ≡ suc (length xs)
  unfolding insert_by
  length-insert_by key a [] = refl
  length-insert_by key a (x ∷ xs) = ground (arith, length-insert_by key a xs)

  length-order_by : (key : A → ℕ) (xs : List A) → length (order_by key xs) ≡ length xs
  unfolding order_by
  length-order_by key [] = refl
  length-order_by key (x ∷ xs) =
      omega (arith, length-insert_by key x (order_by key xs), length-order_by key xs)

  length-keep : (p : A → Bool) (xs : List A) → length (keep p xs) ≡ count p xs
  unfolding count
  length-keep p [] = refl
  length-keep p (x ∷ xs) = ground (arith, length-keep p xs)

  -- A query answers with every row that passes, up to its limit.
  pub length-find_many :
      (p : A → Bool) (key : A → ℕ) (limit : ℕ) (xs : List A)
      → length (find_many p key limit xs) ≡ min limit (count p xs)
  unfolding find_many
  length-find_many p key limit xs = omega (
    arith,
    length-take limit (order_by key (keep p xs)),
    length-order_by key (keep p xs),
    length-keep p xs,
  )

module _ {ℓ κ} {A : Type ℓ} (P : A → Type κ) where
  All-insert_by : (key : A → ℕ) (a : A) (xs : List A) → P a → All P xs → All P (insert_by key a xs)
  unfolding insert_by
  All-insert_by key a [] h hs = (h, tt)
  All-insert_by key a (x ∷ xs) h (here, rest) = elim (Bool-cases (leb (key a) (key x))) [
    | inl first ↦ rw first (h, (here, rest))
    | inr later ↦ rw later (here, All-insert_by key a xs h rest)
  ]

  All-order_by : (key : A → ℕ) (xs : List A) → All P xs → All P (order_by key xs)
  unfolding order_by
  All-order_by key [] hs = tt
  All-order_by key (x ∷ xs) (here, rest) =
      All-insert_by key x (order_by key xs) here (All-order_by key xs rest)

  All-take : (n : ℕ) (xs : List A) → All P xs → All P (take n xs)
  All-take zero xs hs = tt
  All-take (suc n) [] hs = tt
  All-take (suc n) (x ∷ xs) (here, rest) = (here, All-take n xs rest)

  -- What holds of every row of the list that passes, holds of what a filter keeps.
  pub All-keep :
      (p : A → Bool) (xs : List A) → ((x : A) → Memᴰ x xs → p x ≡ true → P x) → All P (keep p xs)
  All-keep p [] h = tt
  All-keep p (x ∷ xs) h =
      let rest = All-keep p xs (λ y m passes. h y (Memᴰ.tail m) passes) in
      elim (Bool-cases (p x)) [
        | inl passes ↦ rw passes (h x (Memᴰ.head refl) passes, rest)
        | inr fails ↦ rw fails rest
      ]

  pub All-find_many :
      (p : A → Bool) (key : A → ℕ) (limit : ℕ) (xs : List A)
      → ((x : A) → Memᴰ x xs → p x ≡ true → P x)
      → All P (find_many p key limit xs)
  unfolding find_many
  All-find_many p key limit xs h =
      All-take limit (order_by key (keep p xs)) (All-order_by key (keep p xs) (All-keep p xs h))

  pub All-at : (xs : List A) {x : A} → All P xs → Memᴰ x xs → P x
  All-at [] hs m = absurd (Memᴰ.not-nil m)
  All-at (y ∷ ys) (here, rest) (Memᴰ.head e) = rw e here
  All-at (y ∷ ys) (here, rest) (Memᴰ.tail m) = All-at ys rest m
