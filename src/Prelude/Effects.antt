-- ===== src/Prelude/Effects.antt =====
-- Handlers as actions: `Exec S A` reads and writes a store of type `S` and returns an `A` or throws.
-- What was written before a throw stays written, unless the handler runs in a transaction.
use Prim.Native.String.{String}
use mathlib.Core.Path.{◌≡◌, refl}
use mathlib.Core.Bool.{Bool, true, false}
use mathlib.Core.Option.{Option, none, some}
use mathlib.Core.Logic.{◌⊎◌, inl, inr}
use mathlib.Core.List.{List, [], ◌∷◌}
use native.Mathlib.Omega.{arith}
use ctreader.Prelude.Tests.{if◌then◌else◌}
use ctreader.Prelude.Lists.{All}

-- The exceptions of the framework that the services throw, each with its message. A message that
-- the source builds from values keeps its fixed part here.
pub data Exception : Type 0 where
  bad_request not_found forbidden conflict failure : String → Exception

pub data Result {ℓ} (A : Type ℓ) : Type ℓ where
  ok : A → Result A
  err : Exception → Result A

abbrev pub Exec {ℓ} : Type ℓ → Type ℓ → Type ℓ
Exec S A = S → Result A × S

module _ {ℓ} {S A : Type ℓ} where
  abbrev pub pure : A → Exec S A
  pure a s = (ok a, s)

  abbrev pub throw : Exception → Exec S A
  throw e s = (err e, s)

  abbrev pub gets : (S → A) → Exec S A
  gets f s = (ok (f s), s)

  abbrev pub lift : Result A → Exec S A
  lift r s = (r, s)

  -- `if (!value) throw`: the value, or the exception.
  abbrev pub require : Exception → Option A → Exec S A
  require e none s = (err e, s)
  require e (some a) s = (ok a, s)

  -- A transaction takes back its writes when it throws.
  abbrev pub rollback : S → Result A × S → Result A × S
  rollback s (ok a, t) = (ok a, t)
  rollback s (err e, t) = (err e, s)

  abbrev pub transaction : Exec S A → Exec S A
  transaction m s = rollback s (m s)

module _ {S : Type 0} where
  abbrev pub modify : (S → S) → Exec S (Unit {0})
  modify f s = (ok tt, f s)

  -- `if (test) throw`.
  abbrev pub throw_if : Bool → Exception → Exec S (Unit {0})
  throw_if true e s = (err e, s)
  throw_if false e s = (ok tt, s)

  -- A run of `if (test) throw` statements: the first test that holds throws its exception.
  abbrev pub run_checks : List (Bool × Exception) → Exec S (Unit {0})
  run_checks [] s = (ok tt, s)
  run_checks ((test, e) ∷ checks) s = if test then (err e, s) else run_checks checks s

  abbrev pub skip : Exec S (Unit {0})
  skip s = (ok tt, s)

module _ {ℓ} {S A B : Type ℓ} where
  abbrev pub continue : (A → Exec S B) → Result A × S → Result B × S
  continue f (ok a, s) = f a s
  continue f (err e, s) = (err e, s)

  infixl 5 ◌>>=◌ ◌>>◌
  abbrev pub ◌>>=◌ : Exec S A → (A → Exec S B) → Exec S B
  ◌>>=◌ m f s = continue f (m s)

  abbrev pub ◌>>◌ : Exec S A → Exec S B → Exec S B
  m >> n = m >>= λ _. n

module _ {S : Type 0} where
  -- Checks that pass leave the store alone, and none of their tests holds.
  pub run_checks-ok :
      (checks : List (Bool × Exception)) {s t : S}
      → run_checks checks s ≡ (ok tt, t)
      → (t ≡ s) × All (λ c. c.0 ≡ false) checks
  run_checks-ok [] h = (ground arith, tt)
  run_checks-ok ((true, e) ∷ checks) h = absurd (ground arith)
  run_checks-ok ((false, e) ∷ checks) h =
      let (same, rest) = run_checks-ok checks h in (same, (refl, rest))

  pub run_checks_reads : (checks : List (Bool × Exception)) (s : S) → (run_checks checks s).1 ≡ s
  run_checks_reads [] s = refl
  run_checks_reads ((test, e) ∷ checks) s = ground (arith, run_checks_reads checks s)

  pub run_checks-pass :
      (checks : List (Bool × Exception)) (s : S)
      → All (λ c. c.0 ≡ false) checks
      → run_checks checks s ≡ (ok tt, s)
  run_checks-pass [] s h = refl
  run_checks-pass ((true, e) ∷ checks) s h = absurd (ground arith)
  run_checks-pass ((false, e) ∷ checks) s h = run_checks-pass checks s h.1

-- A block that returns has run its first action to its end, and the rest from there: one rule for
-- any action, one for an action that only reads, and one for a run of checks.
module _ {ℓ} {S A B : Type 0} {P : Type ℓ} where
  pub >>=-split :
      (m : Exec S A) (f : A → Exec S B) (s : S) {t : S} {b : B}
      → (m >>= f) s ≡ (ok b, t)
      → ((a : A) (u : S) → m s ≡ (ok a, u) → f a u ≡ (ok b, t) → P)
      → P
  >>=-split m f s {t} {b} h next = split (m s) h next
    where
      split :
          (r : Result A × S)
          → continue f r ≡ (ok b, t)
          → ((a : A) (u : S) → r ≡ (ok a, u) → f a u ≡ (ok b, t) → P)
          → P
      split (ok a, u) e next = next a u refl e
      split (err x, u) e next = absurd (ground arith)

  pub read-split :
      (m : Exec S A) (f : A → Exec S B) (s : S) {t : S} {b : B}
      → (m s).1 ≡ s
      → (m >>= f) s ≡ (ok b, t)
      → ((a : A) → m s ≡ (ok a, s) → f a s ≡ (ok b, t) → P)
      → P
  read-split m f s {t} {b} same h next =
      >>=-split m f s h
        λ a u e rest. let here : u ≡ s = ground arith in next a (rw here at e) (rw here at rest)

module _ {ℓ} {S B : Type 0} {P : Type ℓ} where
  pub checks-split :
      (checks : List (Bool × Exception)) (f : Unit {0} → Exec S B) (s : S) {t : S} {b : B}
      → (run_checks checks >>= f) s ≡ (ok b, t)
      → (All (λ c. c.0 ≡ false) checks → f tt s ≡ (ok b, t) → P)
      → P
  checks-split checks f s h next =
      >>=-split (run_checks checks) f s h
        λ _ u e rest. let (here, passed) = run_checks-ok checks e in next passed (rw here at rest)

-- An action has returned or thrown.
pub outcome {ℓ} :
    {S A : Type ℓ} (r : Result A × S)
    → ((a : A) × (r ≡ (ok a, r.1))) ⊎ ((x : Exception) × (r.0 ≡ err x))
outcome (ok a, s) = inl (a, refl)
outcome (err x, s) = inr (x, refl)

-- An action that returns the same value however it returns.
abbrev pub Gives : {S B : Type 0} → Exec S B → B → Type 0
Gives {S} m b = (s t : S) (c : _) → m s ≡ (ok c, t) → b ≡ c

module _ {B : Type 0} where
  pub Gives-pure :
      (S : Type 0) (b : B) (s t : S) (c : B) → ◌≡◌ {A = Result B × S} (ok b, s) (ok c, t) → b ≡ c
  Gives-pure S b s t c h = ground arith

module _ {S B : Type 0} where
  pub Gives->>= :
      {A : Type 0} (m : Exec S A) (f : A → Exec S B) (b : B)
      → ((a : A) → Gives (f a) b)
      → Gives (m >>= f) b
  Gives->>= m f b h s t c e = >>=-split m f s e λ a u _ rest. h a u t c rest
