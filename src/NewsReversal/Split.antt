-- ===== src/NewsReversal/Split.antt =====
-- A volume that is split over the targets: exact, in whole steps, and as even as steps allow.
use native.Mathlib.Nat.{
  add-mul, div-add-mod', mul_comm, le-div_iff_mul-le, div-mul-le_self, mul-pos, div-lt_iff_lt-mul,
  mul-le-mul_right, mul-div_cancel, lt-div-mul-add,
}
use ctreader.Prelude.{
  ℕ, zero, suc, ◌+◌, ◌-◌, ◌*◌, ◌/◌, ◌≤◌, ◌<◌, ◌≡◌, refl, ◌∙◌, sym, ap, max, Bool-cases, inl, inr,
  ◌⊎◌, leb→le, List, [], ◌∷◌, arith, leb, sum, length, All, Result, ok, err, Exception,
}
use ctreader.Schema.{split_total}
use ctreader.NewsReversal.{
  VolumeAllocation, from_index, leg_steps, split_steps, allocate_news_reversal_volume,
  max_safe_integer,
}

-- Legs that rise by nothing or by what they have risen before, none below the one before it.
abbrev pub IsRising : ℕ → List ℕ → Type 0
IsRising low [] = Unit
IsRising low (x ∷ xs) = (low ≤ x) × IsRising x xs

-- What a fair split of a requested volume is: as many legs as targets, each of `base` steps or one
-- more, the larger ones last, adding up to the total, which is the request rounded down to steps.
pub record IsFairSplit (requested step targets : ℕ) (a : VolumeAllocation) : Type 0 where
  pub base : ℕ
  pub traded : 0 < base
  pub as_many : length a.legs ≡ targets
  pub even : All (λ leg. (k : ℕ) × (leg ≡ k * step) × (base ≤ k) × (k ≤ base + 1)) a.legs
  pub rising : IsRising 0 a.legs
  pub adds_up : sum a.legs ≡ a.total
  pub within : a.total ≤ requested
  pub close : requested < a.total + step

pub length-from_index : (f : ℕ → ℕ) (i n : ℕ) → length (from_index f i n) ≡ n
unfolding from_index
length-from_index f i zero = refl
length-from_index f i (suc n) = ap suc (length-from_index f (suc i) n)

-- Of the legs from `i` on, those at `cut` and after have one step more.
sum_steps :
    (base remainder targets i n : ℕ)
    → remainder ≤ targets
    → i + n ≡ targets
    → sum (from_index (leg_steps base remainder targets) i n)
      ≡ n * base + (targets - max i (targets - remainder))
unfolding from_index leg_steps
sum_steps base remainder targets i zero le e = omega arith
sum_steps base remainder targets i (suc n) le e =
    ground (arith, sum_steps base remainder targets (suc i) n)

sum_scaled :
    (f : ℕ → ℕ) (step i n : ℕ)
    → sum (from_index (λ index. f index * step) i n) ≡ sum (from_index f i n) * step
unfolding from_index
sum_scaled f step i zero = omega arith
sum_scaled f step i (suc n) =
    ap (λ t. f i * step + t) (sum_scaled f step (suc i) n)
    ∙ sym (add-mul (f i) (sum (from_index f (suc i) n)) step)

even_legs :
    (base remainder targets step i n : ℕ)
    → All
        (λ leg. (k : ℕ) × (leg ≡ k * step) × (base ≤ k) × (k ≤ base + 1))
        (from_index (λ index. leg_steps base remainder targets index * step) i n)
unfolding from_index leg_steps
even_legs base remainder targets step i zero = tt
even_legs base remainder targets step i (suc n) = (
  (leg_steps base remainder targets i, refl, ground arith, ground arith),
  even_legs base remainder targets step (suc i) n,
)

steps_rise :
    (base remainder targets i : ℕ)
    → leg_steps base remainder targets i ≤ leg_steps base remainder targets (suc i)
unfolding leg_steps
steps_rise base remainder targets i = ground arith

IsRising-legs :
    (base remainder targets step i n low : ℕ)
    → low ≤ leg_steps base remainder targets i * step
    → IsRising low (from_index (λ index. leg_steps base remainder targets index * step) i n)
unfolding from_index
IsRising-legs base remainder targets step i zero low h = tt
IsRising-legs base remainder targets step i (suc n) low h = (
  h,
  IsRising-legs base remainder targets step (suc i) n _
      (mul-le-mul_right step (steps_rise base remainder targets i)),
)

total_split :
    (steps step targets : ℕ)
    → 0 < targets
    → sum (split_steps steps step targets).legs ≡ steps * step
unfolding split_steps
total_split steps step targets positive =
    let base = steps / targets in
    let whole = div-add-mod' steps targets in
    let small = lt-div-mul-add {a = steps} {b = targets} positive in
    let remainder = steps - base * targets in
    sum_scaled (leg_steps base remainder targets) step 0 targets
    ∙ ap (λ t. t * step)
        (sum_steps base remainder targets 0 targets (omega arith) (omega arith)
          ∙ (omega (arith, mul_comm targets base)))

split-IsFairSplit :
    (requested step targets : ℕ)
    → 0 < step
    → 0 < targets
    → targets ≤ requested / step
    → IsFairSplit requested step targets (split_steps (requested / step) step targets)
unfolding split_steps
split-IsFairSplit requested step targets unit some_target enough =
    let steps = requested / step in
    let base = steps / targets in
    let remainder = steps - base * targets in
    let total = total_split steps step targets some_target in
    record {
      base = base;
      traded = (le-div_iff_mul-le {k = targets} {x = 1} {y = steps} some_target).1 (omega arith);
      as_many = length-from_index _ 0 targets;
      even = even_legs base remainder targets step 0 targets;
      rising = IsRising-legs base remainder targets step 0 targets 0 (omega arith);
      adds_up = refl;
      within = rw total (div-mul-le_self requested step);
      close = rw total (lt-div-mul-add {a = requested} {b = step} unit);
    }

allocates :
    (requested step targets : ℕ)
    → 0 < step
    → 0 < targets
    → step ≤ max_safe_integer
    → requested ≤ max_safe_integer
    → targets ≤ requested / step
    → allocate_news_reversal_volume requested step split_total targets
      ≡ ok (split_steps (requested / step) step targets)
unfolding allocate_news_reversal_volume
allocates requested step targets unit some_target step_safe safe enough =
    let whole = mul-div_cancel (requested / step) unit in
    let traded : 0 < requested / step * step = mul-pos (omega arith) unit in
    let within = div-mul-le_self requested step in rw whole (ground arith)

refuses :
    (requested step targets : ℕ) (a : VolumeAllocation)
    → 0 < step
    → requested / step < targets
    → ¬ (allocate_news_reversal_volume requested step split_total targets ≡ ok a)
unfolding allocate_news_reversal_volume
refuses requested step targets a unit short h =
    let whole = mul-div_cancel (requested / step) unit in ground arith

not_ok :
    (r : Result VolumeAllocation)
    → ((a : VolumeAllocation) → ¬ (r ≡ ok a))
    → (x : Exception) × (r ≡ err x)
not_ok (ok a) h = absurd (h a refl)
not_ok (err x) h = (x, refl)

-- For a positive step and number of targets, and a step and a volume that are safe integers, that is,
-- at most 2^53 - 1, a volume of at least a step for each target is split
-- fairly: into as many legs, each a whole number of steps, one or more, with larger legs last and
-- at most a step larger, adding up to the volume rounded down to whole steps. A smaller volume is
-- refused.
pub allocate-IsFairSplit :
    (requested step targets : ℕ)
    → 0 < step
    → 0 < targets
    → step ≤ max_safe_integer
    → requested ≤ max_safe_integer
    → ((targets * step ≤ requested)
        × (a : VolumeAllocation) × (allocate_news_reversal_volume requested step split_total targets
            ≡ ok a)
        × IsFairSplit requested step targets a)
      ⊎ ((requested < targets * step)
          × (x : Exception) × (allocate_news_reversal_volume requested step split_total targets
              ≡ err x))
allocate-IsFairSplit requested step targets unit some_target step_safe safe =
    elim (Bool-cases (leb targets (requested / step))) [
      | inl le ↦
          let enough = leb→le targets (requested / step) le in
          inl (
            (le-div_iff_mul-le unit).0 enough,
            split_steps (requested / step) step targets,
            allocates requested step targets unit some_target step_safe safe enough,
            split-IsFairSplit requested step targets unit some_target enough,
          )
      | inr gt ↦
          let short : requested / step < targets = ground arith in
          let (x, refused) = not_ok _ λ a. refuses requested step targets a unit short in
          inr ((div-lt_iff_lt-mul unit).0 short, x, refused)
    ]
