-- ===== src/NewsReversal.antt =====
-- src/ctrader/news-reversal-volume.ts, news-reversal-state.ts and ctrader-risk.ts: how the volume of
-- a NEWS_REVERSAL job is split into legs, the targets and the price of its reversal, and the volume
-- that risks a given share of a balance. Volumes are whole numbers of the broker's units.
pub mod Split
use ctreader.Prelude.{
  ℕ, zero, suc, ◌+◌, ◌-◌, ◌*◌, ◌/◌, Bool, true, false, not, ◌&&◌, ◌||◌, List, [], ◌∷◌, ◌==◌, ltb,
  leb, sum, length, take, replicate, Result, ok, err, failure, if◌then◌else◌,
}
use ctreader.Schema.{VolumeAllocationMode, split_total, full_each, TradeDirection, buy, sell}

pub record VolumeAllocation : Type 0 where
  pub legs : List ℕ
  pub total : ℕ

-- `Array.from({ length: n }, (_, index) => f(index))`, from the index `i` on.
unfoldable pub from_index : (ℕ → ℕ) → ℕ → ℕ → List ℕ
from_index f i zero = []
from_index f i (suc n) = f i ∷ from_index f (suc i) n

-- The steps of the leg at an index: the last `remainder` legs have one more.
unfoldable pub leg_steps : ℕ → ℕ → ℕ → ℕ → ℕ
leg_steps base_steps remainder targets index =
    base_steps + (if leb (targets - remainder) index then 1 else 0)

unfoldable pub split_steps : ℕ → ℕ → ℕ → VolumeAllocation
unfolding leg_steps from_index
split_steps total_steps step_units targets =
    let base_steps = total_steps / targets in
    let remainder = total_steps - base_steps * targets in
    let legs =
      from_index (λ index. leg_steps base_steps remainder targets index * step_units) 0 targets in
    record { legs = legs; total = sum legs }

-- `Number.isSafeInteger`, of a number that is not negative.
abbrev pub max_safe_integer : ℕ
max_safe_integer = 9007199254740991

abbrev pub is_positive_safe : ℕ → Bool
is_positive_safe n = ltb 0 n && leb n max_safe_integer

unfoldable pub allocate_news_reversal_volume :
    ℕ → ℕ → VolumeAllocationMode → ℕ → Result VolumeAllocation
unfolding split_steps
allocate_news_reversal_volume requested_units step_units mode targets =
    let normalized = requested_units / step_units * step_units in
    if not (is_positive_safe requested_units)
    then err (failure "Requested volume must be a positive integer")
    else if not (is_positive_safe step_units)
    then err (failure "Volume step must be a positive integer")
    else if targets == 0
    then err (failure "Target count must be positive")
    else if normalized == 0
    then err (failure "Requested volume is below the broker step")
    else elim mode [
      | full_each ↦
          ok (record { legs = replicate targets normalized; total = normalized * targets })
      | split_total ↦
          if ltb (normalized / step_units) targets
          then err (failure "Total volume is too small to split into broker-valid positions")
          else ok (split_steps (normalized / step_units) step_units targets)
    ]

-- `reversalTargetsAfter`.
unfoldable pub reversal_targets_after : ℕ → List ℕ → Result (List ℕ)
reversal_targets_after closed_targets targets =
    if ltb (length targets) closed_targets
    then err (failure "Invalid closed target count")
    else ok (take (length targets - closed_targets) targets)

-- `fixedReversalPrice`, the stop and the gap in points; `below` and `above` move a price by points.
unfoldable pub fixed_reversal_price :
    (below above : ℕ → ℕ → ℕ) → TradeDirection → ℕ → ℕ → ℕ → Result ℕ
fixed_reversal_price below above direction entry_price stop_distance reversal_gap =
    if stop_distance == 0
    then err (failure "Stop distance must be positive")
    else if reversal_gap == 0
    then err (failure "Reversal gap must be positive")
    else elim direction [
      | buy ↦ ok (below entry_price (stop_distance + reversal_gap))
      | sell ↦ ok (above entry_price (stop_distance + reversal_gap))
    ]

-- `calculateRiskVolumeInCents`. The quotient of money by distance and step is a floating-point one;
-- `steps` gives the whole number below it, of the balance, the percentage, the distance and the
-- step.
unfoldable pub calculate_risk_volume_in_cents :
    (steps : ℕ → ℕ → ℕ → ℕ → ℕ) → ℕ → ℕ → ℕ → ℕ → ℕ → ℕ → Result ℕ
calculate_risk_volume_in_cents steps balance risk_percent total_stop_distance min_volume max_volume
      step_volume =
    let volume = steps balance risk_percent total_stop_distance step_volume * step_volume in
    if balance == 0 || risk_percent == 0 || total_stop_distance == 0 || step_volume == 0
    then err (failure "Invalid cTrader risk calculation input")
    else if ltb volume min_volume
    then err (failure "Calculated risk volume is below the broker minimum")
    else if ltb max_volume volume
    then err (failure "Calculated volume exceeds the broker maximum")
    else ok volume
