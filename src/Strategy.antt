-- ===== src/Strategy.antt =====
-- src/strategy-v2/probe-strategy.math.ts: candles and the indicators on them, over any type of
-- numbers: the program's are floating-point ones, of which `Number` lists what the code uses.
pub mod Signals
pub mod Quality
pub mod Breakouts
pub mod Candidates
pub mod Positions
pub mod Closing
use ctreader.Prelude.{
  ℕ, zero, suc, ◌+◌, ◌-◌, ◌/◌, ◌%◌, ◌==◌, Bool, true, false, Option, none, some, List, [], ◌∷◌, ltb,
  take, drop, length, map, if◌then◌else◌, Result, ok, err, failure,
}
use ctreader.Schema.{TradeDirection, buy, sell}

-- `of_ratio a b` is the literal a / b; `max` and `min` are those of `Math`, and the infinities what they
-- answer for no argument.
pub record Number (W : Type 0) : Type 0 where
  pub add : W → W → W
  pub sub : W → W → W
  pub mul : W → W → W
  pub div : W → W → W
  pub abs : W → W
  pub max : W → W → W
  pub min : W → W → W
  pub le : W → W → Bool
  pub lt : W → W → Bool
  pub is_finite : W → Bool
  pub of_ratio : ℕ → ℕ → W
  pub infinity : W
  pub minus_infinity : W

pub record CandleValue (W : Type 0) : Type 0 where
  pub open_price : W
  pub high : W
  pub low : W
  pub close : W
  pub tick_volume : Option W

-- `array.slice(-n)`, which for no entry is the whole array.
abbrev pub slice_last : {A : Type 0} → ℕ → List A → List A
slice_last zero xs = xs
slice_last (suc n) xs = drop (length xs - suc n) xs

-- `array.at(-1)`, and the entry at an index.
abbrev pub last : {A : Type 0} → List A → Option A
last [] = none
last (x ∷ []) = some x
last (x ∷ y ∷ xs) = last (y ∷ xs)

abbrev pub at : {A : Type 0} → ℕ → List A → Option A
at n [] = none
at zero (x ∷ xs) = some x
at (suc n) (x ∷ xs) = at n xs

-- Each entry with the one before it: `candles.slice(1).map((candle, index) => ...)`.
abbrev pub with_previous : {A B : Type 0} → (A → A → B) → List A → List B
with_previous f [] = []
with_previous f (x ∷ []) = []
with_previous f (x ∷ y ∷ xs) = f x y ∷ with_previous f (y ∷ xs)

module _ {W : Type 0} (n : Number W) where
  abbrev pub nought : W
  nought = n.of_ratio 0 1

  abbrev pub whole : ℕ → W
  whole k = n.of_ratio k 1

  -- `values.reduce((sum, value) => sum + value, sum)`.
  abbrev pub add_all : W → List W → W
  add_all sum [] = sum
  add_all sum (x ∷ xs) = add_all (n.add sum x) xs

  -- `Math.max(...values)` and `Math.min(...values)`.
  abbrev pub max_of : List W → W
  max_of [] = n.minus_infinity
  max_of (x ∷ xs) = n.max x (max_of xs)

  abbrev pub min_of : List W → W
  min_of [] = n.infinity
  min_of (x ∷ xs) = n.min x (min_of xs)

  unfoldable pub smooth : W → W → List W → W
  smooth alpha result [] = result
  smooth alpha result (value ∷ values) =
      smooth alpha (n.add (n.mul value alpha) (n.mul result (n.sub (whole 1) alpha))) values

  unfoldable pub ema : List W → ℕ → Result W
  unfolding smooth
  ema values period =
      if ltb (length values) period
      then err (failure "EMA requires more values")
      else ok (
          smooth (n.div (whole 2) (whole (period + 1)))
            (n.div (add_all nought (take period values)) (whole period)) (drop period values))

  -- The range of a candle, gaps from the close before it included.
  unfoldable pub true_range : CandleValue W → CandleValue W → W
  true_range previous candle =
      n.max (n.sub candle.high candle.low)
        (n.max (n.abs (n.sub candle.high previous.close)) (n.abs (n.sub candle.low previous.close)))

  unfoldable pub atr : List (CandleValue W) → ℕ → Result W
  unfolding true_range
  atr candles period =
      if ltb (length candles) (period + 1)
      then err (failure "ATR requires more candles")
      else ok (
          n.div (add_all nought (slice_last period (with_previous true_range candles)))
            (whole period))

  -- The extreme of a window on the side of a breakout.
  abbrev pub extreme : TradeDirection → List (CandleValue W) → W
  extreme buy window = max_of (map (λ (c : CandleValue W). c.high) window)
  extreme sell window = min_of (map (λ (c : CandleValue W). c.low) window)

  unfoldable pub breakout_level : List (CandleValue W) → ℕ → TradeDirection → Result W
  breakout_level candles period direction =
      let window = slice_last period candles in
      if ltb (length window) period
      then err (failure "Breakout requires more candles")
      else ok (extreme direction window)

  abbrev pub insert_sorted : W → List W → List W
  insert_sorted x [] = x ∷ []
  insert_sorted x (y ∷ ys) =
      let rest = insert_sorted x ys in if n.lt y x then y ∷ rest else x ∷ y ∷ ys

  -- `[...values].sort((left, right) => left - right)`.
  abbrev pub sorted : List W → List W
  sorted [] = []
  sorted (x ∷ xs) = insert_sorted x (sorted xs)

  abbrev pub at_or_nought : ℕ → List W → W
  at_or_nought k values = elim (at k values) [ some x ↦ x | none ↦ nought ]

  unfoldable pub median : List W → Result W
  median [] = err (failure "Median requires at least one value")
  median (x ∷ xs) =
      let ordered = sorted (x ∷ xs) in
      let middle = length ordered / 2 in
      if length ordered % 2 == 0
      then ok (
          n.div (n.add (at_or_nought (middle - 1) ordered) (at_or_nought middle ordered)) (whole 2))
      else ok (at_or_nought middle ordered)

  -- `directionalEfficiency`.
  unfoldable pub directional_efficiency : List (CandleValue W) → Result W
  directional_efficiency [] = err (failure "Directional efficiency requires at least two candles")
  directional_efficiency (a ∷ []) =
      err (failure "Directional efficiency requires at least two candles")
  directional_efficiency (a ∷ b ∷ rest) =
      let closing : W = elim (last (b ∷ rest)) [ some c ↦ c.close | none ↦ b.close ] in
      let net = n.abs (n.sub closing a.close) in
      let travelled =
        add_all nought
          (with_previous (λ (p c : CandleValue W). n.abs (n.sub c.close p.close)) (a ∷ b ∷ rest)) in
      if n.le travelled nought
      then (if n.le nought travelled then ok nought else ok (n.div net travelled))
      else ok (n.div net travelled)

  -- `waveMfeR`: how far the price has gone the right way, in units of the risk.
  unfoldable pub wave_mfe_r : TradeDirection → W → W → List (CandleValue W) → W
  wave_mfe_r direction entry stop [] = nought
  wave_mfe_r direction entry stop (c ∷ candles) =
      let risk = n.abs (n.sub entry stop) in
      if n.le risk nought then nought else elim direction [
        | buy ↦ n.div (n.sub (extreme buy (c ∷ candles)) entry) risk
        | sell ↦
            n.div (n.mul (n.sub (extreme sell (c ∷ candles)) entry) (n.sub nought (whole 1))) risk
      ]
