-- ===== src/Strategy/Breakouts.antt =====
-- What a wave trigger says of the candles before it.
use ctreader.Prelude.{
  ℕ, ◌≡◌, ◌≤◌, ◌⊎◌, refl, inl, inr, true, Bool-cases, some, Option-cases, List, [], ◌∷◌, arith, All,
  length, ltb, map, ok, err, Result, sym, Exception,
}
use ctreader.Schema.{TradeDirection, buy, sell}
use ctreader.Strategy.{
  Number, CandleValue, slice_last, last, max_of, min_of, extreme, breakout_level,
}
use ctreader.Strategy.Signals.{crosses, detect_wave_trigger}

-- What the trigger needs of the comparison of finite numbers.
pub record IsOrdered {W : Type 0} (n : Number W) : Type 0 where
  pub le_trans : (a b c : W) → n.le a b ≡ true → n.le b c ≡ true → n.le a c ≡ true
  pub le-lt_trans : (a b c : W) → n.le a b ≡ true → n.lt b c ≡ true → n.lt a c ≡ true
  pub lt-le_trans : (a b c : W) → n.lt a b ≡ true → n.le b c ≡ true → n.lt a c ≡ true
  pub le-max_left : (a b : W) → n.le a (n.max a b) ≡ true
  pub le-max_right : (a b : W) → n.le b (n.max a b) ≡ true
  pub min-le_left : (a b : W) → n.le (n.min a b) a ≡ true
  pub min-le_right : (a b : W) → n.le (n.min a b) b ≡ true

Result-cases :
    {A : Type 0} (r : Result A) → ((a : A) × (r ≡ ok a)) ⊎ ((x : Exception) × (r ≡ err x))
Result-cases (ok a) = inl (a, refl)
Result-cases (err x) = inr (x, refl)

-- The price stands beyond every price of a candle in a direction; and not beyond a level.
abbrev pub IsBeyond : {W : Type 0} → Number W → TradeDirection → W → CandleValue W → Type 0
IsBeyond n buy price c = n.lt c.high price ≡ true
IsBeyond n sell price c = n.lt price c.low ≡ true

abbrev pub IsUpTo : {W : Type 0} → Number W → TradeDirection → W → W → Type 0
IsUpTo n buy level price = n.le price level ≡ true
IsUpTo n sell level price = n.le level price ≡ true

module _ {W : Type 0} (n : Number W) (o : IsOrdered n) where
  above-All :
      (cs : List (CandleValue W)) (price : W)
      → n.lt (max_of n (map (λ (c : CandleValue W). c.high) cs)) price ≡ true
      → All (IsBeyond n buy price) cs
  above-All [] price h = tt
  above-All (c ∷ cs) price h =
      let rest = max_of n (map (λ (c : CandleValue W). c.high) cs) in
      (
        o.le-lt_trans c.high (n.max c.high rest) price (o.le-max_left c.high rest) h,
        above-All cs price
            (o.le-lt_trans rest (n.max c.high rest) price (o.le-max_right c.high rest) h),
      )

  below-All :
      (cs : List (CandleValue W)) (price : W)
      → n.lt price (min_of n (map (λ (c : CandleValue W). c.low) cs)) ≡ true
      → All (IsBeyond n sell price) cs
  below-All [] price h = tt
  below-All (c ∷ cs) price h =
      let rest = min_of n (map (λ (c : CandleValue W). c.low) cs) in
      (
        o.lt-le_trans price (n.min c.low rest) c.low h (o.min-le_left c.low rest),
        below-All cs price
            (o.lt-le_trans price (n.min c.low rest) rest h (o.min-le_right c.low rest)),
      )

  crosses-IsBeyond :
      (bias : TradeDirection) (window : List (CandleValue W)) (previous current : W)
      → crosses n bias (extreme n bias window) previous current ≡ true
      → IsUpTo n bias (extreme n bias window) previous × All (IsBeyond n bias current) window
  crosses-IsBeyond buy window previous current h =
      (ground arith, above-All window current (ground arith))
  crosses-IsBeyond sell window previous current h =
      (ground arith, below-All window current (ground arith))

  level_is_extreme :
      (previous : List (CandleValue W)) (lookback : ℕ) (bias : TradeDirection) (level : W)
      → breakout_level n previous lookback bias ≡ ok level
      → extreme n bias (slice_last lookback previous) ≡ level
  unfolding breakout_level
  level_is_extreme previous lookback bias level h = ground arith

  trigger_cases :
      (bias : TradeDirection) (previous : List (CandleValue W)) (current : CandleValue W)
      (lookback : ℕ) (level : W)
      → detect_wave_trigger n bias previous current lookback ≡ ok (some level)
      → (lookback ≤ length previous)
        × (breakout_level n previous lookback bias ≡ ok level)
        × (p : CandleValue W) × (last previous ≡ some p)
        × (crosses n bias level p.close current.close ≡ true)
  unfolding detect_wave_trigger
  trigger_cases bias previous current lookback level h =
      elim (Bool-cases (ltb (length previous) lookback)) [
        | inl few ↦ absurd (ground arith)
        | inr enough ↦ elim (Result-cases (breakout_level n previous lookback bias)) [
          | inr (x, failed) ↦ absurd (ground arith)
          | inl (m, found) ↦ elim (Option-cases (last previous)) [
            | inl missing ↦ absurd (ground arith)
            | inr (p, ending) ↦ elim (Bool-cases (crosses n bias m p.close current.close)) [
              | inr still ↦ absurd (ground arith)
              | inl crossed ↦
                  let same : m ≡ level = ground arith in
                  (ground arith, rw same at found, p, ending, rw same at crossed)
            ]
          ]
        ]
      ]

-- Where the numbers are ordered, a wave trigger tells a new extreme: the lookback is there, the
-- close before did not stand beyond the level, which is the extreme of the lookback, and the current
-- close stands beyond the price of every candle of the lookback.
pub detect_wave_trigger-IsBeyond :
    {W : Type 0} (n : Number W) (o : IsOrdered n) (bias : TradeDirection)
    (previous : List (CandleValue W)) (current : CandleValue W) (lookback : ℕ) (level : W)
    → detect_wave_trigger n bias previous current lookback ≡ ok (some level)
    → (lookback ≤ length previous)
      × (level ≡ extreme n bias (slice_last lookback previous))
      × (p : CandleValue W) × (last previous ≡ some p)
      × IsUpTo n bias level p.close
      × All (IsBeyond n bias current.close) (slice_last lookback previous)
detect_wave_trigger-IsBeyond n o bias previous current lookback level h =
    let (enough, found, p, ending, crossed) =
      trigger_cases n o bias previous current lookback level h in
    let same = level_is_extreme n o previous lookback bias level found in
    let (up_to, beyond) =
      crosses-IsBeyond n o bias (slice_last lookback previous) p.close current.close
        (rw same crossed) in
    (enough, sym same, p, ending, rw same at up_to, beyond)
