-- ===== src/Strategy/Quality.antt =====
-- The regime of the market and the quality of a breakout, of src/strategy-v2/probe-strategy.math.ts.
use ctreader.Prelude.{
  ℕ, zero, suc, ◌+◌, ◌-◌, Bool, true, false, ◌&&◌, ◌||◌, Option, none, some, List, [], ◌∷◌, ◌++◌,
  ltb, take, keep, length, map, if◌then◌else◌, Result, ok, err, failure,
}
use Prim.Native.Nat.{max}
use ctreader.Schema.{TradeDirection, buy, sell}
use ctreader.Strategy.{Number, CandleValue, nought, whole, ema, atr, median}
use ctreader.Strategy.Signals.{ahead}

pub data MarketRegime : Type 0 where
  trend_up trend_down range_bound : MarketRegime

pub record RegimeResult (W : Type 0) : Type 0 where
  pub regime : MarketRegime
  pub ema_fast : W
  pub ema_slow : W
  pub separation_atr : W
  pub slope_atr : W
  pub current_atr : W

pub data Reason : Type 0 where
  invalid_range wrong_body_direction weak_body large_rejection_wick : Reason
  weak_close_beyond_level low_vol_breakout high_vol_breakout : Reason
  missing_tick_volume low_tick_volume extreme_volatility : Reason

pub record BreakoutQuality (W : Type 0) : Type 0 where
  pub accepted : Bool
  pub reasons : List Reason
  pub range_atr : W
  pub body_ratio : W
  pub opposite_wick_ratio : W
  pub close_beyond_atr : W
  pub tick_volume_ratio : Option W

pub record QualityLimits (W : Type 0) : Type 0 where
  pub min_body_ratio : W
  pub min_range_atr : W
  pub min_close_beyond_atr : W
  pub max_opposite_wick_ratio : W
  pub max_range_atr : W
  pub min_tick_volume_ratio : W

-- `hardWaveReasons`.
unfoldable pub hard_reason : Reason → Reason
hard_reason high_vol_breakout = extreme_volatility
hard_reason reason = reason

unfoldable pub hard_wave_reasons : List Reason → List Reason
unfolding hard_reason
hard_wave_reasons reasons = map hard_reason reasons

-- `array.slice(0, -n)`, which for no entry is empty.
abbrev pub slice_front : {A : Type 0} → ℕ → List A → List A
slice_front zero xs = []
slice_front (suc n) xs = take (length xs - suc n) xs

-- `if (test) reasons.push(reason)`.
abbrev pub reason_if : Bool → Reason → List Reason
reason_if true reason = reason ∷ []
reason_if false reason = []

abbrev pub is_none_left : List Reason → Bool
is_none_left [] = true
is_none_left (x ∷ xs) = false

module _ {W : Type 0} (n : Number W) where
  -- The regime by the averages, their distance and the slope of the fast one.
  unfoldable pub regime_of :
      (ema_fast ema_slow separation slope min_separation min_slope : W) → MarketRegime
  regime_of ema_fast ema_slow separation slope min_separation min_slope =
      if n.le min_separation separation && n.le min_slope (n.abs slope)
      then (if n.lt ema_fast ema_slow && n.lt slope (nought n)
          then trend_down
          else if n.lt ema_slow ema_fast && n.lt (nought n) slope
          then trend_up
          else range_bound)
      else range_bound

  -- The result of `detectMarketRegime` from the three averages and the range of the candles.
  unfoldable pub regime_result :
      (slope_bars : ℕ) (min_separation min_slope ema_fast ema_slow previous_fast current_atr : W)
      → Result (RegimeResult W)
  unfolding regime_of
  regime_result slope_bars min_separation min_slope ema_fast ema_slow previous_fast current_atr =
      let separation = n.div (n.abs (n.sub ema_fast ema_slow)) current_atr in
      let slope = n.div (n.div (n.sub ema_fast previous_fast) current_atr) (whole n slope_bars) in
      if n.le current_atr (nought n)
      then err (failure "Market regime ATR must be positive")
      else ok (record {
        regime = regime_of ema_fast ema_slow separation slope min_separation min_slope;
        ema_fast = ema_fast;
        ema_slow = ema_slow;
        separation_atr = separation;
        slope_atr = slope;
        current_atr = current_atr;
      })

  abbrev pub chain : {A B : Type 0} → Result A → (A → Result B) → Result B
  chain (ok a) f = f a
  chain (err x) f = err x

  -- `detectMarketRegime`.
  unfoldable pub detect_market_regime :
      List (CandleValue W)
      → (fast slow atr_period : ℕ) (min_separation min_slope : W) (slope_bars : ℕ)
      → Result (RegimeResult W)
  unfolding regime_result
  detect_market_regime candles fast slow atr_period min_separation min_slope slope_bars =
      let closes = map (λ (c : CandleValue W). c.close) candles in
      if ltb (length candles) (max (slow + slope_bars) (atr_period + 1))
      then err (failure "Market regime requires more candles")
      else chain (ema n closes fast) λ ema_fast. chain (ema n closes slow) λ ema_slow.
        chain (ema n (slice_front slope_bars closes) fast) λ previous_fast.
          chain (atr n candles atr_period)
            (regime_result slope_bars min_separation min_slope ema_fast ema_slow previous_fast)

  -- The shadow of the candle on the side of the breakout.
  abbrev pub opposite_wick : TradeDirection → CandleValue W → W
  opposite_wick buy c = n.sub c.high (n.max c.open_price c.close)
  opposite_wick sell c = n.sub (n.min c.open_price c.close) c.low

  abbrev pub closes_against : TradeDirection → CandleValue W → Bool
  closes_against buy c = n.le c.close c.open_price
  closes_against sell c = n.le c.open_price c.close

  -- The median of the earlier volumes that can be used, unless there is none or it is nought.
  unfoldable pub baseline_volume : List W → Option W
  baseline_volume volumes =
      elim (median n (keep (λ v. n.is_finite v && n.lt (nought n) v) volumes)) [
        | err x ↦ none
        | ok m ↦ some m
      ]

  abbrev pub volume_ratio : Option W → Option W → Option W
  volume_ratio (some volume) (some baseline) = some (n.div volume baseline)
  volume_ratio _ _ = none

  abbrev pub volume_reasons : Option W → W → List Reason
  volume_reasons none limit = missing_tick_volume ∷ []
  volume_reasons (some ratio) limit = reason_if (n.lt ratio limit) low_tick_volume

  -- The checks of `assessBreakoutQuality`, in their order.
  unfoldable pub quality_reasons :
      QualityLimits W
      → TradeDirection
      → CandleValue W
      → (range_atr body_ratio wick_ratio close_beyond_atr : W) → Option W
      → List Reason
  quality_reasons limits direction c range_atr body_ratio wick_ratio close_beyond_atr ratio =
      reason_if (closes_against direction c) wrong_body_direction
      ++ (reason_if (n.lt body_ratio limits.min_body_ratio) weak_body
          ++ (reason_if (n.lt limits.max_opposite_wick_ratio wick_ratio) large_rejection_wick
              ++ (reason_if (n.lt close_beyond_atr limits.min_close_beyond_atr)
                    weak_close_beyond_level
                  ++ (reason_if (n.lt range_atr limits.min_range_atr) low_vol_breakout
                      ++ (reason_if (n.lt limits.max_range_atr range_atr) high_vol_breakout
                          ++ volume_reasons ratio limits.min_tick_volume_ratio)))))

  -- `assessBreakoutQuality`.
  unfoldable pub assess_breakout_quality :
      QualityLimits W
      → TradeDirection
      → CandleValue W
      → (level atr : W) → List W
      → BreakoutQuality W
  unfolding baseline_volume quality_reasons
  assess_breakout_quality limits direction c level atr previous_tick_volumes =
      let range = n.sub c.high c.low in
      let range_atr = n.div range atr in
      let body_ratio = n.div (n.abs (n.sub c.close c.open_price)) range in
      let wick_ratio = n.div (n.max (nought n) (opposite_wick direction c)) range in
      let close_beyond_atr = n.div (ahead n direction level c.close) atr in
      let ratio = volume_ratio c.tick_volume (baseline_volume previous_tick_volumes) in
      let reasons =
        quality_reasons limits direction c range_atr body_ratio wick_ratio close_beyond_atr ratio in
      if n.le range (nought n) || n.le atr (nought n)
      then record {
        accepted = false;
        reasons = invalid_range ∷ [];
        range_atr = nought n;
        body_ratio = nought n;
        opposite_wick_ratio = nought n;
        close_beyond_atr = nought n;
        tick_volume_ratio = none;
      }
      else record {
        accepted = is_none_left reasons;
        reasons = reasons;
        range_atr = range_atr;
        body_ratio = body_ratio;
        opposite_wick_ratio = wick_ratio;
        close_beyond_atr = close_beyond_atr;
        tick_volume_ratio = ratio;
      }
