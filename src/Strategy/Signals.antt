-- ===== src/Strategy/Signals.antt =====
-- The signals of src/strategy-v2/probe-strategy.math.ts: the triggers of a wave, its stop, its
-- confirmation, and the end of a position at its barriers.
use ctreader.Prelude.{
  ℕ, Bool, not, ◌&&◌, ◌||◌, Option, none, some, List, [], ◌∷◌, ◌++◌, ltb, length, if◌then◌else◌,
  Result, ok, err, failure,
}
use ctreader.Schema.{TradeDirection, buy, sell}
use ctreader.Strategy.{Number, CandleValue, slice_last, last, nought, extreme, breakout_level}

pub data WaveConfirmation : Type 0 where
  retest_reclaim momentum : WaveConfirmation

pub data M5Trigger : Type 0 where
  fast_breakout retest : M5Trigger

pub data Barrier : Type 0 where
  tp sl : Barrier

pub record WaveStop (W : Type 0) : Type 0 where
  pub stop : W
  pub distance : W
  pub distance_atr : W
  pub valid : Bool

module _ {W : Type 0} (n : Number W) where
  abbrev pub gt : W → W → Bool
  gt a b = n.lt b a

  abbrev pub ge : W → W → Bool
  ge a b = n.le b a

  -- How far `b` lies from `a` in a direction.
  abbrev pub ahead : TradeDirection → W → W → W
  ahead buy a b = n.sub b a
  ahead sell a b = n.sub a b

  abbrev pub closes_with : TradeDirection → CandleValue W → Bool
  closes_with buy c = gt c.close c.open_price
  closes_with sell c = n.lt c.close c.open_price

  abbrev pub touches : TradeDirection → CandleValue W → W → Bool
  touches buy c level = n.le c.low level
  touches sell c level = ge c.high level

  -- `confirmWaveMain`, with its thresholds.
  unfoldable pub confirm_wave_main :
      TradeDirection
      → CandleValue W
      → (level probe_entry atr min_body_ratio min_reclaim_atr momentum_atr : W)
      → Option WaveConfirmation
  confirm_wave_main direction c level probe_entry atr min_body_ratio min_reclaim_atr momentum_atr =
      let range = n.sub c.high c.low in
      let body_ratio = n.div (n.abs (n.sub c.close c.open_price)) range in
      if n.le range (nought n) || n.le atr (nought n)
      then none
      else if not (closes_with direction c) || n.lt body_ratio min_body_ratio
      then none
      else if touches direction c level
          && ge (ahead direction level c.close) (n.mul min_reclaim_atr atr)
      then some retest_reclaim
      else if ge (ahead direction probe_entry c.close) (n.mul momentum_atr atr)
      then some momentum
      else none

  -- The close has gone through the level between two candles.
  abbrev pub crosses : TradeDirection → W → W → W → Bool
  crosses buy level previous current = n.le previous level && gt current level
  crosses sell level previous current = ge previous level && n.lt current level

  -- `detectWaveTrigger`: the level of a breakout in the direction of the bias.
  unfoldable pub detect_wave_trigger :
      TradeDirection → List (CandleValue W) → CandleValue W → ℕ → Result (Option W)
  detect_wave_trigger bias previous current lookback =
      if ltb (length previous) lookback
      then ok none
      else elim (breakout_level n previous lookback bias) [
        | err x ↦ err x
        | ok level ↦ elim (last previous) [
          | none ↦ err (failure "Cannot read properties of undefined")
          | some p ↦ if crosses bias level p.close current.close then ok (some level) else ok none
        ]
      ]

  -- `waveStop`, with its settings.
  unfoldable pub wave_stop :
      TradeDirection
      → List (CandleValue W)
      → CandleValue W
      → W
      → ℕ
      → (buffer_atr min_distance_atr max_distance_atr : W) → WaveStop W
  wave_stop direction previous current atr swing_bars buffer_atr min_distance_atr max_distance_atr =
      let buffer = n.mul buffer_atr atr in
      let recent = slice_last swing_bars previous ++ (current ∷ []) in
      let structural_stop : W = elim direction [
        | buy ↦ n.sub (extreme n sell recent) buffer
        | sell ↦ n.add (extreme n buy recent) buffer
      ] in
      let raw_distance = n.abs (n.sub current.close structural_stop) in
      let distance = n.max raw_distance (n.mul min_distance_atr atr) in
      let distance_atr = n.div distance atr in
      record {
        stop = elim direction [
          | buy ↦ n.sub current.close distance
          | sell ↦ n.add current.close distance
        ];
        distance = distance;
        distance_atr = distance_atr;
        valid = n.le distance_atr max_distance_atr;
      }

  -- The candle comes back to a level that was broken before, and leaves it again.
  abbrev pub retests : TradeDirection → W → W → CandleValue W → CandleValue W → Bool
  retests buy level atr previous current =
      gt previous.close level
      && n.le current.low (n.add level (n.mul (n.of_ratio 15 100) atr))
      && gt current.close level
      && gt current.close current.open_price
  retests sell level atr previous current =
      n.lt previous.close level
      && ge current.high (n.sub level (n.mul (n.of_ratio 15 100) atr))
      && n.lt current.close level
      && n.lt current.close current.open_price

  -- `detectM5Trigger`, with the level of the side of the bias.
  unfoldable pub detect_m5_trigger :
      TradeDirection
      → CandleValue W
      → CandleValue W
      → (buy_level sell_level atr : W) → Option (M5Trigger × W)
  detect_m5_trigger bias previous current buy_level sell_level atr =
      let level : W = elim bias [ buy ↦ buy_level | sell ↦ sell_level ] in
      if retests bias level atr previous current
      then some (retest, level)
      else if crosses bias level previous.close current.close
      then some (fast_breakout, level)
      else none

  abbrev pub stop_hit : TradeDirection → CandleValue W → W → Bool
  stop_hit buy c stop_loss = n.le c.low stop_loss
  stop_hit sell c stop_loss = ge c.high stop_loss

  abbrev pub target_hit : TradeDirection → CandleValue W → W → Bool
  target_hit buy c take_profit = ge c.high take_profit
  target_hit sell c take_profit = n.le c.low take_profit

  -- `resolveBarrierOutcome`: a candle that reaches both barriers counts as a loss.
  unfoldable pub resolve_barrier_outcome : TradeDirection → W → W → CandleValue W → Option Barrier
  resolve_barrier_outcome direction stop_loss take_profit c =
      if stop_hit direction c stop_loss
      then some sl
      else if target_hit direction c take_profit
      then some tp
      else none
