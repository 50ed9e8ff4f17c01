-- ===== src/Strategy/Positions.antt =====
-- `managePosition` of src/strategy-v2/probe-strategy.service.ts: what is decided about an open position
-- at a candle.
use ctreader.Prelude.{
  ℕ, ◌+◌, ◌*◌, String, Bool, true, false, ◌&&◌, Option, none, some, List, leb, ltb, length, keep,
  map, take, order_by, if◌then◌else◌,
}
use ctreader.Schema.{TradeDirection, buy, sell}
use ctreader.Schema.{StrategyPositionState, probe_open, closed_tp, closed_sl, closed_timeout}
use ctreader.Strategy.{Number, CandleValue, nought, whole, wave_mfe_r}
use ctreader.Strategy.Signals.{WaveConfirmation, stop_hit, target_hit, confirm_wave_main}

pub record ProbePosition (W : Type 0) : Type 0 where
  pub id : ℕ
  pub strategy_config_id : ℕ
  pub direction : TradeDirection
  pub state : StrategyPositionState
  pub breakout_level : W
  pub atr_at_entry : W
  pub probe_entry_price : W
  pub main_entry_price : Option W
  pub stop_loss_price : W
  pub take_profit_price : W
  pub confirmation_deadline : ℕ
  pub opened_at : ℕ
  pub closed_at : Option ℕ
  pub close_price : Option W
  pub close_reason : Option String
  pub realized_r : Option W

-- How a position is closed: its last state, the price, the reason and the gain in units of risk.
pub record Closing (W : Type 0) : Type 0 where
  pub state : StrategyPositionState
  pub price : W
  pub reason : String
  pub realized_r : W

-- What is decided about a position at a candle.
pub data Verdict (W : Type 0) : Type 0 where
  leave : Verdict W
  close_as : Closing W → Verdict W
  add_main : WaveConfirmation → Verdict W

pub record TimedCandle (W : Type 0) : Type 0 where
  pub open_time : ℕ
  pub value : CandleValue W

abbrev pub follow_through_bars : ℕ
follow_through_bars = 6

abbrev pub is_probe_open : StrategyPositionState → Bool
is_probe_open probe_open = true
is_probe_open _ = false

module _ {W : Type 0} (n : Number W) where
  abbrev pub signed : TradeDirection → W → W
  signed buy x = n.mul x (whole n 1)
  signed sell x = n.mul x (n.sub (nought n) (whole n 1))

  -- The mean of the entries that were filled.
  unfoldable pub average_entry : ProbePosition W → W
  average_entry p = elim p.main_entry_price [
    | none ↦ n.div (n.add (nought n) p.probe_entry_price) (whole n 1)
    | some main ↦ n.div (n.add (n.add (nought n) p.probe_entry_price) main) (whole n 2)
  ]

  -- The first candles after the entry, of those that are stored.
  unfoldable pub post_entry_candles :
      List (TimedCandle W) → ProbePosition W → ℕ → List (TimedCandle W)
  post_entry_candles stored p now = take follow_through_bars (
      order_by (λ (c : TimedCandle W). c.open_time)
        (keep (λ (c : TimedCandle W). ltb p.opened_at c.open_time && leb c.open_time now) stored))

  -- The price did not go half the risk in the right direction in six bars.
  unfoldable pub has_no_follow_through :
      List (TimedCandle W) → ProbePosition W → TimedCandle W → Bool
  unfolding post_entry_candles wave_mfe_r
  has_no_follow_through stored p candle =
      let after = post_entry_candles stored p candle.open_time in
      leb (p.opened_at + follow_through_bars * 300000) candle.open_time
      && leb follow_through_bars (length after)
      && n.lt
          (wave_mfe_r n p.direction p.probe_entry_price p.stop_loss_price
            (map (λ (c : TimedCandle W). c.value) after))
          (n.of_ratio 1 2)

  unfoldable pub stopped : ProbePosition W → Closing W
  stopped p = record {
    state = closed_sl;
    price = p.stop_loss_price;
    reason = "Stop Loss";
    realized_r = n.sub (nought n) (whole n 1);
  }

  unfoldable pub reached : ProbePosition W → Closing W
  reached p = record {
    state = closed_tp;
    price = p.take_profit_price;
    reason = "Take Profit";
    realized_r =
        n.div (n.abs (n.sub p.take_profit_price p.probe_entry_price))
          (n.abs (n.sub p.probe_entry_price p.stop_loss_price));
  }

  unfoldable pub given_up : ProbePosition W → CandleValue W → Closing W
  unfolding average_entry
  given_up p c = record {
    state = closed_timeout;
    price = c.close;
    reason = "NO_FOLLOW_THROUGH: MFE below 0.5R after 6 M5 bars";
    realized_r =
        n.div (signed p.direction (n.sub c.close (average_entry p)))
          (n.abs (n.sub (average_entry p) p.stop_loss_price));
  }

  unfoldable pub unconfirmed : ProbePosition W → CandleValue W → Closing W
  unconfirmed p c = record {
    state = closed_timeout;
    price = c.close;
    reason = "No confirmation within configured bars";
    realized_r =
        n.mul
          (n.div (signed p.direction (n.sub c.close p.probe_entry_price))
            (n.abs (n.sub p.probe_entry_price p.stop_loss_price)))
          (n.of_ratio 1 2);
  }

  -- The end of `managePosition`: a probe is confirmed, or given up at its deadline.
  unfoldable pub probe_verdict : ProbePosition W → TimedCandle W → Verdict W
  unfolding confirm_wave_main unconfirmed
  probe_verdict p candle =
      elim (confirm_wave_main n p.direction candle.value p.breakout_level p.probe_entry_price
        p.atr_at_entry (n.of_ratio 45 100) (n.of_ratio 10 100) (n.of_ratio 50 100)) [
          | some confirmation ↦ add_main confirmation
          | none ↦
              if leb p.confirmation_deadline candle.open_time
              then close_as (unconfirmed p candle.value)
              else leave
        ]

  -- The decision of `managePosition`: the stop before the target, then the follow-through, then the
  -- confirmation of a probe.
  unfoldable pub verdict : List (TimedCandle W) → ProbePosition W → TimedCandle W → Verdict W
  unfolding stopped reached has_no_follow_through given_up probe_verdict
  verdict stored p candle =
      if stop_hit n p.direction candle.value p.stop_loss_price
      then close_as (stopped p)
      else if target_hit n p.direction candle.value p.take_profit_price
      then close_as (reached p)
      else if has_no_follow_through stored p candle
      then close_as (given_up p candle.value)
      else if is_probe_open p.state
      then probe_verdict p candle
      else leave
