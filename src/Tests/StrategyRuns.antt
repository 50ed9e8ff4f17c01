-- ===== src/Tests/StrategyRuns.antt =====
-- The signals of the strategy on whole numbers.
use ctreader.Prelude.{
  ℕ, ◌+◌, ◌-◌, ◌*◌, ◌/◌, ◌≡◌, ◌≤◌, refl, true, none, some, List, [], ◌∷◌, arith, All, leb, ltb, min,
  max,
}
use ctreader.Schema.{buy}
use ctreader.Strategy.{Number, CandleValue, slice_last, last, extreme, breakout_level}
use ctreader.Strategy.Signals.{detect_wave_trigger, resolve_barrier_outcome, tp, sl}
use ctreader.Strategy.Breakouts.{IsOrdered, IsBeyond, IsUpTo, detect_wave_trigger-IsBeyond}

abbrev points : Number ℕ
points = record {
  add = λ a b. a + b;
  sub = λ a b. a - b;
  mul = λ a b. a * b;
  div = λ a b. a / b;
  abs = λ a. a;
  max = max;
  min = min;
  le = leb;
  lt = ltb;
  is_finite = λ a. true;
  of_ratio = λ a b. a / b;
  infinity = 1000000;
  minus_infinity = 0;
}

points-IsOrdered : IsOrdered points
points-IsOrdered = record {
  le_trans = λ a b c h k. ground arith;
  le-lt_trans = λ a b c h k. ground arith;
  lt-le_trans = λ a b c h k. ground arith;
  le-max_left = λ a b. ground arith;
  le-max_right = λ a b. ground arith;
  min-le_left = λ a b. ground arith;
  min-le_right = λ a b. ground arith;
}

abbrev candle : ℕ → ℕ → ℕ → CandleValue ℕ
candle high low close = record {
  open_price = low;
  high = high;
  low = low;
  close = close;
  tick_volume = none;
}

abbrev earlier : List (CandleValue ℕ)
earlier = candle 105 99 101 ∷ candle 110 100 104 ∷ candle 108 101 107 ∷ []

detect_wave_trigger-IsBeyond_example :
    (2 ≤ 3)
    × (110 ≡ extreme points buy (slice_last 2 earlier))
    × (p : CandleValue ℕ) × (last earlier ≡ some p)
    × IsUpTo points buy 110 p.close
    × All (IsBeyond points buy 112) (slice_last 2 earlier)
unfolding detect_wave_trigger breakout_level
detect_wave_trigger-IsBeyond_example =
    detect_wave_trigger-IsBeyond points points-IsOrdered buy earlier (candle 113 106 112) 2 110 refl

-- A candle that reaches both barriers is a loss, as in test/probe-strategy.math.spec.ts.
barriers :
    (resolve_barrier_outcome points buy 95 110 (candle 111 94 100) ≡ some sl)
    × (resolve_barrier_outcome points buy 95 110 (candle 111 96 100) ≡ some tp)
unfolding resolve_barrier_outcome
barriers = (refl, refl)
