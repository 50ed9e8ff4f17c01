-- ===== src/Ctrader/Orders/Volume.antt =====
-- The volume that `start` of src/ctrader/ctrader-execution.service.ts orders.
use ctreader.NewsReversal.{max_safe_integer}
use ctreader.Prelude.{
  ◌||◌, ℕ, ◌*◌, ◌+◌, ◌-◌, none, some, ltb, or_else, if◌then◌else◌, Bool, Result, ok, err, failure,
  ◌==◌,
}
use ctreader.Schema.{JobTerms, multi, straddle, market, news_reversal, fixed_lot, risk_percent}
use ctreader.NewsReversal.{calculate_risk_volume_in_cents}

-- The symbol and the account as the broker describes them, and the floating-point arithmetic on them:
-- a lot size in units, the nearest number of steps of a volume, and the steps that a balance, a
-- percentage, a distance in points and a step allow.
pub record Symbol : Type 0 where
  pub lot_size : ℕ
  pub min_volume : ℕ
  pub max_volume : ℕ
  pub step_volume : ℕ
  pub same_currency : Bool
  pub balance : ℕ
  pub units_of_lot : ℕ → ℕ → ℕ
  pub nearest_steps : ℕ → ℕ → ℕ
  pub risk_steps : ℕ → ℕ → ℕ → ℕ → ℕ

-- `totalStopDistance`, in points.
unfoldable pub total_stop_points : JobTerms → ℕ
total_stop_points terms = elim terms.execution_mode [
  | multi ↦
      2
      * (terms.stop_loss_points
          + (or_else terms.multi_trades_per_side 2 - 1)
            * or_else terms.multi_next_sl_points terms.stop_loss_points)
  | straddle ↦ 2 * terms.stop_loss_points
  | market ↦ terms.stop_loss_points
  | news_reversal ↦ terms.stop_loss_points
]

-- The volume before it is checked: a fixed lot is rounded to steps, a risk is rounded down to them.
unfoldable pub wanted_volume : Symbol → JobTerms → Result ℕ
unfolding total_stop_points
wanted_volume s terms = elim terms.risk_mode [
  | fixed_lot ↦ elim terms.fixed_lot [
    | none ↦ err (failure "Fixed lot is missing")
    | some lot ↦
        if lot == 0
        then err (failure "Fixed lot is missing")
        else ok (s.nearest_steps (s.units_of_lot lot s.lot_size) s.step_volume * s.step_volume)
  ]
  | risk_percent ↦ elim terms.risk_percent [
    | none ↦ err (failure "Risk percent is missing")
    | some percent ↦
        if percent == 0
        then err (failure "Risk percent is missing")
        else if s.same_currency
        then calculate_risk_volume_in_cents s.risk_steps s.balance percent (total_stop_points terms)
            s.min_volume s.max_volume s.step_volume
        else err (failure "Risk % currently requires account currency to match the symbol")
  ]
]

unfoldable pub check_volume : Symbol → Result ℕ → Result ℕ
check_volume s (err x) = err x
check_volume s (ok volume) =
    if ltb volume s.min_volume
    then err (failure "Calculated risk volume is below the broker minimum")
    else if ltb s.max_volume volume
    then err (failure "Calculated volume exceeds the broker maximum")
    else if volume == 0 || ltb max_safe_integer volume
    then err (failure "Calculated cTrader volume is invalid")
    else ok volume

unfoldable pub job_volume : Symbol → JobTerms → Result ℕ
unfolding wanted_volume check_volume
job_volume s terms = check_volume s (wanted_volume s terms)
