-- ===== src/Ctrader/Orders.antt =====
-- What `start` of src/ctrader/ctrader-execution.service.ts checks before it places orders, which
-- orders it places, and `place`. Distances are in points; the broker's quote turns them into prices.
pub mod Volume
use ctreader.Prelude.{
  ℕ, zero, suc, ◌+◌, ◌-◌, ◌*◌, max, String, Bool, true, false, not, ◌&&◌, Option, none, some, List,
  [], ◌∷◌, ◌++◌, ◌==◌, ltb, or_else, sum, map, keep, length, if◌then◌else◌, Exec, Result, ok, err,
  pure, throw, throw_if, modify, gets, require, failure, ◌>>=◌, ◌>>◌,
}
use ctreader.Config.{Config}
use ctreader.Schema.{
  Db, TradeJob, JobTerms, ExecutionMode, market, straddle, multi, news_reversal, TradeDirection,
  buy, sell, VolumeAllocationMode, split_total, full_each,
}
use ctreader.Safety.{assert_trading_open}
use ctreader.TradeJobs.State.{TradeJobStatus, ExecutionPhase, submitted, includes}
use ctreader.Ctrader.{
  WorkerEnv, World, Request, new_order, OrderDraft, OrderLabel, market_label, submitted_key,
  update_jobs, report, no_details, held_statuses, unfilled_statuses,
}
use ctreader.Ctrader.Lease.{is_ctrader_venue}

-- A handler of the database as one of the whole state.
unfoldable pub in_db : {A : Type 0} → Exec Db A → Exec World A
in_db m w = let (r, db) = m w.db in (r, record w { db = db })

-- A stop order, by how far it stands from the price and its protection from it, and the number that
-- its label ends with.
pub record OrderPlan : Type 0 where
  pub side : TradeDirection
  pub distance_points : ℕ
  pub stop_loss_points : ℕ
  pub take_profit_points : ℕ
  pub volume : ℕ
  pub label : ℕ

-- One order of a level of MULTI, and the two of the level.
unfoldable pub level_order : JobTerms → ℕ → ℕ → TradeDirection → OrderPlan
level_order terms volume level side = record {
  side = side;
  distance_points =
      terms.entry_distance_points
      + level * or_else terms.multi_next_step_points terms.entry_distance_points;
  stop_loss_points =
      if level == 0
      then terms.stop_loss_points
      else or_else terms.multi_next_sl_points terms.stop_loss_points;
  take_profit_points =
      terms.take_profit_points
      + level * or_else terms.multi_next_tp_points terms.take_profit_points;
  volume = volume;
  label = suc level;
}

unfoldable pub level_orders : JobTerms → ℕ → ℕ → List OrderPlan
unfolding level_order
level_orders terms volume level =
    level_order terms volume level buy ∷ level_order terms volume level sell ∷ []

-- The levels from one on.
unfoldable pub multi_orders : JobTerms → ℕ → ℕ → ℕ → List OrderPlan
unfolding level_orders
multi_orders terms volume level zero = []
multi_orders terms volume level (suc count) =
    level_orders terms volume level ++ multi_orders terms volume (suc level) count

unfoldable pub straddle_order : JobTerms → ℕ → TradeDirection → OrderPlan
straddle_order terms volume side = record {
  side = side;
  distance_points = terms.entry_distance_points;
  stop_loss_points = terms.stop_loss_points;
  take_profit_points = terms.take_profit_points;
  volume = volume;
  label = 0;
}

-- The orders of one side of NEWS_REVERSAL: one for each leg of the volume and its target.
unfoldable pub side_orders : JobTerms → TradeDirection → ℕ → List ℕ → List ℕ → List OrderPlan
side_orders terms side index (leg ∷ legs) (target ∷ targets) =
    record {
      side = side;
      distance_points = terms.entry_distance_points;
      stop_loss_points = terms.stop_loss_points;
      take_profit_points = target;
      volume = leg;
      label = suc index;
    }
    ∷ side_orders terms side (suc index) legs targets
side_orders terms side index _ _ = []

-- The payload of a stop order of a plan, where the rounded price so many points off the quote is
-- `entry`.
unfoldable pub stop_draft :
    (entry : TradeDirection → ℕ → ℕ)
    → Option ℕ
    → (TradeDirection → ℕ → OrderLabel)
    → OrderPlan
    → OrderDraft
stop_draft entry expires_at label p = record {
  side = p.side;
  volume = p.volume;
  stop_price = some (entry p.side p.distance_points);
  stop_loss_points = p.stop_loss_points;
  take_profit_points = p.take_profit_points;
  expires_at = expires_at;
  label = label p.side p.label;
}

-- The payload of a MARKET job's order.
unfoldable pub market_draft : JobTerms → ℕ → OrderDraft
market_draft terms volume = record {
  side = terms.direction;
  volume = volume;
  stop_price = none;
  stop_loss_points = terms.stop_loss_points;
  take_profit_points = terms.take_profit_points;
  expires_at = none;
  label = market_label;
}

-- `plannedPositions`.
unfoldable pub planned_positions : ExecutionMode → Option ℕ → ℕ
planned_positions multi trades = 2 * or_else trades 2
planned_positions news_reversal trades = 6
planned_positions _ trades = 1

-- The other jobs of the user that a worker holds.
unfoldable pub is_other_active : TradeJob → TradeJob → Bool
is_other_active job row =
    row.user_id == job.user_id
    && is_ctrader_venue row.execution_venue
    && not (row.id == job.id)
    && includes held_statuses row.status

abbrev pub positions_of : TradeJob → ℕ
positions_of job = planned_positions job.terms.execution_mode job.terms.multi_trades_per_side

-- `projected`: the positions that others opened on the account, those of the job, and those of the
-- user's other jobs.
unfoldable pub projected_positions : ℕ → TradeJob → Db → ℕ
unfolding is_other_active
projected_positions unmanaged job db =
    unmanaged + positions_of job + sum (map positions_of (keep (is_other_active job) db.jobs))

-- `assertPositionLimit`.
unfoldable pub assert_position_limit : ℕ → ℕ → TradeJob → Exec World (Unit {0})
unfolding projected_positions
assert_position_limit limit unmanaged job = do
  projected ← gets λ w. projected_positions unmanaged job w.db
  throw_if (ltb limit projected) (failure "POSITION_LIMIT")

abbrev pub full_legs : Option VolumeAllocationMode → ℕ
full_legs (some full_each) = 3
full_legs _ = 1

-- The points that are lost on a unit if every position of the job is stopped, by
-- `assertEstimatedRisk`.
unfoldable pub risked_points : JobTerms → ℕ
risked_points terms = elim terms.execution_mode [
  | multi ↦
      2
      * (terms.stop_loss_points
          + (or_else terms.multi_trades_per_side 2 - 1)
            * or_else terms.multi_next_sl_points terms.stop_loss_points)
  | news_reversal ↦ terms.stop_loss_points * full_legs terms.volume_allocation_mode
  | straddle ↦ terms.stop_loss_points
  | market ↦ terms.stop_loss_points
]

-- `assertEstimatedRisk`: where the currencies match, the share of the balance that so many units and
-- points are, a floating-point number, is tested by `exceeds`.
unfoldable pub assert_estimated_risk :
    (exceeds : ℕ → ℕ → Bool) → Bool → JobTerms → ℕ → Exec World (Unit {0})
unfolding risked_points
assert_estimated_risk exceeds same_currency terms volume =
    throw_if (same_currency && exceeds volume (risked_points terms)) (failure "RISK_LIMIT")

-- The margin that the orders of a job need, from the broker's estimates for one order.
unfoldable pub required_margin : JobTerms → ℕ → ℕ → ℕ
required_margin terms buy_margin sell_margin = elim terms.execution_mode [
  | straddle ↦ max buy_margin sell_margin
  | multi ↦ (buy_margin + sell_margin) * or_else terms.multi_trades_per_side 2
  | news_reversal ↦ max buy_margin sell_margin * full_legs terms.volume_allocation_mode
  | market ↦ elim terms.direction [ buy ↦ buy_margin | sell ↦ sell_margin ]
]

-- `assertMargin`, of amounts in the smallest unit of money and a buffer in per cent, from the estimate
-- that the broker answered, if any.
unfoldable pub assert_margin : ℕ → JobTerms → Option (ℕ × ℕ) → ℕ → ℕ → Exec World (Unit {0})
unfolding required_margin
assert_margin buffer_percent terms none balance used =
    throw (failure "MARGIN_PREFLIGHT: cTrader returned no margin estimate")
assert_margin buffer_percent terms (some (buy_margin, sell_margin)) balance used =
    throw_if
      (ltb ((balance - used) * 100)
        (required_margin terms buy_margin sell_margin * (100 + buffer_percent)))
      (failure "MARGIN_PREFLIGHT: required margin exceeds estimated free margin")

unfoldable pub is_unfilled : ℕ → TradeJob → Bool
is_unfilled job_id job = job.id == job_id && includes unfilled_statuses job.status

unfoldable pub mark_submitted : ℕ → TradeJob → TradeJob
mark_submitted now job = record job {
  updated_at = now;
  status = submitted;
  times = record job.times { submitted_at = some now };
}

-- What `place` writes down once the broker has accepted an order.
unfoldable pub record_order : WorkerEnv → ℕ → OrderDraft → ℕ → World → World
unfolding is_unfilled mark_submitted update_jobs report
record_order env job_id draft order_id w =
    report env (submitted_key job_id order_id) job_id ExecutionPhase.submitted
      (record (no_details "cTrader order accepted") { order_ticket = some order_id })
      (update_jobs (is_unfilled job_id) (mark_submitted env.now)
        (record w { sent = new_order job_id order_id draft ∷ w.sent }))

-- `place`, with the id of the order in the broker's answer, if there is one.
unfoldable pub place : Config → WorkerEnv → ℕ → OrderDraft → Option ℕ → Exec World ℕ
unfolding in_db record_order
place cfg env job_id draft answer = do
  in_db (assert_trading_open cfg)
  order_id ← require (failure "ORDER_REJECTED: cTrader returned no orderId") answer
  modify (record_order env job_id draft order_id)
  pure order_id
