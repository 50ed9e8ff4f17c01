-- ===== src/Ctrader/Start.antt =====
-- `start` of src/ctrader/ctrader-execution.service.ts: what the worker does with a job that it has
-- claimed, once the broker has answered its questions.
pub mod Sent
pub mod Limits
pub mod Run
use ctreader.Prelude.{
  ℕ, zero, suc, ◌==◌, String, Bool, true, false, not, ◌&&◌, ◌||◌, Option, none, some, List, [], ◌∷◌,
  ◌++◌, keep, map, length, find_first, or_else, if◌then◌else◌, Exec, Result, ok, err, pure, throw,
  throw_if, lift, gets, modify, require, skip, run_checks, Exception, failure, ◌>>=◌, ◌>>◌,
}
use ctreader.Config.{Config}
use ctreader.Schema.{
  Db, TradeJob, TradeJobLeg, JobTerms, ExecutionMode, market, straddle, multi, news_reversal,
  TradeDirection, buy, sell, initial, planned, split_total,
}
use ctreader.NewsReversal.{allocate_news_reversal_volume, VolumeAllocation}
use ctreader.Safety.{assert_trading_open}
use ctreader.TradeJobs.State.{
  TradeJobStatus, ExecutionPhase, scheduled, armed, filled, partially_filled, managed, includes,
}
use ctreader.Ctrader.{
  WorkerEnv, World, Runtime, recovered_key, closed_reconcile_key, update_jobs, update_runtime,
  OrderDraft, OrderLabel, side_label, level_label, initial_label, report, no_details,
}
use ctreader.Ctrader.Orders.{
  in_db, OrderPlan, stop_draft, market_draft, place, multi_orders, straddle_order, side_orders,
  assert_position_limit, assert_estimated_risk, assert_margin,
}
use ctreader.Ctrader.Orders.Volume.{Symbol, job_volume}
use ctreader.Ctrader.Legs.{BrokerPosition, update_legs, is_initial, reconcile_news_reversal}
use ctreader.Ctrader.Messages.{mark_closed, is_news}
use ctreader.Ctrader.Stop.{is_filled_job}
use ctreader.Ctrader.Reversal.{goes, opposite, towards, push_order, submitted_leg, targets_of}

-- What the broker and the rows beside the job say: the permissions, the orders and positions of the
-- job that are open already, with the order that belongs to each side, the other positions on the
-- account, the symbol, the estimate of the margin, and the rounded price so many points off the
-- quote on a side.
pub record BrokerFacts : Type 0 where
  pub account_enabled : Bool
  pub live : Bool
  pub user_real_trading : Bool
  pub full_access : Bool
  pub hedged : Bool
  pub orders : List ℕ
  pub positions : List BrokerPosition
  pub buy_order : Option ℕ
  pub sell_order : Option ℕ
  pub unmanaged : ℕ
  pub symbol : Symbol
  pub risk_limit_enabled : Bool
  pub exceeds_risk : ℕ → ℕ → Bool
  pub margin : Option (ℕ × ℕ)
  pub used_margin : ℕ
  pub entry : TradeDirection → ℕ → ℕ

-- The limits of the environment: positions of a user, and the buffer on a margin in per cent.
pub record ExecutionLimits : Type 0 where
  pub max_open_positions_per_user : ℕ
  pub margin_buffer_percent : ℕ

abbrev pub needs_hedge : ExecutionMode → Bool
needs_hedge multi = true
needs_hedge news_reversal = true
needs_hedge _ = false

abbrev pub is_empty {ℓ} : {A : Type ℓ} → List A → Bool
is_empty [] = true
is_empty (x ∷ xs) = false

-- `runtimes.set`.
unfoldable pub remember : Runtime → World → World
remember r w = record w { runtimes = r ∷ keep (λ o. not (o.job_id == r.job_id)) w.runtimes }

unfoldable pub new_runtime : TradeJob → Symbol → Runtime
new_runtime job symbol = record {
  job_id = job.id;
  execution_mode = job.terms.execution_mode;
  buy_order_id = none;
  sell_order_id = none;
  order_ids = [];
  open_positions = [];
  filled = false;
  halt_handled = false;
  market_order = none;
  sync_pending = false;
  lot_size = some symbol.lot_size;
}

unfoldable pub recovered_runtime : BrokerFacts → TradeJob → Runtime
unfolding new_runtime
recovered_runtime facts job = record (new_runtime job facts.symbol) {
  lot_size = none;
  buy_order_id = facts.buy_order;
  sell_order_id = facts.sell_order;
  order_ids = facts.orders;
  open_positions = map (λ (p : BrokerPosition). p.position_id) facts.positions;
  filled = not (is_empty facts.positions);
}

-- Orders or positions of the job are at the broker: the worker had stopped before.
unfoldable pub recover : WorkerEnv → BrokerFacts → TradeJob → World → World
unfolding remember recovered_runtime reconcile_news_reversal report
recover env facts job w =
    let remembered : World = remember (recovered_runtime facts job) w in
    let reconciled : World =
      if is_news job.terms.execution_mode
      then reconcile_news_reversal job.id facts.orders facts.positions remembered
      else remembered in
    report env (recovered_key job.id env.now) job.id ExecutionPhase.error
      (no_details "Recovered orders and positions after restart") reconciled

-- Nothing of a filled job is at the broker any more.
unfoldable pub close_reconciled : WorkerEnv → TradeJob → World → World
unfolding update_jobs mark_closed report
close_reconciled env job w =
    report env (closed_reconcile_key job.id) job.id ExecutionPhase.closed
      (no_details "No open cTrader position remains; job closed during reconciliation")
      (update_jobs (is_filled_job job.id) (mark_closed env.now) w)

-- The orders one after the other; the broker's answer is given by the order's number.
unfoldable pub place_orders :
    Config → WorkerEnv → (ℕ → Option ℕ) → ℕ → ℕ → List OrderDraft → Exec World (Unit {0})
unfolding place update_runtime push_order
place_orders cfg env answers job_id k [] = skip
place_orders cfg env answers job_id k (draft ∷ drafts) = do
  order_id ← place cfg env job_id draft (answers k)
  modify (update_runtime job_id (push_order order_id))
  place_orders cfg env answers job_id (suc k) drafts

unfoldable pub place_straddle :
    Config → WorkerEnv → (ℕ → Option ℕ) → ℕ → (buying selling : OrderDraft) → Exec World (Unit {0})
unfolding place update_runtime push_order
place_straddle cfg env answers job_id buying selling = do
  bought ← place cfg env job_id buying (answers 0)
  modify (update_runtime job_id λ r. record (push_order bought r) { buy_order_id = some bought })
  sold ← place cfg env job_id selling (answers 1)
  modify (update_runtime job_id λ r. record (push_order sold r) { sell_order_id = some sold })

unfoldable pub is_initial_leg : ℕ → OrderPlan → TradeJobLeg → Bool
is_initial_leg job_id p leg =
    leg.job_id == job_id
    && is_initial leg
    && goes p.side leg
    && leg.target_number == p.label
    && leg.revision == 0

-- An initial leg with the volume and the prices of its order.
unfoldable pub priced_leg : WorkerEnv → BrokerFacts → OrderPlan → TradeJobLeg → TradeJobLeg
priced_leg env facts p leg =
    let price = facts.entry p.side p.distance_points in
    record leg {
      planned_volume = env.lots p.volume facts.symbol.lot_size;
      entry_price = some price;
      stop_loss_price = some (towards env (opposite p.side) price p.stop_loss_points);
      take_profit_price = some (towards env p.side price p.take_profit_points);
      status = planned;
    }

unfoldable pub blank_leg : ℕ → ℕ → OrderPlan → TradeJobLeg
blank_leg id job_id p = record {
  id = id;
  job_id = job_id;
  revision = 0;
  leg_number = p.label;
  direction = p.side;
  purpose = initial;
  target_number = p.label;
  planned_volume = 0;
  filled_volume = none;
  entry_price = none;
  stop_loss_price = none;
  take_profit_price = none;
  broker_order_id = none;
  broker_position_id = none;
  status = planned;
  closed_at = none;
}

unfoldable pub upsert_initial_leg : WorkerEnv → BrokerFacts → ℕ → OrderPlan → Exec World ℕ
unfolding is_initial_leg priced_leg blank_leg update_legs
upsert_initial_leg env facts job_id p w = elim (find_first (is_initial_leg job_id p) w.db.legs) [
  | some leg ↦ (ok leg.id, update_legs (λ l. l.id == leg.id) (priced_leg env facts p) w)
  | none ↦ (
    ok w.next_id,
    record w {
      db = record w.db { legs = priced_leg env facts p (blank_leg w.next_id job_id p) ∷ w.db.legs };
      next_id = suc w.next_id;
    },
  )
]

unfoldable pub place_initial_legs :
    Config
    → WorkerEnv
    → BrokerFacts
    → (ℕ → Option ℕ)
    → ℕ
    → Option ℕ
    → ℕ
    → List OrderPlan
    → Exec World (Unit {0})
unfolding stop_draft upsert_initial_leg place update_runtime push_order update_legs submitted_leg
place_initial_legs cfg env facts answers job_id until k [] = skip
place_initial_legs cfg env facts answers job_id until k (p ∷ plans) = do
  leg_id ← upsert_initial_leg env facts job_id p
  order_id ← place cfg env job_id (stop_draft facts.entry until initial_label p) (answers k)
  modify (update_runtime job_id (push_order order_id))
  modify (update_legs (λ l. l.id == leg_id) (submitted_leg order_id))
  place_initial_legs cfg env facts answers job_id until (suc k) plans

-- The legs of both sides, the buying side first.
unfoldable pub news_orders : TradeJob → VolumeAllocation → List OrderPlan
unfolding side_orders
news_orders job allocation =
    side_orders job.terms buy 0 allocation.legs (targets_of job)
    ++ side_orders job.terms sell 0 allocation.legs (targets_of job)

-- Until when the orders of a NEWS_REVERSAL job stand.
abbrev pub managed_until : TradeJob → Option ℕ
managed_until job = some (or_else job.management_expires_at job.expires_at)

unfoldable pub straddle_draft : BrokerFacts → TradeJob → ℕ → TradeDirection → OrderDraft
unfolding stop_draft straddle_order
straddle_draft facts job volume side =
    stop_draft facts.entry (some job.expires_at) (λ d _. side_label d)
      (straddle_order job.terms volume side)

-- The orders of MULTI, from the first level on.
unfoldable pub multi_drafts : BrokerFacts → TradeJob → ℕ → List OrderDraft
unfolding stop_draft multi_orders
multi_drafts facts job volume =
    map (stop_draft facts.entry (some job.expires_at) level_label)
      (multi_orders job.terms volume 0 (or_else job.terms.multi_trades_per_side 2))

unfoldable pub due_at_market : OrderDraft → Runtime → Runtime
due_at_market draft r = record r { market_order = some draft }

-- The order of a MARKET job waits for its time.
unfoldable pub place_job :
    Config → WorkerEnv → BrokerFacts → (ℕ → Option ℕ) → TradeJob → ℕ → Exec World (Unit {0})
unfolding place_straddle place_orders place_initial_legs news_orders update_runtime straddle_draft
    multi_drafts market_draft due_at_market
place_job cfg env facts answers job volume = elim job.terms.execution_mode [
  | news_reversal ↦ do
    allocation ← lift (
        allocate_news_reversal_volume volume facts.symbol.step_volume
          (or_else job.terms.volume_allocation_mode split_total) 3)
    place_initial_legs cfg env facts answers job.id (managed_until job) 0
        (news_orders job allocation)
  | multi ↦ place_orders cfg env answers job.id 0 (multi_drafts facts job volume)
  | straddle ↦
      place_straddle cfg env answers job.id (straddle_draft facts job volume buy)
        (straddle_draft facts job volume sell)
  | market ↦ modify (update_runtime job.id (due_at_market (market_draft job.terms volume)))
]

-- The job is new at the broker: its volume, the three preflight checks, then its orders.
unfoldable pub start_fresh :
    Config
    → ExecutionLimits
    → WorkerEnv
    → BrokerFacts
    → (ℕ → Option ℕ)
    → TradeJob
    → Exec World (Unit {0})
unfolding place_job assert_position_limit assert_estimated_risk assert_margin remember new_runtime
start_fresh cfg limits env facts answers job = do
  volume ← lift (job_volume facts.symbol job.terms)
  assert_position_limit limits.max_open_positions_per_user facts.unmanaged job
  if facts.risk_limit_enabled
      then assert_estimated_risk facts.exceeds_risk facts.symbol.same_currency job.terms volume
      else skip
  assert_margin limits.margin_buffer_percent job.terms facts.margin facts.symbol.balance
      facts.used_margin
  modify (remember (new_runtime job facts.symbol))
  place_job cfg env facts answers job volume

-- The permissions of the account, the system and the user.
abbrev pub start_checks : Config → BrokerFacts → TradeJob → List (Bool × Exception)
start_checks cfg facts job =
    (not facts.account_enabled, failure "cTrader account is disabled")
    ∷ (
      facts.live && (not cfg.allow_real_trading || not facts.user_real_trading),
      failure "cTrader LIVE execution requires system and user real-trading permission",
    )
    ∷ (not facts.full_access, failure "cTrader account does not grant full trading access")
    ∷ (
      needs_hedge job.terms.execution_mode && not facts.hedged,
      failure "cTrader mode requires a HEDGED account",
    )
    ∷ []

-- What `start` does when the checks have passed.
unfoldable pub dispatch :
    Config
    → ExecutionLimits
    → WorkerEnv
    → BrokerFacts
    → (ℕ → Option ℕ)
    → TradeJob
    → Exec World (Unit {0})
unfolding recover close_reconciled start_fresh
dispatch cfg limits env facts answers job =
    if not (is_empty facts.orders && is_empty facts.positions)
    then modify (recover env facts job)
    else if includes (filled ∷ partially_filled ∷ managed ∷ []) job.status
    then modify (close_reconciled env job)
    else if includes (scheduled ∷ armed ∷ []) job.status
    then start_fresh cfg limits env facts answers job
    else throw (failure "No cTrader orders found while recovering job")

unfoldable pub start :
    Config
    → ExecutionLimits
    → WorkerEnv
    → BrokerFacts
    → (ℕ → Option ℕ)
    → TradeJob
    → Exec World (Unit {0})
unfolding in_db dispatch
start cfg limits env facts answers job = do
  in_db (assert_trading_open cfg)
  run_checks (start_checks cfg facts job)
  dispatch cfg limits env facts answers job
