-- ===== src/Ctrader/Legs.antt =====
-- The legs of a NEWS_REVERSAL job in src/ctrader/ctrader-execution.service.ts: `recordNewsReversalFill`,
-- `recordNewsReversalClose`, `cancelLegs`, `closeLegPosition` and `reconcileNewsReversal`.
use ctreader.Prelude.{
  ℕ, Bool, true, false, not, ◌&&◌, ◌||◌, Option, none, some, List, [], ◌∷◌, ◌==◌, keep, find_first,
  update_many, is_some, holds_id, newer, if◌then◌else◌,
}
use ctreader.Schema.{
  TradeJob, TradeJobLeg, TradeDirection, buy, sell, initial, reversal, TradeJobLegStatus,
  NewsReversalState, initial_buy_active, initial_sell_active, reversal_active,
}
use ctreader.Ctrader.{
  WorkerEnv, World, Runtime, cancel_order, update_jobs, update_runtime, schedule_protection_sync,
}

-- The statuses of a leg are compared by their numbers.
abbrev pub leg_tag : TradeJobLegStatus → ℕ
leg_tag TradeJobLegStatus.planned = 0
leg_tag TradeJobLegStatus.submitted = 1
leg_tag TradeJobLegStatus.filled = 2
leg_tag TradeJobLegStatus.cancelled = 3
leg_tag TradeJobLegStatus.closed_tp = 4
leg_tag TradeJobLegStatus.closed_sl = 5
leg_tag TradeJobLegStatus.closed_manual = 6
leg_tag TradeJobLegStatus.rejected = 7

abbrev pub has_leg_status : TradeJobLegStatus → TradeJobLeg → Bool
has_leg_status status leg = leg_tag leg.status == leg_tag status

abbrev pub is_initial : TradeJobLeg → Bool
is_initial leg = elim leg.purpose [ initial ↦ true | reversal ↦ false ]

unfoldable pub update_legs : (TradeJobLeg → Bool) → (TradeJobLeg → TradeJobLeg) → World → World
update_legs p f w = record w { db = record w.db { legs = update_many p f w.db.legs } }

abbrev pub legs_of : ℕ → World → List TradeJobLeg
legs_of job_id w = keep (λ (l : TradeJobLeg). l.job_id == job_id) w.db.legs

-- What a message of the broker says of an order, its deal and its position; ids that are missing
-- or empty are `none`. Whether the deal's price is nearer to the take profit than to the stop is a
-- comparison of floating-point numbers, of which `nearer_tp` is the answer.
pub record Execution : Type 0 where
  pub order_id : Option ℕ
  pub deal_id : Option ℕ
  pub position_id : Option ℕ
  pub price : Option ℕ
  pub filled_volume : Option ℕ
  pub nearer_tp : Bool

unfoldable pub filled_leg : Execution → TradeJobLeg → TradeJobLeg
filled_leg x leg = record leg {
  status = TradeJobLegStatus.filled;
  broker_position_id = newer x.position_id leg.broker_position_id;
  filled_volume = some leg.planned_volume;
  entry_price = newer x.price leg.entry_price;
}

abbrev pub initial_state : TradeDirection → NewsReversalState
initial_state buy = initial_buy_active
initial_state sell = initial_sell_active

unfoldable pub activated : ℕ → TradeDirection → TradeJob → TradeJob
activated now direction job = record job {
  updated_at = now;
  active_direction = some direction;
  news_reversal_state = some (initial_state direction);
}

unfoldable pub reversed : ℕ → TradeDirection → TradeJob → TradeJob
reversed now direction job = record job {
  updated_at = now;
  reversal_count = 1;
  active_direction = some direction;
  news_reversal_state = some reversal_active;
}

-- The first fill of a leg decides the direction, the first one of a reversal turns it.
unfoldable pub turn_job : ℕ → ℕ → TradeJobLeg → World → World
unfolding activated reversed update_jobs
turn_job now job_id leg w = elim leg.purpose [
  | initial ↦
      update_jobs (λ job. job.id == job_id && not (is_some job.active_direction))
        (activated now leg.direction) w
  | reversal ↦
      update_jobs (λ job. job.id == job_id && job.reversal_count == 0) (reversed now leg.direction)
        w
]

-- `recordNewsReversalFill`.
unfoldable pub record_news_reversal_fill : ℕ → ℕ → Execution → World → World
unfolding filled_leg update_legs turn_job
record_news_reversal_fill now job_id x w = elim x.order_id [
  | none ↦ w
  | some order_id ↦
      elim (find_first
        (λ (l : TradeJobLeg). l.job_id == job_id && holds_id l.broker_order_id order_id)
        w.db.legs) [
          | none ↦ w
          | some leg ↦ turn_job now job_id leg (update_legs (λ l. l.id == leg.id) (filled_leg x) w)
        ]
]

unfoldable pub closed_leg : WorkerEnv → Bool → TradeJobLeg → TradeJobLeg
closed_leg env nearer_tp leg = record leg {
  status = if nearer_tp then TradeJobLegStatus.closed_tp else TradeJobLegStatus.closed_sl;
  closed_at = some env.now;
}

-- `recordNewsReversalClose`.
unfoldable pub record_news_reversal_close : WorkerEnv → ℕ → Execution → World → World
unfolding closed_leg update_legs
record_news_reversal_close env job_id x w = elim x.position_id [
  | none ↦ w
  | some position_id ↦
      elim (find_first
        (λ (l : TradeJobLeg). l.job_id == job_id && holds_id l.broker_position_id position_id)
        w.db.legs) [
          | none ↦ w
          | some leg ↦
              if has_leg_status TradeJobLegStatus.filled leg
              then update_legs (λ l. l.id == leg.id) (closed_leg env x.nearer_tp) w
              else w
        ]
]

unfoldable pub without : ℕ → Runtime → Runtime
without order_id r = record r { order_ids = keep (λ id. not (id == order_id)) r.order_ids }

-- One leg of `cancelLegs`: what the broker refuses to cancel may have filled, and is left as it is.
unfoldable pub cancel_leg : WorkerEnv → ℕ → TradeJobLeg → World → World
unfolding update_legs update_runtime without
cancel_leg env job_id leg w = elim leg.broker_order_id [
  | none ↦ w
  | some order_id ↦
      let asked : World = record w { sent = cancel_order order_id ∷ w.sent } in
      if env.cancels order_id
      then update_runtime job_id (without order_id) (
          update_legs (λ l. l.id == leg.id) (λ l. record l { status = TradeJobLegStatus.cancelled })
            asked)
      else asked
]

-- `cancelLegs`.
unfoldable pub cancel_legs : WorkerEnv → ℕ → List TradeJobLeg → World → World
unfolding cancel_leg
cancel_legs env job_id [] w = w
cancel_legs env job_id (leg ∷ legs) w = cancel_legs env job_id legs (cancel_leg env job_id leg w)

-- The order that the broker shows, and the position with the order that opened it.
pub record BrokerPosition : Type 0 where
  pub position_id : ℕ
  pub order_id : Option ℕ
  pub volume : ℕ

unfoldable pub reconcile_orders : ℕ → List ℕ → World → World
unfolding update_legs
reconcile_orders job_id [] w = w
reconcile_orders job_id (order_id ∷ orders) w = reconcile_orders job_id orders (
    update_legs (λ l. l.job_id == job_id && holds_id l.broker_order_id order_id)
      (λ l. record l { status = TradeJobLegStatus.submitted }) w)

abbrev pub same_ids : Option ℕ → Option ℕ → Bool
same_ids none b = false
same_ids (some a) b = holds_id b a

unfoldable pub reconcile_positions : ℕ → List BrokerPosition → World → World
unfolding update_legs
reconcile_positions job_id [] w = w
reconcile_positions job_id (p ∷ positions) w = reconcile_positions job_id positions (
    update_legs
      (λ l.
        l.job_id == job_id
        && (holds_id l.broker_position_id p.position_id || same_ids p.order_id l.broker_order_id))
      (λ l. record l { broker_position_id = some p.position_id; status = TradeJobLegStatus.filled })
      w)

-- `reconcileNewsReversal`, with the orders and positions of the job that the broker shows.
unfoldable pub reconcile_news_reversal : ℕ → List ℕ → List BrokerPosition → World → World
unfolding reconcile_orders reconcile_positions schedule_protection_sync
reconcile_news_reversal job_id orders positions w =
    schedule_protection_sync job_id
      (reconcile_positions job_id positions (reconcile_orders job_id orders w))
