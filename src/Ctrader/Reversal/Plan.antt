-- ===== src/Ctrader/Reversal/Plan.antt =====
-- The legs of a reversal, how they are stored and how their orders are placed: the loop of
-- `syncNewsReversalProtection` of src/ctrader/ctrader-execution.service.ts.
use ctreader.Prelude.{
  ℕ, zero, suc, ◌==◌, Bool, not, ◌&&◌, Option, none, some, List, [], ◌∷◌, find_first, Exec, ok,
  modify, skip, ◌>>=◌, ◌>>◌,
}
use ctreader.Config.{Config}
use ctreader.Schema.{TradeJobLeg, TradeDirection, buy, sell, reversal, planned, submitted}
use ctreader.Ctrader.{WorkerEnv, World, Runtime, OrderDraft, reversal_label, update_runtime}
use ctreader.Ctrader.Orders.{place}
use ctreader.Ctrader.Legs.{update_legs, is_initial}

abbrev pub side_tag : TradeDirection → ℕ
side_tag buy = 0
side_tag sell = 1

abbrev pub goes : TradeDirection → TradeJobLeg → Bool
goes direction leg = side_tag leg.direction == side_tag direction

abbrev pub opposite : TradeDirection → TradeDirection
opposite buy = sell
opposite sell = buy

-- The entry of a list at an index, or the last one.
abbrev pub at_most : List ℕ → ℕ → ℕ → ℕ
at_most [] last index = last
at_most (x ∷ xs) last zero = x
at_most (x ∷ xs) last (suc index) = at_most xs x index

-- One leg of the reversal: the source leg, its number, revision, side, target and prices.
pub record ReversalPlan : Type 0 where
  pub source : TradeJobLeg
  pub target_number : ℕ
  pub revision : ℕ
  pub side : TradeDirection
  pub entry_price : ℕ
  pub stop_loss_points : ℕ
  pub take_profit_points : ℕ
  pub stop_loss_price : ℕ
  pub take_profit_price : ℕ

abbrev pub towards : WorkerEnv → TradeDirection → ℕ → ℕ → ℕ
towards env buy price points = env.above price points
towards env sell price points = env.below price points

unfoldable pub plan_leg :
    WorkerEnv → ℕ → TradeDirection → ℕ → ℕ → ℕ → ℕ → TradeJobLeg → ReversalPlan
plan_leg env revision side entry_price stop_points target_points index source = record {
  source = source;
  target_number = suc index;
  revision = revision;
  side = side;
  entry_price = entry_price;
  stop_loss_points = stop_points;
  take_profit_points = target_points;
  stop_loss_price = towards env (opposite side) entry_price stop_points;
  take_profit_price = towards env side entry_price target_points;
}

-- The reversal of the legs that are still open, in the order of their targets.
unfoldable pub plan_legs :
    WorkerEnv → ℕ → TradeDirection → ℕ → ℕ → List ℕ → ℕ → List TradeJobLeg → List ReversalPlan
unfolding plan_leg
plan_legs env revision side entry_price stop_points targets index [] = []
plan_legs env revision side entry_price stop_points targets index (source ∷ sources) =
    plan_leg env revision side entry_price stop_points (at_most targets 0 index) index source
    ∷ plan_legs env revision side entry_price stop_points targets (suc index) sources

-- The unique key of a leg: its job, purpose, direction, target and revision.
unfoldable pub is_planned_as : ℕ → ReversalPlan → TradeJobLeg → Bool
is_planned_as job_id p leg =
    leg.job_id == job_id
    && not (is_initial leg)
    && goes p.side leg
    && leg.target_number == p.target_number
    && leg.revision == p.revision

unfoldable pub replanned_leg : ReversalPlan → TradeJobLeg → TradeJobLeg
replanned_leg p leg = record leg {
  planned_volume = p.source.planned_volume;
  entry_price = some p.entry_price;
  stop_loss_price = some p.stop_loss_price;
  take_profit_price = some p.take_profit_price;
  status = planned;
  broker_order_id = none;
  broker_position_id = none;
}

unfoldable pub planned_leg : ℕ → ℕ → ReversalPlan → TradeJobLeg
planned_leg id job_id p = record {
  id = id;
  job_id = job_id;
  revision = p.revision;
  leg_number = p.target_number;
  direction = p.side;
  purpose = reversal;
  target_number = p.target_number;
  planned_volume = p.source.planned_volume;
  filled_volume = none;
  entry_price = some p.entry_price;
  stop_loss_price = some p.stop_loss_price;
  take_profit_price = some p.take_profit_price;
  broker_order_id = none;
  broker_position_id = none;
  status = planned;
  closed_at = none;
}

-- The upsert of a leg, which answers its id.
unfoldable pub upsert_leg : ℕ → ReversalPlan → Exec World ℕ
unfolding is_planned_as replanned_leg planned_leg update_legs
upsert_leg job_id p w = elim (find_first (is_planned_as job_id p) w.db.legs) [
  | some leg ↦ (ok leg.id, update_legs (λ l. l.id == leg.id) (replanned_leg p) w)
  | none ↦ (
    ok w.next_id,
    record w {
      db = record w.db { legs = planned_leg w.next_id job_id p ∷ w.db.legs };
      next_id = suc w.next_id;
    },
  )
]

unfoldable pub push_order : ℕ → Runtime → Runtime
push_order order_id r = record r { order_ids = order_id ∷ r.order_ids }

unfoldable pub submitted_leg : ℕ → TradeJobLeg → TradeJobLeg
submitted_leg order_id leg = record leg { broker_order_id = some order_id; status = submitted }

-- The payload of a leg's order, for a lot of a size and a job that is managed until a time.
unfoldable pub reversal_draft : WorkerEnv → ℕ → Option ℕ → ReversalPlan → OrderDraft
reversal_draft env lot until p = record {
  side = p.side;
  volume = env.units p.source.planned_volume lot;
  stop_price = some p.entry_price;
  stop_loss_points = p.stop_loss_points;
  take_profit_points = p.take_profit_points;
  expires_at = until;
  label = reversal_label p.revision p.side p.target_number;
}

-- One round of the loop that places the reversal.
unfoldable pub place_leg :
    Config → WorkerEnv → (lot : ℕ) → Option ℕ → ℕ → Option ℕ → ReversalPlan → Exec World (Unit {0})
unfolding reversal_draft upsert_leg place update_runtime push_order update_legs submitted_leg
place_leg cfg env lot until job_id answer p = do
  leg_id ← upsert_leg job_id p
  order_id ← place cfg env job_id (reversal_draft env lot until p) answer
  modify (update_runtime job_id (push_order order_id))
  modify (update_legs (λ l. l.id == leg_id) (submitted_leg order_id))

-- The broker's answer to each order in turn is given by the order's number.
unfoldable pub place_legs :
    Config
    → WorkerEnv
    → (lot : ℕ) → Option ℕ
    → ℕ
    → (ℕ → Option ℕ)
    → List ReversalPlan
    → Exec World (Unit {0})
unfolding place_leg
place_legs cfg env lot until job_id answers [] = skip
place_legs cfg env lot until job_id answers (p ∷ plans) = do
  place_leg cfg env lot until job_id (answers p.target_number) p
  place_legs cfg env lot until job_id answers plans
