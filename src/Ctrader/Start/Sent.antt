-- ===== src/Ctrader/Start/Sent.antt =====
-- How many orders on a side the parts of a start place.
use ctreader.Prelude.{
  ℕ, suc, ◌+◌, ◌≡◌, ◌∙◌, refl, sym, ap, Bool, true, false, Option, none, some, List, [], ◌∷◌, arith,
  ok, count, >>=-split, require, failure, pure, ◌>>=◌, modify, ◌==◌, if◌then◌else◌,
}
use ctreader.Config.{Config}
use ctreader.Schema.{TradeDirection, buy, sell}
use ctreader.Safety.{assert_trading_open}
use ctreader.Ctrader.{
  OrderDraft, initial_label, WorkerEnv, World, Request, new_order, cancel_order, close_position,
  update_runtime, update_jobs, report,
}
use ctreader.Ctrader.Legs.{update_legs}
use ctreader.Ctrader.Reversal.{push_order, submitted_leg}
use ctreader.Ctrader.Orders.{in_db, OrderPlan, stop_draft, place, record_order}
use ctreader.Ctrader.Start.{
  BrokerFacts, place_orders, place_straddle, upsert_initial_leg, place_initial_legs,
}

abbrev pub is_side : TradeDirection → TradeDirection → Bool
is_side buy buy = true
is_side sell sell = true
is_side _ _ = false

abbrev pub is_new_order : TradeDirection → Request → Bool
is_new_order side (new_order job_id order_id draft) = is_side side draft.side
is_new_order side (cancel_order order_id) = false
is_new_order side (close_position position_id volume) = false

-- The orders on a side that were sent to the broker.
abbrev pub orders_sent : TradeDirection → World → ℕ
orders_sent side w = count (is_new_order side) w.sent

-- One, if an order is on the side.
abbrev pub one_on : TradeDirection → OrderDraft → ℕ
one_on side draft = if is_side side draft.side then 1 else 0

abbrev pub drafts_on : TradeDirection → List OrderDraft → ℕ
drafts_on side drafts = count (λ (d : OrderDraft). is_side side d.side) drafts

opened_sent :
    (cfg : Config) (w u : World) (a : Unit {0})
    → in_db (assert_trading_open cfg) w ≡ (ok a, u)
    → u.sent ≡ w.sent
unfolding in_db
opened_sent cfg w u a h = ground arith

module _ (side : TradeDirection) (cfg : Config) (env : WorkerEnv) (job_id : ℕ) where
  recorded_sent :
      (draft : OrderDraft) (order_id : ℕ) (w : World)
      → orders_sent side (record_order env job_id draft order_id w)
        ≡ one_on side draft + orders_sent side w
  unfolding record_order update_jobs report count
  recorded_sent draft order_id w = ground arith

  answered_one :
      (draft : OrderDraft) (answer : Option ℕ) (u t : World) (order_id : ℕ)
      → (require (failure "ORDER_REJECTED: cTrader returned no orderId") answer >>= λ o.
            modify (record_order env job_id draft o) >>= λ _. pure o)
          u
        ≡ (ok order_id, t)
      → orders_sent side t ≡ one_on side draft + orders_sent side u
  answered_one draft none u t order_id h = absurd (ground arith)
  answered_one draft (some o) u t order_id h =
      let there : record_order env job_id draft o u ≡ t = ap (λ r. r.1) h in
      ap (orders_sent side) (sym there) ∙ recorded_sent draft o u

  placed_one :
      (draft : OrderDraft) (answer : Option ℕ) (w t : World) (order_id : ℕ)
      → place cfg env job_id draft answer w ≡ (ok order_id, t)
      → orders_sent side t ≡ one_on side draft + orders_sent side w
  unfolding place
  placed_one draft answer w t order_id h =
      >>=-split (in_db (assert_trading_open cfg)) _ w h λ a u e rest.
        answered_one draft answer u t order_id rest
        ∙ ap (λ sent. one_on side draft + count (is_new_order side) sent) (opened_sent cfg w u a e)

  pub placed_many :
      (answers : ℕ → Option ℕ) (k : ℕ) (drafts : List OrderDraft) (w t : World)
      → place_orders cfg env answers job_id k drafts w ≡ (ok tt, t)
      → orders_sent side t ≡ drafts_on side drafts + orders_sent side w
  unfolding place_orders count
  placed_many answers k [] w t h = omega (arith, ap (λ r. orders_sent side r.1) h)
  placed_many answers k (p ∷ drafts) w t h =
      >>=-split (place cfg env job_id p (answers k)) _ w h λ order_id u e rest.
        let v : World = update_runtime job_id (push_order order_id) u in
        let one = placed_one p (answers k) w u order_id e in
        let more = placed_many answers (suc k) drafts v t rest in
        let same : orders_sent side v ≡ orders_sent side u = unfold update_runtime in refl in
        omega (arith, one, more, same)

  pub placed_two :
      (answers : ℕ → Option ℕ) (buying selling : OrderDraft) (w t : World)
      → place_straddle cfg env answers job_id buying selling w ≡ (ok tt, t)
      → orders_sent side t ≡ one_on side buying + one_on side selling + orders_sent side w
  unfolding place_straddle update_runtime
  placed_two answers buying selling w t h =
      >>=-split (place cfg env job_id buying (answers 0)) _ w h λ bought u e rest.
        let v : World =
          update_runtime job_id (λ r. record (push_order bought r) { buy_order_id = some bought })
            u in
        >>=-split (place cfg env job_id selling (answers 1)) _ v rest λ sold x f last.
          let one = placed_one buying (answers 0) w u bought e in
          let two = placed_one selling (answers 1) v x sold f in
          let end : orders_sent side x ≡ orders_sent side t = ap (λ r. orders_sent side r.1) last in
          omega (arith, one, two, end)

leg_upserted :
    (env : WorkerEnv) (facts : BrokerFacts) (job_id : ℕ) (p : OrderPlan) (w : World)
    → (upsert_initial_leg env facts job_id p w).1.sent ≡ w.sent
unfolding upsert_initial_leg update_legs
leg_upserted env facts job_id p w = ground arith

module _ (side : TradeDirection) (cfg : Config) (env : WorkerEnv) (job_id : ℕ) where
  pub placed_legs :
      (facts : BrokerFacts) (answers : ℕ → Option ℕ) (until : Option ℕ) (k : ℕ)
      (plans : List OrderPlan) (w t : World)
      → place_initial_legs cfg env facts answers job_id until k plans w ≡ (ok tt, t)
      → orders_sent side t
        ≡ count (λ (p : OrderPlan). is_side side p.side) plans + orders_sent side w
  unfolding place_initial_legs stop_draft update_runtime update_legs count
  placed_legs facts answers until k [] w t h = omega (arith, ap (λ r. orders_sent side r.1) h)
  placed_legs facts answers until k (p ∷ plans) w t h =
      let draft = stop_draft facts.entry until initial_label p in
      >>=-split (upsert_initial_leg env facts job_id p) _ w h λ leg_id u e rest.
        >>=-split (place cfg env job_id draft (answers k)) _ u rest λ order_id x f last.
          let v : World =
            update_legs (λ l. l.id == leg_id) (submitted_leg order_id)
              (update_runtime job_id (push_order order_id) x) in
          let before : u.sent ≡ w.sent =
            sym (ap (λ r. r.1.sent) e) ∙ leg_upserted env facts job_id p w in
          let one = placed_one side cfg env job_id draft (answers k) u x order_id f in
          let more = placed_legs facts answers until (suc k) plans v t last in
          omega (arith, one, more, ap (count (is_new_order side)) before)
