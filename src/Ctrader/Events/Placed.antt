-- ===== src/Ctrader/Events/Placed.antt =====
-- The start of a job moves jobs onward only.
use ctreader.Prelude.{
  ℕ, suc, ◌≡◌, refl, true, Option, none, some, List, [], ◌∷◌, arith, Exec, update_many, modify,
  ◌==◌,
}
use ctreader.Config.{Config}
use ctreader.Schema.{TradeJob}
use ctreader.Safety.{assert_trading_open}
use ctreader.TradeJobs.Onward.{IsOnwardRow, IsOnward-update_many}
use ctreader.Ctrader.{
  OrderDraft, initial_label, WorkerEnv, World, update_runtime, update_jobs, report,
}
use ctreader.Ctrader.Onward.{IsOn, IsOn-refl, IsOn-trans, Moves, Moves-cases, Moves-same, open_jobs}
use ctreader.Ctrader.Orders.{
  in_db, place, record_order, is_unfilled, mark_submitted, OrderPlan, stop_draft,
}
use ctreader.Ctrader.Start.{
  BrokerFacts, place_orders, place_straddle, place_initial_legs, upsert_initial_leg,
}
use ctreader.Ctrader.Legs.{update_legs}
use ctreader.Ctrader.Reversal.{push_order, submitted_leg}

submitted_on :
    (job_id now : ℕ) (a : TradeJob)
    → is_unfilled job_id a ≡ true
    → IsOnwardRow a (mark_submitted now a)
unfolding is_unfilled mark_submitted
submitted_on job_id now a h = record { same_id = refl; same_user = refl; further = ground arith }

pub open-Moves : (cfg : Config) → Moves (in_db (assert_trading_open cfg))
unfolding in_db
open-Moves cfg = Moves-same (in_db (assert_trading_open cfg)) λ w. open_jobs cfg w.db

record_jobs :
    (env : WorkerEnv) (job_id : ℕ) (draft : OrderDraft) (order_id : ℕ) (w : World)
    → (record_order env job_id draft order_id w).db.jobs
      ≡ update_many (is_unfilled job_id) (mark_submitted env.now) w.db.jobs
unfolding record_order update_jobs report
record_jobs env job_id draft order_id w = ground arith

record-Moves :
    (env : WorkerEnv) (job_id : ℕ) (draft : OrderDraft) (order_id : ℕ)
    → Moves (modify (record_order env job_id draft order_id))
record-Moves env job_id draft order_id w = rw (record_jobs env job_id draft order_id w) (
    IsOnward-update_many (is_unfilled job_id) (mark_submitted env.now) w.db.jobs
      (submitted_on job_id env.now))

-- After a step onward, what moves onward from there.
pub then-Moves : {A : Type 0} (m : Exec World A) (w v : World) → IsOn w v → Moves m → IsOn w (m v).1
then-Moves m w v on h = IsOn-trans w v (m v).1 on (h v)

pub place-Moves :
    (cfg : Config) (env : WorkerEnv) (job_id : ℕ) (draft : OrderDraft) (answer : Option ℕ)
    → Moves (place cfg env job_id draft answer)
unfolding place
place-Moves cfg env job_id draft none w =
    Moves-cases (in_db (assert_trading_open cfg)) w (open-Moves cfg) (λ a v e on. rw e on)
      (λ x v e on. rw e on)
place-Moves cfg env job_id draft (some order_id) w =
    Moves-cases (in_db (assert_trading_open cfg)) w (open-Moves cfg)
      (λ a v e on. rw e (
        then-Moves (modify (record_order env job_id draft order_id)) w v on
          (record-Moves env job_id draft order_id)))
      (λ x v e on. rw e on)

pub place_orders-Moves :
    (cfg : Config) (env : WorkerEnv) (answers : ℕ → Option ℕ) (job_id k : ℕ)
    (drafts : List OrderDraft)
    → Moves (place_orders cfg env answers job_id k drafts)
unfolding place_orders
place_orders-Moves cfg env answers job_id k [] w = IsOn-refl w
place_orders-Moves cfg env answers job_id k (p ∷ plans) w =
    Moves-cases (place cfg env job_id p (answers k)) w (place-Moves cfg env job_id p (answers k))
      (λ order_id v e on.
        let u : World = update_runtime job_id (push_order order_id) v in
        let pushed : IsOn w u = unfold update_runtime in on in
        rw e (
          then-Moves (place_orders cfg env answers job_id (suc k) plans) w u pushed
            (place_orders-Moves cfg env answers job_id (suc k) plans)))
      (λ x v e on. rw e on)

pub place_straddle-Moves :
    (cfg : Config) (env : WorkerEnv) (answers : ℕ → Option ℕ) (job_id : ℕ)
    (buying selling : OrderDraft)
    → Moves (place_straddle cfg env answers job_id buying selling)
unfolding place_straddle update_runtime
place_straddle-Moves cfg env answers job_id buying selling w =
    Moves-cases (place cfg env job_id buying (answers 0)) w
      (place-Moves cfg env job_id buying (answers 0))
      (λ bought v e on.
        let u : World =
          update_runtime job_id (λ r. record (push_order bought r) { buy_order_id = some bought })
            v in
        rw e (
          Moves-cases (place cfg env job_id selling (answers 1)) u
            (place-Moves cfg env job_id selling (answers 1))
            (λ sold t f on'. rw f (IsOn-trans w u t on on'))
            (λ x t f on'. rw f (IsOn-trans w u t on on'))))
      (λ x v e on. rw e on)

upsert-Moves :
    (env : WorkerEnv) (facts : BrokerFacts) (job_id : ℕ) (p : OrderPlan)
    → Moves (upsert_initial_leg env facts job_id p)
unfolding upsert_initial_leg update_legs
upsert-Moves env facts job_id p =
    Moves-same (upsert_initial_leg env facts job_id p) λ w. ground arith

pub place_legs-Moves :
    (cfg : Config) (env : WorkerEnv) (facts : BrokerFacts) (answers : ℕ → Option ℕ) (job_id : ℕ)
    (until : Option ℕ) (k : ℕ) (plans : List OrderPlan)
    → Moves (place_initial_legs cfg env facts answers job_id until k plans)
unfolding place_initial_legs
place_legs-Moves cfg env facts answers job_id until k [] w = IsOn-refl w
place_legs-Moves cfg env facts answers job_id until k (p ∷ plans) w =
    Moves-cases (upsert_initial_leg env facts job_id p) w (upsert-Moves env facts job_id p)
      (λ leg_id v e on. rw e (
        Moves-cases
          (place cfg env job_id (stop_draft facts.entry until initial_label p) (answers k)) v
          (place-Moves cfg env job_id (stop_draft facts.entry until initial_label p) (answers k))
          (λ order_id t f on'.
            let u : World =
              update_legs (λ l. l.id == leg_id) (submitted_leg order_id)
                (update_runtime job_id (push_order order_id) t) in
            let there : IsOn w u = unfold update_runtime update_legs in IsOn-trans w v t on on' in
            rw f (
              then-Moves (place_initial_legs cfg env facts answers job_id until (suc k) plans) w u
                there (place_legs-Moves cfg env facts answers job_id until (suc k) plans)))
          (λ x t f on'. rw f (IsOn-trans w v t on on'))))
      (λ x v e on. rw e on)
