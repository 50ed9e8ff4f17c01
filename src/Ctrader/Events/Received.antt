-- ===== src/Ctrader/Events/Received.antt =====
-- The broker's messages move jobs onward only.
use ctreader.Prelude.{
  ℕ, ◌≡◌, refl, Bool, true, false, inl, inr, ◌⊎◌, Option-cases, arith, update_many, or_else,
  holds_id, if◌then◌else◌, ◌==◌, ◌&&◌, find_first,
}
use ctreader.Schema.{TradeJob, TradeJobLeg, initial, reversal}
use ctreader.TradeJobs.Onward.{same_row, IsOnwardRow, IsOnward-update_many}
use ctreader.TradeJobs.State.{ExecutionPhase}
use ctreader.Ctrader.{
  closed_key, error_key, no_details, WorkerEnv, World, Runtime, update_runtime,
  schedule_protection_sync, update_jobs, report, runtime_of, forget, finish, cancel,
}
use ctreader.Ctrader.Onward.{IsOn, IsOn-refl, IsOn-trans, reported_jobs}
use ctreader.Ctrader.Legs.{
  Execution, update_legs, turn_job, activated, reversed, record_news_reversal_fill,
  record_news_reversal_close,
}
use ctreader.Ctrader.Messages.{
  is_news, drop_position, Message, error_message, position_closed, order_filled, on_message,
  on_position_closed, on_order_filled, fill_reported, heed_message, close_if_over, is_closable,
  mark_closed, is_fillable, mark_filled, cancel_sibling,
}

filled_on :
    (job_id now : ℕ) (a : TradeJob)
    → is_fillable job_id a ≡ true
    → IsOnwardRow a (mark_filled now a)
unfolding mark_filled
filled_on job_id now a h = record { same_id = refl; same_user = refl; further = ground arith }

closed_on :
    (job_id now : ℕ) (a : TradeJob)
    → is_closable job_id a ≡ true
    → IsOnwardRow a (mark_closed now a)
unfolding mark_closed
closed_on job_id now a h = record { same_id = refl; same_user = refl; further = ground arith }

close_over_cases :
    (env : WorkerEnv) (job_id : ℕ) (w : World)
    → ((close_if_over env job_id w).db.jobs ≡ w.db.jobs)
      ⊎ ((close_if_over env job_id w).db.jobs
          ≡ update_many (is_closable job_id) (mark_closed env.now) w.db.jobs)
unfolding close_if_over finish forget update_jobs
close_over_cases env job_id w = ground arith

over_moves : (env : WorkerEnv) (job_id : ℕ) (w : World) → IsOn w (close_if_over env job_id w)
over_moves env job_id w = elim (close_over_cases env job_id w) [
  | inl same ↦ rw same (IsOn-refl w)
  | inr moved ↦ rw moved (
      IsOnward-update_many (is_closable job_id) (mark_closed env.now) w.db.jobs
        (closed_on job_id env.now))
]

close_recorded :
    (env : WorkerEnv) (job_id : ℕ) (x : Execution) (w : World)
    → (record_news_reversal_close env job_id x w).db.jobs ≡ w.db.jobs
unfolding record_news_reversal_close update_legs
close_recorded env job_id x w = ground arith

-- The state in which `close_if_over` finds the jobs after a position was closed.
position_closed-IsOn :
    (env : WorkerEnv) (r : Runtime) (x : Execution) (w : World)
    → IsOn w (on_position_closed env r x w)
unfolding on_position_closed
position_closed-IsOn env r x w =
    let dropped : World = update_runtime r.job_id (drop_position x.position_id) w in
    let recorded : World =
      if is_news r.execution_mode
      then schedule_protection_sync r.job_id (record_news_reversal_close env r.job_id x dropped)
      else dropped in
    let told : World =
      report env (closed_key r.job_id (or_else x.deal_id env.now)) r.job_id ExecutionPhase.closed
        (no_details "cTrader position closed by broker protection") recorded in
    let same : told.db.jobs ≡ w.db.jobs =
      unfold report schedule_protection_sync update_runtime in
      ground (arith, close_recorded env r.job_id x dropped) in
    IsOn-trans w told (close_if_over env r.job_id told) (rw same (IsOn-refl w))
      (over_moves env r.job_id told)

turned-IsOn : (now job_id : ℕ) (leg : TradeJobLeg) (w : World) → IsOn w (turn_job now job_id leg w)
unfolding turn_job update_jobs
turned-IsOn now job_id leg w = elim (leg_cases leg) [
  | inl first ↦ rw first (
      IsOnward-update_many _ (activated now leg.direction) w.db.jobs
        λ a h. unfold activated in same_row a (activated now leg.direction a) refl refl refl)
  | inr turn ↦ rw turn (
      IsOnward-update_many _ (reversed now leg.direction) w.db.jobs
        λ a h. unfold reversed in same_row a (reversed now leg.direction a) refl refl refl)
]
  where
    leg_cases : (leg : TradeJobLeg) → (leg.purpose ≡ initial) ⊎ (leg.purpose ≡ reversal)
    leg_cases l = ground arith

fill_recorded :
    (now job_id : ℕ) (x : Execution) (w : World)
    → ((record_news_reversal_fill now job_id x w).db.jobs ≡ w.db.jobs)
      ⊎ ((leg : TradeJobLeg) × ((record_news_reversal_fill now job_id x w).db.jobs
            ≡ (turn_job now job_id leg w).db.jobs))
unfolding record_news_reversal_fill update_legs turn_job update_jobs
fill_recorded now job_id x w = elim (Option-cases x.order_id) [
  | inl missing ↦ inl (ground arith)
  | inr (order_id, there) ↦
      elim (Option-cases (
        find_first (λ (l : TradeJobLeg). l.job_id == job_id && holds_id l.broker_order_id order_id)
          w.db.legs)) [
            | inl unknown ↦ inl (ground arith)
            | inr (leg, found) ↦ inr (leg, ground arith)
          ]
]

fill-IsOn :
    (now job_id : ℕ) (x : Execution) (w : World) → IsOn w (record_news_reversal_fill now job_id x w)
fill-IsOn now job_id x w = elim (fill_recorded now job_id x w) [
  | inl same ↦ rw same (IsOn-refl w)
  | inr (leg, turned) ↦ rw turned (turned-IsOn now job_id leg w)
]

sibling_jobs :
    (r : Runtime) (x : Execution) (w : World) → (cancel_sibling r x w).db.jobs ≡ w.db.jobs
unfolding cancel_sibling cancel
sibling_jobs r x w = ground arith

news_fill-IsOn :
    (news : Bool) (now job_id : ℕ) (x : Execution) (w v : World)
    → IsOn w v
    → IsOn w (
        if news
        then schedule_protection_sync job_id (record_news_reversal_fill now job_id x v)
        else v)
unfolding schedule_protection_sync update_runtime
news_fill-IsOn true now job_id x w v on =
    IsOn-trans w v (record_news_reversal_fill now job_id x v) on (fill-IsOn now job_id x v)
news_fill-IsOn false now job_id x w v on = on

-- The jobs after the status and the report of a fill.
filled_jobs :
    (env : WorkerEnv) (r : Runtime) (x : Execution) (w : World) → IsOn w (fill_reported env r x w)
filled_jobs env r x w =
    let same : (fill_reported env r x w).db.jobs
        ≡ update_many (is_fillable r.job_id) (mark_filled env.now) w.db.jobs =
      unfold fill_reported update_jobs update_runtime report in ground arith in
    rw same (
      IsOnward-update_many (is_fillable r.job_id) (mark_filled env.now) w.db.jobs
        (filled_on r.job_id env.now))

order_filled-IsOn :
    (env : WorkerEnv) (r : Runtime) (x : Execution) (w : World) → IsOn w (on_order_filled env r x w)
unfolding on_order_filled
order_filled-IsOn env r x w =
    let v = fill_reported env r x w in
    rw
      (sibling_jobs r x (
        if is_news r.execution_mode
        then schedule_protection_sync r.job_id (record_news_reversal_fill env.now r.job_id x v)
        else v))
      (news_fill-IsOn (is_news r.execution_mode) env.now r.job_id x w v (filled_jobs env r x w))

heed-IsOn :
    (env : WorkerEnv) (r : Runtime) (message : Message) (w : World)
    → IsOn w (heed_message env r message w)
unfolding heed_message
heed-IsOn env r error_message w =
    rw
      (reported_jobs env (error_key r.job_id env.now) r.job_id ExecutionPhase.error
        (no_details "CTRADER_ERROR: Request failed") w)
      (IsOn-refl w)
heed-IsOn env r (position_closed x) w = position_closed-IsOn env r x w
heed-IsOn env r (order_filled x) w = order_filled-IsOn env r x w

message_cases :
    (env : WorkerEnv) (job_id : ℕ) (message : Message) (w : World)
    → (on_message env job_id message w ≡ w)
      ⊎ ((r : Runtime) × (on_message env job_id message w ≡ heed_message env r message w))
unfolding on_message
message_cases env job_id message w = elim (Option-cases (runtime_of job_id w)) [
  | inl missing ↦ inl (ground arith)
  | inr (r, found) ↦ inr (r, ground arith)
]

pub message-IsOn :
    (env : WorkerEnv) (job_id : ℕ) (message : Message) (w : World)
    → IsOn w (on_message env job_id message w)
message-IsOn env job_id message w = elim (message_cases env job_id message w) [
  | inl same ↦ rw same (IsOn-refl w)
  | inr (r, e) ↦ rw e (heed-IsOn env r message w)
]
