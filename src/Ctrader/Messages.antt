-- ===== src/Ctrader/Messages.antt =====
-- `onMessage` of src/ctrader/ctrader-execution.service.ts: the broker's messages on a job.
use ctreader.Prelude.{
  ℕ, ◌==◌, Bool, true, false, not, ◌&&◌, Option, none, some, [], ◌∷◌, leb, keep, or_else,
  find_first, holds_id, length, if◌then◌else◌,
}
use ctreader.Schema.{TradeJob, ExecutionMode, straddle, news_reversal}
use ctreader.TradeJobs.State.{
  ExecutionPhase, armed, submitted, partially_filled, filled, managed, closed, includes,
}
use ctreader.Ctrader.{
  WorkerEnv, World, Runtime, error_key, closed_key, filled_key, update_jobs, report, no_details,
  runtime_of, update_runtime, schedule_protection_sync, finish, cancel,
}
use ctreader.Ctrader.Legs.{Execution, record_news_reversal_fill, record_news_reversal_close}

-- A message about the account and the label of a job: an error, a position that the broker closed,
-- or an order that it filled.
pub data Message : Type 0 where
  error_message : Message
  position_closed order_filled : Execution → Message

abbrev pub is_news : ExecutionMode → Bool
is_news news_reversal = true
is_news _ = false

abbrev pub is_straddle : ExecutionMode → Bool
is_straddle straddle = true
is_straddle _ = false

-- The position is taken out of the runtime's set, or added to it.
unfoldable pub drop_position : Option ℕ → Runtime → Runtime
drop_position none r = r
drop_position (some id) r = record r { open_positions = keep (λ p. not (p == id)) r.open_positions }

unfoldable pub add_position : Option ℕ → Runtime → Runtime
unfolding drop_position
add_position none r = r
add_position (some id) r = record (drop_position (some id) r) {
  open_positions = id ∷ (drop_position (some id) r).open_positions;
}

abbrev pub is_closable : ℕ → TradeJob → Bool
is_closable job_id job =
    job.id == job_id && includes (filled ∷ partially_filled ∷ managed ∷ closed ∷ []) job.status

unfoldable pub mark_closed : ℕ → TradeJob → TradeJob
mark_closed now job = record job {
  updated_at = now;
  status = closed;
  times = record job.times { closed_at = some now };
}

-- `jobExpiry`.
unfoldable pub job_expiry : ℕ → ℕ → World → ℕ
job_expiry now job_id w = elim (find_first (λ (j : TradeJob). j.id == job_id) w.db.jobs) [
  | none ↦ now
  | some job ↦ job.expires_at
]

abbrev pub is_flat : Option Runtime → Bool
is_flat none = false
is_flat (some r) = length r.open_positions == 0

-- A position was closed: the job is closed too once none is open and its time is over.
unfoldable pub close_if_over : WorkerEnv → ℕ → World → World
unfolding job_expiry runtime_of update_jobs mark_closed finish
close_if_over env job_id w =
    if is_flat (runtime_of job_id w) && leb (job_expiry env.now job_id w) env.now
    then finish job_id (update_jobs (is_closable job_id) (mark_closed env.now) w)
    else w

unfoldable pub on_position_closed : WorkerEnv → Runtime → Execution → World → World
unfolding update_runtime drop_position schedule_protection_sync record_news_reversal_close report
    close_if_over
on_position_closed env r x w =
    let dropped : World = update_runtime r.job_id (drop_position x.position_id) w in
    let recorded : World =
      if is_news r.execution_mode
      then schedule_protection_sync r.job_id (record_news_reversal_close env r.job_id x dropped)
      else dropped in
    close_if_over env r.job_id (
      report env (closed_key r.job_id (or_else x.deal_id env.now)) r.job_id ExecutionPhase.closed
        (no_details "cTrader position closed by broker protection") recorded)

abbrev pub is_fillable : ℕ → TradeJob → Bool
is_fillable job_id job =
    job.id == job_id && includes (armed ∷ submitted ∷ partially_filled ∷ []) job.status

unfoldable pub mark_filled : ℕ → TradeJob → TradeJob
mark_filled now job = record job {
  updated_at = now;
  status = filled;
  times = record job.times { filled_at = some now };
}

abbrev pub is_order : Option ℕ → Option ℕ → Bool
is_order (some a) b = holds_id b a
is_order none b = false

-- The other order of a STRADDLE, whose first order was filled.
abbrev pub sibling : Runtime → Execution → Option ℕ
sibling r x = if is_order x.order_id r.buy_order_id then r.sell_order_id else r.buy_order_id

unfoldable pub cancel_sibling : Runtime → Execution → World → World
unfolding cancel
cancel_sibling r x w =
    if not r.filled && is_straddle r.execution_mode
    then elim (sibling r x) [ none ↦ w | some order_id ↦ cancel order_id w ]
    else w

-- A fill in the runtime, the job and its reports.
unfoldable pub fill_reported : WorkerEnv → Runtime → Execution → World → World
unfolding update_runtime update_jobs mark_filled report add_position
fill_reported env r x w = update_runtime r.job_id (add_position x.position_id) (
    report env (filled_key r.job_id (or_else x.deal_id env.now)) r.job_id ExecutionPhase.filled
      (record (no_details "cTrader order filled") {
        order_ticket = x.order_id;
        deal_ticket = x.deal_id;
        filled_volume = x.filled_volume;
      })
      (update_jobs (is_fillable r.job_id) (mark_filled env.now)
        (update_runtime r.job_id (λ r. record r { filled = true }) w)))

unfoldable pub on_order_filled : WorkerEnv → Runtime → Execution → World → World
unfolding fill_reported schedule_protection_sync record_news_reversal_fill cancel_sibling
on_order_filled env r x w =
    let v : World = fill_reported env r x w in
    cancel_sibling r x (
      if is_news r.execution_mode
      then schedule_protection_sync r.job_id (record_news_reversal_fill env.now r.job_id x v)
      else v)

unfoldable pub heed_message : WorkerEnv → Runtime → Message → World → World
unfolding report on_position_closed on_order_filled
heed_message env r error_message w =
    report env (error_key r.job_id env.now) r.job_id ExecutionPhase.error
      (no_details "CTRADER_ERROR: Request failed") w
heed_message env r (position_closed x) w = on_position_closed env r x w
heed_message env r (order_filled x) w = on_order_filled env r x w

-- `onMessage`; the message was found to be about the job's account and orders.
unfoldable pub on_message : WorkerEnv → ℕ → Message → World → World
unfolding runtime_of heed_message
on_message env job_id message w = elim (runtime_of job_id w) [
  | none ↦ w
  | some r ↦ heed_message env r message w
]
