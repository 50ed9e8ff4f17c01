-- ===== src/Ctrader/Stop.antt =====
-- How jobs of the worker end before their time: `reject`, `expire`, `handleStartFailure`,
-- `enforceKillSwitch` and `enforceUserRequests` of src/ctrader/ctrader-execution.service.ts.
pub mod Halt
use ctreader.Prelude.{
  ℕ, ◌==◌, String, Bool, true, false, not, ◌&&◌, ◌||◌, Option, none, some, List, [], ◌∷◌, leb, keep,
  map, contains, find_first, is_some, length, if◌then◌else◌, Result, ok, err, Exec,
}
use ctreader.Config.{Config}
use ctreader.Schema.{Db, TradeJob, TradeJobLeg, completed, NewsReversalState}
use ctreader.Safety.{status, SafetyStatus}
use ctreader.TradeJobs.State.{
  TradeJobStatus, ExecutionPhase, filled, partially_filled, managed, rejected, cancelled, expired,
  closed, includes,
}
use ctreader.Ctrader.{
  WorkerEnv, World, Runtime, Request, close_position, rejected_key, expired_key, kill_switch_key,
  user_close_key, user_cancel_key, update_jobs, report, no_details, runtime_of, update_runtime,
  finish, cancel_all,
}
use ctreader.Ctrader.Lease.{retry_later, tick_jobs}
use ctreader.Ctrader.Orders.{is_unfilled}
use ctreader.Ctrader.Legs.{BrokerPosition, cancel_legs, has_leg_status, is_initial, legs_of}
use ctreader.Ctrader.Messages.{is_news, mark_closed}
use ctreader.Schema.{submitted}

abbrev pub orders_of : Option Runtime → List ℕ
orders_of none = []
orders_of (some r) = r.order_ids

unfoldable pub mark_rejected : ℕ → TradeJob → TradeJob
mark_rejected now job = record job { status = rejected; updated_at = now }

unfoldable pub reject : WorkerEnv → ℕ → String → World → World
unfolding runtime_of cancel_all update_jobs is_unfilled mark_rejected report finish
reject env job_id message w = finish job_id (
    report env (rejected_key job_id env.now) job_id ExecutionPhase.rejected (no_details message) (
      update_jobs (is_unfilled job_id) (mark_rejected env.now)
        (cancel_all (orders_of (runtime_of job_id w)) w)))

-- `handleStartFailure`, by whether the failure may pass.
unfoldable pub handle_start_failure : WorkerEnv → ℕ → Bool → String → World → World
unfolding reject retry_later
handle_start_failure env job_id transient message w =
    if transient then retry_later env job_id w else reject env job_id message w

unfoldable pub mark_expired : ℕ → TradeJob → TradeJob
mark_expired now job = record job {
  updated_at = now;
  status = expired;
  times = record job.times { cancelled_at = some now };
}

abbrev pub is_filled_job : ℕ → TradeJob → Bool
is_filled_job job_id job =
    job.id == job_id && includes (filled ∷ partially_filled ∷ managed ∷ []) job.status

-- What `expire` does with a job of another mode, or of one that was not filled.
unfoldable pub expire_pending : WorkerEnv → Runtime → World → World
unfolding cancel_all update_jobs is_unfilled mark_expired mark_closed report finish
expire_pending env r w =
    let asked : World = cancel_all r.order_ids w in
    if not r.filled
    then finish r.job_id (
        report env (expired_key r.job_id) r.job_id ExecutionPhase.cancelled
          (no_details "cTrader pending window expired")
          (update_jobs (is_unfilled r.job_id) (mark_expired env.now) asked))
    else if length r.open_positions == 0
    then finish r.job_id (update_jobs (is_filled_job r.job_id) (mark_closed env.now) asked)
    else asked

-- `expire`: a NEWS_REVERSAL job that was filled only loses its initial orders.
unfoldable pub expire : WorkerEnv → ℕ → World → World
unfolding runtime_of cancel_legs expire_pending
expire env job_id w = elim (runtime_of job_id w) [
  | none ↦ w
  | some r ↦
      if is_news r.execution_mode && r.filled
      then cancel_legs env job_id
          (keep (λ l. is_initial l && has_leg_status submitted l) (legs_of job_id w)) w
      else expire_pending env r w
]

unfoldable pub mark_halted : ℕ → TradeJob → TradeJob
mark_halted now job = record job {
  updated_at = now;
  status = cancelled;
  times = record job.times { cancelled_at = some now };
  lease_owner = none;
  lease_expires_at = none;
}

unfoldable pub halted_runtime : Runtime → Runtime
halted_runtime r = record r { halt_handled = true; market_order = none; order_ids = [] }

abbrev pub halt_message : Bool → String
halt_message true =
    "Kill switch cancelled remaining entries; protected open positions were left open"
halt_message false = "Kill switch cancelled pending execution"

-- One round of the loop of `enforceKillSwitch`.
unfoldable pub halt_runtime : WorkerEnv → Runtime → World → World
unfolding cancel_all update_runtime halted_runtime report update_jobs is_unfilled mark_halted finish
halt_runtime env r w =
    if r.halt_handled
    then w
    else let stopped : World =
        report env (kill_switch_key r.job_id) r.job_id ExecutionPhase.cancelled
          (no_details (halt_message r.filled))
          (cancel_all r.order_ids (update_runtime r.job_id halted_runtime w)) in
      if r.filled
      then stopped
      else finish r.job_id (update_jobs (is_unfilled r.job_id) (mark_halted env.now) stopped)

unfoldable pub halt_runtimes : WorkerEnv → List Runtime → World → World
unfolding halt_runtime
halt_runtimes env [] w = w
halt_runtimes env (r ∷ runtimes) w = halt_runtimes env runtimes (halt_runtime env r w)

-- What follows from the answer of the switch.
unfoldable pub heed_status : WorkerEnv → World → Result SafetyStatus × Db → World
unfolding halt_runtimes
heed_status env w (ok s, db) =
    if s.halted then halt_runtimes env w.runtimes (record w { db = db }) else record w { db = db }
heed_status env w (err x, db) = record w { db = db }

-- `enforceKillSwitch`. Reading the switch makes its row if there is none.
unfoldable pub enforce_kill_switch : Config → WorkerEnv → World → World
unfolding status heed_status
enforce_kill_switch cfg env w = heed_status env w (status cfg w.db)

-- The positions of a job are closed at the broker; one without a volume is passed over.
unfoldable pub close_positions : List BrokerPosition → World → World
close_positions [] w = w
close_positions (p ∷ positions) w = close_positions positions (
    if p.volume == 0 then w else record w { sent = close_position p.position_id p.volume ∷ w.sent })

unfoldable pub user_closed : WorkerEnv → Runtime → TradeJob → TradeJob
user_closed env r job = record job {
  updated_at = env.now;
  status = closed;
  times = record job.times { closed_at = some env.now };
  close_requested_at = none;
  cancel_requested_at = none;
  lease_owner = none;
  lease_expires_at = none;
  news_reversal_state =
      if is_news r.execution_mode then some completed else job.news_reversal_state;
}

unfoldable pub without_orders : Runtime → Runtime
without_orders r = record r { order_ids = [] }

-- The user asked to close: `positions` are those of the job that the broker shows.
unfoldable pub close_for_user : WorkerEnv → List BrokerPosition → Runtime → World → World
unfolding cancel_all update_runtime without_orders close_positions update_jobs user_closed report
    finish
close_for_user env positions r w = finish r.job_id (
    report env (user_close_key r.job_id) r.job_id ExecutionPhase.closed
      (no_details "User closed positions and cancelled pending orders")
      (update_jobs (λ job. job.id == r.job_id) (user_closed env r)
        (close_positions positions
          (update_runtime r.job_id without_orders (cancel_all r.order_ids w)))))

unfoldable pub user_cancelled : WorkerEnv → Bool → TradeJob → TradeJob
user_cancelled env flat job =
    if flat
    then record job {
      updated_at = env.now;
      status = cancelled;
      times = record job.times { cancelled_at = some env.now };
      cancel_requested_at = none;
      lease_owner = none;
      lease_expires_at = none;
    }
    else record job { cancel_requested_at = none; updated_at = env.now }

abbrev pub cancel_message : Bool → String
cancel_message true = "User cancelled pending job"
cancel_message false = "User cancelled pending orders; protected positions remain open"

unfoldable pub cancel_for_user : WorkerEnv → Runtime → World → World
unfolding cancel_all update_runtime without_orders update_jobs user_cancelled report finish
cancel_for_user env r w =
    let flat = length r.open_positions == 0 in
    let told : World =
      report env (user_cancel_key r.job_id env.now) r.job_id ExecutionPhase.cancelled
        (no_details (cancel_message flat))
        (update_jobs (λ job. job.id == r.job_id) (user_cancelled env flat)
          (update_runtime r.job_id without_orders (cancel_all r.order_ids w))) in
    if flat then finish r.job_id told else told

-- One round of the loop of `enforceUserRequests`, on a job as it was read.
unfoldable pub serve_request : WorkerEnv → (ℕ → List BrokerPosition) → TradeJob → World → World
unfolding runtime_of close_for_user cancel_for_user
serve_request env positions job w = elim (runtime_of job.id w) [
  | none ↦ w
  | some r ↦
      if is_some job.close_requested_at
      then close_for_user env (positions job.id) r w
      else if is_some job.cancel_requested_at
      then cancel_for_user env r w
      else w
]

unfoldable pub serve_requests :
    WorkerEnv → (ℕ → List BrokerPosition) → List TradeJob → World → World
unfolding serve_request
serve_requests env positions [] w = w
serve_requests env positions (job ∷ jobs) w =
    serve_requests env positions jobs (serve_request env positions job w)

abbrev pub has_request : World → TradeJob → Bool
has_request w job =
    contains (map (λ (r : Runtime). r.job_id) w.runtimes) job.id
    && (is_some job.cancel_requested_at || is_some job.close_requested_at)

-- `enforceUserRequests`.
unfoldable pub enforce_user_requests : WorkerEnv → (ℕ → List BrokerPosition) → World → World
unfolding serve_requests
enforce_user_requests env positions w =
    serve_requests env positions (keep (has_request w) w.db.jobs) w

-- `tick`: the requests of users are served, and jobs are taken.
unfoldable pub tick : WorkerEnv → (ℕ → List BrokerPosition) → World → World
unfolding enforce_user_requests tick_jobs
tick env positions w = tick_jobs env (enforce_user_requests env positions w)
