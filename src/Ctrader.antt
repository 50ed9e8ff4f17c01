-- ===== src/Ctrader.antt =====
-- src/ctrader/ctrader-execution.service.ts: the worker that executes jobs of the venue CTRADER on
-- the server. Its memory and the database are one state; a handler that cannot throw is a function
-- of it. The broker's answers, the clock and the worker's settings stand in `WorkerEnv`.
pub mod Lease
pub mod Orders
pub mod Messages
pub mod Stop
pub mod Start
pub mod Legs
pub mod Reversal
pub mod Onward
pub mod Events
pub mod Mock
use ctreader.Prelude.{
  ℕ, ◌+◌, suc, String, Bool, true, false, not, ◌&&◌, Option, none, some, List, [], ◌∷◌, ◌==◌, keep,
  find_first, update_many, if◌then◌else◌, Exec, ok, err,
}
use ctreader.Schema.{
  Db, TradeJob, ExecutionReport, ReportDetails, ReportSource, ctrader_open_api, ExecutionMode,
  TradeDirection,
}
use ctreader.TradeJobs.State.{
  TradeJobStatus, ExecutionPhase, armed, submitted, partially_filled, filled, managed,
}

-- The texts of the report keys, each for a job, with what else stands in them.
pub data ReportKey : Type 0 where
  armed_key closed_reconcile_key kill_switch_key expired_key user_close_key : ℕ → ReportKey
  recovered_key submitted_key error_key closed_key filled_key : ℕ → ℕ → ReportKey
  protection_error_key completed_key rejected_key : ℕ → ℕ → ReportKey
  user_cancel_key disconnect_key retry_key : ℕ → ℕ → ReportKey
  protection_key : ℕ → ℕ → ℕ → ReportKey

-- What the label of an order says behind the job's prefix: M, the side of a STRADDLE, the side and the
-- level of MULTI, the side and the number of an initial leg, or the revision, the side and the
-- number of a leg of the reversal.
pub data OrderLabel : Type 0 where
  market_label : OrderLabel
  side_label : TradeDirection → OrderLabel
  level_label initial_label : TradeDirection → ℕ → OrderLabel
  reversal_label : ℕ → TradeDirection → ℕ → OrderLabel

-- The payload of an order: a market order, or a stop order at a price; its stop loss and take profit
-- in points from where it is filled, and until when it stands, in time.
pub record OrderDraft : Type 0 where
  pub side : TradeDirection
  pub volume : ℕ
  pub stop_price : Option ℕ
  pub stop_loss_points : ℕ
  pub take_profit_points : ℕ
  pub expires_at : Option ℕ
  pub label : OrderLabel

-- What a worker asks the broker for.
pub data Request : Type 0 where
  new_order : (job_id order_id : ℕ) → OrderDraft → Request
  cancel_order : (order_id : ℕ) → Request
  close_position : (position_id volume : ℕ) → Request

-- One worker at one time: its id and the length of its leases, the clock, the number that stands
-- for the text of a key, which cancellations and closes the broker accepts, and the floating-point
-- arithmetic of prices and volumes: the rounded price so many points below or above another, and the
-- units of a volume in lots for a lot of a size, the lots of so many units; and the
-- size of a lot in the broker's details of a job's symbol.
pub record WorkerEnv : Type 0 where
  pub worker_id : ℕ
  pub lease_ms : ℕ
  pub now : ℕ
  pub text : ReportKey → ℕ
  pub cancels : ℕ → Bool
  pub closes : ℕ → Bool
  pub below : ℕ → ℕ → ℕ
  pub above : ℕ → ℕ → ℕ
  pub units : ℕ → ℕ → ℕ
  pub lots : ℕ → ℕ → ℕ
  pub symbol_lot : ℕ → Option ℕ

-- A connection that serves a job. Of its timers the one that places a market order, with its payload,
-- and the one that synchronises the protection of a NEWS_REVERSAL job are kept, and of its symbol's details the size of a lot, which is missing until they were asked for.
pub record Runtime : Type 0 where
  pub job_id : ℕ
  pub execution_mode : ExecutionMode
  pub buy_order_id : Option ℕ
  pub sell_order_id : Option ℕ
  pub order_ids : List ℕ
  pub open_positions : List ℕ
  pub filled : Bool
  pub halt_handled : Bool
  pub market_order : Option OrderDraft
  pub sync_pending : Bool
  pub lot_size : Option ℕ

-- The database, the worker's memory, the supply of ids for reports and legs, and what was sent to
-- the broker, the newest first.
pub record World : Type 0 where
  pub db : Db
  pub runtimes : List Runtime
  pub starting_jobs : List ℕ
  pub next_id : ℕ
  pub sent : List Request

-- `tradeJob.updateMany`.
unfoldable pub update_jobs : (TradeJob → Bool) → (TradeJob → TradeJob) → World → World
update_jobs p f w = record w { db = record w.db { jobs = update_many p f w.db.jobs } }

abbrev pub no_details : String → ReportDetails
no_details message = record {
  order_ticket = none;
  deal_ticket = none;
  retcode = none;
  message = some message;
  filled_volume = none;
  latency_ms = none;
}

unfoldable pub worker_row :
    WorkerEnv → ReportSource → ℕ → ReportKey → ℕ → ExecutionPhase → ReportDetails → ExecutionReport
worker_row env source id key job_id phase details = record {
  id = id;
  job_id = job_id;
  source = source;
  report_key = env.text key;
  phase = phase;
  occurred_at = env.now;
  details = details;
}

-- `report`: the upsert of a row by its key, which leaves a row that is there.
unfoldable pub report : WorkerEnv → ReportKey → ℕ → ExecutionPhase → ReportDetails → World → World
unfolding worker_row
report env key job_id phase details w =
    elim (find_first (λ (r : ExecutionReport). r.report_key == env.text key) w.db.reports) [
      | some r ↦ w
      | none ↦ record w {
        db = record w.db {
          reports =
              worker_row env ctrader_open_api w.next_id key job_id phase details ∷ w.db.reports;
        };
        next_id = suc w.next_id;
      }
    ]

unfoldable pub runtime_of : ℕ → World → Option Runtime
runtime_of job_id w = find_first (λ (r : Runtime). r.job_id == job_id) w.runtimes

-- `runtimes.delete`.
unfoldable pub forget : ℕ → World → World
forget job_id w = record w {
  runtimes = keep (λ (r : Runtime). not (r.job_id == job_id)) w.runtimes;
}

-- The runtime of a job is changed in place.
unfoldable pub update_runtime : ℕ → (Runtime → Runtime) → World → World
update_runtime job_id f w = record w {
  runtimes = update_many (λ (r : Runtime). r.job_id == job_id) f w.runtimes;
}

unfoldable pub awaiting_sync : Runtime → Runtime
awaiting_sync r = record r { sync_pending = true }

-- `scheduleProtectionSync`: the timer is set, anew if it was running.
unfoldable pub schedule_protection_sync : ℕ → World → World
unfolding update_runtime awaiting_sync
schedule_protection_sync job_id w = update_runtime job_id awaiting_sync w

-- `finish`: the connection is closed, and the job forgotten.
unfoldable pub finish : ℕ → World → World
finish job_id w = forget job_id w

-- `cancel`, with its failure ignored: the request is sent either way.
unfoldable pub cancel : ℕ → World → World
cancel order_id w = record w { sent = cancel_order order_id ∷ w.sent }

-- `for (const orderId of runtime.orderIds) await this.cancel(runtime, orderId)`.
unfoldable pub cancel_all : List ℕ → World → World
cancel_all [] w = w
cancel_all (order_id ∷ order_ids) w = cancel_all order_ids (cancel order_id w)

-- The statuses of a job that a worker holds, and of one that is not filled.
abbrev pub held_statuses : List TradeJobStatus
held_statuses = armed ∷ submitted ∷ filled ∷ partially_filled ∷ managed ∷ []

abbrev pub unfilled_statuses : List TradeJobStatus
unfilled_statuses = armed ∷ submitted ∷ []
