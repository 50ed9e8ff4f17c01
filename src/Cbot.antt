-- ===== src/Cbot.antt =====
-- src/cbot/cbot.service.ts: what a cTrader cBot asks of the backend: its user's entitlement, the
-- jobs it is to hold, and the reports of what became of them.
pub mod Poll
pub mod Reports
pub mod History
pub mod Expiry
pub mod Delivery
pub mod Pairing
pub mod Claims
use Prim.Native.String as Text
use ctreader.Prelude.{
  ℕ, String, Bool, true, false, ◌&&◌, ◌||◌, not, Option, none, some, List, [], ◌∷◌, ◌==◌, or_else,
  is_some, if◌then◌else◌, Exec, not_found, conflict, pure, gets, modify, require, throw_if, skip,
  transaction, ◌>>=◌, ◌>>◌, find_first, update_many,
}
use ctreader.Config.{Config}
use ctreader.Schema.{
  Db, User, TradeJob, ExecutionReport, ReportSource, ExecutionVenue, StrategyPosition,
  StrategyPositionState, Subscription, SubscriptionStatus, Entitlement, SystemControl, mt5_agent,
  cbot_instance, cbot, execution, probe_open, closed_timeout,
}
use ctreader.Safety.{read_control}
use ctreader.Subscriptions.{current_for_user, open_entitlement}
use ctreader.TradeJobs.State.{TradeJobStatus, ExecutionPhase, status_for_phase, can_transition}
use ctreader.TradeJobs.Report.{SubmitExecutionReportDto, ReportReply, move_if, report_row}

pub record Access : Type 0 where
  pub enforcement_enabled : Bool
  pub subscription : Option Subscription
  pub accept_new_jobs : Bool
  pub manage_existing_positions : Bool
  pub trading_halted : Bool
  pub halt_reason : Option String

-- `entitlement`. The subscription stands for its status, plan, period and permissions.
unfoldable pub entitlement : Config → ℕ → ℕ → Exec Db Access
entitlement cfg now user_id = do
  subscription ← current_for_user now user_id
  control ← read_control
  pure (record {
    enforcement_enabled = cfg.subscriptions_enforced;
    subscription = subscription;
    accept_new_jobs =
        (not cfg.subscriptions_enforced || is_some (open_entitlement subscription))
        && not control.trading_halted;
    manage_existing_positions = true;
    trading_halted = control.trading_halted;
    halt_reason = control.reason;
  })

abbrev pub is_cbot_venue : ExecutionVenue → Bool
is_cbot_venue cbot = true
is_cbot_venue _ = false

abbrev pub held_by_instance : ℕ → TradeJob → Bool
held_by_instance instance_id job = elim job.cbot_instance_id [
  | none ↦ false
  | some id ↦ id == instance_id && is_cbot_venue job.execution_venue
]

abbrev pub from_instance : ℕ → ReportSource → Bool
from_instance instance_id (cbot_instance id) = id == instance_id
from_instance instance_id _ = false

-- `requestedStatus && canTransition(job.status, requestedStatus) ? requestedStatus : undefined`.
unfoldable pub next_status : TradeJobStatus → Option TradeJobStatus → Option TradeJobStatus
next_status current none = none
next_status current (some next) = if can_transition current next then some next else none

abbrev pub is_rejection : ExecutionPhase → Bool
is_rejection ExecutionPhase.preflight_rejected = true
is_rejection ExecutionPhase.rejected = true
is_rejection _ = false

abbrev pub is_probe_open : StrategyPositionState → Bool
is_probe_open probe_open = true
is_probe_open _ = false

-- The strategy's position that the job opens as its probe, if it does.
abbrev pub probe_position : TradeJob → Option ℕ
probe_position job =
    if job.settings_snapshot.is_probe_entry && job.settings_snapshot.is_probe_leg
    then job.settings_snapshot.strategy_position_id
    else none

pub close_probe : ℕ → String → StrategyPosition → StrategyPosition
close_probe at reason position = record position {
  state = closed_timeout;
  closed_at = some at;
  close_reason = some reason;
}

-- The name of a phase of rejection.
abbrev pub phase_text : ExecutionPhase → String
phase_text ExecutionPhase.preflight_rejected = "PREFLIGHT_REJECTED"
phase_text _ = "REJECTED"

abbrev pub rejection_reason : SubmitExecutionReportDto → String
rejection_reason dto =
    Text.◌++◌ "cBot rejected probe: " (or_else dto.details.message (phase_text dto.phase))

-- A rejected probe order closes the position that waits for it.
pub release_probe : TradeJob → SubmitExecutionReportDto → Db → Db
unfolding close_probe
release_probe job dto db = elim (probe_position job) [
  | none ↦ db
  | some id ↦
      if is_rejection dto.phase
      then record db {
        positions =
            update_many (λ (p : StrategyPosition). p.id == id && is_probe_open p.state)
              (close_probe dto.occurred_at (rejection_reason dto)) db.positions;
      }
      else db
]

pub store_cbot_report : ℕ → ℕ → ℕ → TradeJob → SubmitExecutionReportDto → Db → Db
unfolding move_if report_row next_status
store_cbot_report now id instance_id job dto db =
    let moved =
      move_if now (next_status job.status (status_for_phase dto.phase)) dto.occurred_at job.id db in
    record moved {
      reports = report_row id job.id (cbot_instance instance_id) dto ∷ moved.reports;
      audits =
          record {
            user_id = job.user_id;
            actor_type = "CBOT";
            actor_id = instance_id;
            action = execution dto.phase;
            entity_id = job.id;
          }
          ∷ moved.audits;
    }

pub repeat_cbot_report : ℕ → ℕ → ExecutionReport → Exec Db ReportReply
repeat_cbot_report instance_id job_id existing = do
  throw_if (not (existing.job_id == job_id && from_instance instance_id existing.source))
      (conflict "Report key is already used")
  pure (record { duplicate = true; report_id = existing.id; job_status = none })

-- A report that comes too late for its transition is stored all the same, and moves nothing.
pub first_cbot_report : ℕ → ℕ → ℕ → TradeJob → SubmitExecutionReportDto → Exec Db ReportReply
unfolding store_cbot_report release_probe next_status
first_cbot_report now id instance_id job dto = do
  reply ← transaction (do
    modify (store_cbot_report now id instance_id job dto)
    pure (record {
      duplicate = false;
      report_id = id;
      job_status = some (or_else (next_status job.status (status_for_phase dto.phase)) job.status);
    }))
  modify (release_probe job dto)
  pure reply

-- `report`. The message to Telegram is sent aside and changes nothing here.
unfoldable pub report : ℕ → ℕ → ℕ → ℕ → SubmitExecutionReportDto → Exec Db ReportReply
unfolding repeat_cbot_report first_cbot_report
report now id instance_id job_id dto = do
  found ←
      gets λ db.
        find_first (λ (j : TradeJob). j.id == job_id && held_by_instance instance_id j) db.jobs
  job ← require (not_found "cBot trade job not found") found
  known ← gets λ db. find_first (λ (r : ExecutionReport). r.report_key == dto.report_key) db.reports
  elim known [
    | some existing ↦ repeat_cbot_report instance_id job_id existing
    | none ↦ first_cbot_report now id instance_id job dto
  ]
