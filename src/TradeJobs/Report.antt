-- ===== src/TradeJobs/Report.antt =====
-- `submitReport` of src/trade-jobs/trade-jobs.service.ts: an MT5 agent's report of a phase of a job.
-- The time of the call and the id of the report's row are arguments.
pub mod Outcome
pub mod Repeat
use ctreader.Prelude.{
  ℕ, Bool, true, false, ◌&&◌, not, Option, none, some, List, [], ◌∷◌, ◌==◌, or_else, any,
  if◌then◌else◌, Exec, not_found, conflict, pure, gets, modify, require, throw_if, transaction,
  ◌>>=◌, ◌>>◌, find_first, update_many,
}
use ctreader.Schema.{
  Db, Agent, TradingAccount, TradeJob, JobTimes, ExecutionReport, ReportSource, ReportDetails,
  ExecutionVenue, mt5, mt5_agent, cbot_instance, execution,
}
use ctreader.TradeJobs.State.{
  TradeJobStatus, ExecutionPhase, status_for_phase, can_transition, synced, armed, submitted,
  filled, partially_filled, closed, cancelled,
}
use ctreader.TradeJobs.Cancel.{update_job}

-- src/trade-jobs/dto/submit-execution-report.dto.ts.
pub record SubmitExecutionReportDto : Type 0 where
  pub report_key : ℕ
  pub phase : ExecutionPhase
  pub occurred_at : ℕ
  pub details : ReportDetails

pub record ReportReply : Type 0 where
  pub duplicate : Bool
  pub report_id : ℕ
  pub job_status : Option TradeJobStatus

-- `timestampsForPhase`, over the times that the row has.
unfoldable pub timestamps_for_phase : TradeJobStatus → ℕ → JobTimes → JobTimes
timestamps_for_phase synced at times = record times { synced_at = some at }
timestamps_for_phase armed at times = record times { armed_at = some at }
timestamps_for_phase submitted at times = record times { submitted_at = some at }
timestamps_for_phase filled at times = record times { filled_at = some at }
timestamps_for_phase partially_filled at times = record times { filled_at = some at }
timestamps_for_phase closed at times = record times { closed_at = some at }
timestamps_for_phase cancelled at times = record times { cancelled_at = some at }
timestamps_for_phase _ at times = times

-- The row after a report that moves the job on.
unfoldable pub move_job : ℕ → TradeJobStatus → ℕ → TradeJob → TradeJob
unfolding timestamps_for_phase
move_job now next at job = record job {
  status = next;
  times = timestamps_for_phase next at (job.times);
  updated_at = now;
}

unfoldable pub move_if : ℕ → Option TradeJobStatus → ℕ → ℕ → Db → Db
unfolding move_job
move_if now none at id db = db
move_if now (some next) at id db = update_job id (move_job now next at) db

unfoldable pub report_row : ℕ → ℕ → ReportSource → SubmitExecutionReportDto → ExecutionReport
report_row id job_id source dto = record {
  id = id;
  job_id = job_id;
  source = source;
  report_key = dto.report_key;
  phase = dto.phase;
  occurred_at = dto.occurred_at;
  details = dto.details;
}

abbrev pub is_mt5_venue : ExecutionVenue → Bool
is_mt5_venue mt5 = true
is_mt5_venue _ = false

-- `job.account?.agentId === agent.id`.
abbrev pub held_by_agent : ℕ → Db → TradeJob → Bool
held_by_agent agent_id db job = elim job.account_id [
  | none ↦ false
  | some id ↦ any (λ (a : TradingAccount). a.id == id && a.agent_id == agent_id) db.accounts
]

abbrev pub from_agent : ℕ → ReportSource → Bool
from_agent agent_id (mt5_agent id) = id == agent_id
from_agent agent_id _ = false

-- `nextStatus && !canTransition(job.status, nextStatus)`.
abbrev pub is_invalid_move : TradeJobStatus → Option TradeJobStatus → Bool
is_invalid_move current none = false
is_invalid_move current (some next) = not (can_transition current next)

pub store_report : ℕ → ℕ → Agent → TradeJob → SubmitExecutionReportDto → Db → Db
unfolding move_if report_row
store_report now id agent job dto db =
    let moved = move_if now (status_for_phase dto.phase) dto.occurred_at job.id db in
    record moved {
      reports = report_row id job.id (mt5_agent agent.id) dto ∷ moved.reports;
      audits =
          record {
            user_id = job.user_id;
            actor_type = "MT5_AGENT";
            actor_id = agent.id;
            action = execution dto.phase;
            entity_id = job.id;
          }
          ∷ moved.audits;
    }

-- A key that is known: a duplicate if it is this agent's report on this job.
pub repeat_report : Agent → ℕ → ExecutionReport → Exec Db ReportReply
repeat_report agent job_id existing = do
  throw_if (not (existing.job_id == job_id && from_agent agent.id existing.source))
      (conflict "Report key is already used")
  pure (record { duplicate = true; report_id = existing.id; job_status = none })

pub first_report : ℕ → ℕ → Agent → TradeJob → SubmitExecutionReportDto → Exec Db ReportReply
unfolding store_report
first_report now id agent job dto = do
  throw_if (is_invalid_move job.status (status_for_phase dto.phase))
      (conflict "Invalid job transition")
  transaction (do
    modify (store_report now id agent job dto)
    pure (record {
      duplicate = false;
      report_id = id;
      job_status = some (or_else (status_for_phase dto.phase) job.status);
    }))

unfoldable pub submit_report : ℕ → ℕ → Agent → ℕ → SubmitExecutionReportDto → Exec Db ReportReply
unfolding repeat_report first_report
submit_report now id agent job_id dto = do
  found ← gets λ db. find_first (λ (j : TradeJob). j.id == job_id) db.jobs
  job ← require (not_found "Trade job not found") found
  held ← gets λ db. held_by_agent agent.id db job
  throw_if (not (is_mt5_venue job.execution_venue && held)) (not_found "Trade job not found")
  known ← gets λ db. find_first (λ (r : ExecutionReport). r.report_key == dto.report_key) db.reports
  elim known [
    | some existing ↦ repeat_report agent job_id existing
    | none ↦ first_report now id agent job dto
  ]
