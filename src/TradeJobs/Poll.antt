-- ===== src/TradeJobs/Poll.antt =====
-- `pollForAgent` of src/trade-jobs/trade-jobs.service.ts: the jobs that an MT5 agent is to hold, and
-- the cancellations of the last day. The clock is an argument; the horizon's text is parsed by the
-- library, and is a number or missing here.
pub mod Delivered
use ctreader.Prelude.{
  ℕ, ◌+◌, ◌*◌, ◌-◌, String, Bool, true, false, ◌&&◌, ◌||◌, not, Option, none, some, List, [], ◌∷◌,
  map, ◌==◌, ltb, leb, any, contains, keep, or_else, if◌then◌else◌, Exec, bad_request, pure, gets,
  modify, throw_if, ◌>>=◌, ◌>>◌, find_first, update_many, find_many,
}
use ctreader.Config.{Config}
use ctreader.Schema.{
  Db, Agent, TradingAccount, TradeJob, JobTerms, AccountEnvironment, UserSettings, real, demo,
}
use ctreader.TradeJobs.State.{
  TradeJobStatus, includes, same_status, scheduled, synced, armed, submitted, filled, cancelled,
}
use ctreader.TradeJobs.Report.{is_mt5_venue, held_by_agent}

pub record AgentJob : Type 0 where
  pub id : ℕ
  pub idempotency_key : ℕ
  pub account_id : Option ℕ
  pub account : Option TradingAccount
  pub terms : JobTerms
  pub execute_at : ℕ
  pub expires_at : ℕ
  pub version : ℕ

pub record Cancellation : Type 0 where
  pub id : ℕ
  pub version : ℕ
  pub cancelled_at : Option ℕ

pub record AgentPoll : Type 0 where
  pub server_time : ℕ
  pub cancellations : List Cancellation
  pub jobs : List AgentJob

-- The job's account, by its id.
abbrev pub account_of : Db → TradeJob → Option TradingAccount
account_of db job = elim job.account_id [
  | none ↦ none
  | some id ↦ find_first (λ (a : TradingAccount). a.id == id) db.accounts
]

unfoldable pub cancellation : TradeJob → Cancellation
cancellation job = record {
  id = job.id;
  version = job.version;
  cancelled_at = job.times.cancelled_at;
}

unfoldable pub agent_job : Db → TradeJob → AgentJob
agent_job db job = record {
  id = job.id;
  idempotency_key = job.idempotency_key;
  account_id = job.account_id;
  account = account_of db job;
  terms = job.terms;
  execute_at = job.execute_at;
  expires_at = job.expires_at;
  version = job.version;
}

abbrev pub agent_statuses : List TradeJobStatus
agent_statuses = scheduled ∷ synced ∷ armed ∷ submitted ∷ filled ∷ []

abbrev pub is_due_for : ℕ → Agent → ℕ → Db → TradeJob → Bool
is_due_for now agent horizon db job =
    held_by_agent agent.id db job
    && is_mt5_venue job.execution_venue
    && includes agent_statuses job.status
    && leb job.execute_at (now + horizon * 60000)
    && ltb now job.expires_at

-- Cancelled within the last 24 hours.
abbrev pub is_recently_cancelled : ℕ → Agent → Db → TradeJob → Bool
is_recently_cancelled now agent db job =
    held_by_agent agent.id db job
    && is_mt5_venue job.execution_venue
    && same_status job.status cancelled
    && leb now (job.updated_at + 86400000)

-- The newest first: the further in the past, the greater.
abbrev pub age : ℕ → TradeJob → ℕ
age now job = now - job.updated_at

abbrev pub is_real_environment : Option TradingAccount → Bool
is_real_environment none = false
is_real_environment (some a) = elim a.environment [ real ↦ true | _ ↦ false ]

abbrev pub has_real_enabled : ℕ → Db → Bool
has_real_enabled user_id db =
    any (λ (s : UserSettings). s.user_id == user_id && s.real_trading_enabled) db.settings

-- A job of a REAL account is handed out only where the system and the user allow real trading.
abbrev pub is_executable : Config → Db → TradeJob → Bool
is_executable cfg db job =
    not (is_real_environment (account_of db job))
    || (cfg.allow_real_trading && has_real_enabled job.user_id db)

unfoldable pub mark_agent_synced : ℕ → TradeJob → TradeJob
mark_agent_synced now job = record job {
  status = synced;
  times = record (job.times) { synced_at = some now };
  updated_at = now;
}

abbrev pub is_new_in : List TradeJob → TradeJob → Bool
is_new_in jobs job =
    contains (map (λ (j : TradeJob). j.id) (keep (λ j. same_status j.status scheduled) jobs)) job.id
    && same_status job.status scheduled

-- `parseHorizon`.
unfoldable pub parse_horizon : Option ℕ → Exec Db ℕ
parse_horizon none = pure 1440
parse_horizon (some n) = do
  throw_if (ltb n 1 || ltb 1440 n)
      (bad_request "horizonMinutes must be an integer between 1 and 1440")
  pure n

unfoldable pub due_jobs : Config → ℕ → Agent → ℕ → Db → List TradeJob
due_jobs cfg now agent horizon db =
    keep (is_executable cfg db)
      (find_many (is_due_for now agent horizon db) (λ (j : TradeJob). j.execute_at) 100 db.jobs)

unfoldable pub sync_due : ℕ → List TradeJob → Db → Db
unfolding mark_agent_synced
sync_due now jobs db = record db {
  jobs = update_many (is_new_in jobs) (mark_agent_synced now) db.jobs;
}

unfoldable pub poll_for_agent : Config → ℕ → Agent → Option ℕ → Exec Db AgentPoll
unfolding parse_horizon due_jobs sync_due agent_job cancellation
poll_for_agent cfg now agent horizon_input = do
  horizon ← parse_horizon horizon_input
  jobs ← gets (due_jobs cfg now agent horizon)
  gone ← gets λ db. find_many (is_recently_cancelled now agent db) (age now) 100 db.jobs
  modify (sync_due now jobs)
  rows ← gets λ db. map (agent_job db) jobs
  pure (record { server_time = now; cancellations = map cancellation gone; jobs = rows })
