-- ===== src/TradeJobs/Create.antt =====
-- `TradeJobsService.createForTelegramUser` of src/trade-jobs/trade-jobs.service.ts, with its calls
-- of the safety and subscription services. One reading of the clock serves the whole call; the ids
-- of the rows that it creates, and the random part of the key, are arguments. The mock prices of
-- a cTrader job are left out.
pub mod Checks
pub mod Trace
pub mod Rows
pub mod Safe
pub mod Errors
use ctreader.Prelude.{
  ℕ, ◌+◌, ◌*◌, ◌-◌, Bool, true, false, ◌&&◌, not, Option, none, some, List, ◌∷◌, ◌++◌, ◌==◌, ltb,
  leb, max, if◌then◌else◌, or_else, Exec, bad_request, not_found, forbidden, conflict, pure, throw,
  gets, modify, require, throw_if, run_checks, transaction, ◌>>=◌, ◌>>◌, find_first, count,
}
use ctreader.Config.{Config}
use ctreader.Schema.{
  Db, User, UserStatus, UserSettings, EconomicEvent, TradeJob, JobTerms, JobTimes, SettingsSnapshot,
  ExecutionMode, ExecutionVenue, NewsReversalState, MockExecutionOutcome, trade_job_created, active,
  suspended, market, straddle, multi, news_reversal, mt5, ctrader, cbot, waiting_initial_fill,
  buy_fill,
}
use ctreader.Safety.{assert_trading_open}
use ctreader.Subscriptions.{ensure_trial, assert_can_create_job}
use ctreader.TradeJobs.State.{TradeJobStatus, includes, scheduled, active_job_statuses}
use ctreader.TradeJobs.Dto.{CreateTradeJobDto}
use Checks.{
  Account, mt5_account, ctrader_account, cbot_instance, find_account, owner, is_real, is_fixed_lot,
  is_pending, account_checks, real_checks, mode_checks, validate_risk, is_telegram_id, big_int,
}

-- What a call takes from outside: the time, and the ids of the rows that it may create.
pub record CreateEnv : Type 0 where
  pub now : ℕ
  pub trial_id : ℕ
  pub job_id : ℕ
  pub random_key : ℕ

abbrev is_suspended : UserStatus → Bool
is_suspended active = false
is_suspended suspended = true

-- The user of a Telegram id with their settings.
unfoldable pub find_user : List ℕ → Exec Db (User × UserSettings)
find_user telegram_id = do
  throw_if (not (is_telegram_id telegram_id)) (bad_request "Invalid Telegram user id")
  found ← gets λ db. find_first (λ (u : User). u.telegram_id == big_int telegram_id) db.users
  user ← require (not_found "Telegram user not found") found
  found_settings ← gets λ db. find_first (λ (s : UserSettings). s.user_id == user.id) db.settings
  settings ← require (not_found "Telegram user not found") found_settings
  throw_if (is_suspended user.status) (forbidden "User is suspended")
  pure (user, settings)

unfoldable pub select_account : CreateTradeJobDto → User → Exec Db Account
select_account dto user = do
  found ← gets (find_account dto.execution_venue dto.account_id)
  account ← require (not_found "Trading account not found") found
  throw_if (not (owner account == user.id)) (not_found "Trading account not found")
  run_checks (account_checks dto account)
  pure account

abbrev lot_to_check : CreateTradeJobDto → Option ℕ
lot_to_check dto = if is_fixed_lot dto.risk_mode then dto.fixed_lot else none

unfoldable pub check_subscription :
    Config → CreateEnv → CreateTradeJobDto → User → Account → Exec Db (Unit {0})
check_subscription cfg env dto user account = do
  _ ← ensure_trial env.trial_id env.now user.id
  assert_can_create_job cfg env.now user.id dto.execution_mode (is_real account) (lot_to_check dto)

-- `Math.abs(a - b)` of two instants.
abbrev pub distance : ℕ → ℕ → ℕ
distance a b = (a - b) + (b - a)

event_time : ℕ → Option ℕ → Exec Db ℕ
event_time execute_at none = pure execute_at
event_time execute_at (some id) = do
  found ← gets λ db. find_first (λ (e : EconomicEvent). e.id == id) db.events
  event ← require (not_found "Economic event not found") found
  throw_if (ltb 1000 (distance event.scheduled_at execute_at))
      (bad_request "Execution time must match the selected economic event")
  pure event.scheduled_at

-- The time at which the job is to run: that of the economic event, if one is named.
unfoldable pub resolve_time : ℕ → CreateTradeJobDto → Exec Db ℕ
unfolding event_time
resolve_time now dto = do
  execute_at ← event_time dto.execute_at dto.economic_event_id
  throw_if (ltb execute_at (now + 20000))
      (bad_request "Execution time must be at least 20 seconds in the future")
  pure execute_at

abbrev pub is_active_of : ℕ → TradeJob → Bool
is_active_of user_id job = job.user_id == user_id && includes active_job_statuses job.status

unfoldable pub check_active_count : User → UserSettings → Exec Db (Unit {0})
check_active_count user settings = do
  active_count ← gets λ db. count (is_active_of user.id) db.jobs
  throw_if (leb settings.max_concurrent_jobs active_count)
      (conflict "Maximum number of concurrent news jobs reached")

abbrev is_news_reversal : ExecutionMode → Bool
is_news_reversal news_reversal = true
is_news_reversal _ = false

unfoldable pub job_terms : CreateTradeJobDto → UserSettings → JobTerms
job_terms dto settings = record {
  symbol = dto.symbol;
  direction = dto.direction;
  execution_mode = dto.execution_mode;
  risk_mode = dto.risk_mode;
  fixed_lot = dto.fixed_lot;
  risk_percent = dto.risk_percent;
  stop_loss_points = dto.stop_loss_points;
  take_profit_points = dto.take_profit_points;
  deviation_points = or_else dto.deviation_points settings.default_deviation_points;
  max_spread_points = or_else dto.max_spread_points settings.default_max_spread_points;
  arm_seconds = or_else dto.arm_seconds settings.default_arm_seconds;
  max_lateness_ms = or_else dto.max_lateness_ms settings.default_max_lateness_ms;
  entry_distance_points = or_else dto.entry_distance_points 100;
  pending_expiry_seconds = or_else dto.pending_expiry_seconds 30;
  multi_trades_per_side = dto.multi_trades_per_side;
  multi_next_step_points = dto.multi_next_step_points;
  multi_next_sl_points = dto.multi_next_sl_points;
  multi_next_tp_points = dto.multi_next_tp_points;
  volume_allocation_mode = dto.volume_allocation_mode;
  take_profit2_points = dto.take_profit2_points;
  take_profit3_points = dto.take_profit3_points;
  reversal_tp1_buffer_points = dto.reversal_tp1_buffer_points;
  reversal_tp2_buffer_points = dto.reversal_tp2_buffer_points;
  reversal_gap_points = dto.reversal_gap_points;
}

-- How long after its time a job may still be delivered.
unfoldable pub expiry : JobTerms → ℕ → ℕ
expiry terms execute_at =
    execute_at
    + (if is_pending terms.execution_mode
        then terms.pending_expiry_seconds * 1000
        else max terms.max_lateness_ms 1000)

protocol_version : ExecutionMode → ℕ
protocol_version news_reversal = 4
protocol_version multi = 3
protocol_version _ = 2

snapshot : Config → UserSettings → ExecutionMode → SettingsSnapshot
unfolding protocol_version
snapshot cfg settings mode = record {
  protocol_version = protocol_version mode;
  real_trading_system_enabled = cfg.allow_real_trading;
  real_trading_user_enabled = settings.real_trading_enabled;
  max_risk_percent = cfg.max_risk_percent;
  max_fixed_lot = cfg.max_fixed_lot;
  strategy_position_id = none;
  is_probe_entry = false;
  is_probe_leg = false;
}

abbrev mt5_id : Account → Option ℕ
mt5_id (mt5_account a) = some a.id
mt5_id _ = none

abbrev ctrader_id : Account → Option ℕ
ctrader_id (ctrader_account a) = some a.id
ctrader_id _ = none

abbrev cbot_id : Account → Option ℕ
cbot_id (cbot_instance c) = some c.id
cbot_id _ = none

abbrev venue_of : Account → ExecutionVenue
venue_of (mt5_account a) = mt5
venue_of (ctrader_account a) = ctrader
venue_of (cbot_instance c) = cbot

abbrev outcome_of : Account → Option MockExecutionOutcome
outcome_of (ctrader_account a) = some buy_fill
outcome_of _ = none

abbrev pub no_times : JobTimes
no_times = record {
  synced_at = none;
  armed_at = none;
  submitted_at = none;
  filled_at = none;
  closed_at = none;
  cancelled_at = none;
}

-- The row of a new job.
unfoldable pub new_job :
    Config → CreateEnv → CreateTradeJobDto → User → UserSettings → Account → ℕ → ℕ → TradeJob
unfolding job_terms expiry snapshot
new_job cfg env dto user settings account execute_at key = record {
  id = env.job_id;
  user_id = user.id;
  account_id = mt5_id account;
  ctrader_account_id = ctrader_id account;
  cbot_instance_id = cbot_id account;
  execution_venue = venue_of account;
  economic_event_id = dto.economic_event_id;
  idempotency_key = key;
  terms = job_terms dto settings;
  max_reversals = 1;
  reversal_count = 0;
  news_reversal_state =
      if is_news_reversal dto.execution_mode then some waiting_initial_fill else none;
  active_direction = none;
  management_expires_at =
      if is_news_reversal dto.execution_mode
      then some (execute_at + or_else dto.management_seconds 300 * 1000)
      else none;
  cancel_requested_at = none;
  close_requested_at = none;
  mock_outcome = outcome_of account;
  lease_owner = none;
  lease_expires_at = none;
  execute_at = execute_at;
  expires_at = expiry (job_terms dto settings) execute_at;
  status = scheduled;
  settings_snapshot = snapshot cfg settings dto.execution_mode;
  version = 1;
  updated_at = env.now;
  times = no_times;
}

store_job : TradeJob → ℕ → Db → Db
store_job job actor_id db = record db {
  jobs = job ∷ db.jobs;
  audits =
      record {
        user_id = job.user_id;
        actor_type = "ADMIN_API";
        actor_id = actor_id;
        action = trade_job_created;
        entity_id = job.id;
      }
      ∷ db.audits;
}

-- The job of the idempotency key if there is one, and else the new job.
unfoldable pub find_or_store : User → TradeJob → ℕ → Exec Db TradeJob
unfolding store_job
find_or_store user job actor_id = do
  existing ←
      gets λ db. find_first (λ (j : TradeJob). j.idempotency_key == job.idempotency_key) db.jobs
  elim existing [
    | some j ↦ (do
      throw_if (not (j.user_id == user.id)) (conflict "Idempotency key is already used")
      pure j)
    | none ↦ transaction (do modify (store_job job actor_id); pure job)
  ]

unfoldable pub create_for_telegram_user :
    Config → CreateEnv → List ℕ → CreateTradeJobDto → Exec Db TradeJob
create_for_telegram_user cfg env telegram_id dto = do
  assert_trading_open cfg
  (user, settings) ← find_user telegram_id
  account ← select_account dto user
  check_subscription cfg env dto user account
  run_checks (real_checks cfg settings account ++ mode_checks dto account)
  execute_at ← resolve_time env.now dto
  run_checks (validate_risk cfg dto)
  check_active_count user settings
  let key = or_else dto.idempotency_key env.random_key
  find_or_store user (new_job cfg env dto user settings account execute_at key)
      (big_int telegram_id)
