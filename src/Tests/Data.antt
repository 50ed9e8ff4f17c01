-- ===== src/Tests/Data.antt =====
-- One user with a demo MT5 account and a plan of each kind.
use ctreader.Prelude.{ℕ, true, false, none, some, List, [], ◌∷◌}
use ctreader.Config.{Config}
use ctreader.Schema.{
  Db, User, UserSettings, Plan, Entitlement, Agent, TradingAccount, active, trial, demo, hedging,
  east, split_total, fixed_lot, market, buy, mt5, online,
}
use ctreader.TradeJobs.Dto.{CreateTradeJobDto}
use ctreader.TradeJobs.Create.{CreateEnv, create_for_telegram_user}
use ctreader.TradeJobs.Report.{SubmitExecutionReportDto}
use ctreader.TradeJobs.State.{ExecutionPhase}

abbrev pub cfg : Config
cfg = record {
  allow_real_trading = false;
  max_risk_percent = 50;
  max_fixed_lot = 10000;
  trading_kill_switch = false;
  subscriptions_enforced = true;
  pairing_code_ttl_seconds = 600;
}

abbrev pub user : User
user = record { id = 1; telegram_id = 42; status = active }

abbrev pub settings : UserSettings
settings = record {
  user_id = 1;
  real_trading_enabled = false;
  risk_limit_enabled = false;
  default_risk_mode = fixed_lot;
  default_fixed_lot = 100;
  default_risk_percent = 25;
  default_arm_seconds = 10;
  default_max_lateness_ms = 1000;
  default_deviation_points = 20;
  default_max_spread_points = 0;
  max_concurrent_jobs = 1;
  multi = record {
    trades_per_side = 2;
    first_entry_pips = 100;
    first_sl_pips = 100;
    first_tp_pips = 200;
    next_step_pips = 50;
    next_sl_pips = 100;
    next_tp_pips = 200;
    expiry_seconds = 15;
  };
  reversal = record {
    volume_mode = split_total;
    entry_pips = 200;
    sl_pips = 300;
    tp1_pips = 300;
    tp2_pips = 600;
    tp3_pips = 900;
    reversal_gap_pips = 100;
    pending_expiry_seconds = 15;
    management_seconds = 300;
  };
}

abbrev pub full : Entitlement
full = record {
  market_enabled = true;
  oco_enabled = true;
  multi_enabled = true;
  news_reversal_enabled = true;
  live_trading_enabled = false;
  max_accounts = 1;
  max_lot = 100;
}

abbrev pub trial_plan : Plan
trial_plan = record {
  id = 7;
  code = trial;
  name = "Trial";
  price_usd = 0;
  duration_days = 7;
  allows = full;
}

abbrev pub agent : Agent
agent = record {
  id = 5;
  user_id = 1;
  device_id = 50;
  token_hash = 500;
  status = online;
  name = "Terminal";
  version = none;
  terminal_build = none;
  server_utc_offset = east 10800;
  last_ip = none;
  last_seen_at = none;
}

abbrev pub account : TradingAccount
account = record {
  id = 3;
  user_id = 1;
  agent_id = 5;
  login = 123456;
  broker = "Broker";
  currency = "USD";
  leverage = none;
  balance = none;
  equity = none;
  last_seen_at = none;
  server = 12;
  environment = demo;
  margin_mode = hedging;
  trade_allowed = true;
  expert_trade_allowed = true;
}

abbrev pub db : Db
db = record {
  control = none;
  users = user ∷ [];
  settings = settings ∷ [];
  plans = trial_plan ∷ [];
  subscriptions = [];
  subscription_audits = [];
  pairing_codes = [];
  agents = agent ∷ [];
  accounts = account ∷ [];
  ctrader_accounts = [];
  cbot_pairing_codes = [];
  cbots = [];
  events = [];
  jobs = [];
  legs = [];
  reports = [];
  audits = [];
  positions = [];
}

abbrev pub dto : CreateTradeJobDto
dto = record {
  execution_venue = mt5;
  account_id = 3;
  economic_event_id = none;
  idempotency_key = some 77;
  symbol = "XAUUSD";
  direction = buy;
  execution_mode = market;
  risk_mode = fixed_lot;
  fixed_lot = some 100;
  risk_percent = none;
  stop_loss_points = 100;
  take_profit_points = 200;
  deviation_points = none;
  max_spread_points = none;
  arm_seconds = none;
  max_lateness_ms = none;
  entry_distance_points = none;
  pending_expiry_seconds = none;
  multi_trades_per_side = none;
  multi_next_step_points = none;
  multi_next_sl_points = none;
  multi_next_tp_points = none;
  volume_allocation_mode = none;
  take_profit2_points = none;
  take_profit3_points = none;
  reversal_tp1_buffer_points = none;
  reversal_tp2_buffer_points = none;
  reversal_gap_points = none;
  management_seconds = none;
  execute_at = 100000;
}

abbrev pub env : CreateEnv
env = record { now = 1000; trial_id = 20; job_id = 30; random_key = 900 }

-- "42".
abbrev pub telegram_text : List ℕ
telegram_text = 52 ∷ 50 ∷ []

-- The database and the job after a call of `createForTelegramUser`.
abbrev pub created : Db
created = (create_for_telegram_user cfg env telegram_text dto db).1

abbrev pub sample_report : SubmitExecutionReportDto
sample_report = record {
  report_key = 8;
  phase = ExecutionPhase.armed;
  occurred_at = 90000;
  details = record {
    order_ticket = none;
    deal_ticket = none;
    retcode = none;
    message = none;
    filled_volume = none;
    latency_ms = none;
  };
}
