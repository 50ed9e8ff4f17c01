-- ===== src/Tests/WorkerData.antt =====
-- A job of the venue CTRADER, and a worker that has not taken it yet.
use ctreader.Prelude.{ℕ, true, false, none, some, [], ◌∷◌, ◌+◌, ◌-◌, ◌*◌, ◌/◌}
use ctreader.Schema.{TradeJob, JobTerms, ctrader, buy, straddle, fixed_lot}
use ctreader.TradeJobs.State.{scheduled}
use ctreader.Ctrader.{WorkerEnv, World, ReportKey, submitted_key, armed_key}
use ctreader.Ctrader.Start.{BrokerFacts, ExecutionLimits}
use ctreader.Tests.Data.{db}

abbrev pub straddle_terms : JobTerms
straddle_terms = record {
  symbol = "XAUUSD";
  direction = buy;
  execution_mode = straddle;
  risk_mode = fixed_lot;
  fixed_lot = some 100;
  risk_percent = none;
  stop_loss_points = 100;
  take_profit_points = 200;
  deviation_points = 20;
  max_spread_points = 0;
  arm_seconds = 10;
  max_lateness_ms = 1000;
  entry_distance_points = 50;
  pending_expiry_seconds = 15;
  multi_trades_per_side = none;
  multi_next_step_points = none;
  multi_next_sl_points = none;
  multi_next_tp_points = none;
  volume_allocation_mode = none;
  take_profit2_points = none;
  take_profit3_points = none;
  reversal_tp1_buffer_points = none;
  reversal_tp2_buffer_points = none;
  reversal_gap_points = none;
}

abbrev pub job : TradeJob
job = record {
  id = 30;
  user_id = 1;
  account_id = none;
  ctrader_account_id = some 3;
  cbot_instance_id = none;
  execution_venue = ctrader;
  economic_event_id = none;
  idempotency_key = 77;
  terms = straddle_terms;
  max_reversals = 0;
  reversal_count = 0;
  news_reversal_state = none;
  active_direction = none;
  management_expires_at = none;
  cancel_requested_at = none;
  close_requested_at = none;
  mock_outcome = none;
  lease_owner = none;
  lease_expires_at = none;
  execute_at = 100000;
  expires_at = 115000;
  status = scheduled;
  settings_snapshot = record {
    protocol_version = 3;
    real_trading_system_enabled = false;
    real_trading_user_enabled = false;
    max_risk_percent = 50;
    max_fixed_lot = 10000;
    strategy_position_id = none;
    is_probe_entry = false;
    is_probe_leg = false;
  };
  version = 1;
  updated_at = 1000;
  times = record {
    synced_at = none;
    armed_at = none;
    submitted_at = none;
    filled_at = none;
    closed_at = none;
    cancelled_at = none;
  };
}

-- Numbers for the texts of some keys.
abbrev pub text_of : ReportKey → ℕ
text_of (submitted_key job_id order_id) = 1000 + order_id
text_of (armed_key job_id) = job_id
text_of _ = 0

abbrev pub worker_at : ℕ → ℕ → WorkerEnv
worker_at id now = record {
  worker_id = id;
  lease_ms = 45000;
  now = now;
  text = text_of;
  cancels = λ id. true;
  closes = λ id. true;
  below = λ price points. price - points;
  above = λ price points. price + points;
  units = λ volume lot_size. volume * lot_size;
  lots = λ units lot_size. units / lot_size;
  symbol_lot = λ job_id. some 100;
}

abbrev pub world : World
world = record {
  db = record db { jobs = job ∷ [] };
  runtimes = [];
  starting_jobs = [];
  next_id = 500;
  sent = [];
}

abbrev pub limits : ExecutionLimits
limits = record { max_open_positions_per_user = 10; margin_buffer_percent = 25 }

abbrev pub facts : BrokerFacts
facts = record {
  account_enabled = true;
  live = false;
  user_real_trading = false;
  full_access = true;
  hedged = true;
  orders = [];
  positions = [];
  buy_order = none;
  sell_order = none;
  unmanaged = 1;
  symbol = record {
    lot_size = 100;
    min_volume = 1;
    max_volume = 100000;
    step_volume = 1;
    same_currency = true;
    balance = 1000000;
    units_of_lot = λ lot size. lot * size / 10000;
    nearest_steps = λ volume step. volume / step;
    risk_steps = λ balance percent distance step. 1;
  };
  risk_limit_enabled = true;
  exceeds_risk = λ volume points. false;
  margin = some (100, 100);
  used_margin = 0;
  entry = λ side points. 2000 + points;
}
