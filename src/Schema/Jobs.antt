-- ===== src/Schema/Jobs.antt =====
-- The tables of economic events, trade jobs, execution reports, audits and strategy positions.
use ctreader.Prelude.{ℕ, Bool, Option, String}
use ctreader.TradeJobs.State.{TradeJobStatus, ExecutionPhase}
use ctreader.Schema.Enums.{
  TradeDirection, ExecutionMode, VolumeAllocationMode, NewsReversalState, RiskMode, ExecutionVenue,
  MockExecutionOutcome, StrategyPositionState, TradeJobLegPurpose, TradeJobLegStatus,
}

pub record EconomicEvent : Type 0 where
  pub id : ℕ
  pub scheduled_at : ℕ

-- The order that a job is to place.
pub record JobTerms : Type 0 where
  pub symbol : String
  pub direction : TradeDirection
  pub execution_mode : ExecutionMode
  pub risk_mode : RiskMode
  pub fixed_lot : Option ℕ
  pub risk_percent : Option ℕ
  pub stop_loss_points : ℕ
  pub take_profit_points : ℕ
  pub deviation_points : ℕ
  pub max_spread_points : ℕ
  pub arm_seconds : ℕ
  pub max_lateness_ms : ℕ
  pub entry_distance_points : ℕ
  pub pending_expiry_seconds : ℕ
  pub multi_trades_per_side : Option ℕ
  pub multi_next_step_points : Option ℕ
  pub multi_next_sl_points : Option ℕ
  pub multi_next_tp_points : Option ℕ
  pub volume_allocation_mode : Option VolumeAllocationMode
  pub take_profit2_points : Option ℕ
  pub take_profit3_points : Option ℕ
  pub reversal_tp1_buffer_points : Option ℕ
  pub reversal_tp2_buffer_points : Option ℕ
  pub reversal_gap_points : Option ℕ

-- What the service wrote down about its settings when the job was made, and, for a job of the
-- strategy, which position and leg it serves.
pub record SettingsSnapshot : Type 0 where
  pub protocol_version : ℕ
  pub real_trading_system_enabled : Bool
  pub real_trading_user_enabled : Bool
  pub max_risk_percent : ℕ
  pub max_fixed_lot : ℕ
  pub strategy_position_id : Option ℕ
  pub is_probe_entry : Bool
  pub is_probe_leg : Bool

-- When each step of a job's life happened.
pub record JobTimes : Type 0 where
  pub synced_at : Option ℕ
  pub armed_at : Option ℕ
  pub submitted_at : Option ℕ
  pub filled_at : Option ℕ
  pub closed_at : Option ℕ
  pub cancelled_at : Option ℕ

pub record TradeJob : Type 0 where
  pub id : ℕ
  pub user_id : ℕ
  pub account_id : Option ℕ
  pub ctrader_account_id : Option ℕ
  pub cbot_instance_id : Option ℕ
  pub execution_venue : ExecutionVenue
  pub economic_event_id : Option ℕ
  pub idempotency_key : ℕ
  pub terms : JobTerms
  pub max_reversals : ℕ
  pub reversal_count : ℕ
  pub news_reversal_state : Option NewsReversalState
  pub active_direction : Option TradeDirection
  pub management_expires_at : Option ℕ
  pub cancel_requested_at : Option ℕ
  pub close_requested_at : Option ℕ
  pub mock_outcome : Option MockExecutionOutcome
  pub lease_owner : Option ℕ
  pub lease_expires_at : Option ℕ
  pub execute_at : ℕ
  pub expires_at : ℕ
  pub status : TradeJobStatus
  pub settings_snapshot : SettingsSnapshot
  pub version : ℕ
  pub updated_at : ℕ
  pub times : JobTimes

-- Who made an execution report: an MT5 agent, a cBot instance, or the server's own execution for
-- cTrader, the real one or the mock.
pub data ReportSource : Type 0 where
  mt5_agent cbot_instance : ℕ → ReportSource
  ctrader_open_api ctrader_mock : ReportSource

-- What a report says of the order, which the services only store.
pub record ReportDetails : Type 0 where
  pub order_ticket : Option ℕ
  pub deal_ticket : Option ℕ
  pub retcode : Option ℕ
  pub message : Option String
  pub filled_volume : Option ℕ
  pub latency_ms : Option ℕ

pub record ExecutionReport : Type 0 where
  pub id : ℕ
  pub job_id : ℕ
  pub source : ReportSource
  pub report_key : ℕ
  pub phase : ExecutionPhase
  pub occurred_at : ℕ
  pub details : ReportDetails

pub data AuditAction : Type 0 where
  trade_job_created trade_job_cancelled : AuditAction
  execution : ExecutionPhase → AuditAction

pub record AuditLog : Type 0 where
  pub user_id : ℕ
  pub actor_type : String
  pub actor_id : ℕ
  pub action : AuditAction
  pub entity_id : ℕ

-- One order of a NEWS_REVERSAL job, and the position that it became. Prices count steps of 0.0000000001,
-- the places that their columns keep.
pub record TradeJobLeg : Type 0 where
  pub id : ℕ
  pub job_id : ℕ
  pub revision : ℕ
  pub leg_number : ℕ
  pub direction : TradeDirection
  pub purpose : TradeJobLegPurpose
  pub target_number : ℕ
  pub planned_volume : ℕ
  pub filled_volume : Option ℕ
  pub entry_price : Option ℕ
  pub stop_loss_price : Option ℕ
  pub take_profit_price : Option ℕ
  pub broker_order_id : Option ℕ
  pub broker_position_id : Option ℕ
  pub status : TradeJobLegStatus
  pub closed_at : Option ℕ

pub record StrategyPosition : Type 0 where
  pub id : ℕ
  pub state : StrategyPositionState
  pub closed_at : Option ℕ
  pub close_reason : Option String
