-- ===== src/Schema/Accounts.antt =====
-- The tables of users, their settings, plans, subscriptions and trading accounts.
use ctreader.Prelude.{ℕ, Bool, Option, String}
use ctreader.Schema.Enums.{
  UserStatus, AgentStatus, AccountEnvironment, MarginMode, CtraderAccountEnvironment,
  SubscriptionPlanCode, SubscriptionStatus, CbotInstanceStatus, RiskMode, VolumeAllocationMode,
}

pub record SystemControl : Type 0 where
  pub trading_halted : Bool
  pub reason : Option String

pub record User : Type 0 where
  pub id : ℕ
  pub telegram_id : ℕ
  pub status : UserStatus

-- The columns of a user's template for MULTI jobs.
pub record MultiTemplate : Type 0 where
  pub trades_per_side : ℕ
  pub first_entry_pips : ℕ
  pub first_sl_pips : ℕ
  pub first_tp_pips : ℕ
  pub next_step_pips : ℕ
  pub next_sl_pips : ℕ
  pub next_tp_pips : ℕ
  pub expiry_seconds : ℕ

-- The columns of a user's template for NEWS_REVERSAL jobs.
pub record ReversalTemplate : Type 0 where
  pub volume_mode : VolumeAllocationMode
  pub entry_pips : ℕ
  pub sl_pips : ℕ
  pub tp1_pips : ℕ
  pub tp2_pips : ℕ
  pub tp3_pips : ℕ
  pub reversal_gap_pips : ℕ
  pub pending_expiry_seconds : ℕ
  pub management_seconds : ℕ

pub record UserSettings : Type 0 where
  pub user_id : ℕ
  pub real_trading_enabled : Bool
  pub risk_limit_enabled : Bool
  pub default_risk_mode : RiskMode
  pub default_fixed_lot : ℕ
  pub default_risk_percent : ℕ
  pub default_arm_seconds : ℕ
  pub default_max_lateness_ms : ℕ
  pub default_deviation_points : ℕ
  pub default_max_spread_points : ℕ
  pub max_concurrent_jobs : ℕ
  pub multi : MultiTemplate
  pub reversal : ReversalTemplate

-- What a plan allows; a subscription keeps its own copy of it.
pub record Entitlement : Type 0 where
  pub market_enabled : Bool
  pub oco_enabled : Bool
  pub multi_enabled : Bool
  pub news_reversal_enabled : Bool
  pub live_trading_enabled : Bool
  pub max_accounts : ℕ
  pub max_lot : ℕ

pub record Plan : Type 0 where
  pub id : ℕ
  pub code : SubscriptionPlanCode
  pub name : String
  pub price_usd : ℕ
  pub duration_days : ℕ
  pub allows : Entitlement

pub record Subscription : Type 0 where
  pub id : ℕ
  pub user_id : ℕ
  pub plan_id : ℕ
  pub status : SubscriptionStatus
  pub starts_at : ℕ
  pub current_period_end : ℕ
  pub canceled_at : Option ℕ
  pub entitlement : Option Entitlement

pub record SubscriptionAudit : Type 0 where
  pub user_id : ℕ
  pub subscription_id : ℕ
  pub actor_type : String
  pub actor_id : ℕ
  pub action : String

-- The seconds of `serverUtcOffsetSeconds`, east or west of Greenwich.
pub data UtcOffset : Type 0 where
  east west : ℕ → UtcOffset

pub record Agent : Type 0 where
  pub id : ℕ
  pub user_id : ℕ
  pub device_id : ℕ
  pub token_hash : ℕ
  pub status : AgentStatus
  pub name : String
  pub version : Option String
  pub terminal_build : Option ℕ
  pub server_utc_offset : UtcOffset
  pub last_ip : Option String
  pub last_seen_at : Option ℕ

-- A code that a user hands to a terminal (`PairingCode`) or to a cBot (`CbotPairingCode`).
pub record PairingCode : Type 0 where
  pub id : ℕ
  pub user_id : ℕ
  pub code_hash : ℕ
  pub expires_at : ℕ
  pub claimed_at : Option ℕ

pub record TradingAccount : Type 0 where
  pub id : ℕ
  pub user_id : ℕ
  pub agent_id : ℕ
  pub login : ℕ
  pub broker : String
  pub server : ℕ
  pub currency : String
  pub environment : AccountEnvironment
  pub margin_mode : MarginMode
  pub leverage : Option ℕ
  pub balance : Option ℕ
  pub equity : Option ℕ
  pub trade_allowed : Bool
  pub expert_trade_allowed : Bool
  pub last_seen_at : Option ℕ

pub record CtraderAccount : Type 0 where
  pub id : ℕ
  pub user_id : ℕ
  pub environment : CtraderAccountEnvironment
  pub enabled : Bool

pub record CbotInstance : Type 0 where
  pub id : ℕ
  pub user_id : ℕ
  pub instance_key : ℕ
  pub token_hash : ℕ
  pub account_number : ℕ
  pub broker : ℕ
  pub environment : CtraderAccountEnvironment
  pub symbol : String
  pub version : Option String
  pub status : CbotInstanceStatus
  pub last_ip : Option String
  pub last_seen_at : Option ℕ
