-- ===== src/Config.antt =====
-- The settings of src/config/environment.ts that the modelled services read from `ConfigService`.
use ctreader.Prelude.{ℕ, Bool}

pub record Config : Type 0 where
  pub allow_real_trading : Bool
  pub max_risk_percent : ℕ
  pub max_fixed_lot : ℕ
  pub trading_kill_switch : Bool
  pub subscriptions_enforced : Bool
  pub pairing_code_ttl_seconds : ℕ
