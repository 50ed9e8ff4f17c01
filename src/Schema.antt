-- ===== src/Schema.antt =====
-- prisma/schema.prisma: the tables that the services read and write, as lists of rows. Ids, keys
-- and hashes are numbers that the program only compares; a date is its milliseconds since the
-- epoch; lots are counted in steps of 0.0001 and percentages in steps of 0.01, the places that the
-- columns keep. Rows come in the order of their creation, the newest first.
mod Enums
mod Accounts
mod Jobs
pub use Enums.*
pub use Accounts.*
pub use Jobs.*
use ctreader.Prelude.{ℕ, Bool, Option, List, String}

-- The whole database.
pub record Db : Type 0 where
  pub control : Option SystemControl
  pub users : List User
  pub settings : List UserSettings
  pub plans : List Plan
  pub subscriptions : List Subscription
  pub subscription_audits : List SubscriptionAudit
  pub pairing_codes : List PairingCode
  pub agents : List Agent
  pub accounts : List TradingAccount
  pub ctrader_accounts : List CtraderAccount
  pub cbot_pairing_codes : List PairingCode
  pub cbots : List CbotInstance
  pub events : List EconomicEvent
  pub jobs : List TradeJob
  pub legs : List TradeJobLeg
  pub reports : List ExecutionReport
  pub audits : List AuditLog
  pub positions : List StrategyPosition
