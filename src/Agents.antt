-- ===== src/Agents.antt =====
-- `heartbeat` of src/agents/agents.service.ts: an MT5 agent tells of itself and of the account that
-- its terminal is logged in to. An account is known by its login and its server. The texts of the
-- balances are numbers of hundredths.
pub mod Owners
use ctreader.Prelude.{
  ℕ, ◌%◌, String, Bool, true, false, ◌&&◌, not, Option, none, some, List, [], ◌∷◌, ◌==◌, newer,
  Exec, bad_request, conflict, pure, gets, modify, throw_if, ◌>>=◌, ◌>>◌, find_first, update_many,
}
use ctreader.Config.{Config}
use ctreader.Schema.{
  Db, Agent, TradingAccount, UtcOffset, AccountEnvironment, MarginMode, online, east, west,
}

-- src/agents/dto/heartbeat.dto.ts. The name of a server is only compared.
pub record HeartbeatDto : Type 0 where
  pub server_utc_offset : UtcOffset
  pub agent_version : Option String
  pub terminal_build : Option ℕ
  pub login : ℕ
  pub broker : String
  pub server : ℕ
  pub currency : String
  pub environment : AccountEnvironment
  pub margin_mode : MarginMode
  pub leverage : Option ℕ
  pub balance : Option ℕ
  pub equity : Option ℕ
  pub trade_allowed : Bool
  pub expert_trade_allowed : Bool

pub record HeartbeatReply : Type 0 where
  pub server_time : ℕ
  pub account_id : ℕ
  pub real_trading_system_enabled : Bool

-- `serverUtcOffsetSeconds % 900 !== 0`, on either side.
abbrev pub off_boundary : UtcOffset → Bool
off_boundary (east n) = not (n % 900 == 0)
off_boundary (west n) = not (n % 900 == 0)

-- The unique key (login, server).
abbrev pub is_account_of : HeartbeatDto → TradingAccount → Bool
is_account_of dto a = a.login == dto.login && a.server == dto.server

abbrev pub is_foreign : ℕ → Option TradingAccount → Bool
is_foreign user_id none = false
is_foreign user_id (some a) = not (a.user_id == user_id)

unfoldable pub seen_agent : ℕ → HeartbeatDto → Option String → Agent → Agent
seen_agent now dto ip agent = record agent {
  status = online;
  last_seen_at = some now;
  last_ip = newer ip agent.last_ip;
  version = newer dto.agent_version agent.version;
  terminal_build = newer dto.terminal_build agent.terminal_build;
  server_utc_offset = dto.server_utc_offset;
}

unfoldable pub new_account : ℕ → ℕ → Agent → HeartbeatDto → TradingAccount
new_account now id agent dto = record {
  id = id;
  user_id = agent.user_id;
  agent_id = agent.id;
  login = dto.login;
  broker = dto.broker;
  server = dto.server;
  currency = dto.currency;
  environment = dto.environment;
  margin_mode = dto.margin_mode;
  leverage = dto.leverage;
  balance = dto.balance;
  equity = dto.equity;
  trade_allowed = dto.trade_allowed;
  expert_trade_allowed = dto.expert_trade_allowed;
  last_seen_at = some now;
}

unfoldable pub renewed_account : ℕ → Agent → HeartbeatDto → TradingAccount → TradingAccount
renewed_account now agent dto a = record a {
  agent_id = agent.id;
  broker = dto.broker;
  currency = dto.currency;
  environment = dto.environment;
  margin_mode = dto.margin_mode;
  leverage = newer dto.leverage a.leverage;
  balance = newer dto.balance a.balance;
  equity = newer dto.equity a.equity;
  trade_allowed = dto.trade_allowed;
  expert_trade_allowed = dto.expert_trade_allowed;
  last_seen_at = some now;
}

-- The upsert by the account's key.
unfoldable pub upsert_account : ℕ → ℕ → Agent → HeartbeatDto → Exec Db TradingAccount
unfolding new_account renewed_account
upsert_account now id agent dto = do
  existing ← gets λ db. find_first (is_account_of dto) db.accounts
  elim existing [
    | none ↦ (do
      modify λ db. record db { accounts = new_account now id agent dto ∷ db.accounts }
      pure (new_account now id agent dto))
    | some a ↦ (do
      modify λ db. record db {
        accounts = update_many (is_account_of dto) (renewed_account now agent dto) db.accounts;
      }
      pure (renewed_account now agent dto a))
  ]

unfoldable pub heartbeat :
    Config → ℕ → ℕ → Agent → HeartbeatDto → Option String → Exec Db HeartbeatReply
unfolding seen_agent upsert_account
heartbeat cfg now id agent dto ip = do
  throw_if (off_boundary dto.server_utc_offset)
      (bad_request "Broker UTC offset must use a 15-minute boundary")
  existing ← gets λ db. find_first (is_account_of dto) db.accounts
  throw_if (is_foreign agent.user_id existing)
      (conflict "Trading account is already connected to another user")
  modify λ db. record db {
    agents = update_many (λ (a : Agent). a.id == agent.id) (seen_agent now dto ip) db.agents;
  }
  account ← upsert_account now id agent dto
  pure (record {
    server_time = now;
    account_id = account.id;
    real_trading_system_enabled = cfg.allow_real_trading;
  })
