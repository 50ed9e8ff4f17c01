-- ===== src/TradeJobs/Create/Checks.antt =====
-- The guards of `createForTelegramUser`, in the order of the source: the account of the venue, the
-- execution mode's parameters, the risk, and the text of the Telegram id.
use ctreader.Prelude.{
  ℕ, ◌+◌, ◌*◌, ◌-◌, Bool, true, false, ◌&&◌, ◌||◌, not, Option, none, some, List, [], ◌∷◌, ◌==◌,
  ltb, leb, falsy, is_some, length, all, Exception, bad_request, forbidden, find_first,
}
use mathlib.Core.Option
use ctreader.Config.{Config}
use ctreader.Schema.{
  Db, UserSettings, TradingAccount, CtraderAccount, CbotInstance, AccountEnvironment, MarginMode,
  CtraderAccountEnvironment, ExecutionMode, RiskMode, ExecutionVenue, demo, real, contest, live,
  hedging, market, multi, news_reversal, fixed_lot, risk_percent, mt5, ctrader, cbot,
}
use ctreader.TradeJobs.Dto.{CreateTradeJobDto}

-- The account that a request names, by its venue.
pub data Account : Type 0 where
  mt5_account : TradingAccount → Account
  ctrader_account : CtraderAccount → Account
  cbot_instance : CbotInstance → Account

unfoldable pub find_account : ExecutionVenue → ℕ → Db → Option Account
find_account mt5 id db =
    Option.map mt5_account (find_first (λ (a : TradingAccount). a.id == id) db.accounts)
find_account ctrader id db =
    Option.map ctrader_account (find_first (λ (a : CtraderAccount). a.id == id) db.ctrader_accounts)
find_account cbot id db =
    Option.map cbot_instance (find_first (λ (c : CbotInstance). c.id == id) db.cbots)

abbrev pub owner : Account → ℕ
owner (mt5_account a) = a.user_id
owner (ctrader_account a) = a.user_id
owner (cbot_instance c) = c.user_id

abbrev is_live : CtraderAccountEnvironment → Bool
is_live live = true
is_live demo = false

abbrev is_real_environment : AccountEnvironment → Bool
is_real_environment real = true
is_real_environment _ = false

-- `isReal`.
abbrev pub is_real : Account → Bool
is_real (mt5_account a) = is_real_environment a.environment
is_real (ctrader_account a) = is_live a.environment
is_real (cbot_instance c) = is_live c.environment

abbrev pub is_fixed_lot : RiskMode → Bool
is_fixed_lot fixed_lot = true
is_fixed_lot risk_percent = false

-- The account checks before the subscription is looked at.
unfoldable pub account_checks : CreateTradeJobDto → Account → List (Bool × Exception)
account_checks dto (mt5_account a) =
    (
      not a.trade_allowed || not a.expert_trade_allowed,
      bad_request "Trading or Expert Advisor trading is disabled in MT5",
    )
    ∷ []
account_checks dto (ctrader_account a) = []
account_checks dto (cbot_instance c) =
    (not (is_fixed_lot dto.risk_mode), bad_request "cBot execution currently requires fixed lot")
    ∷ []

unfoldable pub real_checks : Config → UserSettings → Account → List (Bool × Exception)
real_checks cfg settings account =
    (
      is_real account && (not cfg.allow_real_trading || not settings.real_trading_enabled),
      forbidden "Real trading is disabled by a safety policy",
    )
    ∷ []

abbrev pub is_pending : ExecutionMode → Bool
is_pending market = false
is_pending _ = true

-- An MT5 account must be a hedging account of the kind DEMO or REAL.
abbrev is_demo_or_real : AccountEnvironment → Bool
is_demo_or_real contest = false
is_demo_or_real _ = true

abbrev is_hedging : MarginMode → Bool
is_hedging hedging = true
is_hedging _ = false

abbrev not_mt5_hedging : Account → Bool
not_mt5_hedging (mt5_account a) = not (is_hedging a.margin_mode)
not_mt5_hedging _ = false

abbrev is_contest : Account → Bool
is_contest (mt5_account a) = not (is_demo_or_real a.environment)
is_contest _ = false

abbrev pub is_mt5 : Account → Bool
is_mt5 (mt5_account a) = true
is_mt5 _ = false

multi_checks : CreateTradeJobDto → Account → List (Bool × Exception)
multi_checks dto account =
    (is_contest account, bad_request "MULTI requires an MT5 demo or real account")
    ∷ (not_mt5_hedging account, bad_request "MULTI requires an MT5 hedging account")
    ∷ (
      falsy dto.multi_trades_per_side
          || falsy dto.multi_next_step_points
          || falsy dto.multi_next_sl_points
          || falsy dto.multi_next_tp_points,
      bad_request "All MULTI parameters are required",
    )
    ∷ []

-- `a < b` on optional numbers: false if one is missing.
abbrev pub ltb_optional : Option ℕ → Option ℕ → Bool
ltb_optional (some a) (some b) = ltb a b
ltb_optional _ _ = false

reversal_checks : CreateTradeJobDto → Account → List (Bool × Exception)
reversal_checks dto account =
    (is_mt5 account, bad_request "NEWS REVERSAL requires a cTrader or cBot account")
    ∷ (
      not (is_fixed_lot dto.risk_mode) || falsy dto.fixed_lot,
      bad_request "NEWS REVERSAL currently requires fixed lot",
    )
    ∷ (
      not (is_some dto.volume_allocation_mode)
          || falsy dto.take_profit2_points
          || falsy dto.take_profit3_points
          || falsy dto.reversal_gap_points,
      bad_request "All NEWS REVERSAL parameters are required",
    )
    ∷ (
      not (
          ltb_optional (some dto.take_profit_points) dto.take_profit2_points
          && ltb_optional dto.take_profit2_points dto.take_profit3_points),
      bad_request "NEWS REVERSAL take profits must be strictly increasing",
    )
    ∷ []

mode_own_checks : ExecutionMode → CreateTradeJobDto → Account → List (Bool × Exception)
unfolding multi_checks reversal_checks
mode_own_checks multi dto account = multi_checks dto account
mode_own_checks news_reversal dto account = reversal_checks dto account
mode_own_checks _ dto account = []

unfoldable pub mode_checks : CreateTradeJobDto → Account → List (Bool × Exception)
unfolding mode_own_checks
mode_checks dto account =
    (
      is_pending dto.execution_mode && falsy dto.entry_distance_points,
      bad_request "entryDistancePoints is required for pending modes",
    )
    ∷ mode_own_checks dto.execution_mode dto account

-- `value > limit`, of a value that a check before it found to be present.
abbrev above : Option ℕ → ℕ → Bool
above none limit = false
above (some n) limit = ltb limit n

-- `validateRisk`.
risk_mode_checks : Config → RiskMode → CreateTradeJobDto → List (Bool × Exception)
risk_mode_checks cfg fixed_lot dto =
    (not (is_some dto.fixed_lot), bad_request "fixedLot is required")
    ∷ (above dto.fixed_lot cfg.max_fixed_lot, bad_request "fixedLot exceeds system limit")
    ∷ (is_some dto.risk_percent, bad_request "riskPercent is not allowed for FIXED_LOT mode")
    ∷ []
risk_mode_checks cfg risk_percent dto =
    (not (is_some dto.risk_percent), bad_request "riskPercent is required")
    ∷ (above dto.risk_percent cfg.max_risk_percent, bad_request "riskPercent exceeds system limit")
    ∷ (is_some dto.fixed_lot, bad_request "fixedLot is not allowed for RISK_PERCENT mode")
    ∷ []

unfoldable pub validate_risk : Config → CreateTradeJobDto → List (Bool × Exception)
unfolding risk_mode_checks
validate_risk cfg dto = risk_mode_checks cfg dto.risk_mode dto

-- `/^\d{1,20}$/` on the characters' codes, and `BigInt` of such a text.
abbrev is_digit : ℕ → Bool
is_digit c = leb b'0' c && leb c b'9'

unfoldable pub is_telegram_id : List ℕ → Bool
is_telegram_id text = leb 1 (length text) && leb (length text) 20 && all is_digit text

big_int_from : ℕ → List ℕ → ℕ
big_int_from acc [] = acc
big_int_from acc (c ∷ text) = big_int_from (acc * 10 + (c - b'0')) text

unfoldable pub big_int : List ℕ → ℕ
unfolding big_int_from
big_int text = big_int_from 0 text
