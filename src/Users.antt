-- ===== src/Users.antt =====
-- src/users/users.service.ts: the settings of a user, by the user's Telegram id. Values that are
-- not integers are refused where the source refuses them, and are no numbers here.
pub mod Bounds
use ctreader.Prelude.{
  ℕ, Bool, true, false, ◌&&◌, ◌||◌, not, Option, none, some, List, [], ◌∷◌, ◌==◌, ltb, any,
  if◌then◌else◌, Exec, not_found, bad_request, pure, gets, modify, require, throw_if, run_checks,
  Exception, ◌>>=◌, ◌>>◌, find_first, update_many,
}
use ctreader.Config.{Config}
use ctreader.Schema.{Db, User, UserSettings, MultiTemplate, ReversalTemplate, RiskMode}

-- The argument of `updateTradingDefault`.
pub data TradingDefault : Type 0 where
  default_fixed_lot default_risk_percent default_arm_seconds : ℕ → TradingDefault
  default_risk_mode : RiskMode → TradingDefault

abbrev pub update_settings : ℕ → (UserSettings → UserSettings) → Db → Db
update_settings user_id f db = record db {
  settings = update_many (λ s. s.user_id == user_id) f db.settings;
}

abbrev pub outside : ℕ → ℕ → ℕ → Bool
outside low high n = ltb n low || ltb high n

unfoldable pub default_checks : Config → TradingDefault → List (Bool × Exception)
default_checks cfg (default_fixed_lot n) =
    (outside 1 cfg.max_fixed_lot n, bad_request "Lot must be between 0.0001 and the maximum") ∷ []
default_checks cfg (default_risk_percent n) =
    (outside 1 cfg.max_risk_percent n, bad_request "Risk must be between 0.01% and the maximum")
    ∷ []
default_checks cfg (default_arm_seconds n) =
    (outside 3 60 n, bad_request "Arm time must be an integer between 3 and 60 seconds") ∷ []
default_checks cfg (default_risk_mode m) = []

unfoldable pub set_default : TradingDefault → UserSettings → UserSettings
set_default (default_fixed_lot n) s = record s { default_fixed_lot = n }
set_default (default_risk_percent n) s = record s { default_risk_percent = n }
set_default (default_arm_seconds n) s = record s { default_arm_seconds = n }
set_default (default_risk_mode m) s = record s { default_risk_mode = m }

abbrev pub find_user_id : ℕ → Exec Db User
find_user_id telegram_id = do
  found ← gets λ db. find_first (λ (u : User). u.telegram_id == telegram_id) db.users
  require (not_found "Telegram user not found") found

-- The handlers share their shape: the user, the checks, and the update of the user's row.
unfoldable pub checked_update :
    ℕ → List (Bool × Exception) → (UserSettings → UserSettings) → Exec Db (Unit {0})
checked_update telegram_id checks f = do
  user ← find_user_id telegram_id
  run_checks checks
  modify (update_settings user.id f)

unfoldable pub update_trading_default : Config → ℕ → TradingDefault → Exec Db (Unit {0})
unfolding default_checks set_default checked_update
update_trading_default cfg telegram_id update =
    checked_update telegram_id (default_checks cfg update) (set_default update)

abbrev pub pips_outside : List ℕ → Bool
pips_outside values = any (outside 1 100000) values

unfoldable pub multi_template_checks : MultiTemplate → List (Bool × Exception)
multi_template_checks t =
    (outside 2 5 t.trades_per_side, bad_request "Trades per side must be 2-5")
    ∷ (
      pips_outside (
          t.first_entry_pips ∷ t.first_sl_pips ∷ t.first_tp_pips ∷ t.next_step_pips ∷ t.next_sl_pips
          ∷ t.next_tp_pips ∷ []),
      bad_request "Pips must be integers from 1 to 100000",
    )
    ∷ (outside 1 300 t.expiry_seconds, bad_request "Expiry must be 1-300 seconds")
    ∷ []

unfoldable pub update_multi_template : ℕ → MultiTemplate → Exec Db (Unit {0})
unfolding multi_template_checks checked_update
update_multi_template telegram_id t =
    checked_update telegram_id (multi_template_checks t) (λ s. record s { multi = t })

unfoldable pub reversal_template_checks : ReversalTemplate → List (Bool × Exception)
reversal_template_checks t =
    (
      pips_outside (
          t.entry_pips ∷ t.sl_pips ∷ t.tp1_pips ∷ t.tp2_pips ∷ t.tp3_pips ∷ t.reversal_gap_pips
          ∷ []),
      bad_request "Pips must be integers from 1 to 100000",
    )
    ∷ (
      not (ltb t.tp1_pips t.tp2_pips && ltb t.tp2_pips t.tp3_pips),
      bad_request "TP1, TP2 and TP3 must be strictly increasing",
    )
    ∷ (outside 1 300 t.pending_expiry_seconds, bad_request "Pending expiry must be 1-300 seconds")
    ∷ (outside 30 3600 t.management_seconds, bad_request "Management time must be 30-3600 seconds")
    ∷ []

unfoldable pub update_news_reversal_template : ℕ → ReversalTemplate → Exec Db (Unit {0})
unfolding reversal_template_checks checked_update
update_news_reversal_template telegram_id t =
    checked_update telegram_id (reversal_template_checks t) (λ s. record s { reversal = t })

unfoldable pub set_real_trading_enabled : ℕ → Bool → Exec Db (Unit {0})
unfolding checked_update
set_real_trading_enabled telegram_id enabled =
    checked_update telegram_id [] (λ s. record s { real_trading_enabled = enabled })

unfoldable pub set_risk_limit_enabled : ℕ → Bool → Exec Db (Unit {0})
unfolding checked_update
set_risk_limit_enabled telegram_id enabled =
    checked_update telegram_id [] (λ s. record s { risk_limit_enabled = enabled })
