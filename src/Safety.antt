-- ===== src/Safety.antt =====
-- src/safety/safety.service.ts: the kill switch of the environment and the halt in the database.
pub mod Switch
use ctreader.Prelude.{
  ℕ, String, Bool, true, false, ◌||◌, Option, none, some, Exec, ok, forbidden, pure, modify,
  throw_if, ◌>>=◌, ◌>>◌, if◌then◌else◌,
}
use ctreader.Config.{Config}
use ctreader.Schema.{Db, SystemControl}

pub record SafetyStatus : Type 0 where
  pub halted : Bool
  pub environment_halt : Bool
  pub database_halt : Bool
  pub reason : Option String

-- The row "global", created with its defaults if it is missing.
unfoldable pub read_control : Exec Db SystemControl
read_control db = elim db.control [
  | some c ↦ (ok c, db)
  | none ↦
      let c : SystemControl = record { trading_halted = false; reason = none } in
      (ok c, record db { control = some c })
]

unfoldable pub status : Config → Exec Db SafetyStatus
unfolding read_control
status cfg = do
  control ← read_control
  pure (record {
    halted = cfg.trading_kill_switch || control.trading_halted;
    environment_halt = cfg.trading_kill_switch;
    database_halt = control.trading_halted;
    reason = if cfg.trading_kill_switch then some "TRADING_KILL_SWITCH=true" else control.reason;
  })

unfoldable pub assert_trading_open : Config → Exec Db (Unit {0})
unfolding status
assert_trading_open cfg = do s ← status cfg; throw_if s.halted (forbidden "Trading is halted")

write_control : Bool → Option String → Exec Db (Unit {0})
write_control halted reason =
    modify λ db. record db { control = some (record { trading_halted = halted; reason = reason }) }

default_reason : Option String → String
default_reason none = "Emergency stop activated by administrator"
default_reason (some r) = r

-- `halt`, with its default reason.
unfoldable pub halt : Option String → Exec Db (Unit {0})
unfolding write_control default_reason
halt reason = write_control true (some (default_reason reason))

unfoldable pub resume : Exec Db (Unit {0})
unfolding write_control
resume = write_control false none
