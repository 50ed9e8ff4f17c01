-- ===== src/Safety/Switch.antt =====
-- What the two switches do to `assert_trading_open`.
use ctreader.Prelude.{◌≡◌, ◌↔◌, false, Option, String, ok, err, forbidden, arith}
use ctreader.Config.{Config}
use ctreader.Schema.{Db}
use ctreader.Safety.{assert_trading_open, halt, resume}

-- After `halt` trading is refused whatever the environment says, until a `resume`; after `resume`
-- it is open exactly when the environment's kill switch is off.
pub halt-resume_open :
    (cfg : Config) (reason : Option String) (db : Db)
    → ((assert_trading_open cfg (halt reason db).1).0 ≡ err (forbidden "Trading is halted"))
      × (((assert_trading_open cfg (resume db).1).0 ≡ ok tt) ↔ (cfg.trading_kill_switch ≡ false))
unfolding assert_trading_open halt resume
halt-resume_open cfg reason db = (ground arith, (λ h. ground arith, λ h. ground arith))
