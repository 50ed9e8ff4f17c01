-- ===== src/Tests/SubscriptionRuns.antt =====
-- Grants, suspensions and the kill switch on the sample data.
use ctreader.Prelude.{
  ◌≡◌, refl, ◌↔◌, true, false, none, some, arith, ok, err, forbidden, count, find_first,
  update_many, ◌==◌,
}
use ctreader.Schema.{Db, Plan, market, trial}
use ctreader.Subscriptions.Presets.{plan_tag}
use ctreader.Safety.{assert_trading_open, halt, resume}
use ctreader.Safety.Switch.{halt-resume_open}
use ctreader.Subscriptions.{
  granted, grant_to_user, current_for_user, of_user, is_current, assert_can_create_job,
  suspend_by_telegram_id,
}
use ctreader.Subscriptions.Checks.{MayCreate, assert_can_create_job_iff}
use ctreader.Subscriptions.Grants.{grant_current, grant_others}
use ctreader.Subscriptions.Suspension.{suspension_refuses}
use ctreader.Tests.Data.{cfg, user, db, trial_plan, full}

abbrev granted_db : Db
granted_db = (grant_to_user 20 1000 1 trial 7 "SYSTEM" 0 db).1

halt-resume_open_example :
    ((assert_trading_open cfg (halt none db).1).0 ≡ err (forbidden "Trading is halted"))
    × (((assert_trading_open cfg (resume db).1).0 ≡ ok tt) ↔ (cfg.trading_kill_switch ≡ false))
halt-resume_open_example = halt-resume_open cfg none db

-- The trial plan is found by its code.
plan_found : find_first (λ (p : Plan). plan_tag p.code == plan_tag trial) db.plans ≡ some trial_plan
unfolding find_first
plan_found = refl

grant_current_example :
    ((current_for_user 2000 1 granted_db).0 ≡ ok (some (granted 20 1000 1 trial 7 trial_plan)))
    × ((granted 20 1000 1 trial 7 trial_plan).entitlement ≡ some full)
    × (count (of_user 1 is_current) granted_db.subscriptions ≡ 1)
grant_current_example =
    grant_current 20 1000 1 trial 7 "SYSTEM" 0 db trial_plan plan_found 2000 (omega arith)

grant_others_example :
    count (of_user 2 is_current) granted_db.subscriptions
    ≡ count (of_user 2 is_current) db.subscriptions
grant_others_example =
    grant_others 20 1000 1 trial 7 "SYSTEM" 0 db trial_plan plan_found 2 (omega arith)

-- The trial does not cover a live account.
assert_can_create_job_iff_example :
    ((assert_can_create_job cfg 2000 1 market true none granted_db).0 ≡ ok tt)
    ↔ MayCreate cfg 2000 1 market true none granted_db
assert_can_create_job_iff_example = assert_can_create_job_iff cfg 2000 1 market true none granted_db

trial_is_not_live :
    (assert_can_create_job cfg 2000 1 market true none granted_db).0
    ≡ err (forbidden "PLAN_LIMIT: live trading is not included")
unfolding assert_can_create_job current_for_user grant_to_user find_first update_many
trial_is_not_live = refl

suspension_refuses_example :
    (assert_can_create_job cfg 2000 1 market false none
      (suspend_by_telegram_id 42 9 granted_db).1).0
    ≡ err (forbidden "SUBSCRIPTION_REQUIRED: active subscription is required")
unfolding suspend_by_telegram_id grant_to_user find_first update_many count
suspension_refuses_example =
    suspension_refuses 42 9 granted_db user refl cfg 2000 market false none refl (omega arith) refl
