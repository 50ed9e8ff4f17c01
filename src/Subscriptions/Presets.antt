-- ===== src/Subscriptions/Presets.antt =====
-- src/subscriptions/subscription-presets.ts, and `ensurePlans`, which stores the presets. Prices
-- are in dollars, lots in steps of 0.0001.
use ctreader.Prelude.{
  ℕ, String, Bool, true, false, Option, none, some, List, ◌∷◌, ◌==◌, Exec, find_first, update_many,
  modify,
}
use ctreader.Schema.{Db, Plan, Entitlement, SubscriptionPlanCode, trial, basic, pro}

abbrev pub plan_tag : SubscriptionPlanCode → ℕ
plan_tag trial = 0
plan_tag basic = 1
plan_tag pro = 2

abbrev pub duration_days : SubscriptionPlanCode → ℕ
duration_days trial = 7
duration_days basic = 30
duration_days pro = 30

unfoldable pub preset_entitlement : SubscriptionPlanCode → Entitlement
preset_entitlement trial = record {
  market_enabled = true;
  oco_enabled = true;
  multi_enabled = true;
  news_reversal_enabled = true;
  live_trading_enabled = false;
  max_accounts = 1;
  max_lot = 100;
}
preset_entitlement basic = record {
  market_enabled = true;
  oco_enabled = true;
  multi_enabled = false;
  news_reversal_enabled = false;
  live_trading_enabled = true;
  max_accounts = 1;
  max_lot = 1000;
}
preset_entitlement pro = record {
  market_enabled = true;
  oco_enabled = true;
  multi_enabled = true;
  news_reversal_enabled = true;
  live_trading_enabled = true;
  max_accounts = 3;
  max_lot = 10000;
}

preset_name : SubscriptionPlanCode → String
preset_name trial = "Trial"
preset_name basic = "Basic"
preset_name pro = "Pro"

preset_price : SubscriptionPlanCode → ℕ
preset_price trial = 0
preset_price basic = 19
preset_price pro = 39

-- The row that holds a plan's preset, under the given id.
unfoldable pub preset_plan : ℕ → SubscriptionPlanCode → Plan
unfolding preset_name preset_price preset_entitlement
preset_plan id code = record {
  id = id;
  code = code;
  name = preset_name code;
  price_usd = preset_price code;
  duration_days = duration_days code;
  allows = preset_entitlement code;
}

abbrev pub has_code : SubscriptionPlanCode → Plan → Bool
has_code code p = plan_tag p.code == plan_tag code

upsert_rows : ℕ → SubscriptionPlanCode → List Plan → Option Plan → List Plan
unfolding preset_plan
upsert_rows id code plans none = preset_plan id code ∷ plans
upsert_rows id code plans (some p) = update_many (has_code code) (λ r. preset_plan r.id code) plans

unfoldable pub upsert_plan :
    (SubscriptionPlanCode → ℕ) → SubscriptionPlanCode → List Plan → List Plan
unfolding upsert_rows
upsert_plan new_id code plans =
    upsert_rows (new_id code) code plans (find_first (has_code code) plans)

-- `ensurePlans`: each preset is inserted, or written over the row of its code.
unfoldable pub ensure_plans : (SubscriptionPlanCode → ℕ) → Exec Db (Unit {0})
unfolding upsert_plan
ensure_plans new_id = modify λ db. record db {
  plans = upsert_plan new_id pro (upsert_plan new_id basic (upsert_plan new_id trial db.plans));
}
