-- ===== src/Subscriptions.antt =====
-- src/subscriptions/subscriptions.service.ts: granting, suspending and reading subscriptions, and
-- the checks that a plan's entitlement makes. Calls that create a row are handed its new id.
pub mod Presets
pub mod Queries
pub mod Checks
pub mod Grants
pub mod Suspension
use ctreader.Prelude.{
  ℕ, ◌+◌, ◌*◌, String, Bool, true, false, ◌&&◌, ◌||◌, not, Option, none, some, List, [], ◌∷◌, ◌==◌,
  ltb, leb, if◌then◌else◌, or_else, Exec, Result, ok, err, forbidden, not_found, pure, throw, skip,
  gets, modify, require, throw_if, transaction, ◌>>=◌, ◌>>◌, find_first, update_many, count,
}
use ctreader.Config.{Config}
use ctreader.Schema.{
  Db, User, Plan, Subscription, Entitlement, SubscriptionStatus, SubscriptionPlanCode,
  SubscriptionAudit, ExecutionMode, CtraderAccountEnvironment, CbotInstance, CbotInstanceStatus,
  trial, active, past_due, expired, canceled, suspended, market, straddle, multi, news_reversal,
  live, demo, revoked,
}
use Presets.{plan_tag, duration_days}

-- TRIAL, ACTIVE or PAST_DUE: what a new grant cancels and time lets expire.
abbrev pub is_current : SubscriptionStatus → Bool
is_current trial = true
is_current active = true
is_current past_due = true
is_current _ = false

-- What `currentForUser` looks for: those, and SUSPENDED.
abbrev pub is_listed : SubscriptionStatus → Bool
is_listed suspended = true
is_listed s = is_current s

-- TRIAL or ACTIVE: what gives access.
abbrev pub is_open : SubscriptionStatus → Bool
is_open trial = true
is_open active = true
is_open _ = false

abbrev pub of_user : ℕ → (SubscriptionStatus → Bool) → Subscription → Bool
of_user user_id test s = s.user_id == user_id && test s.status

pub expire : Subscription → Subscription
expire s = record s { status = expired }

pub settle : ℕ → Subscription → Exec Db (Option Subscription)
unfolding expire
settle now s =
    if is_current s.status && leb s.current_period_end now
    then (do
      modify λ db. record db {
        subscriptions = update_many (λ r. r.id == s.id) expire db.subscriptions;
      }
      pure (some (expire s)))
    else pure (some s)

-- `currentForUser`: a subscription whose period is over is marked EXPIRED on the way.
unfoldable pub current_for_user : ℕ → ℕ → Exec Db (Option Subscription)
unfolding settle
current_for_user now user_id = do
  found ← gets λ db. find_first (of_user user_id is_listed) db.subscriptions
  elim found [ none ↦ pure none | some s ↦ settle now s ]

cancel : ℕ → Subscription → Subscription
cancel now s = record s { status = canceled; canceled_at = some now }

is_trial : SubscriptionPlanCode → Bool
is_trial trial = true
is_trial _ = false

pub granted : ℕ → ℕ → ℕ → SubscriptionPlanCode → ℕ → Plan → Subscription
unfolding is_trial
granted id now user_id code days plan = record {
  id = id;
  user_id = user_id;
  plan_id = plan.id;
  status = if is_trial code then trial else active;
  starts_at = now;
  current_period_end = now + days * 86400000;
  canceled_at = none;
  entitlement = some plan.allows;
}

-- The writes of a grant: the user's current subscriptions are cancelled, and the new one stands
-- first.
pub store_grant : ℕ → ℕ → Subscription → String → ℕ → Db → Db
unfolding cancel
store_grant now user_id s actor_type actor_id db = record db {
  subscriptions = s ∷ update_many (of_user user_id is_current) (cancel now) db.subscriptions;
  subscription_audits =
      record {
        user_id = user_id;
        subscription_id = s.id;
        actor_type = actor_type;
        actor_id = actor_id;
        action = "SUBSCRIPTION_GRANTED";
      }
      ∷ db.subscription_audits;
}

unfoldable pub grant_to_user :
    ℕ → ℕ → ℕ → SubscriptionPlanCode → ℕ → String → ℕ → Exec Db Subscription
unfolding granted store_grant
grant_to_user id now user_id code days actor_type actor_id = do
  found ← gets λ db. find_first (λ (p : Plan). plan_tag p.code == plan_tag code) db.plans
  plan ← require (not_found "Plan not found") found
  let s = granted id now user_id code days plan
  transaction (do modify (store_grant now user_id s actor_type actor_id); pure s)

unfoldable pub grant_by_telegram_id :
    ℕ → ℕ → ℕ → SubscriptionPlanCode → Option ℕ → ℕ → Exec Db Subscription
unfolding grant_to_user
grant_by_telegram_id id now telegram_id code days actor_id = do
  found ← gets λ db. find_first (λ (u : User). u.telegram_id == telegram_id) db.users
  user ← require (not_found "Telegram user not found") found
  grant_to_user id now user.id code (or_else days (duration_days code)) "ADMIN" actor_id

-- Any subscription at all, also one that has ended, keeps a user from another trial.
unfoldable pub ensure_trial : ℕ → ℕ → ℕ → Exec Db Subscription
unfolding grant_to_user
ensure_trial id now user_id = do
  existing ← gets λ db. find_first (λ (s : Subscription). s.user_id == user_id) db.subscriptions
  elim existing [
    | some s ↦ pure s
    | none ↦ grant_to_user id now user_id trial (duration_days trial) "SYSTEM" 0
  ]

suspend_row : Subscription → Subscription
suspend_row s = record s { status = suspended }

pub store_suspension : Subscription → ℕ → Db → Db
unfolding suspend_row
store_suspension s actor_id db = record db {
  subscriptions = update_many (λ r. r.id == s.id) suspend_row db.subscriptions;
  subscription_audits =
      record {
        user_id = s.user_id;
        subscription_id = s.id;
        actor_type = "ADMIN";
        actor_id = actor_id;
        action = "SUBSCRIPTION_SUSPENDED";
      }
      ∷ db.subscription_audits;
}

unfoldable pub suspend_by_telegram_id : ℕ → ℕ → Exec Db (Unit {0})
unfolding store_suspension
suspend_by_telegram_id telegram_id actor_id = do
  found ← gets λ db. find_first (λ (u : User). u.telegram_id == telegram_id) db.users
  user ← require (not_found "Telegram user not found") found
  current ← gets λ db. find_first (of_user user.id is_current) db.subscriptions
  s ← require (not_found "Active subscription not found") current
  modify (store_suspension s actor_id)

abbrev pub allows_mode : Entitlement → ExecutionMode → Bool
allows_mode e market = e.market_enabled
allows_mode e straddle = e.oco_enabled
allows_mode e multi = e.multi_enabled
allows_mode e news_reversal = e.news_reversal_enabled

-- `fixedLot != null && fixedLot > limit`.
abbrev pub exceeds : Option ℕ → ℕ → Bool
exceeds none limit = false
exceeds (some lot) limit = ltb limit lot

-- The subscription's entitlement, if there is one that gives access.
abbrev pub open_entitlement : Option Subscription → Option Entitlement
open_entitlement none = none
open_entitlement (some s) = if is_open s.status then s.entitlement else none

pub check_plan : Entitlement → ExecutionMode → Bool → Option ℕ → Exec Db (Unit {0})
check_plan e mode is_live fixed_lot = do
  throw_if (not (allows_mode e mode)) (forbidden "PLAN_LIMIT: mode is not included")
  throw_if (is_live && not e.live_trading_enabled)
      (forbidden "PLAN_LIMIT: live trading is not included")
  throw_if (exceeds fixed_lot e.max_lot) (forbidden "PLAN_LIMIT: lot exceeds plan maximum")

unfoldable pub assert_can_create_job :
    Config → ℕ → ℕ → ExecutionMode → Bool → Option ℕ → Exec Db (Unit {0})
unfolding check_plan
assert_can_create_job cfg now user_id mode is_live fixed_lot =
    if not cfg.subscriptions_enforced then skip else (do
      subscription ← current_for_user now user_id
      e ←
          require (forbidden "SUBSCRIPTION_REQUIRED: active subscription is required")
            (open_entitlement subscription)
      check_plan e mode is_live fixed_lot)

is_revoked : CbotInstanceStatus → Bool
is_revoked revoked = true
is_revoked _ = false

-- The accounts that a user has connected.
abbrev pub connected : ℕ → CbotInstance → Bool
unfolding is_revoked
connected user_id c = c.user_id == user_id && not (is_revoked c.status)

abbrev is_live_account : CtraderAccountEnvironment → Bool
is_live_account live = true
is_live_account demo = false

unfoldable pub check_accounts : Entitlement → ℕ → CtraderAccountEnvironment → Exec Db (Unit {0})
check_accounts e user_id environment = do
  throw_if (is_live_account environment && not e.live_trading_enabled)
      (forbidden "PLAN_LIMIT: live cBot accounts are not included in this plan")
  n ← gets λ db. count (connected user_id) db.cbots
  throw_if (leb e.max_accounts n) (forbidden "PLAN_LIMIT: maximum connected account(s)")

unfoldable pub assert_can_pair_account :
    Config → ℕ → ℕ → CtraderAccountEnvironment → Exec Db (Unit {0})
unfolding check_accounts
assert_can_pair_account cfg now user_id environment =
    if not cfg.subscriptions_enforced then skip else (do
      subscription ← current_for_user now user_id
      e ←
          require (forbidden "SUBSCRIPTION_REQUIRED: active subscription is required")
            (open_entitlement subscription)
      check_accounts e user_id environment)
