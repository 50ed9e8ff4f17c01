-- ===== src/TradeJobs/Create/Trace.antt =====
-- The steps behind a call of `createForTelegramUser` that returns.
use ctreader.Prelude.{
  ℕ, ◌≡◌, Bool, false, Option, List, ◌++◌, arith, All, Result, ok, or_else, >>=-split, read-split,
  checks-split,
}
use ctreader.Config.{Config}
use ctreader.Schema.{Db, User, UserSettings, TradeJob, ExecutionMode}
use ctreader.Safety.{assert_trading_open}
use ctreader.Subscriptions.{ensure_trial, assert_can_create_job, current_for_user}
use ctreader.TradeJobs.Dto.{CreateTradeJobDto}
use ctreader.TradeJobs.Create.{
  CreateEnv, find_user, select_account, check_subscription, resolve_time, check_active_count,
  new_job, find_or_store, lot_to_check, create_for_telegram_user,
}
use ctreader.TradeJobs.Create.Checks.{
  Account, is_real, real_checks, mode_checks, validate_risk, account_checks, big_int,
}

-- Reads leave the database alone.
pub find_user_reads : (telegram_id : List ℕ) (db : Db) → (find_user telegram_id db).1 ≡ db
unfolding find_user
find_user_reads telegram_id db = ground arith

pub resolve_time_reads :
    (now : ℕ) (dto : CreateTradeJobDto) (db : Db) → (resolve_time now dto db).1 ≡ db
unfolding resolve_time
resolve_time_reads now dto db = ground arith

pub check_active_count_reads :
    (user : User) (settings : UserSettings) (db : Db) → (check_active_count user settings db).1 ≡ db
unfolding check_active_count
check_active_count_reads user settings db = ground arith

pub select_account_reads :
    (dto : CreateTradeJobDto) (user : User) (db : Db) → (select_account dto user db).1 ≡ db
unfolding select_account account_checks
select_account_reads dto user db = ground arith

-- The safety and subscription services leave the jobs and the settings alone.
abbrev pub SameJobs : Db → Db → Type 0
SameJobs d e = (e.jobs ≡ d.jobs) × (e.settings ≡ d.settings)

-- The switch is read without a change of users and accounts.
abbrev pub SameOwners : Db → Db → Type 0
SameOwners d e =
    (e.users ≡ d.users)
    × (e.accounts ≡ d.accounts)
    × (e.ctrader_accounts ≡ d.ctrader_accounts)
    × (e.cbots ≡ d.cbots)

assert_trading_open_owners : (cfg : Config) (db : Db) → SameOwners db (assert_trading_open cfg db).1
unfolding assert_trading_open
assert_trading_open_owners cfg db = ground arith

owners_after :
    (r : Result (Unit {0}) × Db) (db d : Db) → SameOwners db r.1 → r ≡ (ok tt, d) → SameOwners db d
owners_after r db d same is_d = ground arith

pub assert_trading_open_jobs : (cfg : Config) (db : Db) → SameJobs db (assert_trading_open cfg db).1
unfolding assert_trading_open
assert_trading_open_jobs cfg db = ground arith

current_for_user_jobs :
    (now user_id : ℕ) (db : Db) → SameJobs db (current_for_user now user_id db).1
unfolding current_for_user
current_for_user_jobs now user_id db = ground arith

ensure_trial_jobs : (id now user_id : ℕ) (db : Db) → SameJobs db (ensure_trial id now user_id db).1
unfolding ensure_trial
ensure_trial_jobs id now user_id db = ground arith

assert_can_create_job_jobs :
    (cfg : Config) (now user_id : ℕ) (mode : ExecutionMode) (is_live : Bool) (lot : Option ℕ)
    (db : Db)
    → SameJobs db (assert_can_create_job cfg now user_id mode is_live lot db).1
unfolding assert_can_create_job
assert_can_create_job_jobs cfg now user_id mode is_live lot db =
    ground (arith, current_for_user_jobs now user_id db)

-- Every step of a call that returns, with the database that it found.
pub record Trace (cfg : Config) (env : CreateEnv) (telegram_id : List ℕ) (dto : CreateTradeJobDto)
    (db : Db) (job : TradeJob) (t : Db) : Type 0 where
  pub opened : Db
  pub subscribed : Db
  pub user : User
  pub settings : UserSettings
  pub account : Account
  pub execute_at : ℕ
  pub opens : assert_trading_open cfg db ≡ (ok tt, opened)
  pub finds_user : find_user telegram_id opened ≡ (ok (user, settings), opened)
  pub selects : select_account dto user opened ≡ (ok account, opened)
  pub subscribes : check_subscription cfg env dto user account opened ≡ (ok tt, subscribed)
  pub checks : All (λ c. c.0 ≡ false) (real_checks cfg settings account ++ mode_checks dto account)
  pub times : resolve_time env.now dto subscribed ≡ (ok execute_at, subscribed)
  pub risks : All (λ c. c.0 ≡ false) (validate_risk cfg dto)
  pub counts : check_active_count user settings subscribed ≡ (ok tt, subscribed)
  pub stores :
      find_or_store user
        (new_job cfg env dto user settings account execute_at
          (or_else dto.idempotency_key env.random_key))
        (big_int telegram_id)
        subscribed
      ≡ (ok job, t)
  pub opened_jobs : SameJobs db opened
  pub opened_owners : SameOwners db opened
  pub same_jobs : SameJobs db subscribed

pub check_subscription_jobs :
    (cfg : Config) (env : CreateEnv) (dto : CreateTradeJobDto) (user : User) (account : Account)
    (db : Db)
    → SameJobs db (check_subscription cfg env dto user account db).1
unfolding check_subscription
check_subscription_jobs cfg env dto user account db = ground (
  arith,
  ensure_trial_jobs env.trial_id env.now user.id db,
  assert_can_create_job_jobs cfg env.now user.id dto.execution_mode (is_real account)
      (lot_to_check dto) (ensure_trial env.trial_id env.now user.id db).1,
)

jobs_after :
    (r : Result (Unit {0}) × Db) (db d : Db) → SameJobs db r.1 → r ≡ (ok tt, d) → SameJobs db d
jobs_after r db d same is_d = ground arith

-- Two writes in a row that leave the jobs alone.
both_jobs :
    (r r' : Result (Unit {0}) × Db) (db d e : Db)
    → SameJobs db r.1
    → r ≡ (ok tt, d)
    → SameJobs d r'.1
    → r' ≡ (ok tt, e)
    → SameJobs db e
both_jobs r r' db d e first is_d second is_e = ground arith

pub create-Trace :
    (cfg : Config) (env : CreateEnv) (telegram_id : List ℕ) (dto : CreateTradeJobDto) (db : Db)
    (job : TradeJob) (t : Db)
    → create_for_telegram_user cfg env telegram_id dto db ≡ (ok job, t)
    → Trace cfg env telegram_id dto db job t
unfolding create_for_telegram_user
create-Trace cfg env telegram_id dto db job t h =
    >>=-split (assert_trading_open cfg) _ db h λ _ d opens h1.
      read-split (find_user telegram_id) _ d (find_user_reads telegram_id d) h1 λ found finds h2.
        let user = found.0 in
        let settings = found.1 in
        read-split (select_account dto user) _ d (select_account_reads dto user d) h2
          λ account selects h3.
            >>=-split (check_subscription cfg env dto user account) _ d h3 λ _ e subscribes h4.
              checks-split (real_checks cfg settings account ++ mode_checks dto account) _ e h4
                λ checks h5.
                  read-split (resolve_time env.now dto) _ e (resolve_time_reads env.now dto e) h5
                    λ execute_at times h6. checks-split (validate_risk cfg dto) _ e h6 λ risks h7.
                      read-split (check_active_count user settings) _ e
                        (check_active_count_reads user settings e) h7
                        λ _ counts stores. record {
                          opened = d;
                          subscribed = e;
                          user = user;
                          settings = settings;
                          account = account;
                          execute_at = execute_at;
                          opens = opens;
                          finds_user = finds;
                          selects = selects;
                          subscribes = subscribes;
                          checks = checks;
                          times = times;
                          risks = risks;
                          counts = counts;
                          stores = stores;
                          opened_owners =
                              owners_after (assert_trading_open cfg db) db d
                                (assert_trading_open_owners cfg db) opens;
                          opened_jobs =
                              jobs_after (assert_trading_open cfg db) db d
                                (assert_trading_open_jobs cfg db) opens;
                          same_jobs =
                              both_jobs (assert_trading_open cfg db)
                                (check_subscription cfg env dto user account d) db d e
                                (assert_trading_open_jobs cfg db) opens
                                (check_subscription_jobs cfg env dto user account d) subscribes;
                        }
