-- ===== src/TradeJobs/Create/Safe.antt =====
-- What a job that `createForTelegramUser` makes has passed.
use ctreader.Prelude.{
  ℕ, ◌+◌, ◌≤◌, ◌<◌, ◌≡◌, refl, ◌⊎◌, inl, inr, Bool, true, false, not, none, some, List, ◌∷◌, ◌++◌,
  arith, All, ok, is_some, or_else, find_first, count, Option-cases, ◌==◌,
}
use ctreader.Config.{Config}
use ctreader.Schema.{Db, User, UserSettings, TradeJob, news_reversal}
use ctreader.TradeJobs.State.{scheduled}
use ctreader.TradeJobs.Dto.{CreateTradeJobDto}
use ctreader.TradeJobs.Create.{
  CreateEnv, find_user, select_account, resolve_time, check_active_count, new_job, find_or_store,
  create_for_telegram_user, is_active_of,
}
use ctreader.TradeJobs.Create.Checks.{
  Account, owner, is_real, ltb_optional, real_checks, mode_checks, validate_risk, big_int,
}
use ctreader.TradeJobs.Create.Trace.{Trace, create-Trace}
use ctreader.TradeJobs.Create.Rows.{
  IsUserOf, IsAccountOf, find_user_row, select_account_found, account_row,
}

-- A new job, with the rows of the user, the settings and the account that it is for, and the
-- database `t` that holds it.
pub record IsSafe (cfg : Config) (env : CreateEnv) (telegram_id : List ℕ) (db : Db) (job : TradeJob)
    (t : Db) : Type 0 where
  pub user : User
  pub settings : UserSettings
  pub account : Account
  pub known_user : IsUserOf telegram_id db user
  pub own : job.user_id ≡ user.id
  pub own_settings :
      find_first (λ (s : UserSettings). s.user_id == job.user_id) db.settings ≡ some settings
  pub for_account : IsAccountOf job db account
  pub added : t.jobs ≡ job ∷ db.jobs
  pub new_key :
      find_first (λ (j : TradeJob). j.idempotency_key == job.idempotency_key) db.jobs ≡ none
  pub starts_scheduled : job.status ≡ scheduled
  pub ahead : env.now + 20000 ≤ job.execute_at
  pub lot_limit : (lot : ℕ) → job.terms.fixed_lot ≡ some lot → lot ≤ cfg.max_fixed_lot
  pub percent_limit : (p : ℕ) → job.terms.risk_percent ≡ some p → p ≤ cfg.max_risk_percent
  pub one_measure : is_some job.terms.fixed_lot ≡ not (is_some job.terms.risk_percent)
  pub room : count (is_active_of job.user_id) t.jobs ≤ settings.max_concurrent_jobs
  pub owned : owner account ≡ job.user_id
  pub real_allowed :
      is_real account ≡ true
      → (cfg.allow_real_trading ≡ true) × (settings.real_trading_enabled ≡ true)
  pub targets_rise :
      job.terms.execution_mode ≡ news_reversal
      → (ltb_optional (some job.terms.take_profit_points) job.terms.take_profit2_points ≡ true)
        × (ltb_optional job.terms.take_profit2_points job.terms.take_profit3_points ≡ true)

-- What each step of a call gives.
resolve_time_ahead :
    (now : ℕ) (dto : CreateTradeJobDto) (db d : Db) (at : ℕ)
    → resolve_time now dto db ≡ (ok at, d)
    → now + 20000 ≤ at
unfolding resolve_time
resolve_time_ahead now dto db d at h = ground arith

pub check_active_count_room :
    (user : User) (settings : UserSettings) (db d : Db)
    → check_active_count user settings db ≡ (ok tt, d)
    → count (is_active_of user.id) db.jobs < settings.max_concurrent_jobs
unfolding check_active_count
check_active_count_room user settings db d h = ground arith

pub find_user_settings :
    (telegram_id : List ℕ) (user : User) (settings : UserSettings) (db d : Db)
    → find_user telegram_id db ≡ (ok (user, settings), d)
    → find_first (λ (s : UserSettings). s.user_id == user.id) db.settings ≡ some settings
unfolding find_user
find_user_settings telegram_id user settings db d h = ground arith

select_account-owner :
    (dto : CreateTradeJobDto) (user : User) (account : Account) (db d : Db)
    → select_account dto user db ≡ (ok account, d)
    → owner account ≡ user.id
unfolding select_account
select_account-owner dto user account db d h = ground arith

checks_real :
    (cfg : Config) (dto : CreateTradeJobDto) (settings : UserSettings) (account : Account)
    → All (λ c. c.0 ≡ false) (real_checks cfg settings account ++ mode_checks dto account)
    → is_real account ≡ true
    → (cfg.allow_real_trading ≡ true) × (settings.real_trading_enabled ≡ true)
unfolding real_checks
checks_real cfg dto settings account h r = ground arith

checks_targets :
    (cfg : Config) (dto : CreateTradeJobDto) (settings : UserSettings) (account : Account)
    → All (λ c. c.0 ≡ false) (real_checks cfg settings account ++ mode_checks dto account)
    → dto.execution_mode ≡ news_reversal
    → (ltb_optional (some dto.take_profit_points) dto.take_profit2_points ≡ true)
      × (ltb_optional dto.take_profit2_points dto.take_profit3_points ≡ true)
unfolding real_checks mode_checks
checks_targets cfg dto settings account h m = ground arith

risk_lot :
    (cfg : Config) (dto : CreateTradeJobDto)
    → All (λ c. c.0 ≡ false) (validate_risk cfg dto)
    → (lot : ℕ) → dto.fixed_lot ≡ some lot
    → lot ≤ cfg.max_fixed_lot
unfolding validate_risk
risk_lot cfg dto h lot e = ground arith

risk_percentage :
    (cfg : Config) (dto : CreateTradeJobDto)
    → All (λ c. c.0 ≡ false) (validate_risk cfg dto)
    → (p : ℕ) → dto.risk_percent ≡ some p
    → p ≤ cfg.max_risk_percent
unfolding validate_risk
risk_percentage cfg dto h p e = ground arith

risk_measure :
    (cfg : Config) (dto : CreateTradeJobDto)
    → All (λ c. c.0 ≡ false) (validate_risk cfg dto)
    → is_some dto.fixed_lot ≡ not (is_some dto.risk_percent)
unfolding validate_risk
risk_measure cfg dto h = ground arith

-- The two ways for the last step to return.
pub find_or_store_cases :
    (user : User) (fresh job : TradeJob) (actor : ℕ) (db t : Db)
    → find_or_store user fresh actor db ≡ (ok job, t)
    → ((t ≡ db)
        × (job.user_id ≡ user.id)
        × (find_first (λ (j : TradeJob). j.idempotency_key == fresh.idempotency_key) db.jobs
            ≡ some job))
      ⊎ ((job ≡ fresh)
          × (t.jobs ≡ fresh ∷ db.jobs)
          × (find_first (λ (j : TradeJob). j.idempotency_key == fresh.idempotency_key) db.jobs
              ≡ none))
unfolding find_or_store
find_or_store_cases user fresh job actor db t h =
    elim (Option-cases
      (find_first (λ (j : TradeJob). j.idempotency_key == fresh.idempotency_key) db.jobs)) [
        | inl missing ↦ inr (ground arith, ground arith, missing)
        | inr (j, found) ↦ inl (ground arith, ground arith, ground arith)
      ]

count_added :
    (p : TradeJob → Bool) (j : TradeJob) (js ks : List TradeJob) (limit : ℕ)
    → ks ≡ j ∷ js
    → count p js < limit
    → count p ks ≤ limit
unfolding count
count_added p j js ks limit e h = rw e (ground arith)

-- A job of the same key that was there before, of the same user.
pub record IsExisting (telegram_id : List ℕ) (key : ℕ) (db : Db) (job : TradeJob) (t : Db)
    : Type 0 where
  pub user : User
  pub known_user : IsUserOf telegram_id db user
  pub own : job.user_id ≡ user.id
  pub unchanged : t.jobs ≡ db.jobs
  pub known_key : find_first (λ (j : TradeJob). j.idempotency_key == key) db.jobs ≡ some job

module _ (cfg : Config) (env : CreateEnv) (telegram_id : List ℕ) (dto : CreateTradeJobDto) (db : Db)
    (job : TradeJob) (t : Db) where
  stored_IsSafe :
      (r : Trace cfg env telegram_id dto db job t)
      → job
        ≡ new_job cfg env dto r.user r.settings r.account r.execute_at
            (or_else dto.idempotency_key env.random_key)
      → t.jobs ≡ job ∷ r.subscribed.jobs
      → find_first
          (λ (j : TradeJob). j.idempotency_key == or_else dto.idempotency_key env.random_key)
          r.subscribed.jobs
        ≡ none
      → IsSafe cfg env telegram_id db job t
  unfolding new_job
  stored_IsSafe r e added missing = rw e (record {
    settings = r.settings;
    account = r.account;
    added = ground (arith, r.same_jobs);
    new_key = rw (← r.same_jobs.0) missing;
    starts_scheduled = refl;
    ahead = resolve_time_ahead env.now dto r.subscribed r.subscribed r.execute_at r.times;
    lot_limit = risk_lot cfg dto r.risks;
    percent_limit = risk_percentage cfg dto r.risks;
    one_measure = risk_measure cfg dto r.risks;
    user = r.user;
    known_user =
        rw (← r.opened_owners.0)
          (find_user_row telegram_id r.user r.settings r.opened r.opened r.finds_user);
    own = refl;
    own_settings =
        rw (← r.opened_jobs.1)
          (find_user_settings telegram_id r.user r.settings r.opened r.opened r.finds_user);
    for_account =
        account_row cfg env dto r.user r.settings r.account r.execute_at
          (or_else dto.idempotency_key env.random_key) db r.opened r.opened_owners
          (select_account_found dto r.user r.account r.opened r.opened r.selects);
    room =
        count_added (is_active_of r.user.id) job r.subscribed.jobs t.jobs
          r.settings.max_concurrent_jobs added
          (check_active_count_room r.user r.settings r.subscribed r.subscribed r.counts);
    owned = select_account-owner dto r.user r.account r.opened r.opened r.selects;
    real_allowed = checks_real cfg dto r.settings r.account r.checks;
    targets_rise = checks_targets cfg dto r.settings r.account r.checks;
  })

  -- A call of `createForTelegramUser` that returns, returns the earlier job of the same key of the
  -- Telegram id's user and adds none, or adds one job for that user's row, settings and account as
  -- they stand in the database, and that one is safe: it is scheduled at least twenty seconds
  -- ahead, by a fixed lot or by a percentage, within the system's limit of it, on an account of
  -- its user, on a real account only where the system and the user allow that, with rising
  -- targets in the mode NEWS_REVERSAL, and its user has no more active jobs than the settings
  -- allow.
  pub create-IsSafe :
      create_for_telegram_user cfg env telegram_id dto db ≡ (ok job, t)
      → IsExisting telegram_id (or_else dto.idempotency_key env.random_key) db job t
        ⊎ IsSafe cfg env telegram_id db job t
  unfolding new_job
  create-IsSafe h =
      let r = create-Trace cfg env telegram_id dto db job t h in
      elim (find_or_store_cases r.user _ job (big_int telegram_id) r.subscribed t r.stores) [
        | inl (same, own, found) ↦ inl (record {
          user = r.user;
          known_user =
              rw (← r.opened_owners.0)
                (find_user_row telegram_id r.user r.settings r.opened r.opened r.finds_user);
          own = own;
          unchanged = ground (arith, r.same_jobs);
          known_key = rw (← r.same_jobs.0) found;
        })
        | inr (is_new, added, missing) ↦ inr (stored_IsSafe r is_new (ground arith) missing)
      ]
