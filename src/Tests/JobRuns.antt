-- ===== src/Tests/JobRuns.antt =====
-- Creating and cancelling a job of the sample user.
use ctreader.Prelude.{
  ◌≡◌, refl, ◌<◌, ◌⊎◌, true, some, arith, ok, err, Result, conflict, count, find_first, update_many,
  ◌==◌, [], ◌∷◌,
}
use ctreader.Schema.{Db, User, UserSettings, TradeJob}
use ctreader.TradeJobs.Lawful.{IsLawful, HasUniqueIds}
use ctreader.TradeJobs.Dto.{in_declared_ranges}
use ctreader.TradeJobs.Create.{
  CreateEnv, create_for_telegram_user, find_user, select_account, check_subscription, resolve_time,
  check_active_count, find_or_store, new_job, is_active_of,
}
use ctreader.TradeJobs.Create.Checks.{
  find_account, account_checks, real_checks, mode_checks, validate_risk, is_telegram_id, big_int,
}
use ctreader.TradeJobs.Create.Safe.{IsSafe, IsExisting, create-IsSafe}
use ctreader.TradeJobs.Create.Errors.{create_throw, create_needs_room}
use ctreader.TradeJobs.Cancel.{cancel_for_telegram_user}
use ctreader.TradeJobs.Cancel.Window.{cancel-IsLawful}
use ctreader.Safety.{assert_trading_open}
use ctreader.Subscriptions.{ensure_trial, assert_can_create_job, current_for_user}
use ctreader.Tests.Data.{cfg, env, telegram_text, dto, db, created, user, settings}

-- The row that the call creates.
abbrev job : TradeJob
job =
    new_job cfg env dto user settings
      (ctreader.TradeJobs.Create.Checks.mt5_account ctreader.Tests.Data.account) 100000 77

dto_in_ranges : in_declared_ranges dto ≡ true
unfolding in_declared_ranges
dto_in_ranges = refl

creates : create_for_telegram_user cfg env telegram_text dto db ≡ (ok job, created)
unfolding create_for_telegram_user find_user select_account check_subscription resolve_time
    check_active_count find_or_store new_job find_account account_checks real_checks mode_checks
    validate_risk is_telegram_id big_int assert_trading_open ensure_trial assert_can_create_job
    current_for_user find_first count update_many
creates = refl

create-IsSafe_example :
    IsExisting telegram_text 77 db job created ⊎ IsSafe cfg env telegram_text db job created
create-IsSafe_example = create-IsSafe cfg env telegram_text dto db job created creates

-- At the user's limit of one job the retry of the same request, with its idempotency key, throws.
abbrev retry : Result TradeJob × Db
retry =
    create_for_telegram_user cfg (record env { now = 2000; job_id = 31 }) telegram_text dto created

retry_refused : retry.0 ≡ err (conflict "Maximum number of concurrent news jobs reached")
unfolding create_for_telegram_user find_user select_account check_subscription resolve_time
    check_active_count find_or_store new_job find_account account_checks real_checks mode_checks
    validate_risk is_telegram_id big_int assert_trading_open ensure_trial assert_can_create_job
    current_for_user find_first count update_many
retry_refused = refl

create_throw_example : retry.1.jobs ≡ created.jobs
create_throw_example =
    create_throw cfg (record env { now = 2000; job_id = 31 }) telegram_text dto created _
      retry_refused

create_needs_room_example :
    (u : User) × (s : UserSettings) × (find_first
        (λ (r : UserSettings). r.user_id == u.id)
        db.settings
      ≡ some s)
    × (job.user_id ≡ u.id)
    × (count (is_active_of u.id) db.jobs < s.max_concurrent_jobs)
create_needs_room_example = create_needs_room cfg env telegram_text dto db job created creates

-- The job is due at 100000 ms and armed ten seconds before: it may be cancelled until then.
abbrev with_job : Db
with_job = record db { jobs = job ∷ [] }

abbrev cancelled_job : Result TradeJob × Db
cancelled_job = cancel_for_telegram_user 89999 42 30 with_job

cancel_too_late :
    (cancel_for_telegram_user 90000 42 30 with_job).0
    ≡ err (conflict "Job is already inside its armed execution window")
unfolding cancel_for_telegram_user find_first update_many new_job
cancel_too_late = refl

unique : HasUniqueIds with_job.jobs
unfolding count
unique k = ground arith

cancel-IsLawful_example : IsLawful with_job.jobs cancelled_job.1.jobs
cancel-IsLawful_example = cancel-IsLawful 89999 42 30 with_job unique
