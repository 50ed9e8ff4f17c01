-- ===== src/TradeJobs/Create/Errors.antt =====
-- What a call of `createForTelegramUser` that throws leaves behind, and when it throws although
-- the job is there already.
use ctreader.Prelude.{
  ℕ, ◌<◌, ◌≡◌, ap, inl, inr, ◌∙◌, some, List, ◌++◌, arith, Exec, Exception, Result, ok, err,
  run_checks, run_checks_reads, ◌>>=◌, find_first, count, ◌==◌, continue,
}
use ctreader.Config.{Config}
use ctreader.Schema.{Db, User, UserSettings, TradeJob}
use ctreader.Safety.{assert_trading_open}
use ctreader.TradeJobs.Dto.{CreateTradeJobDto}
use ctreader.TradeJobs.Create.{
  CreateEnv, find_user, select_account, check_subscription, resolve_time, check_active_count,
  new_job, find_or_store, create_for_telegram_user, is_active_of,
}
use ctreader.TradeJobs.Create.Checks.{real_checks, mode_checks, validate_risk, big_int}
use ctreader.TradeJobs.Create.Trace.{
  Trace, create-Trace, find_user_reads, select_account_reads, resolve_time_reads,
  check_active_count_reads, assert_trading_open_jobs, check_subscription_jobs,
}
use ctreader.TradeJobs.Create.Safe.{
  find_or_store_cases, check_active_count_room, find_user_settings,
}

-- The action adds no job, whatever it does; and: it adds none when it throws.
abbrev KeepsJobs : {A : Type 0} → Exec Db A → Type 0
KeepsJobs m = (db : Db) → (m db).1.jobs ≡ db.jobs

abbrev KeepsOnThrow : {A : Type 0} → Exec Db A → Type 0
KeepsOnThrow m = (db : Db) (x : Exception) → (m db).0 ≡ err x → (m db).1.jobs ≡ db.jobs

module _ {A B : Type 0} where
  continue_throw :
      (f : A → Exec Db B) (r : Result A × Db) (js : List TradeJob)
      → r.1.jobs ≡ js
      → ((a : A) → KeepsOnThrow (f a))
      → (x : Exception) → (continue f r).0 ≡ err x
      → (continue f r).1.jobs ≡ js
  continue_throw f (ok a, db) js same rest x e = rest a db x e ∙ same
  continue_throw f (err y, db) js same rest x e = same

  throw-bind :
      (m : Exec Db A) (f : A → Exec Db B)
      → KeepsJobs m
      → ((a : A) → KeepsOnThrow (f a))
      → KeepsOnThrow (m >>= f)
  throw-bind m f same rest db x e = continue_throw f (m db) db.jobs (same db) rest x e

find_or_store_throw :
    (user : User) (job : TradeJob) (actor : ℕ) → KeepsOnThrow (find_or_store user job actor)
unfolding find_or_store
find_or_store_throw user job actor db x e = ground arith

-- A call that throws has added no job and changed none.
pub create_throw :
    (cfg : Config) (env : CreateEnv) (telegram_id : List ℕ) (dto : CreateTradeJobDto) (db : Db)
    (x : Exception)
    → (create_for_telegram_user cfg env telegram_id dto db).0 ≡ err x
    → (create_for_telegram_user cfg env telegram_id dto db).1.jobs ≡ db.jobs
unfolding create_for_telegram_user
create_throw cfg env telegram_id dto =
    throw-bind (assert_trading_open cfg) _ (λ d. (assert_trading_open_jobs cfg d).0)
      λ _.
        throw-bind (find_user telegram_id) _ (λ d. ap (λ r. r.jobs) (find_user_reads telegram_id d))
          λ found.
            throw-bind (select_account dto found.0) _
              (λ d. ap (λ r. r.jobs) (select_account_reads dto found.0 d))
              λ account.
                throw-bind (check_subscription cfg env dto found.0 account) _
                  (λ d. (check_subscription_jobs cfg env dto found.0 account d).0)
                  λ _.
                    throw-bind
                      (run_checks (real_checks cfg found.1 account ++ mode_checks dto account)) _
                      (λ d.
                        ap (λ r. r.jobs)
                          (run_checks_reads
                            (real_checks cfg found.1 account ++ mode_checks dto account) d))
                      λ _.
                        throw-bind (resolve_time env.now dto) _
                          (λ d. ap (λ r. r.jobs) (resolve_time_reads env.now dto d))
                          λ execute_at.
                            throw-bind (run_checks (validate_risk cfg dto)) _
                              (λ d. ap (λ r. r.jobs) (run_checks_reads (validate_risk cfg dto) d))
                              λ _.
                                throw-bind (check_active_count found.0 found.1) _
                                  (λ d.
                                    ap (λ r. r.jobs) (check_active_count_reads found.0 found.1 d))
                                  λ _. find_or_store_throw found.0 _ (big_int telegram_id)

stored_user :
    {cfg : Config} {env : CreateEnv} {telegram_id : List ℕ} {dto : CreateTradeJobDto} {db : Db}
    {job : TradeJob} {t : Db} (r : Trace cfg env telegram_id dto db job t)
    → job.user_id ≡ r.user.id
unfolding new_job
stored_user {telegram_id} {job} {t} r =
    elim (find_or_store_cases r.user _ job (big_int telegram_id) r.subscribed t r.stores) [
      | inl (_, same_user, _) ↦ same_user
      | inr (is_new, _, _) ↦ ap (λ j. j.user_id) is_new
    ]

-- A call returns only where its user has fewer active jobs than the settings allow. This holds for
-- a retry too: the limit is looked at before the idempotency key.
pub create_needs_room :
    (cfg : Config) (env : CreateEnv) (telegram_id : List ℕ) (dto : CreateTradeJobDto) (db : Db)
    (job : TradeJob) (t : Db)
    → create_for_telegram_user cfg env telegram_id dto db ≡ (ok job, t)
    → (user : User) × (settings : UserSettings) × (find_first
          (λ (s : UserSettings). s.user_id == user.id)
          db.settings
        ≡ some settings)
      × (job.user_id ≡ user.id)
      × (count (is_active_of user.id) db.jobs < settings.max_concurrent_jobs)
create_needs_room cfg env telegram_id dto db job t h =
    let r = create-Trace cfg env telegram_id dto db job t h in
    (
      r.user,
      r.settings,
      rw (← r.opened_jobs.1)
          (find_user_settings telegram_id r.user r.settings r.opened r.opened r.finds_user),
      stored_user r,
      rw (← r.same_jobs.0)
          (check_active_count_room r.user r.settings r.subscribed r.subscribed r.counts),
    )
