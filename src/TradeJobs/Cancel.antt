-- ===== src/TradeJobs/Cancel.antt =====
-- `cancelForTelegramUser`, `requestCloseForTelegramUser` and `requestCloseAllForTelegramUser` of
-- src/trade-jobs/trade-jobs.service.ts. The clock is read once.
pub mod Window
use ctreader.Prelude.{
  ℕ, ◌+◌, ◌*◌, Bool, true, false, ◌&&◌, ◌||◌, not, Option, none, some, List, [], ◌∷◌, ◌==◌, leb,
  if◌then◌else◌, any, Exec, not_found, conflict, pure, gets, modify, require, throw_if, ◌>>=◌, ◌>>◌,
  find_first, update_many,
}
use ctreader.Schema.{
  Db, User, TradeJob, JobTimes, ExecutionVenue, mt5, ctrader, cbot, trade_job_cancelled,
}
use ctreader.TradeJobs.State.{includes, active_job_statuses, scheduled, synced, cancelled}

-- `{ id: jobId, user: { telegramId } }`.
abbrev pub is_job_of : ℕ → ℕ → Db → TradeJob → Bool
is_job_of telegram_id job_id db job =
    job.id == job_id && any (λ u. u.id == job.user_id && u.telegram_id == telegram_id) db.users

-- `["CTRADER", "CBOT"].includes(venue)`.
abbrev pub is_server_managed : ExecutionVenue → Bool
is_server_managed mt5 = false
is_server_managed _ = true

-- An update by id; the library stamps the row with the time.
abbrev pub update_job : ℕ → (TradeJob → TradeJob) → Db → Db
update_job id f db = record db { jobs = update_many (λ j. j.id == id) f db.jobs }

pub request_cancel : ℕ → TradeJob → TradeJob
request_cancel now job = record job { cancel_requested_at = some now; updated_at = now }

pub cancel_row : ℕ → TradeJob → TradeJob
cancel_row now job = record job {
  status = cancelled;
  times = record (job.times) { cancelled_at = some now };
  version = job.version + 1;
  updated_at = now;
}

pub request_close : ℕ → TradeJob → TradeJob
request_close now job = record job { close_requested_at = some now; updated_at = now }

store_cancel : ℕ → ℕ → TradeJob → Db → Db
unfolding cancel_row
store_cancel now telegram_id job db = record (update_job job.id (cancel_row now) db) {
  audits =
      record {
        user_id = job.user_id;
        actor_type = "TELEGRAM_USER";
        actor_id = telegram_id;
        action = trade_job_cancelled;
        entity_id = job.id;
      }
      ∷ db.audits;
}

-- A job that the agent may hold already: a server-managed one is asked to stop.
ask_to_stop : ℕ → TradeJob → Exec Db TradeJob
unfolding request_cancel
ask_to_stop now job = do
  throw_if
      (not (is_server_managed job.execution_venue) || not (includes active_job_statuses job.status))
      (conflict "Job cannot be cancelled from state")
  modify (update_job job.id (request_cancel now))
  pure (request_cancel now job)

cancel_now : ℕ → ℕ → TradeJob → Exec Db TradeJob
unfolding store_cancel
cancel_now now telegram_id job = do
  throw_if (leb job.execute_at (now + job.terms.arm_seconds * 1000))
      (conflict "Job is already inside its armed execution window")
  modify (store_cancel now telegram_id job)
  pure (cancel_row now job)

unfoldable pub cancel_for_telegram_user : ℕ → ℕ → ℕ → Exec Db TradeJob
unfolding ask_to_stop cancel_now
cancel_for_telegram_user now telegram_id job_id = do
  found ← gets λ db. find_first (is_job_of telegram_id job_id db) db.jobs
  job ← require (not_found "Trade job not found") found
  if includes (scheduled ∷ synced ∷ []) job.status
      then cancel_now now telegram_id job
      else ask_to_stop now job

unfoldable pub request_close_for_telegram_user : ℕ → ℕ → ℕ → Exec Db TradeJob
unfolding request_close
request_close_for_telegram_user now telegram_id job_id = do
  found ← gets λ db. find_first (is_job_of telegram_id job_id db) db.jobs
  job ← require (not_found "Trade job not found") found
  throw_if
      (not (is_server_managed job.execution_venue) || not (includes active_job_statuses job.status))
      (conflict "Job cannot be closed from state")
  modify (update_job job.id (request_close now))
  pure (request_close now job)

abbrev pub is_closable_of : ℕ → TradeJob → Bool
is_closable_of user_id job =
    job.user_id == user_id
    && is_server_managed job.execution_venue
    && includes active_job_statuses job.status

unfoldable pub request_close_all_for_telegram_user : ℕ → ℕ → Exec Db (Unit {0})
unfolding request_close
request_close_all_for_telegram_user now telegram_id = do
  found ← gets λ db. find_first (λ (u : User). u.telegram_id == telegram_id) db.users
  user ← require (not_found "Telegram user not found") found
  modify λ db. record db { jobs = update_many (is_closable_of user.id) (request_close now) db.jobs }
