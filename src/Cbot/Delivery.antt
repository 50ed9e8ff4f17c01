-- ===== src/Cbot/Delivery.antt =====
-- What a poll of a cBot answers.
use ctreader.Prelude.{
  ℕ, ◌+◌, ◌*◌, ◌≡◌, ◌≤◌, ◌<◌, ◌⊎◌, ap, Bool, true, false, some, List, [], ◌∷◌, map, arith, Result,
  ok, all, All, length, length-take, keep, order_by, count, all-find_many, find_many-IsOrdered,
  IsOrdered, find_many, Memᴰ, All-find_many, update_many, Bool-cases, inl, inr,
}
use mathlib.Core.List.Memᴰ
use ctreader.Safety.{read_control}
use ctreader.Subscriptions.{current_for_user}
use ctreader.Config.{Config}
use ctreader.Schema.{Db, TradeJob, cbot}
use ctreader.TradeJobs.State.{includes, active_job_statuses, armed, submitted}
use ctreader.TradeJobs.State.Forward.{rank}
use ctreader.Cbot.{Access, entitlement}
use ctreader.Cbot.Poll.{
  PollReply, poll, polled, mark_missed, fetch, is_deliverable, is_abandoned, expire_abandoned,
  sync_fresh,
}
use ctreader.Cbot.Expiry.{none_abandoned, entitlement_returns, entitlement_accepts}

-- A job that a poll may hand out: one of the instance, due within the horizon, active, armed at
-- least where no new jobs are accepted, and not over unless it is in the market.
pub record IsDeliverable (now instance_id : ℕ) (accepts : Bool) (horizon : ℕ) (job : TradeJob)
    : Type 0 where
  pub for_instance : job.cbot_instance_id ≡ some instance_id
  pub venue : job.execution_venue ≡ cbot
  pub near : job.execute_at ≤ now + horizon * 60000
  pub active : includes active_job_statuses job.status ≡ true
  pub started : accepts ≡ false → rank armed ≤ rank job.status
  pub lives :
      (rank submitted ≤ rank job.status)
      ⊎ (now < job.expires_at)
      ⊎ ((at : ℕ) × (job.management_expires_at ≡ some at) × (now < at))

all→All :
    {P : TradeJob → Type 0} (p : TradeJob → Bool) (jobs : List TradeJob)
    → ((job : TradeJob) → p job ≡ true → P job)
    → all p jobs ≡ true
    → All P jobs
all→All p [] h e = tt
all→All p (job ∷ jobs) h e = (h job (ground arith), all→All p jobs h (ground arith))

polled_job-IsDeliverable :
    (now instance_id : ℕ) (accepts : Bool) (horizon : ℕ) (job : TradeJob)
    → is_deliverable now instance_id accepts horizon job ≡ true
    → IsDeliverable now instance_id accepts horizon job
polled_job-IsDeliverable now instance_id accepts horizon job h = record {
  for_instance = ground arith;
  venue = ground arith;
  near = ground arith;
  active = ground arith;
  started = λ e. ground arith;
  lives = ground arith;
}

-- The answer of a poll, what the entitlement said, and the rows that the jobs were made of, each of
-- them a row of the table as the poll found it.
pub record Delivery (cfg : Config) (now instance_id user_id horizon : ℕ) (db : Db)
    (result : Result PollReply × Db) : Type 0 where
  pub access : Access
  pub entitled : (entitlement cfg now user_id db).0 ≡ ok access
  pub jobs : List TradeJob
  pub stored : All (λ job. Memᴰ job db.jobs) jobs
  pub answers :
      result.0
      ≡ ok (record {
        server_time = now;
        accept_new_jobs = access.accept_new_jobs;
        trading_halted = access.trading_halted;
        jobs = map polled jobs;
      })
  pub not_halted : access.accept_new_jobs ≡ true → access.trading_halted ≡ false
  pub deliverable : All (IsDeliverable now instance_id access.accept_new_jobs horizon) jobs
  pub in_order : IsOrdered (λ (j : TradeJob). j.execute_at) jobs
  pub limited : length jobs ≤ 50
  pub none_left : count (is_abandoned now instance_id) result.1.jobs ≡ 0

fetch_limited :
    (now instance_id : ℕ) (accepts : Bool) (horizon : ℕ) (db : Db)
    → length (fetch now instance_id accepts horizon db) ≤ 50
unfolding fetch find_many
fetch_limited now instance_id accepts horizon db = omega (
  arith,
  length-take 50 (
      order_by (λ (j : TradeJob). j.execute_at)
        (keep (is_deliverable now instance_id accepts horizon) db.jobs)),
)

fetch-IsDeliverable :
    (now instance_id : ℕ) (accepts : Bool) (horizon : ℕ) (db : Db)
    → All (IsDeliverable now instance_id accepts horizon) (fetch now instance_id accepts horizon db)
      × IsOrdered (λ (j : TradeJob). j.execute_at) (fetch now instance_id accepts horizon db)
unfolding fetch
fetch-IsDeliverable now instance_id accepts horizon db = (
  all→All (is_deliverable now instance_id accepts horizon)
      (fetch now instance_id accepts horizon db)
      (polled_job-IsDeliverable now instance_id accepts horizon)
      (all-find_many (is_deliverable now instance_id accepts horizon) (λ j. j.execute_at) 50
        db.jobs),
  find_many-IsOrdered (is_deliverable now instance_id accepts horizon) (λ j. j.execute_at) 50
      db.jobs,
)

-- A row that was not marked as missed was there before.
unmarked :
    (now : ℕ) (p : TradeJob → Bool) (rows : List TradeJob) {job : TradeJob}
    → Memᴰ job (update_many p (mark_missed now) rows)
    → includes active_job_statuses job.status ≡ true
    → Memᴰ job rows
unfolding update_many mark_missed
unmarked now p [] m live = absurd (Memᴰ.not-nil m)
unmarked now p (x ∷ rows) (Memᴰ.head e) live = elim (Bool-cases (p x)) [
  | inl marked ↦ absurd (ground arith)
  | inr kept ↦ Memᴰ.head (ground arith)
]
unmarked now p (x ∷ rows) (Memᴰ.tail m) live = Memᴰ.tail (unmarked now p rows m live)

entitlement_jobs :
    (cfg : Config) (now user_id : ℕ) (db : Db) → (entitlement cfg now user_id db).1.jobs ≡ db.jobs
unfolding entitlement current_for_user read_control
entitlement_jobs cfg now user_id db = ground arith

fetch_stored :
    (now instance_id : ℕ) (accepts : Bool) (horizon : ℕ) (db read : Db)
    → read.jobs ≡ db.jobs
    → All
        (λ job. Memᴰ job db.jobs)
        (fetch now instance_id accepts horizon (expire_abandoned now instance_id read))
unfolding fetch expire_abandoned
fetch_stored now instance_id accepts horizon db read same =
    All-find_many (λ job. Memᴰ job db.jobs) (is_deliverable now instance_id accepts horizon)
      (λ j. j.execute_at) 50
      (update_many (is_abandoned now instance_id) (mark_missed now) read.jobs)
      λ job m passes. rw (← same) (
        unmarked now (is_abandoned now instance_id) read.jobs m
          (polled_job-IsDeliverable now instance_id accepts horizon job passes).active)

-- What a poll does, by the entitlement that it reads.
poll_runs :
    (cfg : Config) (now instance_id user_id horizon : ℕ) (db : Db) (a : Access)
    → 1 ≤ horizon
    → horizon ≤ 1440
    → (entitlement cfg now user_id db).0 ≡ ok a
    → let before = expire_abandoned now instance_id (entitlement cfg now user_id db).1 in
      let jobs = fetch now instance_id a.accept_new_jobs horizon before in
      poll cfg now instance_id user_id horizon db ≡ (
        ok (record {
          server_time = now;
          accept_new_jobs = a.accept_new_jobs;
          trading_halted = a.trading_halted;
          jobs = map polled jobs;
        }),
        sync_fresh now jobs before,
      )
unfolding poll
poll_runs cfg now instance_id user_id horizon db a low high h = ground arith

-- A poll with a horizon of 1 to 1440 minutes always answers: with what the entitlement says and with at
-- most 50 jobs, in the order of their times, each of them made of a row of the table that is of the
-- instance and that the entitlement lets it hold, no new ones while the halt in the database is on;
-- and afterwards no job of the instance stands
-- before its submission a minute or more after its end.
pub poll-Delivery :
    (cfg : Config) (now instance_id user_id horizon : ℕ) (db : Db)
    → 1 ≤ horizon
    → horizon ≤ 1440
    → Delivery cfg now instance_id user_id horizon db (poll cfg now instance_id user_id horizon db)
poll-Delivery cfg now instance_id user_id horizon db low high =
    let (a, h) = entitlement_returns cfg now user_id db in
    let read = (entitlement cfg now user_id db).1 in
    let before = expire_abandoned now instance_id read in
    let jobs = fetch now instance_id a.accept_new_jobs horizon before in
    let (fits, ordered) = fetch-IsDeliverable now instance_id a.accept_new_jobs horizon before in
    let runs = poll_runs cfg now instance_id user_id horizon db a low high h in
    record {
      access = a;
      entitled = h;
      jobs = jobs;
      stored =
          fetch_stored now instance_id a.accept_new_jobs horizon db read
            (entitlement_jobs cfg now user_id db);
      answers = ap (λ r. r.0) runs;
      not_halted = entitlement_accepts cfg now user_id db a h;
      deliverable = fits;
      in_order = ordered;
      limited = fetch_limited now instance_id a.accept_new_jobs horizon before;
      none_left = rw runs (none_abandoned now instance_id jobs read);
    }
