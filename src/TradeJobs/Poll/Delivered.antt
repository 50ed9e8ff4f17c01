-- ===== src/TradeJobs/Poll/Delivered.antt =====
-- What an agent's poll hands out, and what it does to the jobs.
use ctreader.Prelude.{
  ℕ, ◌+◌, ◌*◌, ◌≡◌, ◌≤◌, ◌<◌, refl, ap, true, some, List, map, arith, ok, All, find_many, Memᴰ,
  All-find_many, All-keep, All-at,
}
use ctreader.Config.{Config}
use ctreader.Schema.{Db, Agent, TradingAccount, TradeJob, real, mt5}
use ctreader.TradeJobs.State.{includes, active_job_statuses, can_transition}
use ctreader.TradeJobs.Lawful.{IsLawful, IsLawfulRow, IsLawful-update_many}
use ctreader.TradeJobs.Report.{held_by_agent}
use ctreader.TradeJobs.Poll.{
  AgentPoll, account_of, agent_job, cancellation, is_due_for, is_recently_cancelled, age,
  is_executable, has_real_enabled, mark_agent_synced, is_new_in, due_jobs, sync_due, poll_for_agent,
}

-- A job that an agent may be handed: a row of the table, active, of one of its accounts, due within the horizon, not
-- over, and on a REAL account only where the system and the user allow it.
pub record IsHandedOut (cfg : Config) (now : ℕ) (agent : Agent) (horizon : ℕ) (db : Db)
    (job : TradeJob) : Type 0 where
  pub stored : Memᴰ job db.jobs
  pub held : held_by_agent agent.id db job ≡ true
  pub venue : job.execution_venue ≡ mt5
  pub active : includes active_job_statuses job.status ≡ true
  pub near : job.execute_at ≤ now + horizon * 60000
  pub not_over : now < job.expires_at
  pub guarded :
      (a : TradingAccount)
      → account_of db job ≡ some a
      → a.environment ≡ real
      → (cfg.allow_real_trading ≡ true) × (has_real_enabled job.user_id db ≡ true)

real_guarded :
    (cfg : Config) (db : Db) (job : TradeJob) (a : TradingAccount)
    → is_executable cfg db job ≡ true
    → account_of db job ≡ some a
    → a.environment ≡ real
    → (cfg.allow_real_trading ≡ true) × (has_real_enabled job.user_id db ≡ true)
real_guarded cfg db job a fine found live = (ground arith, ground arith)

due_handed :
    (cfg : Config) (now : ℕ) (agent : Agent) (horizon : ℕ) (db : Db) (job : TradeJob)
    → Memᴰ job db.jobs
    → is_due_for now agent horizon db job ≡ true
    → is_executable cfg db job ≡ true
    → IsHandedOut cfg now agent horizon db job
due_handed cfg now agent horizon db job row due fine = record {
  stored = row;
  held = ground arith;
  venue = ground arith;
  active = ground arith;
  near = ground arith;
  not_over = ground arith;
  guarded = λ a found live. real_guarded cfg db job a fine found live;
}

due-IsHandedOut :
    (cfg : Config) (now : ℕ) (agent : Agent) (horizon : ℕ) (db : Db)
    → All (IsHandedOut cfg now agent horizon db) (due_jobs cfg now agent horizon db)
unfolding due_jobs
due-IsHandedOut cfg now agent horizon db =
    let p = is_due_for now agent horizon db in
    let at = λ (j : TradeJob). j.execute_at in
    let found =
      All-find_many (λ job. Memᴰ job db.jobs × (p job ≡ true)) p at 100 db.jobs
        (λ job row passes. (row, passes)) in
    All-keep (IsHandedOut cfg now agent horizon db) (is_executable cfg db)
      (find_many p at 100 db.jobs)
      λ job m fine.
        let (row, due) =
          All-at (λ job. Memᴰ job db.jobs × (p job ≡ true)) (find_many p at 100 db.jobs) found m in
        due_handed cfg now agent horizon db job row due fine

sync_allowed :
    (now : ℕ) (jobs : List TradeJob) (job : TradeJob)
    → is_new_in jobs job ≡ true
    → IsLawfulRow job (mark_agent_synced now job)
unfolding mark_agent_synced can_transition
sync_allowed now jobs job h = record { same_id = refl; same_user = refl; allowed = ground arith }

sync_due-IsLawful :
    (now : ℕ) (jobs : List TradeJob) (db : Db) → IsLawful db.jobs (sync_due now jobs db).jobs
unfolding sync_due
sync_due-IsLawful now jobs db =
    IsLawful-update_many (is_new_in jobs) (mark_agent_synced now) db.jobs (sync_allowed now jobs)

poll_runs :
    (cfg : Config) (now : ℕ) (agent : Agent) (horizon : ℕ) (db : Db)
    → 1 ≤ horizon
    → horizon ≤ 1440
    → let jobs = due_jobs cfg now agent horizon db in
      let after = sync_due now jobs db in
      poll_for_agent cfg now agent (some horizon) db ≡ (
        ok (record {
          server_time = now;
          cancellations =
              map cancellation
                (find_many (is_recently_cancelled now agent db) (age now) 100 db.jobs);
          jobs = map (agent_job after) jobs;
        }),
        after,
      )
unfolding poll_for_agent
poll_runs cfg now agent horizon db low high = ground arith

-- A poll of an agent with a horizon of 1 to 1440 minutes always answers, with jobs made of rows of the
-- table that it may be handed, and it changes the job rows only by transitions that the table allows.
pub poll_for_agent-IsHandedOut :
    (cfg : Config) (now : ℕ) (agent : Agent) (horizon : ℕ) (db : Db)
    → 1 ≤ horizon
    → horizon ≤ 1440
    → (reply : AgentPoll) × (jobs : List TradeJob) × ((poll_for_agent cfg now agent
          (some horizon)
          db).0
        ≡ ok reply)
      × (reply.jobs ≡ map (agent_job (poll_for_agent cfg now agent (some horizon) db).1) jobs)
      × All (IsHandedOut cfg now agent horizon db) jobs
      × IsLawful db.jobs (poll_for_agent cfg now agent (some horizon) db).1.jobs
poll_for_agent-IsHandedOut cfg now agent horizon db low high =
    let jobs = due_jobs cfg now agent horizon db in
    let runs = poll_runs cfg now agent horizon db low high in
    (
      _,
      jobs,
      ap (λ r. r.0) runs,
      rw runs refl,
      due-IsHandedOut cfg now agent horizon db,
      rw runs (sync_due-IsLawful now jobs db),
    )
