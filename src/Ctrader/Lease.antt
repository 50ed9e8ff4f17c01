-- ===== src/Ctrader/Lease.antt =====
-- How workers take jobs, keep them and give them back: the claims of `tick`, `renewLeases`,
-- `handleDisconnect` and `handleStartFailure` of src/ctrader/ctrader-execution.service.ts.
pub mod Exclusive
use ctreader.Prelude.{
  ℕ, ◌+◌, ◌-◌, ◌*◌, String, Bool, true, false, not, ◌&&◌, ◌||◌, Option, none, some, List, [], ◌∷◌,
  ◌++◌, ◌==◌, leb, ltb, any, contains, count, map, is_some, holds_id, if◌then◌else◌, find_many,
}
use ctreader.Schema.{Db, TradeJob, ExecutionVenue, mt5, ctrader, cbot}
use ctreader.TradeJobs.State.{
  TradeJobStatus, ExecutionPhase, scheduled, armed, same_status, includes,
}
use ctreader.Ctrader.{
  WorkerEnv, World, Runtime, ReportKey, armed_key, disconnect_key, retry_key, update_jobs, report,
  no_details, runtime_of, forget, held_statuses,
}

-- `leaseExpiresAt: null` or `lte: now`.
unfoldable pub is_unleased : ℕ → TradeJob → Bool
is_unleased now job = elim job.lease_expires_at [ none ↦ true | some t ↦ leb t now ]

unfoldable pub leased : WorkerEnv → TradeJob → TradeJob
leased env job = record job {
  lease_owner = some env.worker_id;
  lease_expires_at = some (env.now + env.lease_ms);
  updated_at = env.now;
}

abbrev pub is_ctrader_venue : ExecutionVenue → Bool
is_ctrader_venue mt5 = false
is_ctrader_venue ctrader = true
is_ctrader_venue cbot = false

-- The jobs that `tick` looks for: of the last day and the next minute, waiting, or held under a
-- lease that has run out.
unfoldable pub is_due_for_worker : ℕ → TradeJob → Bool
unfolding is_unleased
is_due_for_worker now job =
    is_ctrader_venue job.execution_venue
    && (same_status scheduled job.status
        || (includes held_statuses job.status && is_unleased now job))
    && leb job.execute_at (now + 60000)
    && ltb now (job.expires_at + 86400000)

-- The row of `job` as the worker read it may still be claimed.
unfoldable pub may_claim : WorkerEnv → TradeJob → TradeJob → Bool
unfolding is_unleased
may_claim env job row =
    row.id == job.id
    && (if same_status scheduled job.status
        then same_status scheduled row.status
        else (same_status row.status job.status && is_unleased env.now row))

unfoldable pub claimed : WorkerEnv → TradeJob → TradeJob → TradeJob
unfolding leased
claimed env job row =
    if same_status scheduled job.status
    then record (leased env row) {
      status = armed;
      times = record row.times { armed_at = some env.now };
    }
    else leased env row

-- The conditional update by which `tick` claims a job that it read before: whether the job is now
-- this worker's, and the state after it.
unfoldable pub claim_job : WorkerEnv → TradeJob → World → Bool × World
unfolding may_claim claimed
claim_job env job w =
    (count (may_claim env job) w.db.jobs == 1, update_jobs (may_claim env job) (claimed env job) w)

-- What follows a claim: the report of an armed job, and the job is remembered as starting.
unfoldable pub begin_job : WorkerEnv → TradeJob → World → World
begin_job env job w =
    let reported : World =
      if same_status scheduled job.status
      then report env (armed_key job.id) job.id ExecutionPhase.armed
          (no_details "cTrader Open API execution armed") w
      else w in
    record reported { starting_jobs = job.id ∷ reported.starting_jobs }

-- A job that is not for now: it is held or starting already, or its arming time has not come.
unfoldable pub is_passed_over : WorkerEnv → World → TradeJob → Bool
unfolding runtime_of
is_passed_over env w job =
    is_some (runtime_of job.id w)
    || contains w.starting_jobs job.id
    || ltb (env.now + job.terms.arm_seconds * 1000) job.execute_at

-- One round of the loop of `tick`, on a job as the worker read it.
unfoldable pub take_job : WorkerEnv → TradeJob → World → World
unfolding is_passed_over claim_job begin_job
take_job env job w =
    if is_passed_over env w job
    then w
    else let (won, t) = claim_job env job w in if won then begin_job env job t else t

unfoldable pub take_jobs : WorkerEnv → List TradeJob → World → World
take_jobs env [] w = w
take_jobs env (job ∷ jobs) w = take_jobs env jobs (take_job env job w)

-- The jobs that `tick` takes, once it has served the requests of users.
unfoldable pub tick_jobs : WorkerEnv → World → World
unfolding is_due_for_worker take_jobs
tick_jobs env w =
    take_jobs env
      (find_many (is_due_for_worker env.now) (λ (j : TradeJob). j.execute_at) 25 w.db.jobs) w

abbrev pub is_held_by : WorkerEnv → TradeJob → Bool
is_held_by env job = holds_id job.lease_owner env.worker_id && includes held_statuses job.status

unfoldable pub renewed : WorkerEnv → TradeJob → TradeJob
renewed env job = record job {
  lease_expires_at = some (env.now + env.lease_ms);
  updated_at = env.now;
}

unfoldable pub is_mine : WorkerEnv → World → TradeJob → Bool
is_mine env w job =
    contains (map (λ (r : Runtime). r.job_id) w.runtimes ++ w.starting_jobs) job.id
    && is_held_by env job

unfoldable pub renew_leases : WorkerEnv → World → World
unfolding is_mine renewed
renew_leases env w = update_jobs (is_mine env w) (renewed env) w

-- The lease is given back, to be taken again five seconds later.
unfoldable pub released : WorkerEnv → TradeJob → TradeJob
released env job = record job {
  lease_owner = none;
  lease_expires_at = some (env.now + 5000);
  updated_at = env.now;
}

unfoldable pub release_job : WorkerEnv → ℕ → World → World
unfolding released
release_job env job_id w =
    update_jobs (λ job. job.id == job_id && is_held_by env job) (released env) w

unfoldable pub handle_disconnect : WorkerEnv → ℕ → World → World
unfolding runtime_of forget report release_job
handle_disconnect env job_id w = elim (runtime_of job_id w) [
  | none ↦ w
  | some r ↦ release_job env job_id (
      report env (disconnect_key job_id env.now) job_id ExecutionPhase.error
        (no_details "automatic recovery scheduled") (forget job_id w))
]

-- The branch of `handleStartFailure` for a failure that may pass: a timeout, a lost connection.
unfoldable pub retry_later : WorkerEnv → ℕ → World → World
unfolding forget report release_job
retry_later env job_id w = release_job env job_id (
    report env (retry_key job_id env.now) job_id ExecutionPhase.error
      (no_details "automatic recovery scheduled") (forget job_id w))
