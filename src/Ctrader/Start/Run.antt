-- ===== src/Ctrader/Start/Run.antt =====
-- The end of `start` in `tick` of src/ctrader/ctrader-execution.service.ts, and the timer that places
-- a market order: what the worker does with an exception.
use ctreader.Prelude.{
  ℕ, ◌==◌, String, Bool, not, Option, none, some, keep, Result, ok, err, Exception, bad_request,
  not_found, forbidden, conflict, failure,
}
use ctreader.Config.{Config}
use ctreader.Schema.{TradeJob}
use ctreader.Ctrader.{WorkerEnv, World, Runtime, runtime_of, update_runtime}
use ctreader.Ctrader.Orders.{place}
use ctreader.Ctrader.Stop.{handle_start_failure}
use ctreader.Ctrader.Start.{BrokerFacts, ExecutionLimits, start}

abbrev pub message_of : Exception → String
message_of (bad_request m) = m
message_of (not_found m) = m
message_of (forbidden m) = m
message_of (conflict m) = m
message_of (failure m) = m

-- An exception goes to `handleStartFailure`; which ones may pass is given.
unfoldable pub after_failure {ℓ} :
    {A : Type ℓ} → WorkerEnv → ℕ → (Exception → Bool) → Result A × World → World
unfolding handle_start_failure
after_failure env job_id transient (ok a, w) = w
after_failure env job_id transient (err x, w) =
    handle_start_failure env job_id (transient x) (message_of x) w

-- `startingJobs.delete`.
unfoldable pub not_starting : ℕ → World → World
not_starting job_id w = record w { starting_jobs = keep (λ id. not (id == job_id)) w.starting_jobs }

-- A job is started, and leaves the jobs under way however that ends.
unfoldable pub run_start :
    Config
    → ExecutionLimits
    → WorkerEnv
    → BrokerFacts
    → (ℕ → Option ℕ)
    → (Exception → Bool)
    → TradeJob
    → World
    → World
unfolding start after_failure not_starting
run_start cfg limits env facts answers transient job w =
    not_starting job.id
      (after_failure env job.id transient (start cfg limits env facts answers job w))

unfoldable pub fired : Runtime → Runtime
fired r = record r { market_order = none }

-- The timer of a market order fires: the order is placed, and its number is not kept.
unfoldable pub run_market : Config → WorkerEnv → Option ℕ → (Exception → Bool) → ℕ → World → World
unfolding runtime_of place after_failure update_runtime fired
run_market cfg env answer transient job_id w = elim (runtime_of job_id w) [
  | none ↦ w
  | some r ↦ elim r.market_order [
    | none ↦ w
    | some draft ↦
        after_failure env job_id transient
          (place cfg env job_id draft answer (update_runtime job_id fired w))
  ]
]
