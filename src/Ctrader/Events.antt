-- ===== src/Ctrader/Events.antt =====
-- Runs of the worker: what happens to it, one event after the other, and the jobs over such runs. The
-- requests of users, the synchronisation of a protection and the end of a lifetime are no events
-- here: they write a status by the id of a job alone.
mod Placed
mod Started
mod Handled
mod Ended
mod Received
use ctreader.Prelude.{
  ℕ, Bool, Option, List, [], ◌∷◌, ◌≡◌, Result, ok, err, Exception, none, some, true, false, refl,
  Option-cases, ◌⊎◌, inl, inr,
}
use ctreader.Config.{Config}
use ctreader.Schema.{TradeJob}
use ctreader.TradeJobs.Onward.{IsOnward}
use ctreader.Ctrader.{WorkerEnv, World, Runtime, runtime_of, update_runtime}
use ctreader.Ctrader.Onward.{IsOn, IsOn-refl, IsOn-trans, Moves, Moves-cases}
use ctreader.Ctrader.Orders.{place}
use ctreader.Ctrader.Events.Placed.{place-Moves}
use ctreader.Ctrader.Events.Started.{start-Moves}
use ctreader.Ctrader.Events.Handled.{tick-IsOn, renew-IsOn, disconnect-IsOn, failure-IsOn}
use ctreader.Ctrader.Events.Ended.{kill-IsOn, expire-IsOn}
use ctreader.Ctrader.Events.Received.{message-IsOn}
use ctreader.Ctrader.Lease.{tick_jobs, renew_leases, handle_disconnect}
use ctreader.Ctrader.Messages.{Message, on_message}
use ctreader.Ctrader.Stop.{handle_start_failure, expire, enforce_kill_switch}
use ctreader.Ctrader.Start.{BrokerFacts, ExecutionLimits, start}
use ctreader.Ctrader.Start.Run.{
  run_start, run_market, after_failure, not_starting, fired, message_of,
}

-- What happens to the worker: jobs are taken, its other timers, the start of a job with the broker's answers and which
-- failures may pass, the broker's messages and the end of a connection.
pub data Event : Type 0 where
  took_jobs renewed_leases halt_checked : Event
  started : BrokerFacts → (ℕ → Option ℕ) → (Exception → Bool) → TradeJob → Event
  market_due : Option ℕ → (Exception → Bool) → ℕ → Event
  received : ℕ → Message → Event
  expired_job disconnected : ℕ → Event

pub record TimedEvent : Type 0 where
  pub env : WorkerEnv
  pub event : Event

unfoldable pub handle_event : Config → ExecutionLimits → TimedEvent → World → World
handle_event cfg limits e w = elim e.event [
  | took_jobs ↦ tick_jobs e.env w
  | renewed_leases ↦ renew_leases e.env w
  | halt_checked ↦ enforce_kill_switch cfg e.env w
  | started facts answers transient job ↦ run_start cfg limits e.env facts answers transient job w
  | market_due answer transient job_id ↦ run_market cfg e.env answer transient job_id w
  | received job_id message ↦ on_message e.env job_id message w
  | expired_job job_id ↦ expire e.env job_id w
  | disconnected job_id ↦ handle_disconnect e.env job_id w
]

abbrev pub run_events : Config → ExecutionLimits → List TimedEvent → World → World
run_events cfg limits [] w = w
run_events cfg limits (e ∷ events) w = run_events cfg limits events (handle_event cfg limits e w)

after-IsOn :
    {A : Type 0} (env : WorkerEnv) (job_id : ℕ) (transient : Exception → Bool)
    (m : World → Result A × World) (w : World)
    → Moves m
    → IsOn w (after_failure env job_id transient (m w))
unfolding after_failure
after-IsOn env job_id transient m w h =
    Moves-cases m w h (λ a v e on. rw e on)
      (λ x v e on. rw e (
        let failed : World = handle_start_failure env job_id (transient x) (message_of x) v in
        IsOn-trans w v failed on (failure-IsOn env job_id (transient x) (message_of x) v)))

run_start-IsOn :
    (cfg : Config) (limits : ExecutionLimits) (env : WorkerEnv) (facts : BrokerFacts)
    (answers : ℕ → Option ℕ) (transient : Exception → Bool) (job : TradeJob) (w : World)
    → IsOn w (run_start cfg limits env facts answers transient job w)
unfolding run_start not_starting
run_start-IsOn cfg limits env facts answers transient job w =
    after-IsOn env job.id transient (start cfg limits env facts answers job) w
      (start-Moves cfg limits env facts answers job)

run_market-IsOn :
    (cfg : Config) (env : WorkerEnv) (answer : Option ℕ) (transient : Exception → Bool) (job_id : ℕ)
    (w : World)
    → IsOn w (run_market cfg env answer transient job_id w)
unfolding run_market
run_market-IsOn cfg env answer transient job_id w = go (runtime_of job_id w) refl
  where
    go :
        (o : Option Runtime)
        → runtime_of job_id w ≡ o
        → IsOn w (run_market cfg env answer transient job_id w)
    go none e = rw (run_market, e) (IsOn-refl w)
    go (some r) e = elim (Option-cases r.market_order) [
      | inl idle ↦ rw (run_market, e, idle) (IsOn-refl w)
      | inr (draft, due) ↦
          let v : World = update_runtime job_id fired w in
          let same : IsOn w v = unfold update_runtime in IsOn-refl w in
          rw (run_market, e, due)
            (IsOn-trans w v
              (after_failure env job_id transient (place cfg env job_id draft answer v)) same
              (after-IsOn env job_id transient (place cfg env job_id draft answer) v
                (place-Moves cfg env job_id draft answer)))
    ]

event-IsOn :
    (cfg : Config) (limits : ExecutionLimits) (env : WorkerEnv) (event : Event) (w : World)
    → IsOn w (handle_event cfg limits (record { env = env; event = event }) w)
unfolding handle_event
event-IsOn cfg limits env took_jobs w = tick-IsOn env w
event-IsOn cfg limits env renewed_leases w = renew-IsOn env w
event-IsOn cfg limits env halt_checked w = kill-IsOn cfg env w
event-IsOn cfg limits env (started facts answers transient job) w =
    run_start-IsOn cfg limits env facts answers transient job w
event-IsOn cfg limits env (market_due answer transient job_id) w =
    run_market-IsOn cfg env answer transient job_id w
event-IsOn cfg limits env (received job_id message) w = message-IsOn env job_id message w
event-IsOn cfg limits env (expired_job job_id) w = expire-IsOn env job_id w
event-IsOn cfg limits env (disconnected job_id) w = disconnect-IsOn env job_id w

-- Over any sequence of these steps of the worker, the taking of jobs by `tick`, renewals, starts, market
-- orders that fall due, messages of the broker, expiries of pending orders, lost connections and
-- rounds of the kill switch, in whatever order, with whatever answers of the broker, and whether a
-- start returns or throws, no job is lost or changes its user, and the status of each job is what it
-- was or of a higher rank. It does not speak of the requests of users, the synchronisation of a
-- protection and the end of a lifetime.
pub run_events-IsOnward :
    (cfg : Config) (limits : ExecutionLimits) (events : List TimedEvent) (w : World)
    → IsOnward w.db.jobs (run_events cfg limits events w).db.jobs
run_events-IsOnward cfg limits [] w = IsOn-refl w
run_events-IsOnward cfg limits (e ∷ events) w =
    let v = handle_event cfg limits e w in
    IsOn-trans w v (run_events cfg limits events v) (event-IsOn cfg limits e.env e.event w)
      (run_events-IsOnward cfg limits events v)
