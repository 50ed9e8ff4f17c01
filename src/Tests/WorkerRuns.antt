-- ===== src/Tests/WorkerRuns.antt =====
-- Runs of the worker of the venue CTRADER.
use ctreader.Prelude.{
  ◌≡◌, ◌<◌, ◌≤◌, ◌+◌, ◌*◌, ◌⊎◌, refl, true, false, none, some, List, [], ◌∷◌, arith, All, sum, map,
  keep, ok, err, Exception, count, find_first, update_many,
}
use ctreader.Config.{Config}
use ctreader.Schema.{split_total, sell}
use ctreader.Safety.{assert_trading_open, status, SafetyStatus, read_control}
use ctreader.TradeJobs.Onward.{IsOnward}
use ctreader.NewsReversal.{VolumeAllocation, allocate_news_reversal_volume}
use ctreader.NewsReversal.Split.{IsFairSplit, allocate-IsFairSplit}
use ctreader.Ctrader.Reversal.{push_order}
use ctreader.Ctrader.{World, OrderDraft, Runtime, update_jobs, update_runtime, report, worker_row}
use ctreader.Ctrader.Lease.{claim_job, may_claim, claimed, leased, is_unleased}
use ctreader.Ctrader.Lease.Exclusive.{Claim, wins, claim_job-exclusive}
use ctreader.Ctrader.Orders.Volume.{job_volume, wanted_volume, check_volume}
use ctreader.Ctrader.Orders.{
  market_draft, stop_draft, straddle_order, planned_positions, projected_positions,
  assert_position_limit, assert_estimated_risk, risked_points, assert_margin, required_margin,
  in_db, record_order, is_unfilled, mark_submitted, place, positions_of, is_other_active,
}
use ctreader.Ctrader.Start.{
  start_fresh, remember, new_runtime, place_job, place_straddle, straddle_draft,
}
use ctreader.Ctrader.Start.Sent.{orders_sent}
use ctreader.Ctrader.Start.Limits.{orders_at_once, start_fresh-IsWithin}
use ctreader.Ctrader.Stop.{enforce_kill_switch}
use ctreader.Ctrader.Stop.Halt.{IsStopped, enforce_kill_switch-IsStopped}
use ctreader.Ctrader.Events.{
  TimedEvent, run_events, took_jobs, halt_checked, started, run_events-IsOnward,
}
use ctreader.Tests.Data.{cfg}
use ctreader.Tests.WorkerData.{job, worker_at, world, limits, facts}

-- A second worker that read the same row a second later.
abbrev late_claims : List Claim
late_claims = record { env = worker_at 2 92000; job = job } ∷ []

claim_job-exclusive_example : wins 30 late_claims (claim_job (worker_at 1 91000) job world).1 ≡ 0
unfolding claim_job may_claim claimed leased is_unleased count
claim_job-exclusive_example =
    claim_job-exclusive (worker_at 1 91000) job late_claims world (λ k. ground arith) refl
      (omega arith)

abbrev events : List TimedEvent
events =
    record { env = worker_at 1 91000; event = took_jobs }
    ∷ record {
      env = worker_at 1 91001;
      event = started facts (λ k. some (k + 700)) (λ x. false) job;
    }
    ∷ record { env = worker_at 1 91002; event = halt_checked }
    ∷ []

run_events-IsOnward_example : IsOnward world.db.jobs (run_events cfg limits events world).db.jobs
run_events-IsOnward_example = run_events-IsOnward cfg limits events world

-- A worker with one straddle at the broker, under the environment's kill switch.
abbrev runtime : Runtime
runtime = record {
  job_id = 30;
  execution_mode = job.terms.execution_mode;
  buy_order_id = some 700;
  sell_order_id = some 701;
  order_ids = 700 ∷ 701 ∷ [];
  open_positions = [];
  filled = false;
  halt_handled = false;
  market_order = none;
  sync_pending = false;
  lot_size = some 100;
}

abbrev draft : OrderDraft
draft = market_draft job.terms 100

abbrev busy : World
busy = record world { runtimes = runtime ∷ [] }

abbrev halting : Config
halting = record cfg { trading_kill_switch = true }

abbrev halted_status : SafetyStatus
halted_status = record {
  halted = true;
  environment_halt = true;
  database_halt = false;
  reason = some "TRADING_KILL_SWITCH=true";
}

enforce_kill_switch-IsStopped_example :
    All (IsStopped (enforce_kill_switch halting (worker_at 1 95000) busy)) busy.runtimes
    × (x : Exception) × ((place halting
          (worker_at 1 95000)
          30
          draft
          (some 702)
          (enforce_kill_switch halting (worker_at 1 95000) busy)).0
        ≡ err x)
unfolding status read_control
enforce_kill_switch-IsStopped_example =
    enforce_kill_switch-IsStopped halting (worker_at 1 95000) busy halted_status 30 draft (some 702)
      refl refl

start_fresh-IsWithin_example :
    (1 + positions_of job + sum (map positions_of (keep (is_other_active job) world.db.jobs)) ≤ 10)
    × (orders_sent sell
          (start_fresh cfg limits (worker_at 1 91000) facts (λ k. some (k + 700)) job world).1
        ≡ orders_at_once job.terms + orders_sent sell world)
unfolding start_fresh job_volume wanted_volume check_volume assert_position_limit
    projected_positions planned_positions is_other_active assert_estimated_risk risked_points
    assert_margin required_margin remember new_runtime place_job place_straddle place in_db
    assert_trading_open status read_control record_order update_jobs report is_unfilled
    mark_submitted straddle_draft stop_draft straddle_order market_draft update_runtime push_order
    worker_row find_first update_many
start_fresh-IsWithin_example =
    start_fresh-IsWithin cfg limits (worker_at 1 91000) facts (λ k. some (k + 700)) job sell world
      (start_fresh cfg limits (worker_at 1 91000) facts (λ k. some (k + 700)) job world).1 refl

allocate-IsFairSplit_example :
    ((3 * 10 ≤ 100)
      × (a : VolumeAllocation) × (allocate_news_reversal_volume 100 10 split_total 3 ≡ ok a)
      × IsFairSplit 100 10 3 a)
    ⊎ ((100 < 3 * 10)
        × (x : Exception) × (allocate_news_reversal_volume 100 10 split_total 3 ≡ err x))
allocate-IsFairSplit_example =
    allocate-IsFairSplit 100 10 3 (omega arith) (omega arith) (omega arith) (omega arith)

-- The volumes of test/news-reversal-volume.spec.ts.
split_runs :
    (allocate_news_reversal_volume 100 1 split_total 3
      ≡ ok (record { legs = 33 ∷ 33 ∷ 34 ∷ []; total = 100 }))
    × (allocate_news_reversal_volume 100 10 split_total 3
        ≡ ok (record { legs = 30 ∷ 30 ∷ 40 ∷ []; total = 100 }))
unfolding allocate_news_reversal_volume
split_runs = (refl, refl)
