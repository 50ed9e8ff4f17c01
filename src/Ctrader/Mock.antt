-- ===== src/Ctrader/Mock.antt =====
-- src/ctrader/ctrader-mock-execution.service.ts: the loop that plays the broker in mock mode. Each
-- step is a transaction on the job's row, its legs and its reports.
pub mod Targets
pub mod Progress
use ctreader.Prelude.{
  ℕ, zero, suc, ◌+◌, ◌*◌, ◌==◌, String, Bool, true, false, not, ◌&&◌, ◌||◌, Option, none, some,
  List, [], ◌∷◌, leb, ltb, keep, take, length, count, find_first, update_many, is_some, or_else,
  if◌then◌else◌, Exec, Result, ok, err, pure, throw, throw_if, gets, modify, skip, transaction,
  failure, ◌>>=◌, ◌>>◌,
}
use ctreader.Schema.{
  Db, TradeJob, TradeJobLeg, ExecutionReport, ReportDetails, ctrader_mock, ExecutionMode, market,
  straddle, multi, news_reversal, TradeDirection, buy, sell, MockExecutionOutcome, buy_fill,
  sell_fill, timeout, reject, VolumeAllocationMode, split_total, full_each, initial, filled,
  cancelled, closed_tp, tp1_protected, tp2_protected, completed,
}
use ctreader.TradeJobs.State.{
  TradeJobStatus, ExecutionPhase, scheduled, armed, managed, rejected, expired, closed, same_status,
  includes,
}
use ctreader.Ctrader.{no_details}
use ctreader.Ctrader.Lease.{is_ctrader_venue}
use ctreader.Ctrader.Legs.{has_leg_status, is_initial, initial_state}
use ctreader.Ctrader.Messages.{is_news}
use ctreader.Ctrader.Reversal.{goes, side_tag}

-- The texts of the report keys of the mock, each for a job.
pub data MockKey : Type 0 where
  armed_key rejected_key expired_key submitted_key filled_key closed_key : ℕ → MockKey
  tp_key : ℕ → ℕ → MockKey

-- The clock, the numbers for texts, fresh ids for a report and for legs by side and target, the ids
-- that the mock invents at its broker, and 33 and 34 per cent of a volume, rounded to four places.
pub record MockEnv : Type 0 where
  pub now : ℕ
  pub text : MockKey → ℕ
  pub report_id : MockKey → ℕ
  pub leg_id : TradeDirection → ℕ → ℕ
  pub order_id : ℕ → TradeDirection → ℕ → ℕ
  pub position_id : ℕ → TradeDirection → ℕ → ℕ
  pub third : ℕ → ℕ
  pub last_third : ℕ → ℕ

-- `setOutcome`.
unfoldable pub set_outcome : ℕ → ℕ → ℕ → MockExecutionOutcome → Db → Db
set_outcome now user_id job_id outcome db = record db {
  jobs =
      update_many
        (λ (j : TradeJob).
          j.id == job_id
          && j.user_id == user_id
          && is_ctrader_venue j.execution_venue
          && same_status scheduled j.status)
        (λ j. record j { mock_outcome = some outcome; updated_at = now }) db.jobs;
}

unfoldable pub mock_row : MockEnv → MockKey → ℕ → ExecutionPhase → ReportDetails → ExecutionReport
mock_row env key job_id phase details = record {
  id = env.report_id key;
  job_id = job_id;
  source = ctrader_mock;
  report_key = env.text key;
  phase = phase;
  occurred_at = env.now;
  details = details;
}

-- `executionReport.create`: a key that is there already is refused by the database.
unfoldable pub create_report :
    MockEnv → MockKey → ℕ → ExecutionPhase → ReportDetails → Exec Db (Unit {0})
unfolding mock_row
create_report env key job_id phase details db =
    elim (find_first (λ (r : ExecutionReport). r.report_key == env.text key) db.reports) [
      | some r ↦ (err (failure "Unique constraint failed on reportKey"), db)
      | none ↦ (ok tt, record db { reports = mock_row env key job_id phase details ∷ db.reports })
    ]

-- The row of an id, as the transaction reads it.
abbrev pub job_of : ℕ → Db → Option TradeJob
job_of job_id db = find_first (λ (j : TradeJob). j.id == job_id) db.jobs

unfoldable pub set_job : (TradeJob → Bool) → (TradeJob → TradeJob) → Db → Db
set_job p f db = record db { jobs = update_many p f db.jobs }

abbrev pub is_in : ℕ → TradeJobStatus → TradeJob → Bool
is_in job_id status job = job.id == job_id && same_status status job.status

unfoldable pub mock_armed : ℕ → TradeJob → TradeJob
mock_armed now job = record job {
  status = armed;
  updated_at = now;
  times = record job.times { armed_at = some now };
}

-- `arm`.
unfoldable pub arm : MockEnv → ℕ → Exec Db (Unit {0})
unfolding set_job mock_armed create_report
arm env job_id = transaction λ db.
    if count (is_in job_id scheduled) db.jobs == 1
    then create_report env (armed_key job_id) job_id ExecutionPhase.armed
        (no_details "Mock preflight passed; pending orders armed")
        (set_job (is_in job_id scheduled) (mock_armed env.now) db)
    else (ok tt, set_job (is_in job_id scheduled) (mock_armed env.now) db)

unfoldable pub mock_closed : ℕ → TradeJob → TradeJob
mock_closed now job = record job {
  status = closed;
  updated_at = now;
  times = record job.times { closed_at = some now };
}

-- `close`.
unfoldable pub close : MockEnv → ℕ → Exec Db (Unit {0})
unfolding set_job mock_closed create_report
close env job_id = transaction λ db.
    if count (is_in job_id TradeJobStatus.filled) db.jobs == 1
    then create_report env (closed_key job_id) job_id ExecutionPhase.closed
        (no_details "Mock position closed by Take Profit")
        (set_job (is_in job_id TradeJobStatus.filled) (mock_closed env.now) db)
    else (ok tt, set_job (is_in job_id TradeJobStatus.filled) (mock_closed env.now) db)

-- The direction in which a job fills.
unfoldable pub fill_direction : TradeJob → MockExecutionOutcome → TradeDirection
fill_direction job outcome = elim job.terms.execution_mode [
  | market ↦ job.terms.direction
  | _ ↦ elim outcome [ sell_fill ↦ sell | _ ↦ buy ]
]

-- The volumes of the three legs: the whole volume for each, or its parts.
unfoldable pub leg_volumes : MockEnv → TradeJob → List ℕ
leg_volumes env job =
    let volume = or_else job.terms.fixed_lot 100 in
    elim job.terms.volume_allocation_mode [
      | some full_each ↦ volume ∷ volume ∷ volume ∷ []
      | _ ↦ env.third volume ∷ env.third volume ∷ env.last_third volume ∷ []
    ]

unfoldable pub is_mock_leg : ℕ → TradeDirection → ℕ → TradeJobLeg → Bool
is_mock_leg job_id side target leg =
    leg.job_id == job_id
    && is_initial leg
    && goes side leg
    && leg.target_number == target
    && leg.revision == 0

unfoldable pub mock_leg : MockEnv → ℕ → Bool → TradeDirection → ℕ → ℕ → TradeJobLeg
mock_leg env job_id fills side target volume = record {
  id = env.leg_id side target;
  job_id = job_id;
  revision = 0;
  leg_number = target;
  direction = side;
  purpose = initial;
  target_number = target;
  planned_volume = volume;
  filled_volume = if fills then some volume else none;
  entry_price = none;
  stop_loss_price = none;
  take_profit_price = none;
  broker_order_id = some (env.order_id job_id side target);
  broker_position_id = if fills then some (env.position_id job_id side target) else none;
  status = if fills then filled else cancelled;
  closed_at = none;
}

-- The upsert of a leg, which leaves a leg that is there.
unfoldable pub upsert_mock_leg : MockEnv → ℕ → Bool → TradeDirection → ℕ → ℕ → Db → Db
unfolding is_mock_leg mock_leg
upsert_mock_leg env job_id fills side target volume db =
    elim (find_first (is_mock_leg job_id side target) db.legs) [
      | some leg ↦ db
      | none ↦ record db { legs = mock_leg env job_id fills side target volume ∷ db.legs }
    ]

unfoldable pub upsert_side : MockEnv → ℕ → Bool → TradeDirection → ℕ → List ℕ → Db → Db
unfolding upsert_mock_leg
upsert_side env job_id fills side target [] db = db
upsert_side env job_id fills side target (volume ∷ volumes) db =
    upsert_side env job_id fills side (suc target) volumes
      (upsert_mock_leg env job_id fills side target volume db)

unfoldable pub mock_filled : ℕ → TradeDirection → TradeJob → TradeJob
mock_filled now direction job = record job {
  status = TradeJobStatus.filled;
  updated_at = now;
  times = record job.times { submitted_at = some now; filled_at = some now };
  active_direction =
      if is_news job.terms.execution_mode then some direction else job.active_direction;
  news_reversal_state =
      if is_news job.terms.execution_mode
      then some (initial_state direction)
      else job.news_reversal_state;
}

-- A fill: the legs of both sides, the job, and two reports.
unfoldable pub fill : MockEnv → TradeJob → TradeDirection → Exec Db (Unit {0})
unfolding upsert_side leg_volumes set_job mock_filled create_report
fill env job direction = do
  modify λ db.
      if is_news job.terms.execution_mode
      then upsert_side env job.id (not (side_tag direction == 0)) sell 1 (leg_volumes env job)
          (upsert_side env job.id (side_tag direction == 0) buy 1 (leg_volumes env job) db)
      else db
  modify (set_job (λ j. j.id == job.id) (mock_filled env.now direction))
  create_report env (submitted_key job.id) job.id ExecutionPhase.submitted
      (no_details "Mock order accepted")
  create_report env (filled_key job.id) job.id ExecutionPhase.filled
      (no_details "Mock order filled")

unfoldable pub mock_ended : TradeJobStatus → ℕ → TradeJob → TradeJob
mock_ended rejected now job = record job {
  status = rejected;
  updated_at = now;
  times = record job.times { submitted_at = some now };
}
mock_ended status now job = record job {
  status = status;
  updated_at = now;
  times = record job.times { cancelled_at = some now };
}

-- The outcome that was set for the job, on its row as it was read.
unfoldable pub play : MockEnv → TradeJob → MockExecutionOutcome → Exec Db (Unit {0})
unfolding fill fill_direction set_job mock_ended create_report
play env job reject = do
  modify (set_job (λ j. j.id == job.id) (mock_ended rejected env.now))
  create_report env (rejected_key job.id) job.id ExecutionPhase.rejected
      (no_details "Mock broker rejected both pending orders")
play env job timeout = if ltb env.now job.expires_at then skip else (do
  modify (set_job (λ j. j.id == job.id) (mock_ended expired env.now))
  create_report env (expired_key job.id) job.id ExecutionPhase.cancelled
      (no_details "Mock OCO expired; both pending orders cancelled"))
play env job outcome = fill env job (fill_direction job outcome)

-- `execute`.
unfoldable pub execute : MockEnv → ℕ → Exec Db (Unit {0})
unfolding play
execute env job_id = transaction λ db. elim (job_of job_id db) [
  | none ↦ (ok tt, db)
  | some job ↦
      if same_status armed job.status
      then play env job (or_else job.mock_outcome buy_fill) db
      else (ok tt, db)
]

-- The leg of a job's direction and target that is still open.
unfoldable pub is_open_target : ℕ → TradeDirection → ℕ → TradeJobLeg → Bool
is_open_target job_id direction target leg =
    leg.job_id == job_id
    && goes direction leg
    && is_initial leg
    && leg.target_number == target
    && has_leg_status filled leg

unfoldable pub is_taken : ℕ → TradeDirection → TradeJobLeg → Bool
is_taken job_id direction leg =
    leg.job_id == job_id && goes direction leg && has_leg_status closed_tp leg

unfoldable pub take_leg : ℕ → TradeJobLeg → TradeJobLeg
take_leg now leg = record leg { status = closed_tp; closed_at = some now }

-- The job after a target was reached: closed after the third one.
unfoldable pub advanced : ℕ → ℕ → TradeJob → TradeJob
advanced now target job =
    if target == 3
    then record job {
      status = closed;
      updated_at = now;
      times = record job.times { closed_at = some now };
      news_reversal_state = some completed;
    }
    else record job {
      status = managed;
      updated_at = now;
      news_reversal_state = some (if target == 1 then tp1_protected else tp2_protected);
    }

-- The target is reached: its leg, the job and a report.
unfoldable pub reach_target : MockEnv → ℕ → ℕ → TradeJobLeg → Exec Db (Unit {0})
unfolding take_leg set_job advanced create_report
reach_target env job_id target leg = do
  modify λ db. record db {
    legs = update_many (λ (l : TradeJobLeg). l.id == leg.id) (take_leg env.now) db.legs;
  }
  modify (set_job (λ j. j.id == job_id) (advanced env.now target))
  create_report env (tp_key job_id target) job_id
      (if target == 3 then ExecutionPhase.closed else ExecutionPhase.accepted)
      (no_details "Mock target reached")

-- `advanceNewsReversal`.
unfoldable pub advance_news_reversal : MockEnv → ℕ → Exec Db (Unit {0})
unfolding is_open_target is_taken reach_target
advance_news_reversal env job_id = transaction λ db. elim (job_of job_id db) [
  | none ↦ (ok tt, db)
  | some job ↦ elim job.active_direction [
    | none ↦ (ok tt, db)
    | some direction ↦
        let target = suc (count (is_taken job_id direction) db.legs) in
        elim (find_first (is_open_target job_id direction target) db.legs) [
          | none ↦ (ok tt, db)
          | some leg ↦ reach_target env job_id target leg db
        ]
  ]
]

abbrev pub since : ℕ → Option ℕ → Bool
since now none = false
since now (some t) = leb (t + 2000) now

-- One round of the loop of `tick`, on a job as it was read.
unfoldable pub play_job : MockEnv → TradeJob → Exec Db (Unit {0})
unfolding arm execute advance_news_reversal close
play_job env job =
    if same_status scheduled job.status
      && leb job.execute_at (env.now + job.terms.arm_seconds * 1000)
    then arm env job.id
    else if same_status armed job.status && leb job.execute_at env.now
    then execute env job.id
    else if is_news job.terms.execution_mode
        && includes (TradeJobStatus.filled ∷ managed ∷ []) job.status
        && leb (job.updated_at + 1000) env.now
    then advance_news_reversal env job.id
    else if same_status TradeJobStatus.filled job.status && since env.now job.times.filled_at
    then close env job.id
    else skip

-- An exception ends the round of the timer.
unfoldable pub play_jobs : MockEnv → List TradeJob → Exec Db (Unit {0})
unfolding play_job
play_jobs env [] = skip
play_jobs env (job ∷ jobs) = do play_job env job; play_jobs env jobs

abbrev pub is_played : ℕ → TradeJob → Bool
is_played now job =
    is_ctrader_venue job.execution_venue
    && includes (scheduled ∷ armed ∷ TradeJobStatus.filled ∷ managed ∷ []) job.status
    && leb job.execute_at (now + 60000)

-- `tick`, which takes the first hundred rows.
unfoldable pub tick : MockEnv → Exec Db (Unit {0})
unfolding play_jobs
tick env db = play_jobs env (take 100 (keep (is_played env.now) db.jobs)) db
