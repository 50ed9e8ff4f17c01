-- ===== src/Ctrader/Onward.antt =====
-- Rules for the jobs under an action of the worker: each status stays or moves to a higher rank. One
-- rule for each way to build an action.
use ctreader.Prelude.{
  ℕ, ◌≡◌, refl, Bool, true, false, Option, none, some, List, [], ◌∷◌, arith, Exec, Result,
  Exception, ok, err, require, throw_if,
}
use ctreader.Config.{Config}
use ctreader.Schema.{Db, TradeJob, TradeJobLeg, ReportDetails}
use ctreader.Safety.{assert_trading_open, status, read_control}
use ctreader.TradeJobs.Onward.{
  IsOnward, IsOnwardRow, IsOnward-refl, IsOnward-trans, IsOnward-update_many,
}
use ctreader.TradeJobs.State.{ExecutionPhase}
use ctreader.Ctrader.{
  WorkerEnv, World, ReportKey, update_jobs, report, cancel_all, cancel, update_runtime,
}
use ctreader.Ctrader.Legs.{cancel_legs, cancel_leg, update_legs}

-- From one state of the worker to another no job is lost, and every job moves onward.
abbrev pub IsOn : World → World → Type 0
IsOn w v = IsOnward w.db.jobs v.db.jobs

pub IsOn-refl : (w : World) → IsOn w w
IsOn-refl w = IsOnward-refl w.db.jobs

pub IsOn-trans : (w v u : World) → IsOn w v → IsOn v u → IsOn w u
IsOn-trans w v u = IsOnward-trans w.db.jobs v.db.jobs u.db.jobs

pub reported_jobs :
    (env : WorkerEnv) (key : ReportKey) (job_id : ℕ) (phase : ExecutionPhase) (d : ReportDetails)
    (w : World)
    → (report env key job_id phase d w).db.jobs ≡ w.db.jobs
unfolding report
reported_jobs env key job_id phase d w = ground arith

pub cancelled_jobs : (ids : List ℕ) (w : World) → (cancel_all ids w).db.jobs ≡ w.db.jobs
unfolding cancel_all cancel
cancelled_jobs [] w = refl
cancelled_jobs (id ∷ ids) w = cancelled_jobs ids _

cancelled_leg_jobs :
    (env : WorkerEnv) (job_id : ℕ) (leg : TradeJobLeg) (w : World)
    → (cancel_leg env job_id leg w).db.jobs ≡ w.db.jobs
unfolding cancel_leg update_legs update_runtime
cancelled_leg_jobs env job_id leg w = ground arith

pub cancelled_legs_jobs :
    (env : WorkerEnv) (job_id : ℕ) (legs : List TradeJobLeg) (w : World)
    → (cancel_legs env job_id legs w).db.jobs ≡ w.db.jobs
unfolding cancel_legs
cancelled_legs_jobs env job_id [] w = refl
cancelled_legs_jobs env job_id (leg ∷ legs) w =
    rw
      (
        cancelled_legs_jobs env job_id legs (cancel_leg env job_id leg w),
        cancelled_leg_jobs env job_id leg w,
      )
      refl

pub IsOn-report :
    (env : WorkerEnv) (key : ReportKey) (job_id : ℕ) (phase : ExecutionPhase) (d : ReportDetails)
    (w v : World)
    → IsOn w v
    → IsOn w (report env key job_id phase d v)
IsOn-report env key job_id phase d w v h = rw (reported_jobs env key job_id phase d v) h

pub IsOn-cancel_all : (ids : List ℕ) (w v : World) → IsOn w v → IsOn w (cancel_all ids v)
IsOn-cancel_all ids w v h = rw (cancelled_jobs ids v) h

pub IsOn-update_jobs :
    (p : TradeJob → Bool) (f : TradeJob → TradeJob) (w v : World)
    → ((a : TradeJob) → p a ≡ true → IsOnwardRow a (f a))
    → IsOn w v
    → IsOn w (update_jobs p f v)
unfolding update_jobs
IsOn-update_jobs p f w v rows h =
    IsOnward-trans w.db.jobs v.db.jobs _ h (IsOnward-update_many p f v.db.jobs rows)

-- An action that moves jobs onward from every state, whether it returns or throws.
abbrev pub Moves : {A : Type 0} → Exec World A → Type 0
Moves m = (w : World) → IsOn w (m w).1

-- How an action went from a state that moves onward: it returned, or it threw.
pub Moves-cases {ℓ} :
    {A : Type 0} {P : Type ℓ} (m : Exec World A) (w : World)
    → Moves m
    → ((a : A) (v : World) → m w ≡ (ok a, v) → IsOn w v → P)
    → ((x : Exception) (v : World) → m w ≡ (err x, v) → IsOn w v → P)
    → P
Moves-cases {A} {P} m w h done failed = go (m w) refl (h w)
  where
    go : (r : Result A × World) → m w ≡ r → IsOn w r.1 → P
    go (ok a, v) e on = done a v e on
    go (err x, v) e on = failed x v e on

pub Moves-throw_if : (b : Bool) (x : Exception) → Moves (throw_if b x)
Moves-throw_if true x w = IsOn-refl w
Moves-throw_if false x w = IsOn-refl w

pub Moves-require : {A : Type 0} (x : Exception) (o : Option A) → Moves (require x o)
Moves-require x none w = IsOn-refl w
Moves-require x (some a) w = IsOn-refl w

-- An action that changes no job.
pub Moves-same :
    {A : Type 0} (m : Exec World A) → ((w : World) → (m w).1.db.jobs ≡ w.db.jobs) → Moves m
Moves-same m same w = rw (same w) (IsOn-refl w)

-- The switch is read without a change of the jobs.
pub read_status_jobs : (cfg : Config) (db : Db) → (status cfg db).1.jobs ≡ db.jobs
unfolding status read_control
read_status_jobs cfg db = ground arith

pub open_jobs : (cfg : Config) (db : Db) → (assert_trading_open cfg db).1.jobs ≡ db.jobs
unfolding assert_trading_open status read_control
open_jobs cfg db = ground arith
