-- ===== src/Ctrader/Events/Ended.antt =====
-- The kill switch and the expiry of a job move jobs onward only.
use ctreader.Prelude.{
  ℕ, ◌≡◌, refl, true, Bool-cases, inl, inr, ◌⊎◌, Option-cases, List, [], ◌∷◌, arith, update_many,
  Result, ok, err, ◌&&◌, keep,
}
use ctreader.Config.{Config}
use ctreader.Schema.{Db, TradeJob}
use ctreader.Safety.{status, SafetyStatus}
use ctreader.TradeJobs.Onward.{IsOnwardRow, IsOnward-update_many}
use ctreader.Ctrader.{WorkerEnv, World, Runtime, update_jobs, report, runtime_of, forget, finish}
use ctreader.Ctrader.Onward.{
  IsOn, IsOn-refl, IsOn-trans, cancelled_jobs, cancelled_legs_jobs, read_status_jobs,
}
use ctreader.Ctrader.Orders.{is_unfilled}
use ctreader.Ctrader.Legs.{is_initial, has_leg_status, legs_of}
use ctreader.Schema.{submitted}
use ctreader.Ctrader.Messages.{is_news, mark_closed}
use ctreader.Ctrader.Stop.Halt.{halted_jobs}
use ctreader.Ctrader.Stop.{
  expire, expire_pending, mark_expired, is_filled_job, halt_runtime, halt_runtimes, mark_halted,
  enforce_kill_switch, heed_status,
}

halted_on :
    (job_id now : ℕ) (a : TradeJob)
    → is_unfilled job_id a ≡ true
    → IsOnwardRow a (mark_halted now a)
unfolding is_unfilled mark_halted
halted_on job_id now a h = record { same_id = refl; same_user = refl; further = ground arith }

halt_one-IsOn : (env : WorkerEnv) (r : Runtime) (w : World) → IsOn w (halt_runtime env r w)
halt_one-IsOn env r w = elim (halted_jobs env r w) [
  | inl same ↦ rw same (IsOn-refl w)
  | inr moved ↦ rw moved (
      IsOnward-update_many (is_unfilled r.job_id) (mark_halted env.now) w.db.jobs
        (halted_on r.job_id env.now))
]

halt_all-IsOn :
    (env : WorkerEnv) (runtimes : List Runtime) (w : World) → IsOn w (halt_runtimes env runtimes w)
unfolding halt_runtimes
halt_all-IsOn env [] w = IsOn-refl w
halt_all-IsOn env (r ∷ runtimes) w =
    IsOn-trans w (halt_runtime env r w) (halt_runtimes env runtimes (halt_runtime env r w))
      (halt_one-IsOn env r w) (halt_all-IsOn env runtimes (halt_runtime env r w))

heed-IsOn :
    (env : WorkerEnv) (w : World) (r : Result SafetyStatus × Db)
    → r.1.jobs ≡ w.db.jobs
    → IsOn w (heed_status env w r)
unfolding heed_status
heed-IsOn env w (err x, db) same = rw same (IsOn-refl w)
heed-IsOn env w (ok s, db) same =
    let read : World = record w { db = db } in
    let there : IsOn w read = rw same (IsOn-refl w) in
    elim (Bool-cases s.halted) [
      | inl halted ↦ rw halted (
          IsOn-trans w read (halt_runtimes env w.runtimes read) there
            (halt_all-IsOn env w.runtimes read))
      | inr open_now ↦ rw open_now there
    ]

pub kill-IsOn :
    (cfg : Config) (env : WorkerEnv) (w : World) → IsOn w (enforce_kill_switch cfg env w)
unfolding enforce_kill_switch
kill-IsOn cfg env w = heed-IsOn env w (status cfg w.db) (read_status_jobs cfg w.db)

expired_on :
    (job_id now : ℕ) (a : TradeJob)
    → is_unfilled job_id a ≡ true
    → IsOnwardRow a (mark_expired now a)
unfolding is_unfilled mark_expired
expired_on job_id now a h = record { same_id = refl; same_user = refl; further = ground arith }

pub over_on :
    (job_id now : ℕ) (a : TradeJob)
    → is_filled_job job_id a ≡ true
    → IsOnwardRow a (mark_closed now a)
unfolding mark_closed
over_on job_id now a h = record { same_id = refl; same_user = refl; further = ground arith }

expired_jobs :
    (env : WorkerEnv) (r : Runtime) (w : World)
    → ((expire_pending env r w).db.jobs ≡ w.db.jobs)
      ⊎ ((expire_pending env r w).db.jobs
          ≡ update_many (is_unfilled r.job_id) (mark_expired env.now) w.db.jobs)
      ⊎ ((expire_pending env r w).db.jobs
          ≡ update_many (is_filled_job r.job_id) (mark_closed env.now) w.db.jobs)
unfolding expire_pending finish forget report update_jobs
expired_jobs env r w = ground (arith, cancelled_jobs r.order_ids w)

pending-IsOn : (env : WorkerEnv) (r : Runtime) (w : World) → IsOn w (expire_pending env r w)
pending-IsOn env r w = elim (expired_jobs env r w) [
  | inl same ↦ rw same (IsOn-refl w)
  | inr (inl moved) ↦ rw moved (
      IsOnward-update_many (is_unfilled r.job_id) (mark_expired env.now) w.db.jobs
        (expired_on r.job_id env.now))
  | inr (inr moved) ↦ rw moved (
      IsOnward-update_many (is_filled_job r.job_id) (mark_closed env.now) w.db.jobs
        (over_on r.job_id env.now))
]

expire_cases :
    (env : WorkerEnv) (job_id : ℕ) (w : World)
    → ((expire env job_id w).db.jobs ≡ w.db.jobs)
      ⊎ ((r : Runtime) × (expire env job_id w ≡ expire_pending env r w))
unfolding expire
expire_cases env job_id w = elim (Option-cases (runtime_of job_id w)) [
  | inl missing ↦ inl (ground arith)
  | inr (r, found) ↦ elim (Bool-cases (is_news r.execution_mode && r.filled)) [
    | inl news ↦ inl (
        ground (
          arith,
          cancelled_legs_jobs env job_id
              (keep (λ l. is_initial l && has_leg_status submitted l) (legs_of job_id w)) w,
        ))
    | inr other ↦ inr (r, ground arith)
  ]
]

pub expire-IsOn : (env : WorkerEnv) (job_id : ℕ) (w : World) → IsOn w (expire env job_id w)
expire-IsOn env job_id w = elim (expire_cases env job_id w) [
  | inl same ↦ rw same (IsOn-refl w)
  | inr (r, e) ↦ rw e (pending-IsOn env r w)
]
