-- ===== src/Ctrader/Events/Handled.antt =====
-- The worker's handlers that cannot throw move jobs onward only.
use ctreader.Prelude.{
  ℕ, ◌≡◌, refl, String, Bool, true, false, Bool-cases, inl, inr, none, some, Option-cases, List, [],
  ◌∷◌, arith, update_many, ◌==◌, ◌&&◌, find_many,
}
use ctreader.Schema.{TradeJob}
use ctreader.TradeJobs.Onward.{same_row, IsOnward, IsOnwardRow, IsOnward-update_many}
use ctreader.TradeJobs.State.{scheduled, same_status}
use ctreader.Ctrader.{WorkerEnv, World, Runtime, update_jobs, report, runtime_of, forget, finish}
use ctreader.Ctrader.Onward.{IsOn, IsOn-refl, IsOn-trans, cancelled_jobs}
use ctreader.Ctrader.Lease.{
  tick_jobs, take_jobs, take_job, claim_job, begin_job, is_passed_over, may_claim, claimed, leased,
  renew_leases, is_mine, renewed, handle_disconnect, release_job, released, is_held_by, retry_later,
  is_due_for_worker,
}
use ctreader.Ctrader.Orders.{is_unfilled}
use ctreader.Ctrader.Stop.{mark_rejected, reject, handle_start_failure, orders_of}

claimed_on :
    (env : WorkerEnv) (job a : TradeJob)
    → may_claim env job a ≡ true
    → IsOnwardRow a (claimed env job a)
unfolding may_claim claimed leased
claimed_on env job a h = elim (Bool-cases (same_status scheduled job.status)) [
  | inl waiting ↦ record {
    same_id = ground arith;
    same_user = ground arith;
    further = ground arith;
  }
  | inr held ↦ record { same_id = ground arith; same_user = ground arith; further = ground arith }
]

claim-IsOn : (env : WorkerEnv) (job : TradeJob) (w : World) → IsOn w (claim_job env job w).1
unfolding claim_job update_jobs
claim-IsOn env job w =
    IsOnward-update_many (may_claim env job) (claimed env job) w.db.jobs (claimed_on env job)

begin_on :
    (env : WorkerEnv) (job : TradeJob) (w : World) → (begin_job env job w).db.jobs ≡ w.db.jobs
unfolding begin_job report
begin_on env job w = ground arith

take-IsOn : (env : WorkerEnv) (job : TradeJob) (w : World) → IsOn w (take_job env job w)
unfolding take_job
take-IsOn env job w = elim (Bool-cases (is_passed_over env w job)) [
  | inl passed ↦ rw passed (IsOn-refl w)
  | inr due ↦ elim (Bool-cases ((claim_job env job w).0)) [
    | inl won ↦ rw (due, won, begin_on env job (claim_job env job w).1) (claim-IsOn env job w)
    | inr lost ↦ rw (due, lost) (claim-IsOn env job w)
  ]
]

take_all-IsOn : (env : WorkerEnv) (jobs : List TradeJob) (w : World) → IsOn w (take_jobs env jobs w)
unfolding take_jobs
take_all-IsOn env [] w = IsOn-refl w
take_all-IsOn env (job ∷ jobs) w =
    IsOn-trans w (take_job env job w) (take_jobs env jobs (take_job env job w))
      (take-IsOn env job w) (take_all-IsOn env jobs (take_job env job w))

pub tick-IsOn : (env : WorkerEnv) (w : World) → IsOn w (tick_jobs env w)
unfolding tick_jobs
tick-IsOn env w =
    take_all-IsOn env
      (find_many (is_due_for_worker env.now) (λ (j : TradeJob). j.execute_at) 25 w.db.jobs) w

pub renew-IsOn : (env : WorkerEnv) (w : World) → IsOn w (renew_leases env w)
unfolding renew_leases update_jobs
renew-IsOn env w =
    IsOnward-update_many (is_mine env w) (renewed env) w.db.jobs
      λ a h. unfold renewed in same_row a (renewed env a) refl refl refl

released_jobs :
    (env : WorkerEnv) (job_id : ℕ) (jobs : List TradeJob)
    → IsOnward jobs
        (update_many (λ job. job.id == job_id && is_held_by env job) (released env) jobs)
released_jobs env job_id jobs =
    IsOnward-update_many _ (released env) jobs
      λ a h. unfold released in same_row a (released env a) refl refl refl

disconnected_jobs :
    (env : WorkerEnv) (job_id : ℕ) (r : Runtime) (w : World)
    → runtime_of job_id w ≡ some r
    → (handle_disconnect env job_id w).db.jobs
      ≡ update_many (λ job. job.id == job_id && is_held_by env job) (released env) w.db.jobs
unfolding handle_disconnect release_job update_jobs report forget
disconnected_jobs env job_id r w found = ground arith

unknown_disconnect :
    (env : WorkerEnv) (job_id : ℕ) (w : World)
    → runtime_of job_id w ≡ none
    → handle_disconnect env job_id w ≡ w
unfolding handle_disconnect
unknown_disconnect env job_id w missing = ground arith

pub disconnect-IsOn :
    (env : WorkerEnv) (job_id : ℕ) (w : World) → IsOn w (handle_disconnect env job_id w)
disconnect-IsOn env job_id w = elim (Option-cases (runtime_of job_id w)) [
  | inl missing ↦ rw (unknown_disconnect env job_id w missing) (IsOn-refl w)
  | inr (r, found) ↦
      rw (disconnected_jobs env job_id r w found) (released_jobs env job_id w.db.jobs)
]

retried_jobs :
    (env : WorkerEnv) (job_id : ℕ) (w : World)
    → (retry_later env job_id w).db.jobs
      ≡ update_many (λ job. job.id == job_id && is_held_by env job) (released env) w.db.jobs
unfolding retry_later release_job update_jobs report forget
retried_jobs env job_id w = ground arith

rejected_jobs :
    (env : WorkerEnv) (job_id : ℕ) (message : String) (w : World)
    → (reject env job_id message w).db.jobs
      ≡ update_many (is_unfilled job_id) (mark_rejected env.now) w.db.jobs
unfolding reject finish forget report update_jobs
rejected_jobs env job_id message w =
    ground (arith, cancelled_jobs (orders_of (runtime_of job_id w)) w)

rejected_on :
    (job_id now : ℕ) (a : TradeJob)
    → is_unfilled job_id a ≡ true
    → IsOnwardRow a (mark_rejected now a)
unfolding is_unfilled mark_rejected
rejected_on job_id now a h = record { same_id = refl; same_user = refl; further = ground arith }

pub failure-IsOn :
    (env : WorkerEnv) (job_id : ℕ) (transient : Bool) (message : String) (w : World)
    → IsOn w (handle_start_failure env job_id transient message w)
unfolding handle_start_failure
failure-IsOn env job_id true message w =
    rw (retried_jobs env job_id w) (released_jobs env job_id w.db.jobs)
failure-IsOn env job_id false message w =
    rw (rejected_jobs env job_id message w)
      (IsOnward-update_many (is_unfilled job_id) _ w.db.jobs (rejected_on job_id env.now))
