-- ===== src/Ctrader/Lease/Exclusive.antt =====
-- A job is held by one worker at a time: what a claim that won does to the claims after it.
use ctreader.Prelude.{
  ℕ, ◌+◌, ◌≡◌, ◌<◌, ◌≤◌, refl, Bool, true, false, ◌&&◌, ◌||◌, none, some, List, [], ◌∷◌, arith,
  ◌==◌, ltb, ==→eq, Bool-cases, inl, inr, count, count-le, count-update_le, update_many, All,
  if◌then◌else◌,
}
use ctreader.Schema.{TradeJob}
use ctreader.TradeJobs.State.{scheduled, same_status}
use ctreader.TradeJobs.Lawful.{HasUniqueIds}
use ctreader.Ctrader.{WorkerEnv, World, update_jobs}
use ctreader.Ctrader.Lease.{claim_job, may_claim, claimed, leased, is_unleased}

-- The row of the id that some claim before the time `until` could take.
abbrev is_open : ℕ → ℕ → TradeJob → Bool
is_open until id row =
    row.id == id
    && (same_status scheduled row.status
        || elim row.lease_expires_at [ none ↦ true | some t ↦ ltb t until ])

-- A conditional update that was sent: by which worker, of which job as that worker had read it.
pub record Claim : Type 0 where
  pub env : WorkerEnv
  pub job : TradeJob

-- How many of the claims that are made one after the other win the job of an id.
abbrev pub wins : ℕ → List Claim → World → ℕ
wins id [] w = 0
wins id (c ∷ claims) w =
    (if (c.job.id == id) && (claim_job c.env c.job w).0 then 1 else 0)
    + wins id claims (claim_job c.env c.job w).1

claim_opens :
    (env : WorkerEnv) (job : TradeJob) (until id : ℕ) (row : TradeJob)
    → env.now < until
    → may_claim env job row ≡ true
    → (row.id == id) ≡ true
    → is_open until id row ≡ true
unfolding may_claim is_unleased
claim_opens env job until id row early h same = ground arith

claimed_id : (env : WorkerEnv) (job row : TradeJob) → (claimed env job row).id ≡ row.id
unfolding claimed leased
claimed_id env job row = ground arith

claimed_closed :
    (env : WorkerEnv) (job row : TradeJob)
    → may_claim env job row ≡ true
    → is_open (env.now + env.lease_ms) job.id (claimed env job row) ≡ false
unfolding may_claim claimed leased is_unleased
claimed_closed env job row h = elim (Bool-cases (same_status scheduled job.status)) [
  | inl waiting ↦ ground arith
  | inr held ↦ ground arith
]

may_claim-id :
    (env : WorkerEnv) (job row : TradeJob)
    → may_claim env job row ≡ true
    → (row.id == job.id) ≡ true
unfolding may_claim
may_claim-id env job row h = ground arith

-- Rows of another id do not count, before and after the update.
other_closed :
    (env : WorkerEnv) (job : TradeJob) (until : ℕ) (rows : List TradeJob)
    → count (λ (j : TradeJob). j.id == job.id) rows ≡ 0
    → count (is_open until job.id) (update_many (may_claim env job) (claimed env job) rows) ≡ 0
unfolding count update_many
other_closed env job until [] h = refl
other_closed env job until (x ∷ xs) h =
    ground (arith, may_claim-id env job x, other_closed env job until xs)

won_closed :
    (env : WorkerEnv) (job : TradeJob) (rows : List TradeJob)
    → count (λ (j : TradeJob). j.id == job.id) rows ≤ 1
    → count (may_claim env job) rows ≡ 1
    → count
        (is_open (env.now + env.lease_ms) job.id)
        (update_many (may_claim env job) (claimed env job) rows)
      ≡ 0
unfolding count update_many
won_closed env job [] one won = absurd (omega arith)
won_closed env job (x ∷ xs) one won =
    let until = env.now + env.lease_ms in
    elim (Bool-cases (may_claim env job x)) [
      | inl mine ↦
          ground
            (arith, may_claim-id env job x, claimed_closed env job x, other_closed env job until xs)
      | inr other ↦ elim (Bool-cases (x.id == job.id)) [
        | inl same ↦
            let none_left =
              count-le (may_claim env job) (λ (j : TradeJob). j.id == job.id) xs
                (may_claim-id env job) in
            absurd (ground arith)
        | inr away ↦ ground (arith, won_closed env job xs)
      ]
    ]

-- While no row is open for a job, a claim of it takes nothing, and no claim opens it.
closed_refuses :
    (env : WorkerEnv) (job : TradeJob) (until : ℕ) (w : World)
    → env.now < until
    → count (is_open until job.id) w.db.jobs ≡ 0
    → (claim_job env job w).0 ≡ false
unfolding claim_job
closed_refuses env job until w early h =
    let le =
      count-le (may_claim env job) (is_open until job.id) w.db.jobs
        (λ row m. claim_opens env job until job.id row early m (may_claim-id env job row m)) in
    ground arith

stays_closed :
    (env : WorkerEnv) (job : TradeJob) (until id : ℕ) (w : World)
    → env.now < until
    → count (is_open until id) w.db.jobs ≡ 0
    → count (is_open until id) (claim_job env job w).1.db.jobs ≡ 0
unfolding claim_job update_jobs
stays_closed env job until id w early h =
    let le =
      count-update_le (may_claim env job) (is_open until id) (claimed env job) w.db.jobs λ row m o.
        claim_opens env job until id row early m (ground (arith, claimed_id env job row)) in
    omega arith

closed_wins :
    (until id : ℕ) (claims : List Claim) (w : World)
    → All (λ (c : Claim). c.env.now < until) claims
    → count (is_open until id) w.db.jobs ≡ 0
    → wins id claims w ≡ 0
closed_wins until id [] w early h = refl
closed_wins until id (c ∷ claims) w (now, early) h =
    let rest =
      closed_wins until id claims (claim_job c.env c.job w).1 early
        (stays_closed c.env c.job until id w now h) in
    elim (Bool-cases (c.job.id == id)) [
      | inl same ↦
          let at : c.job.id ≡ id = ==→eq c.job.id id same in
          let lost = closed_refuses c.env c.job until w now (rw at h) in rw (same, lost, rest) refl
      | inr other ↦ rw (other, rest) refl
    ]

-- Job ids being unique, once a worker's claim of a job has won, no claim of that job that is made
-- before its lease ends wins, whichever workers make claims, of whichever jobs, in whatever order,
-- and however old the row is that they had read.
pub claim_job-exclusive :
    (env : WorkerEnv) (job : TradeJob) (claims : List Claim) (w : World)
    → HasUniqueIds w.db.jobs
    → (claim_job env job w).0 ≡ true
    → All (λ (c : Claim). c.env.now < env.now + env.lease_ms) claims
    → wins job.id claims (claim_job env job w).1 ≡ 0
unfolding claim_job update_jobs
claim_job-exclusive env job claims w unique won early =
    closed_wins (env.now + env.lease_ms) job.id claims (claim_job env job w).1 early
      (won_closed env job w.db.jobs (unique job.id) (==→eq _ 1 won))
