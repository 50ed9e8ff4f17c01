-- ===== src/Ctrader/Mock/Progress.antt =====
-- Three advances close a NEWS_REVERSAL job in mock mode.
use ctreader.Prelude.{
  ℕ, suc, ◌≡◌, ◌<◌, refl, ap, Bool, true, Bool-cases, inl, inr, none, some, ◌∷◌, arith, ◌==◌,
  ==_refl, ==→eq, count, count-update_same, find_first, find_first-update, find_first-passes,
  update_many, if◌then◌else◌, ok,
}
use ctreader.Schema.{Db, TradeJob, TradeJobLeg, ExecutionReport, TradeDirection, completed}
use ctreader.TradeJobs.State.{ExecutionPhase, closed}
use ctreader.Ctrader.{no_details}
use ctreader.Ctrader.Mock.{
  MockEnv, tp_key, job_of, is_open_target, is_taken, take_leg, advanced, reach_target,
  create_report, set_job, mock_row, advance_news_reversal,
}
use ctreader.Ctrader.Mock.Targets.{
  IsAtTarget, at_time, count-update_row, open_found, open_not_taken, open-then_taken, other_target,
  taken_not_open, taken_id,
}

-- The database after a target was reached.
abbrev reached_db : MockEnv → ℕ → ℕ → TradeJobLeg → Db → Db
reached_db env job_id k leg db = record db {
  legs = update_many (λ (l : TradeJobLeg). l.id == leg.id) (take_leg env.now) db.legs;
  jobs = update_many (λ (j : TradeJob). j.id == job_id) (advanced env.now k) db.jobs;
  reports =
      mock_row env (tp_key job_id k) job_id
        (if k == 3 then ExecutionPhase.closed else ExecutionPhase.accepted)
        (no_details "Mock target reached")
      ∷ db.reports;
}

reach_returns :
    (env : MockEnv) (job_id k : ℕ) (leg : TradeJobLeg) (db : Db)
    → find_first (λ (r : ExecutionReport). r.report_key == env.text (tp_key job_id k)) db.reports
      ≡ none
    → reach_target env job_id k leg db ≡ (ok tt, reached_db env job_id k leg db)
unfolding reach_target create_report set_job
reach_returns env job_id k leg db h = ground arith

advance_returns :
    (env : MockEnv) (job_id n : ℕ) (direction : TradeDirection) (job : TradeJob) (leg : TradeJobLeg)
    (db : Db)
    → IsAtTarget env job_id direction n job db
    → n < 3
    → find_first (is_open_target job_id direction (suc n)) db.legs ≡ some leg
    → advance_news_reversal env job_id db ≡ (ok tt, reached_db env job_id (suc n) leg db)
unfolding advance_news_reversal
advance_returns env job_id n direction job leg db h lt next =
    let same =
      reach_returns env job_id (suc n) leg db (h.fresh (suc n) (omega arith) (omega arith)) in
    ground (arith, h.found, h.active, h.taken, next, same)

advanced_id : (now k : ℕ) (job : TradeJob) → (advanced now k job).id ≡ job.id
unfolding advanced
advanced_id now k job = ground arith

advanced_active :
    (now k : ℕ) (job : TradeJob) → (advanced now k job).active_direction ≡ job.active_direction
unfolding advanced
advanced_active now k job = ground arith

reached_job :
    (env : MockEnv) (job_id k : ℕ) (leg : TradeJobLeg) (job : TradeJob) (db : Db)
    → job_of job_id db ≡ some job
    → job_of job_id (reached_db env job_id k leg db) ≡ some (advanced env.now k job)
reached_job env job_id k leg job db found =
    let p = λ (j : TradeJob). j.id == job_id in
    let hit : p job ≡ true = find_first-passes p db.jobs found in
    let updated =
      find_first-update p p (advanced env.now k) db.jobs
        (λ b. ap (λ id. id == job_id) (advanced_id env.now k b)) found in
    rw hit at updated

still_fresh :
    (env : MockEnv) (job_id n k : ℕ) (db : Db)
    → ((a b : ℕ) → env.text (tp_key job_id a) ≡ env.text (tp_key job_id b) → a ≡ b)
    → n < k
    → find_first (λ (r : ExecutionReport). r.report_key == env.text (tp_key job_id k)) db.reports
      ≡ none
    → find_first
        (λ (r : ExecutionReport). r.report_key == env.text (tp_key job_id k))
        (mock_row env
            (tp_key job_id n)
            job_id
            (if n == 3 then ExecutionPhase.closed else ExecutionPhase.accepted)
            (no_details "Mock target reached")
          ∷ db.reports)
      ≡ none
unfolding find_first mock_row
still_fresh env job_id n k db apart lt h =
    elim (Bool-cases (env.text (tp_key job_id n) == env.text (tp_key job_id k))) [
      | inl same ↦ let e = apart n k (==→eq _ _ same) in absurd (omega arith)
      | inr other ↦ rw other h
    ]

reached-IsAtTarget :
    (env : MockEnv) (job_id n : ℕ) (direction : TradeDirection) (job : TradeJob) (leg : TradeJobLeg)
    (db : Db)
    → ((a b : ℕ) → env.text (tp_key job_id a) ≡ env.text (tp_key job_id b) → a ≡ b)
    → IsAtTarget env job_id direction n job db
    → find_first (is_open_target job_id direction (suc n)) db.legs ≡ some leg
    → IsAtTarget env job_id direction
        (suc n)
        (advanced env.now (suc n) job)
        (reached_db env job_id (suc n) leg db)
reached-IsAtTarget env job_id n direction job leg db apart h next =
    let q = λ (l : TradeJobLeg). l.id == leg.id in
    let open_now = find_first-passes (is_open_target job_id direction (suc n)) db.legs next in
    let row = λ (p : TradeJobLeg → Bool).
      count-update_row p q (is_open_target job_id direction (suc n)) (take_leg env.now) db.legs leg
        (h.unique leg.id) next (==_refl leg.id) in
    record {
      found = reached_job env job_id (suc n) leg job db h.found;
      active = rw (advanced_active env.now (suc n) job) h.active;
      taken =
          let moved = row (is_taken job_id direction) in
          let before = open_not_taken job_id direction (suc n) leg open_now in
          let after = open-then_taken env.now job_id direction (suc n) leg open_now in
          ground (arith, h.taken);
      waiting = λ k lt le.
          let moved = row (is_open_target job_id direction k) in
          let before = other_target env.now job_id direction (suc n) k leg open_now lt in
          let after = taken_not_open env.now job_id direction k leg in
          omega (arith, h.waiting k (omega arith) le);
      unique = λ k.
          rw
            (count-update_same q (λ (l : TradeJobLeg). l.id == k) (take_leg env.now) db.legs
              (λ l _. ap (λ id. id == k) (taken_id env.now l)))
            (h.unique k);
      fresh = λ k lt le. still_fresh env job_id (suc n) k db apart lt (h.fresh k (omega arith) le);
    }

-- One advance of a job of which fewer than three targets are reached.
advance-IsAtTarget :
    (env : MockEnv) (job_id n : ℕ) (direction : TradeDirection) (job : TradeJob) (db : Db)
    → ((a b : ℕ) → env.text (tp_key job_id a) ≡ env.text (tp_key job_id b) → a ≡ b)
    → n < 3
    → IsAtTarget env job_id direction n job db
    → ((advance_news_reversal env job_id db).0 ≡ ok tt)
      × IsAtTarget env job_id direction
          (suc n)
          (advanced env.now (suc n) job)
          (advance_news_reversal env job_id db).1
advance-IsAtTarget env job_id n direction job db apart lt h =
    let (leg, next) =
      open_found job_id direction (suc n) db.legs (h.waiting (suc n) (omega arith) (omega arith)) in
    let done = advance_returns env job_id n direction job leg db h lt next in
    (
      ap (λ r. r.0) done,
      rw done (reached-IsAtTarget env job_id n direction job leg db apart h next),
    )

later :
    (env : MockEnv) (now job_id n : ℕ) (direction : TradeDirection) (job : TradeJob) (db : Db)
    → IsAtTarget env job_id direction n job db
    → IsAtTarget (at_time now env) job_id direction n job db
later env now job_id n direction job db h = record {
  found = h.found;
  active = h.active;
  taken = h.taken;
  waiting = h.waiting;
  unique = h.unique;
  fresh = h.fresh;
}

third_closes :
    (now : ℕ) (job : TradeJob)
    → ((advanced now 3 job).status ≡ closed)
      × ((advanced now 3 job).news_reversal_state ≡ some completed)
unfolding advanced
third_closes now job = (refl, refl)

-- Where no target of a NEWS_REVERSAL job is reached yet, the legs of the three targets of its
-- direction are open, ids of legs are unique, and the reports of its targets have keys of their own
-- that are not in use, three advances, at any times, each return, and after them the job is CLOSED,
-- its reversal COMPLETED, and three legs have taken their profit.
pub advance_thrice :
    (env : MockEnv) (job_id first second third : ℕ) (direction : TradeDirection) (job : TradeJob)
    (db : Db)
    → ((a b : ℕ) → env.text (tp_key job_id a) ≡ env.text (tp_key job_id b) → a ≡ b)
    → IsAtTarget env job_id direction 0 job db
    → let a = advance_news_reversal (at_time first env) job_id db in
      let b = advance_news_reversal (at_time second env) job_id a.1 in
      let c = advance_news_reversal (at_time third env) job_id b.1 in
      (a.0 ≡ ok tt)
      × (b.0 ≡ ok tt)
      × (c.0 ≡ ok tt)
      × (count (is_taken job_id direction) c.1.legs ≡ 3)
      × (closed_job : TradeJob) × (job_of job_id c.1 ≡ some closed_job)
      × (closed_job.status ≡ closed)
      × (closed_job.news_reversal_state ≡ some completed)
advance_thrice env job_id first second third direction job db apart h =
    let a = advance_news_reversal (at_time first env) job_id db in
    let b = advance_news_reversal (at_time second env) job_id a.1 in
    let c = advance_news_reversal (at_time third env) job_id b.1 in
    let job1 = advanced first 1 job in
    let job2 = advanced second 2 job1 in
    let job3 = advanced third 3 job2 in
    let (ok1, at1) =
      advance-IsAtTarget (at_time first env) job_id 0 direction job db apart (omega arith)
        (later env first job_id 0 direction job db h) in
    let (ok2, at2) =
      advance-IsAtTarget (at_time second env) job_id 1 direction job1 a.1 apart (omega arith)
        (later (at_time first env) second job_id 1 direction job1 a.1 at1) in
    let (ok3, at3) =
      advance-IsAtTarget (at_time third env) job_id 2 direction job2 b.1 apart (omega arith)
        (later (at_time second env) third job_id 2 direction job2 b.1 at2) in
    let (closing, completing) = third_closes third job2 in
    (ok1, ok2, ok3, at3.taken, job3, at3.found, closing, completing)
