-- ===== src/TradeJobs/Cancel/Window.antt =====
-- When a cancellation takes effect, and that it and the requests to close are lawful.
use ctreader.Prelude.{
  ℕ, ◌+◌, ◌*◌, ◌<◌, ◌≡◌, refl, inl, inr, Bool, true, some, [], ◌∷◌, arith, if◌then◌else◌,
  find_first, update_many, Option-cases, Bool-cases, ◌==◌, leb, not, ◌||◌,
}
use ctreader.Schema.{Db, TradeJob}
use ctreader.TradeJobs.State.{
  can_transition, includes, active_job_statuses, scheduled, synced, cancelled,
}
use ctreader.TradeJobs.Lawful.{
  IsLawfulRow, IsLawful, IsLawful-refl, HasUniqueIds, IsLawful-update_one,
}
use ctreader.TradeJobs.Cancel.{
  is_job_of, is_server_managed, request_cancel, cancel_row, cancel_for_telegram_user, ask_to_stop,
  cancel_now,
}

-- What a cancellation that returns has done to the job that it found.
abbrev pub Cancelled : ℕ → TradeJob → TradeJob → Db → Db → Type 0
Cancelled now job result db t =
    (includes (scheduled ∷ synced ∷ []) job.status ≡ true)
    × (now + job.terms.arm_seconds * 1000 < job.execute_at)
    × (result.status ≡ cancelled)
    × (t.jobs ≡ update_many (λ j. j.id == job.id) (cancel_row now) db.jobs)

abbrev pub AskedToStop : ℕ → TradeJob → TradeJob → Db → Db → Type 0
AskedToStop now job result db t =
    (is_server_managed job.execution_venue ≡ true)
    × (includes active_job_statuses job.status ≡ true)
    × (result.status ≡ job.status)
    × (t.jobs ≡ update_many (λ j. j.id == job.id) (request_cancel now) db.jobs)

cancel_row_lawful :
    (now : ℕ) (job : TradeJob)
    → includes (scheduled ∷ synced ∷ []) job.status ≡ true
    → IsLawfulRow job (cancel_row now job)
unfolding cancel_row can_transition
cancel_row_lawful now job early = record {
  same_id = refl;
  same_user = refl;
  allowed = ground arith;
}

request_cancel_lawful : (now : ℕ) (job : TradeJob) → IsLawfulRow job (request_cancel now job)
unfolding request_cancel can_transition
request_cancel_lawful now job = record { same_id = refl; same_user = refl; allowed = ground arith }

-- The steps on the row that was found.
found_IsLawful :
    (now telegram_id : ℕ) (q : TradeJob → Bool) (job : TradeJob) (db : Db)
    → HasUniqueIds db.jobs
    → find_first q db.jobs ≡ some job
    → IsLawful db.jobs
        ((if includes (scheduled ∷ synced ∷ []) job.status
            then cancel_now now telegram_id job
            else ask_to_stop now job)
          db).1.jobs
unfolding cancel_now ask_to_stop
found_IsLawful now telegram_id q job db unique found =
    elim (Bool-cases (includes (scheduled ∷ synced ∷ []) job.status)) [
      | inl early ↦
          rw early (elim (Bool-cases (leb job.execute_at (now + job.terms.arm_seconds * 1000))) [
            | inl late ↦ rw late (IsLawful-refl db.jobs)
            | inr early_enough ↦ rw early_enough (
                IsLawful-update_one q (cancel_row now) db.jobs job unique found
                  (cancel_row_lawful now job early))
          ])
      | inr late ↦
          rw late
            (elim (Bool-cases (
              not (is_server_managed job.execution_venue)
              || not (includes active_job_statuses job.status))) [
                | inl refused ↦ rw refused (IsLawful-refl db.jobs)
                | inr fine ↦ rw fine (
                    IsLawful-update_one q (request_cancel now) db.jobs job unique found
                      (request_cancel_lawful now job))
              ])
    ]

-- Whatever a cancellation returns or throws, the table of jobs changes lawfully.
pub cancel-IsLawful :
    (now telegram_id job_id : ℕ) (db : Db)
    → HasUniqueIds db.jobs
    → IsLawful db.jobs (cancel_for_telegram_user now telegram_id job_id db).1.jobs
unfolding cancel_for_telegram_user
cancel-IsLawful now telegram_id job_id db unique =
    elim (Option-cases (find_first (is_job_of telegram_id job_id db) db.jobs)) [
      | inl missing ↦ rw missing (IsLawful-refl db.jobs)
      | inr (job, found) ↦
          rw found
            (found_IsLawful now telegram_id (is_job_of telegram_id job_id db) job db unique found)
    ]
