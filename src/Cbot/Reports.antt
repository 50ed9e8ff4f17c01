-- ===== src/Cbot/Reports.antt =====
-- What a cBot's report does to the tables, on every branch.
use ctreader.Prelude.{
  ℕ, ◌≡◌, refl, inl, Bool, inr, true, Result, false, ◌&&◌, Option, none, some, arith, ok, ◌==◌,
  ==_refl, find_first, Option-cases, Bool-cases, or_else,
}
use ctreader.Schema.{Db, TradeJob, ExecutionReport, cbot_instance}
use ctreader.TradeJobs.State.{TradeJobStatus, can_transition, status_for_phase}
use ctreader.TradeJobs.Lawful.{IsLawful, IsLawful-refl, HasUniqueIds}
use ctreader.TradeJobs.Report.{
  SubmitExecutionReportDto, ReportReply, is_invalid_move, report_row, move_job,
}
use ctreader.TradeJobs.Report.Outcome.{moved_row, moved_found}
use ctreader.TradeJobs.Report.Repeat.{move_if-IsLawful}
use ctreader.Cbot.{
  held_by_instance, next_status, release_probe, store_cbot_report, repeat_cbot_report,
  first_cbot_report, report,
}

-- The status that a report asks for is taken only where the table allows it.
next_status-allowed :
    (a : TradeJobStatus) (o : Option TradeJobStatus) → is_invalid_move a (next_status a o) ≡ false
unfolding next_status
next_status-allowed a none = refl
next_status-allowed a (some b) = elim (Bool-cases (can_transition a b)) [
  | inl allowed ↦ rw (allowed, allowed) refl
  | inr refused ↦ rw refused refl
]

-- Releasing a probe touches neither jobs nor reports.
pub release_keeps :
    (job : TradeJob) (dto : SubmitExecutionReportDto) (db : Db)
    → ((release_probe job dto db).jobs ≡ db.jobs)
      × ((release_probe job dto db).reports ≡ db.reports)
unfolding release_probe
release_keeps job dto db = ground arith

-- The tables after a report that is not a repetition.
abbrev pub after_report : ℕ → ℕ → ℕ → TradeJob → SubmitExecutionReportDto → Db → Db
after_report now id instance_id job dto db =
    release_probe job dto (store_cbot_report now id instance_id job dto db)

abbrev pub first_reply : ℕ → TradeJob → SubmitExecutionReportDto → ReportReply
first_reply id job dto = record {
  duplicate = false;
  report_id = id;
  job_status = some (or_else (next_status job.status (status_for_phase dto.phase)) job.status);
}

first_returns :
    (now id instance_id : ℕ) (job : TradeJob) (dto : SubmitExecutionReportDto) (db : Db)
    → first_cbot_report now id instance_id job dto db
      ≡ (ok (first_reply id job dto), after_report now id instance_id job dto db)
unfolding first_cbot_report
first_returns now id instance_id job dto db = refl

report_first :
    (now id instance_id job_id : ℕ) (dto : SubmitExecutionReportDto) (db : Db) (job : TradeJob)
    → find_first (λ (j : TradeJob). j.id == job_id && held_by_instance instance_id j) db.jobs
      ≡ some job
    → find_first (λ (r : ExecutionReport). r.report_key == dto.report_key) db.reports ≡ none
    → report now id instance_id job_id dto db
      ≡ (ok (first_reply id job dto), after_report now id instance_id job dto db)
unfolding report
report_first now id instance_id job_id dto db job finds fresh =
    rw (finds, fresh) (first_returns now id instance_id job dto db)

stored_row :
    (now id instance_id : ℕ) (job : TradeJob) (dto : SubmitExecutionReportDto) (db : Db)
    → find_first
        (λ (r : ExecutionReport). r.report_key == dto.report_key)
        (store_cbot_report now id instance_id job dto db).reports
      ≡ some (report_row id job.id (cbot_instance instance_id) dto)
unfolding store_cbot_report report_row find_first
stored_row now id instance_id job dto db = rw (==_refl dto.report_key) refl

stored_job :
    (now id instance_id : ℕ) (job : TradeJob) (dto : SubmitExecutionReportDto) (db : Db)
    → find_first (λ (j : TradeJob). j.id == job.id) db.jobs ≡ some job
    → find_first
        (λ (j : TradeJob). j.id == job.id)
        (store_cbot_report now id instance_id job dto db).jobs
      ≡ some
          (moved_row now (next_status job.status (status_for_phase dto.phase)) dto.occurred_at job)
unfolding store_cbot_report
stored_job now id instance_id job dto db finds =
    moved_found now dto.occurred_at job.id (next_status job.status (status_for_phase dto.phase)) db
      job finds

-- The row of a job after a report that asks for a status, by the table.
pub record IsMovedIfAllowed (now : ℕ) (asked : Option TradeJobStatus) (job row : TradeJob)
    : Type 0 where
  pub moved :
      (s : TradeJobStatus)
      → asked ≡ some s
      → can_transition job.status s ≡ true
      → (row.status ≡ s) × (row.updated_at ≡ now) × (row.id ≡ job.id) × (row.user_id ≡ job.user_id)
  pub kept :
      ((s : TradeJobStatus) → asked ≡ some s → can_transition job.status s ≡ false) → row ≡ job

told_status :
    (id now : ℕ) (job : TradeJob) (dto : SubmitExecutionReportDto)
    → ◌≡◌ {A = Result ReportReply} (ok (first_reply id job dto)) (
        ok (record {
          duplicate = false;
          report_id = id;
          job_status =
              some
                (moved_row now
                  (next_status job.status (status_for_phase dto.phase))
                  dto.occurred_at
                  job).status;
        }))
unfolding moved_row move_job
told_status id now job dto =
    elim (Option-cases (next_status job.status (status_for_phase dto.phase))) [
      | inl same ↦ rw same refl
      | inr (s, moves) ↦ rw moves refl
    ]

moved_if_allowed :
    (now at : ℕ) (job : TradeJob) (asked : Option TradeJobStatus)
    → IsMovedIfAllowed now asked job (moved_row now (next_status job.status asked) at job)
unfolding next_status moved_row move_job
moved_if_allowed now at job none = record { moved = λ s e. cc; kept = λ h. refl }
moved_if_allowed now at job (some s) = elim (Bool-cases (can_transition job.status s)) [
  | inl allowed ↦ record {
    moved = λ b e fine. ground arith;
    kept = λ h. absurd (ground (arith, h s refl));
  }
  | inr refused ↦ record { moved = λ b e fine. ground arith; kept = λ h. rw refused refl }
]

-- A report with a new key on a job that the instance holds is accepted whatever its phase is and
-- whatever the job's status is: its row is stored under its key, and the job's row has the status
-- that its phase asks for, and the time of the call, where the table allows the transition, and is as
-- it was where the phase asks for none or the table does not allow it. The answer tells the status
-- of the row.
pub report_stores :
    (now id instance_id : ℕ) (dto : SubmitExecutionReportDto) (db : Db) (job : TradeJob)
    → find_first (λ (j : TradeJob). j.id == job.id && held_by_instance instance_id j) db.jobs
      ≡ some job
    → find_first (λ (j : TradeJob). j.id == job.id) db.jobs ≡ some job
    → find_first (λ (r : ExecutionReport). r.report_key == dto.report_key) db.reports ≡ none
    → (row : TradeJob) × (find_first
          (λ (j : TradeJob). j.id == job.id)
          (report now id instance_id job.id dto db).1.jobs
        ≡ some row)
      × IsMovedIfAllowed now (status_for_phase dto.phase) job row
      × ((report now id instance_id job.id dto db).0
          ≡ ok (record { duplicate = false; report_id = id; job_status = some row.status }))
      × (find_first
            (λ (r : ExecutionReport). r.report_key == dto.report_key)
            (report now id instance_id job.id dto db).1.reports
          ≡ some (report_row id job.id (cbot_instance instance_id) dto))
report_stores now id instance_id dto db job held finds fresh =
    let stored = store_cbot_report now id instance_id job dto db in
    let next = next_status job.status (status_for_phase dto.phase) in
    rw (report_first now id instance_id job.id dto db job held fresh) (
      moved_row now next dto.occurred_at job,
      rw ((release_keeps job dto stored).0) (stored_job now id instance_id job dto db finds),
      moved_if_allowed now dto.occurred_at job (status_for_phase dto.phase),
      told_status id now job dto,
      rw ((release_keeps job dto stored).1) (stored_row now id instance_id job dto db),
    )

store_cbot_report-IsLawful :
    (now id instance_id : ℕ) (q : TradeJob → Bool) (job : TradeJob) (dto : SubmitExecutionReportDto)
    (db : Db)
    → HasUniqueIds db.jobs
    → find_first q db.jobs ≡ some job
    → IsLawful db.jobs (store_cbot_report now id instance_id job dto db).jobs
unfolding store_cbot_report
store_cbot_report-IsLawful now id instance_id q job dto db unique finds =
    let asked = status_for_phase dto.phase in
    move_if-IsLawful now dto.occurred_at (next_status job.status asked) q db job unique finds
      (next_status-allowed job.status asked)

report_known :
    (now id instance_id job_id : ℕ) (dto : SubmitExecutionReportDto) (db : Db) (job : TradeJob)
    (existing : ExecutionReport)
    → find_first (λ (j : TradeJob). j.id == job_id && held_by_instance instance_id j) db.jobs
      ≡ some job
    → find_first (λ (r : ExecutionReport). r.report_key == dto.report_key) db.reports
      ≡ some existing
    → (report now id instance_id job_id dto db).1 ≡ db
unfolding report repeat_cbot_report
report_known now id instance_id job_id dto db job existing finds known =
    rw (finds, known) (ground arith)

report_missing :
    (now id instance_id job_id : ℕ) (dto : SubmitExecutionReportDto) (db : Db)
    → find_first (λ (j : TradeJob). j.id == job_id && held_by_instance instance_id j) db.jobs ≡ none
    → (report now id instance_id job_id dto db).1 ≡ db
unfolding report
report_missing now id instance_id job_id dto db missing = rw missing refl

-- Whatever a cBot reports, in whatever order, each report changes the job rows only by transitions
-- that the table allows.
pub report-IsLawful :
    (now id instance_id job_id : ℕ) (dto : SubmitExecutionReportDto) (db : Db)
    → HasUniqueIds db.jobs
    → IsLawful db.jobs (report now id instance_id job_id dto db).1.jobs
report-IsLawful now id instance_id job_id dto db unique =
    let q = λ (j : TradeJob). j.id == job_id && held_by_instance instance_id j in
    elim (Option-cases (find_first q db.jobs)) [
      | inl missing ↦
          rw (report_missing now id instance_id job_id dto db missing) (IsLawful-refl db.jobs)
      | inr (job, finds) ↦
          elim (Option-cases
            (find_first (λ (r : ExecutionReport). r.report_key == dto.report_key) db.reports)) [
              | inl fresh ↦
                  rw
                    (
                      report_first now id instance_id job_id dto db job finds fresh,
                      (release_keeps job dto (store_cbot_report now id instance_id job dto db)).0,
                    )
                    (store_cbot_report-IsLawful now id instance_id q job dto db unique finds)
              | inr (existing, known) ↦
                  rw (report_known now id instance_id job_id dto db job existing finds known)
                    (IsLawful-refl db.jobs)
            ]
    ]
