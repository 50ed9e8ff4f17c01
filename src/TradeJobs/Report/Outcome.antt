-- ===== src/TradeJobs/Report/Outcome.antt =====
-- What an MT5 report does to the tables, and what its repetition does.
use ctreader.Prelude.{
  ℕ, ◌≡◌, refl, ◌∙◌, ◌⊎◌, inl, inr, true, false, ◌&&◌, Option, none, some, arith, Exception, ok,
  err, ◌==◌, ==_refl, find_first, find_first-update, Option-cases, Bool-cases,
}
use ctreader.Schema.{Db, Agent, TradeJob, ExecutionReport, mt5_agent}
use ctreader.TradeJobs.State.{TradeJobStatus, status_for_phase}
use ctreader.TradeJobs.Report.{
  SubmitExecutionReportDto, ReportReply, move_job, move_if, report_row, held_by_agent, from_agent,
  is_mt5_venue, is_invalid_move, store_report, repeat_report, first_report, submit_report,
}

-- A report that is refused changes nothing.
pub submit_report_throw :
    (now id : ℕ) (agent : Agent) (job_id : ℕ) (dto : SubmitExecutionReportDto) (db : Db)
    (x : Exception)
    → (submit_report now id agent job_id dto db).0 ≡ err x
    → (submit_report now id agent job_id dto db).1 ≡ db
unfolding submit_report
submit_report_throw now id agent job_id dto db x h = ground arith

-- What stands behind a report that is accepted.
pub record Accepted (now id : ℕ) (agent : Agent) (job_id : ℕ) (dto : SubmitExecutionReportDto)
    (db : Db) (reply : ReportReply) (t : Db) : Type 0 where
  pub job : TradeJob
  pub finds : find_first (λ (j : TradeJob). j.id == job_id) db.jobs ≡ some job
  pub venue : is_mt5_venue job.execution_venue ≡ true
  pub held : held_by_agent agent.id db job ≡ true
  pub result :
      ((existing : ExecutionReport) × (find_first
            (λ (r : ExecutionReport). r.report_key == dto.report_key)
            db.reports
          ≡ some existing)
        × (repeat_report agent job_id existing db ≡ (ok reply, t)))
      ⊎ ((find_first (λ (r : ExecutionReport). r.report_key == dto.report_key) db.reports ≡ none)
          × (first_report now id agent job dto db ≡ (ok reply, t)))

accepted_found :
    (now id : ℕ) (agent : Agent) (job_id : ℕ) (dto : SubmitExecutionReportDto) (db t : Db)
    (reply : ReportReply) (job : TradeJob)
    → submit_report now id agent job_id dto db ≡ (ok reply, t)
    → find_first (λ (j : TradeJob). j.id == job_id) db.jobs ≡ some job
    → Accepted now id agent job_id dto db reply t
unfolding submit_report
accepted_found now id agent job_id dto db t reply job h finds =
    elim (Bool-cases (is_mt5_venue job.execution_venue && held_by_agent agent.id db job)) [
      | inr refused ↦ absurd (ground arith)
      | inl fine ↦ record {
        job = job;
        finds = finds;
        venue = ground arith;
        held = ground arith;
        result =
            elim (Option-cases
              (find_first (λ (r : ExecutionReport). r.report_key == dto.report_key) db.reports)) [
                | inl fresh ↦ inr (fresh, ground arith)
                | inr (existing, known) ↦ inl (existing, known, ground arith)
              ];
      }
    ]

submit_missing :
    (now id : ℕ) (agent : Agent) (job_id : ℕ) (dto : SubmitExecutionReportDto) (db t : Db)
    (reply : ReportReply)
    → find_first (λ (j : TradeJob). j.id == job_id) db.jobs ≡ none
    → ¬ (submit_report now id agent job_id dto db ≡ (ok reply, t))
unfolding submit_report
submit_missing now id agent job_id dto db t reply missing h = ground arith

pub accepted :
    (now id : ℕ) (agent : Agent) (job_id : ℕ) (dto : SubmitExecutionReportDto) (db t : Db)
    (reply : ReportReply)
    → submit_report now id agent job_id dto db ≡ (ok reply, t)
    → Accepted now id agent job_id dto db reply t
accepted now id agent job_id dto db t reply h =
    elim (Option-cases (find_first (λ (j : TradeJob). j.id == job_id) db.jobs)) [
      | inl missing ↦ absurd (submit_missing now id agent job_id dto db t reply missing h)
      | inr (job, finds) ↦ accepted_found now id agent job_id dto db t reply job h finds
    ]

-- The answer to a repetition.
abbrev pub repeated : ℕ → ReportReply
repeated report_id = record { duplicate = true; report_id = report_id; job_status = none }

module _ (now id : ℕ) (agent : Agent) (job_id : ℕ) (dto : SubmitExecutionReportDto) (t : Db) where
  pub submit_known :
      (job : TradeJob) (existing : ExecutionReport)
      → find_first (λ (j : TradeJob). j.id == job_id) t.jobs ≡ some job
      → is_mt5_venue job.execution_venue ≡ true
      → held_by_agent agent.id t job ≡ true
      → find_first (λ (r : ExecutionReport). r.report_key == dto.report_key) t.reports
        ≡ some existing
      → existing.job_id ≡ job_id
      → from_agent agent.id existing.source ≡ true
      → submit_report now id agent job_id dto t ≡ (ok (repeated existing.id), t)
  unfolding submit_report
  submit_known job existing finds venue held known same source = ground (arith, ==_refl job_id)

-- The job's row after a report: the same account and venue.
unfoldable pub moved_row : ℕ → Option TradeJobStatus → ℕ → TradeJob → TradeJob
moved_row now none at job = job
moved_row now (some next) at job = move_job now next at job

pub moved_found :
    (now at job_id : ℕ) (next : Option TradeJobStatus) (db : Db) (job : TradeJob)
    → find_first (λ (j : TradeJob). j.id == job_id) db.jobs ≡ some job
    → find_first (λ (j : TradeJob). j.id == job_id) (move_if now next at job.id db).jobs
      ≡ some (moved_row now next at job)
unfolding move_if moved_row
moved_found now at job_id none db job finds = finds
moved_found now at job_id (some next) db job finds =
    find_first-update (λ (j : TradeJob). j.id == job_id) (λ j. j.id == job.id)
      (move_job now next at) db.jobs (λ b. refl) finds
    ∙ rw (==_refl job.id) refl

pub moved_row_held :
    (now at agent_id : ℕ) (next : Option TradeJobStatus) (db : Db) (job : TradeJob)
    → (held_by_agent agent_id db (moved_row now next at job) ≡ held_by_agent agent_id db job)
      × ((moved_row now next at job).execution_venue ≡ job.execution_venue)
unfolding moved_row move_job
moved_row_held now at agent_id none db job = (refl, refl)
moved_row_held now at agent_id (some next) db job = (refl, refl)

-- Where the first report stored its row, the repetition finds it.
pub known_row :
    (now id : ℕ) (agent : Agent) (job : TradeJob) (dto : SubmitExecutionReportDto) (db : Db)
    → find_first
        (λ (r : ExecutionReport). r.report_key == dto.report_key)
        (store_report now id agent job dto db).reports
      ≡ some (report_row id job.id (mt5_agent agent.id) dto)
unfolding store_report report_row find_first
known_row now id agent job dto db = rw (==_refl dto.report_key) refl

pub first_stores :
    (now id : ℕ) (agent : Agent) (job : TradeJob) (dto : SubmitExecutionReportDto) (db t : Db)
    (reply : ReportReply)
    → first_report now id agent job dto db ≡ (ok reply, t)
    → (is_invalid_move job.status (status_for_phase dto.phase) ≡ false)
      × (t ≡ store_report now id agent job dto db)
      × (reply.report_id ≡ id)
unfolding first_report
first_stores now id agent job dto db t reply h =
    elim (Bool-cases (is_invalid_move job.status (status_for_phase dto.phase))) [
      | inl refused ↦ absurd (ground arith)
      | inr fine ↦ (fine, ground arith, ground arith)
    ]

pub repeat_matches :
    (agent : Agent) (job_id : ℕ) (existing : ExecutionReport) (db t : Db) (reply : ReportReply)
    → repeat_report agent job_id existing db ≡ (ok reply, t)
    → (t ≡ db)
      × (existing.job_id ≡ job_id)
      × (from_agent agent.id existing.source ≡ true)
      × (reply.report_id ≡ existing.id)
unfolding repeat_report
repeat_matches agent job_id existing db t reply h =
    elim (Bool-cases (existing.job_id == job_id && from_agent agent.id existing.source)) [
      | inl same ↦ (ground arith, ground arith, ground arith, ground arith)
      | inr other ↦ absurd (ground arith)
    ]
