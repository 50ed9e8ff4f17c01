-- ===== src/TradeJobs/Report/Repeat.antt =====
-- A report may be sent twice, and moves its job lawfully.
use ctreader.Prelude.{
  ℕ, ◌≡◌, refl, ap, ◌∙◌, inl, inr, Bool, true, false, Option, none, some, arith, ok, ◌==◌, ==_refl,
  ==→eq, find_first, find_first-passes, outcome,
}
use ctreader.Schema.{Db, Agent, TradeJob, mt5_agent}
use ctreader.TradeJobs.State.{TradeJobStatus, can_transition, status_for_phase}
use ctreader.TradeJobs.Lawful.{
  IsLawfulRow, IsLawful, IsLawful-refl, HasUniqueIds, IsLawful-update_one,
}
use ctreader.TradeJobs.Report.{
  SubmitExecutionReportDto, ReportReply, move_job, move_if, report_row, held_by_agent, is_mt5_venue,
  is_invalid_move, store_report, submit_report,
}
use ctreader.TradeJobs.Report.Outcome.{
  Accepted, accepted, repeated, submit_known, moved_row, moved_found, moved_row_held, known_row,
  first_stores, repeat_matches, submit_report_throw,
}

move_if_held :
    (now at id agent_id : ℕ) (next : Option TradeJobStatus) (db : Db) (job : TradeJob)
    → held_by_agent agent_id (move_if now next at id db) job ≡ held_by_agent agent_id db job
unfolding move_if
move_if_held now at id agent_id none db job = refl
move_if_held now at id agent_id (some next) db job = refl

store_held :
    (now id : ℕ) (agent : Agent) (job row : TradeJob) (dto : SubmitExecutionReportDto) (db : Db)
    → held_by_agent agent.id (store_report now id agent job dto db) row
      ≡ held_by_agent agent.id db row
unfolding store_report
store_held now id agent job row dto db =
    move_if_held now dto.occurred_at job.id agent.id (status_for_phase dto.phase) db row

store_found :
    (now id : ℕ) (agent : Agent) (job_id : ℕ) (job : TradeJob) (dto : SubmitExecutionReportDto)
    (db : Db)
    → find_first (λ (j : TradeJob). j.id == job_id) db.jobs ≡ some job
    → find_first (λ (j : TradeJob). j.id == job_id) (store_report now id agent job dto db).jobs
      ≡ some (moved_row now (status_for_phase dto.phase) dto.occurred_at job)
unfolding store_report
store_found now id agent job_id job dto db finds =
    moved_found now dto.occurred_at job_id (status_for_phase dto.phase) db job finds

-- After the first report has been stored, the repetition is answered from its row.
stored_repeat :
    (now id later other : ℕ) (agent : Agent) (job_id : ℕ) (dto : SubmitExecutionReportDto) (db : Db)
    (job : TradeJob)
    → find_first (λ (j : TradeJob). j.id == job_id) db.jobs ≡ some job
    → is_mt5_venue job.execution_venue ≡ true
    → held_by_agent agent.id db job ≡ true
    → submit_report later other agent job_id dto (store_report now id agent job dto db)
      ≡ (ok (repeated id), store_report now id agent job dto db)
unfolding report_row
stored_repeat now id later other agent job_id dto db job finds venue held =
    let next = status_for_phase dto.phase in
    let (same_held, same_venue) = moved_row_held now dto.occurred_at agent.id next db job in
    submit_known later other agent job_id dto (store_report now id agent job dto db)
      (moved_row now next dto.occurred_at job) (report_row id job.id (mt5_agent agent.id) dto)
      (store_found now id agent job_id job dto db finds) (ap is_mt5_venue same_venue ∙ venue)
      (store_held now id agent job (moved_row now next dto.occurred_at job) dto db
        ∙ same_held
        ∙ held)
      (known_row now id agent job dto db)
      (==→eq job.id job_id (find_first-passes (λ (j : TradeJob). j.id == job_id) db.jobs finds))
      (==_refl agent.id)

-- A report that was accepted may be sent again, at any later time: the answer is that it is a
-- duplicate, with the id of the first report's row, and the database does not change.
pub submit_report_twice :
    (now id later other : ℕ) (agent : Agent) (job_id : ℕ) (dto : SubmitExecutionReportDto)
    (db t : Db) (reply : ReportReply)
    → submit_report now id agent job_id dto db ≡ (ok reply, t)
    → submit_report later other agent job_id dto t ≡ (ok (repeated reply.report_id), t)
submit_report_twice now id later other agent job_id dto db t reply h =
    let a = accepted now id agent job_id dto db t reply h in
    elim a.result [
      | inl (existing, known, again) ↦
          let (same, of_job, source, the_id) =
            repeat_matches agent job_id existing db t reply again in
          rw (same, the_id)
            (submit_known later other agent job_id dto db a.job existing a.finds a.venue a.held
              known of_job source)
      | inr (fresh, first) ↦
          let (_, stored, the_id) = first_stores now id agent a.job dto db t reply first in
          rw (stored, the_id)
            (stored_repeat now id later other agent job_id dto db a.job a.finds a.venue a.held)
    ]

move_job_lawful :
    (now at : ℕ) (next : TradeJobStatus) (job : TradeJob)
    → can_transition job.status next ≡ true
    → IsLawfulRow job (move_job now next at job)
unfolding move_job
move_job_lawful now at next job h = record { same_id = refl; same_user = refl; allowed = h }

pub move_if-IsLawful :
    (now at : ℕ) (next : Option TradeJobStatus) (q : TradeJob → Bool) (db : Db) (job : TradeJob)
    → HasUniqueIds db.jobs
    → find_first q db.jobs ≡ some job
    → is_invalid_move job.status next ≡ false
    → IsLawful db.jobs (move_if now next at job.id db).jobs
unfolding move_if
move_if-IsLawful now at none q db job unique finds fine = IsLawful-refl db.jobs
move_if-IsLawful now at (some next) q db job unique finds fine =
    IsLawful-update_one q (move_job now next at) db.jobs job unique finds
      (move_job_lawful now at next job (ground arith))

store_report-IsLawful :
    (now id : ℕ) (agent : Agent) (q : TradeJob → Bool) (dto : SubmitExecutionReportDto) (db : Db)
    (job : TradeJob)
    → HasUniqueIds db.jobs
    → find_first q db.jobs ≡ some job
    → is_invalid_move job.status (status_for_phase dto.phase) ≡ false
    → IsLawful db.jobs (store_report now id agent job dto db).jobs
unfolding store_report
store_report-IsLawful now id agent q dto db job =
    move_if-IsLawful now dto.occurred_at (status_for_phase dto.phase) q db job

accepted-IsLawful :
    (now id : ℕ) (agent : Agent) (job_id : ℕ) (dto : SubmitExecutionReportDto) (db t : Db)
    (reply : ReportReply)
    → HasUniqueIds db.jobs
    → Accepted now id agent job_id dto db reply t
    → IsLawful db.jobs t.jobs
accepted-IsLawful now id agent job_id dto db t reply unique a = elim a.result [
  | inl (existing, known, again) ↦
      let (same, _, _, _) = repeat_matches agent job_id existing db t reply again in
      rw same (IsLawful-refl db.jobs)
  | inr (fresh, first) ↦
      let (fine, stored, _) = first_stores now id agent a.job dto db t reply first in
      rw stored
        (store_report-IsLawful now id agent (λ j. j.id == job_id) dto db a.job unique a.finds fine)
]

-- Whatever a report's call returns or throws, the table of jobs changes lawfully.
pub submit_report-IsLawful :
    (now id : ℕ) (agent : Agent) (job_id : ℕ) (dto : SubmitExecutionReportDto) (db : Db)
    → HasUniqueIds db.jobs
    → IsLawful db.jobs (submit_report now id agent job_id dto db).1.jobs
submit_report-IsLawful now id agent job_id dto db unique =
    elim (outcome (submit_report now id agent job_id dto db)) [
      | inl (reply, h) ↦
          accepted-IsLawful now id agent job_id dto db _ reply unique
            (accepted now id agent job_id dto db _ reply h)
      | inr (x, h) ↦ rw (submit_report_throw now id agent job_id dto db x h) (IsLawful-refl db.jobs)
    ]
