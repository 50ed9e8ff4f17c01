-- ===== src/Tests/ReportRuns.antt =====
-- An agent's reports on a job of the sample user.
use ctreader.Prelude.{
  ◌≡◌, refl, false, some, arith, ok, err, conflict, count, find_first, update_many, [], ◌∷◌,
}
use ctreader.Schema.{Db, TradeJob}
use ctreader.TradeJobs.State.{ExecutionPhase, armed, can_transition, status_for_phase}
use ctreader.TradeJobs.Lawful.{IsLawful, HasUniqueIds}
use ctreader.TradeJobs.Create.{new_job}
use ctreader.TradeJobs.Report.{ReportReply, SubmitExecutionReportDto, submit_report}
use ctreader.TradeJobs.Report.Outcome.{repeated, submit_report_throw}
use ctreader.TradeJobs.Report.Repeat.{submit_report_twice, submit_report-IsLawful}
use ctreader.Tests.Data.{db, agent, sample_report, cfg, env, dto, user, settings, account}

abbrev job : TradeJob
job =
    new_job cfg env dto user settings (ctreader.TradeJobs.Create.Checks.mt5_account account) 100000
      77

abbrev with_job : Db
with_job = record db { jobs = job ∷ [] }

abbrev armed_reply : ReportReply
armed_reply = record { duplicate = false; report_id = 60; job_status = some armed }

abbrev reported : Db
reported = (submit_report 90001 60 agent 30 sample_report with_job).1

reports : submit_report 90001 60 agent 30 sample_report with_job ≡ (ok armed_reply, reported)
unfolding submit_report find_first update_many new_job can_transition status_for_phase
reports = refl

submit_report_twice_example :
    submit_report 90002 61 agent 30 sample_report reported ≡ (ok (repeated 60), reported)
submit_report_twice_example =
    submit_report_twice 90001 60 90002 61 agent 30 sample_report with_job reported armed_reply
      reports

unique : HasUniqueIds with_job.jobs
unfolding count
unique k = ground arith

submit_report-IsLawful_example : IsLawful with_job.jobs reported.jobs
submit_report-IsLawful_example =
    submit_report-IsLawful 90001 60 agent 30 sample_report with_job unique

-- A close cannot be reported before the job was submitted.
abbrev early_close : SubmitExecutionReportDto
early_close = record sample_report { phase = ExecutionPhase.closed }

early_close_refused :
    (submit_report 90001 60 agent 30 early_close with_job).0
    ≡ err (conflict "Invalid job transition")
unfolding submit_report find_first update_many new_job can_transition status_for_phase
early_close_refused = refl

submit_report_throw_example : (submit_report 90001 60 agent 30 early_close with_job).1 ≡ with_job
submit_report_throw_example =
    submit_report_throw 90001 60 agent 30 early_close with_job _ early_close_refused
