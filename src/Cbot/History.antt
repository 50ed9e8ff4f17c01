-- ===== src/Cbot/History.antt =====
-- The jobs over a whole history of reports of cBots.
use ctreader.Prelude.{ℕ, ◌≡◌, refl, List, [], ◌∷◌, ◌==◌, count}
use ctreader.Schema.{Db, TradeJob}
use ctreader.TradeJobs.State.Forward.{can_transition-forward}
use ctreader.TradeJobs.Lawful.{IsLawful, HasUniqueIds}
use ctreader.TradeJobs.Onward.{IsOnward, IsOnward-refl, IsOnward-trans}
use ctreader.TradeJobs.Report.{SubmitExecutionReportDto}
use ctreader.Cbot.{report}
use ctreader.Cbot.Reports.{report-IsLawful}

-- One call of `report`: when, by which instance, on which job, and what it says.
pub record ReportCall : Type 0 where
  pub now : ℕ
  pub report_id : ℕ
  pub instance_id : ℕ
  pub job_id : ℕ
  pub dto : SubmitExecutionReportDto

-- The database after calls one after the other, whether each returns or throws.
abbrev pub run_reports : List ReportCall → Db → Db
run_reports [] db = db
run_reports (c ∷ calls) db =
    run_reports calls (report c.now c.report_id c.instance_id c.job_id c.dto db).1

IsLawful-IsOnward : (xs ys : List TradeJob) → IsLawful xs ys → IsOnward xs ys
IsLawful-IsOnward [] [] h = tt
IsLawful-IsOnward [] (b ∷ ys) h = absurd h
IsLawful-IsOnward (a ∷ xs) [] h = absurd h
IsLawful-IsOnward (a ∷ xs) (b ∷ ys) (row, rows) = (
  record {
    same_id = row.same_id;
    same_user = row.same_user;
    further = can_transition-forward a.status b.status row.allowed;
  },
  IsLawful-IsOnward xs ys rows,
)

count-IsLawful :
    (xs ys : List TradeJob) (k : ℕ)
    → IsLawful xs ys
    → count (λ (j : TradeJob). j.id == k) ys ≡ count (λ (j : TradeJob). j.id == k) xs
unfolding count
count-IsLawful [] [] k h = refl
count-IsLawful [] (b ∷ ys) k h = absurd h
count-IsLawful (a ∷ xs) [] k h = absurd h
count-IsLawful (a ∷ xs) (b ∷ ys) k (row, rows) = rw (row.same_id, count-IsLawful xs ys k rows) refl

-- Over any history of reports, of any instances, on any jobs, in any order, whether they are
-- accepted or not, no job is lost or changes its user, and each job's status is what it was or of a
-- higher rank.
pub run_reports-IsOnward :
    (calls : List ReportCall) (db : Db)
    → HasUniqueIds db.jobs
    → IsOnward db.jobs (run_reports calls db).jobs
run_reports-IsOnward [] db unique = IsOnward-refl db.jobs
run_reports-IsOnward (c ∷ calls) db unique =
    let t = (report c.now c.report_id c.instance_id c.job_id c.dto db).1 in
    let step = report-IsLawful c.now c.report_id c.instance_id c.job_id c.dto db unique in
    IsOnward-trans db.jobs t.jobs (run_reports calls t).jobs (IsLawful-IsOnward db.jobs t.jobs step)
      (run_reports-IsOnward calls t (λ k. rw (count-IsLawful db.jobs t.jobs k step) (unique k)))
