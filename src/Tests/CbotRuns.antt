-- ===== src/Tests/CbotRuns.antt =====
-- A cBot of the sample user: its reports, its polls, and its pairing.
use ctreader.Prelude.{
  ◌≡◌, refl, true, false, none, some, arith, ok, count, find_first, update_many, List, length,
  Result, ◌+◌, ℕ, [], ◌∷◌, ◌==◌, ◌&&◌, leb, is_some,
}
use ctreader.Schema.{
  Db, TradeJob, ExecutionReport, PairingCode, Subscription, cbot, cbot_instance, active, demo,
}
use ctreader.TradeJobs.State.{ExecutionPhase, status_for_phase}
use ctreader.TradeJobs.Lawful.{IsLawful, HasUniqueIds}
use ctreader.TradeJobs.Create.{new_job}
use ctreader.TradeJobs.Create.Checks.{mt5_account}
use ctreader.TradeJobs.Report.{report_row}
use ctreader.Cbot.{held_by_instance, report}
use ctreader.Cbot.Reports.{report_stores, report-IsLawful, IsMovedIfAllowed}
use ctreader.TradeJobs.Onward.{IsOnward}
use ctreader.Cbot.History.{ReportCall, run_reports, run_reports-IsOnward}
use ctreader.Cbot.Poll.{poll}
use ctreader.Cbot.Delivery.{Delivery, poll-Delivery}
use ctreader.Cbot.Pairing.{ClaimCbotPairingDto, CbotClaimReply, claim_cbot, is_account, needs_room}
use ctreader.Subscriptions.{assert_can_pair_account, current_for_user}
use ctreader.Cbot.Claims.{HasRoom, with_hash, claim_cbot-HasRoom}
use ctreader.Crypto.{to_upper_case}
use ctreader.Tests.Data.{db, user, settings, account, cfg, env, dto, full, sample_report}

abbrev job : TradeJob
job = record (new_job cfg env dto user settings (mt5_account account) 100000 77) {
  account_id = none;
  cbot_instance_id = some 9;
  execution_venue = cbot;
}

abbrev with_job : Db
with_job = record db { jobs = job ∷ [] }

held :
    find_first (λ (j : TradeJob). j.id == job.id && held_by_instance 9 j) with_job.jobs ≡ some job
unfolding find_first new_job
held = refl

finds : find_first (λ (j : TradeJob). j.id == job.id) with_job.jobs ≡ some job
unfolding find_first new_job
finds = refl

fresh : find_first (λ (r : ExecutionReport). r.report_key == 8) with_job.reports ≡ none
unfolding find_first
fresh = refl

report_stores_example :
    (row : TradeJob) × (find_first
        (λ (j : TradeJob). j.id == job.id)
        (report 90001 60 9 job.id sample_report with_job).1.jobs
      ≡ some row)
    × IsMovedIfAllowed 90001 (status_for_phase ExecutionPhase.armed) job row
    × ((report 90001 60 9 job.id sample_report with_job).0
        ≡ ok (record { duplicate = false; report_id = 60; job_status = some row.status }))
    × (find_first
          (λ (r : ExecutionReport). r.report_key == 8)
          (report 90001 60 9 job.id sample_report with_job).1.reports
        ≡ some (report_row 60 job.id (cbot_instance 9) sample_report))
report_stores_example = report_stores 90001 60 9 sample_report with_job job held finds fresh

unique : HasUniqueIds with_job.jobs
unfolding count
unique k = ground arith

report-IsLawful_example :
    IsLawful with_job.jobs (report 90001 60 9 30 sample_report with_job).1.jobs
report-IsLawful_example = report-IsLawful 90001 60 9 30 sample_report with_job unique

-- The report that the job was armed, one that it was filled, and the first one late again.
abbrev calls : List ReportCall
calls =
    record { now = 90001; report_id = 60; instance_id = 9; job_id = 30; dto = sample_report }
    ∷ record {
      now = 90002;
      report_id = 61;
      instance_id = 9;
      job_id = 30;
      dto = record sample_report { report_key = 9; phase = ExecutionPhase.filled };
    }
    ∷ record {
      now = 90003;
      report_id = 62;
      instance_id = 9;
      job_id = 30;
      dto = record sample_report { report_key = 10 };
    }
    ∷ []

run_reports-IsOnward_example : IsOnward with_job.jobs (run_reports calls with_job).jobs
run_reports-IsOnward_example = run_reports-IsOnward calls with_job unique

poll-Delivery_example : Delivery cfg 50000 9 1 1440 with_job (poll cfg 50000 9 1 1440 with_job)
poll-Delivery_example = poll-Delivery cfg 50000 9 1 1440 with_job (ground arith) (ground arith)

-- A code of the sample user, whose subscription has room for one account. The hash of a text is
-- its length here.
abbrev code_row : PairingCode
code_row = record { id = 70; user_id = 1; code_hash = 8; expires_at = 600000; claimed_at = none }

abbrev subscription : Subscription
subscription = record {
  id = 80;
  user_id = 1;
  plan_id = 7;
  status = active;
  starts_at = 0;
  current_period_end = 9000000;
  canceled_at = none;
  entitlement = some full;
}

abbrev with_code : Db
with_code = record db { cbot_pairing_codes = code_row ∷ []; subscriptions = subscription ∷ [] }

abbrev claim_dto : ClaimCbotPairingDto
claim_dto = record {
  code = 65 ∷ 66 ∷ 67 ∷ 68 ∷ 69 ∷ 70 ∷ 71 ∷ 72 ∷ [];
  instance_key = 5;
  account_number = 6;
  broker = 7;
  environment = demo;
  symbol = none;
  version = none;
}

abbrev hash : List ℕ → ℕ
hash text = length text

abbrev claim_run : Result CbotClaimReply × Db
claim_run = claim_cbot hash (λ t. t + 1) cfg 1000 1001 9 4 claim_dto none with_code

claims : claim_run ≡ (ok (record { instance_id = 9; token = 4 }), claim_run.1)
unfolding claim_cbot to_upper_case find_first count update_many assert_can_pair_account
    current_for_user
claims = refl

not_connected : needs_room (find_first (is_account claim_dto) with_code.cbots) ≡ true
unfolding find_first
not_connected = refl

claim_cbot-HasRoom_example :
    (pairing : PairingCode) × (find_first
        (with_hash (hash (to_upper_case claim_dto.code)))
        with_code.cbot_pairing_codes
      ≡ some pairing)
    × (is_some pairing.claimed_at ≡ false)
    × (leb pairing.expires_at 1000 ≡ false)
    × HasRoom 1000 pairing.user_id demo with_code
claim_cbot-HasRoom_example =
    claim_cbot-HasRoom hash (λ t. t + 1) cfg 1000 1001 9 4 claim_dto none with_code claim_run.1
      (record { instance_id = 9; token = 4 }) refl claims not_connected
