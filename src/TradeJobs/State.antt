-- ===== src/TradeJobs/State.antt =====
-- src/trade-jobs/trade-job-state.ts: the statuses of a job, the phases that a terminal reports, and
-- the table of the transitions that a report may make.
pub mod Forward
pub mod Terminal
use ctreader.Prelude.{
  ℕ, ◌≡◌, refl, ◌≢◌, Bool, true, false, ◌||◌, Option, none, some, List, [], ◌∷◌, arith, ◌==◌, any,
}

pub data TradeJobStatus : Type 0 where
  draft scheduled synced armed submitted partially_filled filled managed : TradeJobStatus
  rejected closed cancelled expired missed : TradeJobStatus

pub data ExecutionPhase : Type 0 where
  synced armed preflight_rejected submitted accepted partially_filled filled : ExecutionPhase
  rejected cancelled closed missed error : ExecutionPhase

-- The statuses are compared by their numbers.
abbrev pub tag : TradeJobStatus → ℕ
tag draft = 0
tag scheduled = 1
tag synced = 2
tag armed = 3
tag submitted = 4
tag partially_filled = 5
tag filled = 6
tag managed = 7
tag rejected = 8
tag closed = 9
tag cancelled = 10
tag expired = 11
tag missed = 12

abbrev pub same_status : TradeJobStatus → TradeJobStatus → Bool
same_status a b = tag a == tag b

-- `statuses.includes(status)`.
abbrev pub includes : List TradeJobStatus → TradeJobStatus → Bool
includes statuses status = any (λ s. same_status s status) statuses

-- `statusForPhase`, and the record that it reads.
unfoldable pub status_for_phase : ExecutionPhase → Option TradeJobStatus
status_for_phase ExecutionPhase.synced = some synced
status_for_phase ExecutionPhase.armed = some armed
status_for_phase ExecutionPhase.preflight_rejected = some rejected
status_for_phase ExecutionPhase.submitted = some submitted
status_for_phase ExecutionPhase.accepted = some submitted
status_for_phase ExecutionPhase.partially_filled = some partially_filled
status_for_phase ExecutionPhase.filled = some filled
status_for_phase ExecutionPhase.rejected = some rejected
status_for_phase ExecutionPhase.cancelled = some cancelled
status_for_phase ExecutionPhase.closed = some closed
status_for_phase ExecutionPhase.missed = some missed
status_for_phase ExecutionPhase.error = none

unfoldable pub transitions : TradeJobStatus → List TradeJobStatus
transitions draft = scheduled ∷ cancelled ∷ []
transitions scheduled =
    synced ∷ armed ∷ submitted ∷ partially_filled ∷ filled ∷ cancelled ∷ expired ∷ missed ∷ rejected
    ∷ []
transitions synced =
    armed ∷ submitted ∷ partially_filled ∷ filled ∷ cancelled ∷ expired ∷ missed ∷ rejected ∷ []
transitions armed = submitted ∷ partially_filled ∷ filled ∷ cancelled ∷ missed ∷ rejected ∷ []
transitions submitted = partially_filled ∷ filled ∷ rejected ∷ cancelled ∷ closed ∷ []
transitions partially_filled = filled ∷ managed ∷ closed ∷ cancelled ∷ []
transitions filled = managed ∷ closed ∷ []
transitions rejected = []
transitions managed = closed ∷ []
transitions closed = []
transitions cancelled = []
transitions expired = []
transitions missed = []

unfoldable pub can_transition : TradeJobStatus → TradeJobStatus → Bool
unfolding transitions
can_transition current next = same_status current next || includes (transitions current) next

pub same_status→eq : (a b : TradeJobStatus) → same_status a b ≡ true → a ≡ b
same_status→eq a b h = ground arith

-- `ACTIVE_JOB_STATUSES`.
abbrev pub active_job_statuses : List TradeJobStatus
active_job_statuses =
    scheduled ∷ synced ∷ armed ∷ submitted ∷ partially_filled ∷ filled ∷ managed ∷ []
