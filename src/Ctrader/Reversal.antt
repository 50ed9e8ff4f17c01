-- ===== src/Ctrader/Reversal.antt =====
-- `syncNewsReversalProtection`, `completeNewsReversal` and `expireManagement` of
-- src/ctrader/ctrader-execution.service.ts: the reversal that protects an active NEWS_REVERSAL job.
mod Plan
mod Close
unfoldable pub use Plan.*
unfoldable pub use Close.*
use ctreader.Prelude.{
  ℕ, zero, suc, ◌==◌, String, Bool, true, false, not, ◌&&◌, ◌||◌, Option, none, some, List, [], ◌∷◌,
  leb, ltb, keep, length, find_first, is_some, or_else, if◌then◌else◌, Exec, Result, ok, err,
  throw_if, lift, modify, skip, failure, ◌>>=◌, ◌>>◌, order_by,
}
use ctreader.Config.{Config}
use ctreader.Schema.{
  TradeJob, TradeJobLeg, TradeDirection, buy, sell, reversal, planned, submitted, filled, closed_tp,
  closed_manual, NewsReversalState, tp1_protected, tp2_protected, reversal_active, completed,
}
use ctreader.NewsReversal.{fixed_reversal_price, reversal_targets_after}
use ctreader.TradeJobs.State.{ExecutionPhase, closed, managed}
use ctreader.Ctrader.{
  WorkerEnv, World, Runtime, OrderDraft, reversal_label, close_position, protection_key,
  protection_error_key, completed_key, update_jobs, update_runtime, report, no_details, runtime_of,
  finish,
}
use ctreader.Ctrader.Orders.{place}
use ctreader.Ctrader.Legs.{
  update_legs, cancel_legs, has_leg_status, is_initial, legs_of, initial_state,
}
use ctreader.Ctrader.Messages.{is_news}

abbrev pub is_stray : TradeDirection → TradeJobLeg → Bool
is_stray direction leg =
    has_leg_status filled leg && not (goes direction leg) && is_some leg.broker_position_id

unfoldable pub completed_job : WorkerEnv → TradeJob → TradeJob
completed_job env job = record job {
  updated_at = env.now;
  status = closed;
  times = record job.times { closed_at = some env.now };
  news_reversal_state = some completed;
  lease_owner = none;
  lease_expires_at = none;
}

-- `completeNewsReversal`.
unfoldable pub complete_news_reversal : WorkerEnv → ℕ → String → World → World
unfolding cancel_legs completed_job update_jobs report finish
complete_news_reversal env job_id message w = finish job_id (
    report env (completed_key job_id env.now) job_id ExecutionPhase.closed (no_details message) (
      update_jobs (λ job. job.id == job_id) (completed_job env)
        (cancel_legs env job_id (keep (has_leg_status submitted) (legs_of job_id w)) w)))

unfoldable pub protected_state : TradeDirection → ℕ → NewsReversalState
protected_state direction zero = initial_state direction
protected_state direction (suc zero) = tp1_protected
protected_state direction (suc (suc n)) = tp2_protected

unfoldable pub protected_job : ℕ → TradeDirection → ℕ → TradeJob → TradeJob
unfolding protected_state
protected_job now direction closed_count job = record job {
  updated_at = now;
  news_reversal_state = some (protected_state direction closed_count);
  status = managed;
}

abbrev pub first_price : List TradeJobLeg → ℕ
first_price [] = 0
first_price (leg ∷ legs) = or_else leg.entry_price 0

abbrev pub targets_of : TradeJob → List ℕ
targets_of job =
    job.terms.take_profit_points
    ∷ or_else job.terms.take_profit2_points 0
    ∷ or_else job.terms.take_profit3_points 0
    ∷ []

-- The initial legs of the active direction in a status.
abbrev pub own_legs : TradeDirection → (TradeJobLeg → Bool) → List TradeJobLeg → List TradeJobLeg
own_legs direction p legs = keep (λ l. goes direction l && is_initial l && p l) legs

-- The reversal is placed anew for the legs that are open, of the job and its legs as they were read.
unfoldable pub protect :
    Config
    → WorkerEnv
    → (lot : ℕ) → (ℕ → Option ℕ)
    → TradeJob
    → TradeDirection
    → List TradeJobLeg
    → Exec World (Unit {0})
unfolding cancel_legs close_leg_positions plan_legs place_legs protected_job update_jobs report
protect cfg env lot answers job direction legs = do
  let active = own_legs direction (has_leg_status filled) legs
  let closed_count = length (own_legs direction (has_leg_status closed_tp) legs)
  modify (cancel_legs env job.id (keep (has_leg_status submitted) legs))
  close_leg_positions env job.id (keep (λ l. is_initial l && is_stray direction l) legs)
  let gap = or_else job.terms.reversal_gap_points 0
  throw_if (ltb gap 1) (failure "NEWS REVERSAL fixed gap is missing")
  price ← lift (
      fixed_reversal_price env.below env.above direction (first_price active)
        job.terms.stop_loss_points gap)
  targets ← lift (reversal_targets_after closed_count (targets_of job))
  place_legs cfg env lot job.management_expires_at job.id answers (
      plan_legs env closed_count (opposite direction) price job.terms.stop_loss_points targets 0
        (order_by (λ l. l.target_number) active))
  modify (update_jobs (λ j. j.id == job.id) (protected_job env.now direction closed_count))
  modify (
      report env (protection_key job.id closed_count env.now) job.id ExecutionPhase.accepted
        (no_details "Fixed reversal placed"))

abbrev pub is_state : NewsReversalState → Option NewsReversalState → Bool
is_state completed (some completed) = true
is_state reversal_active (some reversal_active) = true
is_state _ _ = false

-- A job that was not reversed: it is done after three targets, and else protected while a leg is open.
unfoldable pub protect_or_complete :
    Config
    → WorkerEnv
    → (lot : ℕ) → (ℕ → Option ℕ)
    → TradeJob
    → TradeDirection
    → List TradeJobLeg
    → Exec World (Unit {0})
unfolding complete_news_reversal protect
protect_or_complete cfg env lot answers job direction legs =
    if leb 3 (length (own_legs direction (has_leg_status closed_tp) legs))
    then modify (complete_news_reversal env job.id "All three take-profit targets reached")
    else if length (own_legs direction (has_leg_status filled) legs) == 0
    then skip
    else protect cfg env lot answers job direction legs

-- The body of `syncNewsReversalProtection`, after the job and its legs were read.
unfoldable pub sync_body :
    Config
    → WorkerEnv
    → (ℕ → Option ℕ)
    → TradeJob
    → TradeDirection
    → List TradeJobLeg
    → Exec World (Unit {0})
unfolding cancel_legs close_leg_positions ensure_runtime_symbol protect_or_complete
sync_body cfg env answers job direction legs =
    if ltb 0 job.reversal_count || is_state reversal_active job.news_reversal_state
    then (do
      modify (cancel_legs env job.id (keep (λ l. has_leg_status submitted l && is_initial l) legs))
      close_leg_positions env job.id (keep (is_stray direction) legs))
    else (do
      lot ← ensure_runtime_symbol env job.id
      protect_or_complete cfg env lot answers job direction legs)

-- What was written before an exception stays, and the exception is reported.
unfoldable pub report_failure : WorkerEnv → ℕ → Result (Unit {0}) × World → World
unfolding report
report_failure env job_id (ok _, w) = w
report_failure env job_id (err x, w) =
    report env (protection_error_key job_id env.now) job_id ExecutionPhase.error
      (no_details "NEWS REVERSAL protection failed") w

-- `syncNewsReversalProtection`; no other call for the job is under way.
unfoldable pub sync_news_reversal_protection :
    Config → WorkerEnv → (ℕ → Option ℕ) → ℕ → World → World
unfolding runtime_of sync_body report_failure
sync_news_reversal_protection cfg env answers job_id w = elim (runtime_of job_id w) [
  | none ↦ w
  | some r ↦
      if not (is_news r.execution_mode)
      then w
      else elim (find_first (λ (j : TradeJob). j.id == job_id) w.db.jobs) [
        | none ↦ w
        | some job ↦ elim job.active_direction [
          | none ↦ w
          | some direction ↦
              if is_state completed job.news_reversal_state
              then w
              else report_failure env job_id
                  (sync_body cfg env answers job direction (legs_of job_id w) w)
        ]
      ]
]

unfoldable pub syncing : Runtime → Runtime
syncing r = record r { sync_pending = false }

-- The timer of a synchronisation fires.
unfoldable pub run_protection_sync : Config → WorkerEnv → (ℕ → Option ℕ) → ℕ → World → World
unfolding runtime_of update_runtime syncing sync_news_reversal_protection
run_protection_sync cfg env answers job_id w = elim (runtime_of job_id w) [
  | none ↦ w
  | some r ↦
      if r.sync_pending
      then sync_news_reversal_protection cfg env answers job_id (update_runtime job_id syncing w)
      else w
]

-- The open positions of the legs are closed at the broker, and the answers are not looked at. A
-- volume of zero is not asked for.
unfoldable pub close_legs : WorkerEnv → ℕ → List TradeJobLeg → World → World
close_legs env lot [] w = w
close_legs env lot (leg ∷ legs) w = close_legs env lot legs (elim leg.broker_position_id [
  | none ↦ w
  | some position_id ↦ if env.units leg.planned_volume lot == 0 then w else record w {
    sent = close_position position_id (env.units leg.planned_volume lot) ∷ w.sent;
  }
])

-- `expireManagement`.
unfoldable pub expire_management : WorkerEnv → ℕ → World → World
unfolding runtime_of cancel_legs close_legs complete_news_reversal
expire_management env job_id w = elim (runtime_of job_id w) [
  | none ↦ w
  | some r ↦
      let legs = legs_of job_id w in
      complete_news_reversal env job_id "Maximum NEWS REVERSAL position lifetime reached" (
        close_legs env (or_else r.lot_size 0) (keep (has_leg_status filled) legs)
          (cancel_legs env job_id (keep (has_leg_status submitted) legs) w))
]
