-- ===== src/Ctrader/Events/Started.antt =====
-- The start of a job, whichever way it goes, moves jobs onward only.
use ctreader.Prelude.{
  ℕ, ◌≡◌, ◌∙◌, refl, Bool, true, false, not, ◌&&◌, Bool-cases, inl, inr, Option, none, some, List,
  [], ◌∷◌, arith, Exec, Result, ok, err, or_else, update_many, if◌then◌else◌, lift, modify,
  run_checks, run_checks_reads, ap, ◌>>=◌, ◌>>◌, skip,
}
use ctreader.Config.{Config}
use ctreader.Schema.{
  TradeJob, JobTerms, ExecutionMode, market, straddle, multi, news_reversal, split_total,
}
use ctreader.NewsReversal.{allocate_news_reversal_volume}
use ctreader.Safety.{assert_trading_open}
use ctreader.TradeJobs.Onward.{IsOnwardRow, IsOnward-update_many}
use ctreader.TradeJobs.State.{includes, scheduled, armed, filled, partially_filled, managed}
use ctreader.Ctrader.{
  WorkerEnv, World, schedule_protection_sync, update_runtime, update_jobs, report,
}
use ctreader.Ctrader.Onward.{
  IsOn, IsOn-refl, IsOn-trans, Moves, Moves-cases, Moves-same, Moves-throw_if,
}
use ctreader.Ctrader.Legs.{
  BrokerPosition, reconcile_orders, reconcile_positions, reconcile_news_reversal, update_legs,
}
use ctreader.Ctrader.Messages.{mark_closed}
use ctreader.Ctrader.Stop.{is_filled_job}
use ctreader.Ctrader.Orders.{in_db, assert_position_limit, assert_estimated_risk, assert_margin}
use ctreader.Ctrader.Orders.Volume.{job_volume}
use ctreader.Ctrader.Start.{
  BrokerFacts, ExecutionLimits, news_orders, managed_until, place_initial_legs, place_job,
  start_fresh, start, dispatch, start_checks, is_empty, recover, close_reconciled,
  recovered_runtime, remember, new_runtime,
}
use ctreader.Ctrader.Events.Placed.{
  open-Moves, then-Moves, place_orders-Moves, place_straddle-Moves, place_legs-Moves,
}

lift-Moves :
    {A B : Type 0} (r : Result A) (f : A → Exec World B)
    → ((a : A) → Moves (f a))
    → Moves (lift r >>= f)
lift-Moves (ok a) f h w = h a w
lift-Moves (err x) f h w = IsOn-refl w

mode-Moves :
    (cfg : Config) (env : WorkerEnv) (facts : BrokerFacts) (answers : ℕ → Option ℕ) (job : TradeJob)
    (volume : ℕ) (mode : ExecutionMode)
    → job.terms.execution_mode ≡ mode
    → Moves (place_job cfg env facts answers job volume)
unfolding place_job
mode-Moves cfg env facts answers job volume market e w = unfold update_runtime in rw e (IsOn-refl w)
mode-Moves cfg env facts answers job volume straddle e w =
    rw e (place_straddle-Moves cfg env answers job.id _ _ w)
mode-Moves cfg env facts answers job volume multi e w =
    rw e (place_orders-Moves cfg env answers job.id 0 _ w)
mode-Moves cfg env facts answers job volume news_reversal e w = rw e (
    lift-Moves
      (allocate_news_reversal_volume volume facts.symbol.step_volume
        (or_else job.terms.volume_allocation_mode split_total) 3)
      (λ a.
        place_initial_legs cfg env facts answers job.id (managed_until job) 0 (news_orders job a))
      (λ a. place_legs-Moves cfg env facts answers job.id (managed_until job) 0 (news_orders job a))
      w)

limit-Moves :
    (limit unmanaged : ℕ) (job : TradeJob) → Moves (assert_position_limit limit unmanaged job)
unfolding assert_position_limit
limit-Moves limit unmanaged job w = Moves-throw_if _ _ w

risk-Moves :
    (exceeds : ℕ → ℕ → Bool) (enabled same : Bool) (terms : JobTerms) (volume : ℕ)
    → Moves (if enabled then assert_estimated_risk exceeds same terms volume else skip)
unfolding assert_estimated_risk
risk-Moves exceeds true same terms volume w = Moves-throw_if _ _ w
risk-Moves exceeds false same terms volume w = IsOn-refl w

margin-Moves :
    (buffer : ℕ) (terms : JobTerms) (margin : Option (ℕ × ℕ)) (balance used : ℕ)
    → Moves (assert_margin buffer terms margin balance used)
unfolding assert_margin
margin-Moves buffer terms none balance used w = IsOn-refl w
margin-Moves buffer terms (some (b, s)) balance used w = Moves-throw_if _ _ w

-- The last check, and the orders after it.
margin_then :
    (cfg : Config) (limits : ExecutionLimits) (env : WorkerEnv) (facts : BrokerFacts)
    (answers : ℕ → Option ℕ) (job : TradeJob) (volume : ℕ) (w t : World)
    → IsOn w t
    → IsOn w
        ((assert_margin limits.margin_buffer_percent job.terms facts.margin facts.symbol.balance
              facts.used_margin
            >> (modify (remember (new_runtime job facts.symbol))
                >> place_job cfg env facts answers job volume))
          t).1
margin_then cfg limits env facts answers job volume w t before =
    Moves-cases
      (assert_margin limits.margin_buffer_percent job.terms facts.margin facts.symbol.balance
        facts.used_margin)
      t
      (margin-Moves limits.margin_buffer_percent job.terms facts.margin facts.symbol.balance
        facts.used_margin)
      (λ _ v e on.
        let u : World = remember (new_runtime job facts.symbol) v in
        let there : IsOn w u = unfold remember in IsOn-trans w t v before on in
        rw e (
          then-Moves (place_job cfg env facts answers job volume) w u there
            (mode-Moves cfg env facts answers job volume job.terms.execution_mode refl)))
      (λ x v e on. rw e (IsOn-trans w t v before on))

pub start_fresh-Moves :
    (cfg : Config) (limits : ExecutionLimits) (env : WorkerEnv) (facts : BrokerFacts)
    (answers : ℕ → Option ℕ) (job : TradeJob)
    → Moves (start_fresh cfg limits env facts answers job)
unfolding start_fresh
start_fresh-Moves cfg limits env facts answers job =
    lift-Moves (job_volume facts.symbol job.terms) _ λ volume w.
      Moves-cases (assert_position_limit limits.max_open_positions_per_user facts.unmanaged job) w
        (limit-Moves limits.max_open_positions_per_user facts.unmanaged job)
        (λ _ v e on. rw e (
          Moves-cases
            (if facts.risk_limit_enabled
              then assert_estimated_risk facts.exceeds_risk facts.symbol.same_currency job.terms
                  volume
              else skip)
            v
            (risk-Moves facts.exceeds_risk facts.risk_limit_enabled facts.symbol.same_currency
              job.terms volume)
            (λ _ t f on'.
              rw f
                (margin_then cfg limits env facts answers job volume w t (IsOn-trans w v t on on')))
            (λ x t f on'. rw f (IsOn-trans w v t on on'))))
        (λ x v e on. rw e on)

reconciled_orders :
    (job_id : ℕ) (orders : List ℕ) (w : World)
    → (reconcile_orders job_id orders w).db.jobs ≡ w.db.jobs
unfolding reconcile_orders update_legs
reconciled_orders job_id [] w = refl
reconciled_orders job_id (o ∷ orders) w = reconciled_orders job_id orders _

reconciled_positions :
    (job_id : ℕ) (positions : List BrokerPosition) (w : World)
    → (reconcile_positions job_id positions w).db.jobs ≡ w.db.jobs
unfolding reconcile_positions update_legs
reconciled_positions job_id [] w = refl
reconciled_positions job_id (p ∷ positions) w = reconciled_positions job_id positions _

reconciled_jobs :
    (job_id : ℕ) (orders : List ℕ) (positions : List BrokerPosition) (w : World)
    → (reconcile_news_reversal job_id orders positions w).db.jobs ≡ w.db.jobs
unfolding reconcile_news_reversal schedule_protection_sync update_runtime
reconciled_jobs job_id orders positions w =
    reconciled_positions job_id positions (reconcile_orders job_id orders w)
    ∙ reconciled_orders job_id orders w

recover-Moves :
    (env : WorkerEnv) (facts : BrokerFacts) (job : TradeJob)
    → Moves (modify (recover env facts job))
recover-Moves env facts job = Moves-same (modify (recover env facts job)) same
  where
    same : (w : World) → (recover env facts job w).db.jobs ≡ w.db.jobs
    same w =
        let v : World = remember (recovered_runtime facts job) w in
        let r = reconciled_jobs job.id facts.orders facts.positions v in
        unfold recover report remember in ground arith

reconciled_on :
    (job_id now : ℕ) (a : TradeJob)
    → is_filled_job job_id a ≡ true
    → IsOnwardRow a (mark_closed now a)
unfolding mark_closed
reconciled_on job_id now a h = record { same_id = refl; same_user = refl; further = ground arith }

close-Moves : (env : WorkerEnv) (job : TradeJob) → Moves (modify (close_reconciled env job))
close-Moves env job w =
    let same : (close_reconciled env job w).db.jobs
        ≡ update_many (is_filled_job job.id) (mark_closed env.now) w.db.jobs =
      unfold close_reconciled update_jobs report in ground arith in
    rw same (
      IsOnward-update_many (is_filled_job job.id) (mark_closed env.now) w.db.jobs
        (reconciled_on job.id env.now))

dispatch-Moves :
    (cfg : Config) (limits : ExecutionLimits) (env : WorkerEnv) (facts : BrokerFacts)
    (answers : ℕ → Option ℕ) (job : TradeJob)
    → Moves (dispatch cfg limits env facts answers job)
unfolding dispatch
dispatch-Moves cfg limits env facts answers job w =
    elim (Bool-cases (not (is_empty facts.orders && is_empty facts.positions))) [
      | inl known ↦ rw known (recover-Moves env facts job w)
      | inr fresh ↦
          elim (Bool-cases (includes (filled ∷ partially_filled ∷ managed ∷ []) job.status)) [
            | inl over ↦ rw (fresh, over) (close-Moves env job w)
            | inr unfilled ↦ elim (Bool-cases (includes (scheduled ∷ armed ∷ []) job.status)) [
              | inl waiting ↦
                  rw (fresh, unfilled, waiting)
                    (start_fresh-Moves cfg limits env facts answers job w)
              | inr lost ↦ rw (fresh, unfilled, lost) (IsOn-refl w)
            ]
          ]
    ]

-- The start of a job moves jobs onward, whether it returns or throws.
pub start-Moves :
    (cfg : Config) (limits : ExecutionLimits) (env : WorkerEnv) (facts : BrokerFacts)
    (answers : ℕ → Option ℕ) (job : TradeJob)
    → Moves (start cfg limits env facts answers job)
unfolding start
start-Moves cfg limits env facts answers job w =
    Moves-cases (in_db (assert_trading_open cfg)) w (open-Moves cfg)
      (λ _ v e on. rw e (
        Moves-cases (run_checks (start_checks cfg facts job)) v
          (Moves-same (run_checks (start_checks cfg facts job))
            (λ w. ap (λ (u : World). u.db.jobs) (run_checks_reads (start_checks cfg facts job) w)))
          (λ _ t f on'. rw f (
            then-Moves (dispatch cfg limits env facts answers job) w t (IsOn-trans w v t on on')
              (dispatch-Moves cfg limits env facts answers job)))
          (λ x t f on'. rw f (IsOn-trans w v t on on'))))
      (λ x v e on. rw e on)
