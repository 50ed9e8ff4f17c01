-- ===== src/Ctrader/Start/Limits.antt =====
-- How many orders on each side a start places, and that the user's limit of positions covers them.
use ctreader.Prelude.{
  ℕ, zero, suc, ◌+◌, ◌*◌, ◌/◌, ◌≡◌, ◌≤◌, ◌∙◌, refl, sym, ap, Bool, Bool-cases, inl, inr, Option,
  none, some, List, [], ◌∷◌, arith, Result, ok, err, length, count, ◌++◌, sum, map, keep, or_else,
  >>=-split, ltb, lift, skip, if◌then◌else◌, ◌>>=◌,
}
use ctreader.Config.{Config}
use ctreader.Schema.{
  TradeJob, JobTerms, ExecutionMode, market, straddle, multi, news_reversal, TradeDirection, buy,
  sell, VolumeAllocationMode, split_total, full_each,
}
use ctreader.NewsReversal.{allocate_news_reversal_volume, VolumeAllocation, split_steps, from_index}
use ctreader.Ctrader.{WorkerEnv, World, OrderLabel, level_label, update_runtime}
use ctreader.Ctrader.Reversal.{targets_of}
use ctreader.Ctrader.Orders.{
  OrderPlan, stop_draft, level_order, level_orders, multi_orders, straddle_order, side_orders,
  positions_of, is_other_active, projected_positions, assert_position_limit, assert_estimated_risk,
  assert_margin,
}
use ctreader.Ctrader.Orders.Volume.{job_volume}
use ctreader.Ctrader.Start.{
  BrokerFacts, ExecutionLimits, place_initial_legs, news_orders, managed_until, straddle_draft,
  multi_drafts, place_job, start_fresh, remember, new_runtime,
}
use ctreader.Ctrader.Start.Sent.{
  orders_sent, is_side, one_on, drafts_on, placed_many, placed_two, placed_legs,
}

-- The orders on each side that a start places at once, by the mode of the job: the one of MARKET waits
-- for its time.
abbrev pub orders_at_once : JobTerms → ℕ
orders_at_once terms = elim terms.execution_mode [
  | market ↦ 0
  | straddle ↦ 1
  | multi ↦ or_else terms.multi_trades_per_side 2
  | news_reversal ↦ 3
]

-- A level has one order on each side.
count-multi_orders :
    (side : TradeDirection) (label : TradeDirection → ℕ → OrderLabel)
    (entry : TradeDirection → ℕ → ℕ) (until : Option ℕ) (terms : JobTerms) (volume level n : ℕ)
    → drafts_on side (map (stop_draft entry until label) (multi_orders terms volume level n)) ≡ n
unfolding multi_orders level_orders level_order stop_draft count
count-multi_orders side label entry until terms volume level zero = refl
count-multi_orders buy label entry until terms volume level (suc n) =
    omega (arith, count-multi_orders buy label entry until terms volume (suc level) n)
count-multi_orders sell label entry until terms volume level (suc n) =
    omega (arith, count-multi_orders sell label entry until terms volume (suc level) n)

-- The plans on a side.
abbrev pub plans_on : TradeDirection → List OrderPlan → ℕ
plans_on side plans = count (λ (p : OrderPlan). is_side side p.side) plans

plans-append :
    (side : TradeDirection) (xs ys : List OrderPlan)
    → plans_on side (xs ++ ys) ≡ plans_on side xs + plans_on side ys
unfolding count
plans-append side [] ys = omega arith
plans-append side (x ∷ xs) ys = omega (arith, plans-append side xs ys)

count-side_orders :
    (on : TradeDirection) (terms : JobTerms) (side : TradeDirection) (index a b c : ℕ)
    (legs : List ℕ)
    → length legs ≡ 3
    → plans_on on (side_orders terms side index legs (a ∷ b ∷ c ∷ []))
      ≡ (if is_side on side then 3 else 0)
unfolding side_orders count
count-side_orders on terms side index a b c [] h = absurd (omega (arith, h))
count-side_orders on terms side index a b c (x ∷ []) h = absurd (omega (arith, h))
count-side_orders on terms side index a b c (x ∷ y ∷ []) h = absurd (omega (arith, h))
count-side_orders on terms side index a b c (x ∷ y ∷ z ∷ []) h =
    elim (Bool-cases (is_side on side)) [ inl same ↦ rw same refl | inr other ↦ rw other refl ]
count-side_orders on terms side index a b c (x ∷ y ∷ z ∷ _ ∷ l) h = absurd (omega (arith, h))

length-split_steps : (steps step : ℕ) → length (split_steps steps step 3).legs ≡ 3
unfolding split_steps from_index
length-split_steps steps step = refl

three_legs :
    (volume step : ℕ) (mode : VolumeAllocationMode) (a : VolumeAllocation)
    → allocate_news_reversal_volume volume step mode 3 ≡ ok a
    → length a.legs ≡ 3
unfolding allocate_news_reversal_volume
three_legs volume step full_each a h = ground arith
three_legs volume step split_total a h =
    ground (arith, length-split_steps (volume / step * step / step) step)

count-news_orders :
    (on : TradeDirection) (job : TradeJob) (a : VolumeAllocation)
    → length a.legs ≡ 3
    → plans_on on (news_orders job a) ≡ 3
unfolding news_orders
count-news_orders on job a h =
    plans-append on (side_orders job.terms buy 0 a.legs (targets_of job))
      (side_orders job.terms sell 0 a.legs (targets_of job))
    ∙ rw
        (
          count-side_orders on job.terms buy 0 _ _ _ a.legs h,
          count-side_orders on job.terms sell 0 _ _ _ a.legs h,
        )
        (once on)
  where
    once :
        (on : TradeDirection)
        → (if is_side on buy then 3 else 0) + (if is_side on sell then 3 else 0) ≡ 3
    once buy = refl
    once sell = refl

module _ (on : TradeDirection) (cfg : Config) (env : WorkerEnv) (facts : BrokerFacts)
    (answers : ℕ → Option ℕ) (job : TradeJob) where
  placed_news :
      (r : Result VolumeAllocation) (w t : World)
      → ((a : VolumeAllocation) → r ≡ ok a → length a.legs ≡ 3)
      → (lift r >>= λ a.
            place_initial_legs cfg env facts answers job.id
              (managed_until job)
              0
              (news_orders job a))
          w
        ≡ (ok tt, t)
      → orders_sent on t ≡ 3 + orders_sent on w
  placed_news (err x) w t three h = absurd (ground arith)
  placed_news (ok a) w t three h =
      placed_legs on cfg env job.id facts answers (managed_until job) 0 (news_orders job a) w t h
      ∙ ap (λ n. n + orders_sent on w) (count-news_orders on job a (three a refl))

  straddle_once :
      (volume : ℕ)
      → one_on on (straddle_draft facts job volume buy)
          + one_on on (straddle_draft facts job volume sell)
        ≡ 1
  unfolding straddle_draft stop_draft straddle_order
  straddle_once volume = once on
    where
      once :
          (on : TradeDirection)
          → (if is_side on buy then 1 else 0) + (if is_side on sell then 1 else 0) ≡ 1
      once buy = refl
      once sell = refl

  placed_job :
      (volume : ℕ) (mode : ExecutionMode) (w t : World)
      → job.terms.execution_mode ≡ mode
      → place_job cfg env facts answers job volume w ≡ (ok tt, t)
      → orders_sent on t ≡ orders_at_once job.terms + orders_sent on w
  unfolding place_job multi_drafts
  placed_job volume market w t e h =
      let same : orders_sent on w ≡ orders_sent on t =
        unfold update_runtime in ap (λ r. orders_sent on r.1) (rw e at h) in
      rw e (omega (arith, same))
  placed_job volume straddle w t e h = rw e (
      placed_two on cfg env job.id answers _ _ w t (rw e at h)
      ∙ ap (λ n. n + orders_sent on w) (straddle_once volume))
  placed_job volume multi w t e h = rw e (
      placed_many on cfg env job.id answers 0 (multi_drafts facts job volume) w t (rw e at h)
      ∙ ap (λ n. n + orders_sent on w)
          (count-multi_orders on level_label facts.entry (some job.expires_at) job.terms volume 0
            (or_else job.terms.multi_trades_per_side 2)))
  placed_job volume news_reversal w t e h = rw e (
      placed_news _ w t
        (three_legs volume facts.symbol.step_volume
          (or_else job.terms.volume_allocation_mode split_total))
        (rw e at h))

within_limit :
    (limit unmanaged : ℕ) (job : TradeJob) (w u : World)
    → assert_position_limit limit unmanaged job w ≡ (ok tt, u)
    → (u ≡ w) × (projected_positions unmanaged job w.db ≤ limit)
unfolding assert_position_limit
within_limit limit unmanaged job w u h =
    elim (Bool-cases (ltb limit (projected_positions unmanaged job w.db))) [
      | inl over ↦ absurd (ground arith)
      | inr fits ↦ (ground arith, ground arith)
    ]

risk_same :
    (exceeds : ℕ → ℕ → Bool) (enabled same : Bool) (terms : JobTerms) (volume : ℕ) (w u : World)
    → (if enabled then assert_estimated_risk exceeds same terms volume else skip) w ≡ (ok tt, u)
    → u ≡ w
unfolding assert_estimated_risk
risk_same exceeds enabled same terms volume w u h = ground arith

margin_same :
    (buffer : ℕ) (terms : JobTerms) (margin : Option (ℕ × ℕ)) (balance used : ℕ) (w u : World)
    → assert_margin buffer terms margin balance used w ≡ (ok tt, u)
    → u ≡ w
unfolding assert_margin
margin_same buffer terms none balance used w u h = absurd (ground arith)
margin_same buffer terms (some (b, s)) balance used w u h = ground arith

-- A job that is started afresh and gets through was within the user's limit: the positions that
-- others opened on the account, those that the job plans and those that the user's other held jobs
-- plan are no more than it; and on each side it sent as many new orders as its mode has there: none
-- for MARKET, whose order waits, one for STRADDLE, the trades per side for MULTI, and three for
-- NEWS_REVERSAL.
pub start_fresh-IsWithin :
    (cfg : Config) (limits : ExecutionLimits) (env : WorkerEnv) (facts : BrokerFacts)
    (answers : ℕ → Option ℕ) (job : TradeJob) (side : TradeDirection) (w t : World)
    → start_fresh cfg limits env facts answers job w ≡ (ok tt, t)
    → (facts.unmanaged
          + positions_of job
          + sum (map positions_of (keep (is_other_active job) w.db.jobs))
        ≤ limits.max_open_positions_per_user)
      × (orders_sent side t ≡ orders_at_once job.terms + orders_sent side w)
unfolding start_fresh projected_positions
start_fresh-IsWithin cfg limits env facts answers job side w t h =
    >>=-split (lift (job_volume facts.symbol job.terms)) _ w h λ volume w0 e0 h0.
      >>=-split (assert_position_limit limits.max_open_positions_per_user facts.unmanaged job) _ w0
        h0
        λ _ w1 e1 h1.
          >>=-split
            (if facts.risk_limit_enabled
              then assert_estimated_risk facts.exceeds_risk facts.symbol.same_currency job.terms
                  volume
              else skip)
            _ w1 h1
            λ _ w2 e2 h2.
              >>=-split
                (assert_margin limits.margin_buffer_percent job.terms facts.margin
                  facts.symbol.balance facts.used_margin)
                _ w2 h2
                λ _ w3 e3 h3.
                  let here : w ≡ w0 = ap (λ r. r.1) e0 in
                  let (there, fits) =
                    within_limit limits.max_open_positions_per_user facts.unmanaged job w0 w1 e1 in
                  let risked =
                    risk_same facts.exceeds_risk facts.risk_limit_enabled facts.symbol.same_currency
                      job.terms volume w1 w2 e2 in
                  let covered =
                    margin_same limits.margin_buffer_percent job.terms facts.margin
                      facts.symbol.balance facts.used_margin w2 w3 e3 in
                  let back : w3 ≡ w = covered ∙ risked ∙ there ∙ sym here in
                  let ready : World = remember (new_runtime job facts.symbol) w3 in
                  let same : orders_sent side ready ≡ orders_sent side w =
                    unfold remember in ap (orders_sent side) back in
                  (
                    rw here fits,
                    placed_job side cfg env facts answers job volume job.terms.execution_mode ready
                          t refl h3
                        ∙ ap (λ n. orders_at_once job.terms + n) same,
                  )
