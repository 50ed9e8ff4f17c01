-- ===== src/Strategy/Candidates.antt =====
-- `validateCandle` and `settleCandidates` of src/strategy-v2/probe-strategy.service.ts: what a candle
-- must satisfy, and the outcome of the entries that were considered before it.
use ctreader.Prelude.{
  ℕ, ◌==◌, Bool, false, not, ◌&&◌, ◌||◌, Option, none, some, List, [], ◌∷◌, leb, ltb, keep, take,
  update_many, order_by, is_some, if◌then◌else◌, Exec, Exception, bad_request, run_checks,
}
use ctreader.Schema.{TradeDirection}
use ctreader.Strategy.{Number, CandleValue, nought}
use ctreader.Strategy.Signals.{sl, tp, resolve_barrier_outcome}

pub data CandidateOutcome : Type 0 where
  hit_sl hit_tp timed_out : CandidateOutcome

pub data CandidateDecision : Type 0 where
  execute skip_entry : CandidateDecision

-- A candle as it came in, with what is looked at and not only kept.
pub record CandleInput (W : Type 0) : Type 0 where
  pub value : CandleValue W
  pub open_time : ℕ
  pub spread_points : Option W

-- An entry that the strategy considered: its prices and, once it is known, its outcome.
pub record StrategyCandidate (W : Type 0) : Type 0 where
  pub id : ℕ
  pub strategy_config_id : ℕ
  pub source : ℕ
  pub candle_time : ℕ
  pub direction : TradeDirection
  pub decision : CandidateDecision
  pub stop_loss_price : W
  pub take_profit_price : W
  pub label_expires_at : ℕ
  pub outcome : Option CandidateOutcome
  pub resolved_at : Option ℕ

abbrev pub holds_for : {A : Type 0} → (A → Bool) → Option A → Bool
holds_for p none = false
holds_for p (some x) = p x

module _ {W : Type 0} (n : Number W) where
  -- What is refused, in order; `is_integer` is `Number.isInteger`.
  abbrev pub candle_checks : (W → Bool) → CandleInput W → List (Bool × Exception)
  candle_checks is_integer input =
      let c = input.value in
      (
        not (
            n.is_finite c.open_price
            && n.is_finite c.high
            && n.is_finite c.low
            && n.is_finite c.close),
        bad_request "Invalid candle price",
      )
      ∷ (
        n.lt (n.min c.open_price c.close) c.low
            || n.lt c.high (n.max c.open_price c.close)
            || n.lt c.high c.low,
        bad_request "Invalid OHLC relationship",
      )
      ∷ (
        holds_for (λ s. not (is_integer s) || n.lt s (nought n)) input.spread_points,
        bad_request "Invalid spread points",
      )
      ∷ (
        holds_for (λ v. not (n.is_finite v) || n.lt v (nought n)) c.tick_volume,
        bad_request "Invalid tick volume",
      )
      ∷ []

  -- `validateCandle`, whatever the state of the caller.
  unfoldable pub validate_candle : {S : Type 0} → (W → Bool) → CandleInput W → Exec S (Unit {0})
  validate_candle is_integer input = run_checks (candle_checks is_integer input)

  -- The barrier that the candle reached, or the end of the label's time.
  unfoldable pub candidate_outcome : CandleInput W → StrategyCandidate W → Option CandidateOutcome
  unfolding resolve_barrier_outcome
  candidate_outcome input c =
      elim (resolve_barrier_outcome n c.direction c.stop_loss_price c.take_profit_price
        input.value) [
          | some sl ↦ some hit_sl
          | some tp ↦ some hit_tp
          | none ↦ if leb c.label_expires_at input.open_time then some timed_out else none
        ]

  unfoldable pub settled : ℕ → CandidateOutcome → StrategyCandidate W → StrategyCandidate W
  settled now outcome c = record c { outcome = some outcome; resolved_at = some now }

  unfoldable pub is_unsettled : ℕ → ℕ → CandleInput W → StrategyCandidate W → Bool
  is_unsettled config_id source input c =
      c.strategy_config_id == config_id
      && c.source == source
      && not (is_some c.outcome)
      && ltb c.candle_time input.open_time

  -- One round of the loop: the candidate is settled unless that happened meanwhile.
  unfoldable pub settle_candidate :
      CandleInput W → StrategyCandidate W → List (StrategyCandidate W) → List (StrategyCandidate W)
  unfolding candidate_outcome settled
  settle_candidate input c rows = elim (candidate_outcome input c) [
    | none ↦ rows
    | some outcome ↦
        update_many (λ r. r.id == c.id && not (is_some r.outcome)) (settled input.open_time outcome)
          rows
  ]

  unfoldable pub settle_all :
      CandleInput W
      → List (StrategyCandidate W)
      → List (StrategyCandidate W)
      → List (StrategyCandidate W)
  unfolding settle_candidate
  settle_all input [] rows = rows
  settle_all input (c ∷ cs) rows = settle_all input cs (settle_candidate input c rows)

  -- `settleCandidates`: the hundred oldest candidates without an outcome.
  unfoldable pub settle_candidates :
      ℕ → ℕ → CandleInput W → List (StrategyCandidate W) → List (StrategyCandidate W)
  unfolding is_unsettled settle_all
  settle_candidates config_id source input rows =
      settle_all input
        (take 100 (order_by (λ c. c.candle_time) (keep (is_unsettled config_id source input) rows)))
        rows
