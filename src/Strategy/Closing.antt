-- ===== src/Strategy/Closing.antt =====
-- `closePosition` of src/strategy-v2/probe-strategy.service.ts: a position is closed, with the jobs that
-- a cBot holds for it and the candidate that it came from.
use ctreader.Prelude.{
  ℕ, ◌==◌, String, Bool, true, false, ◌&&◌, none, some, List, [], ◌∷◌, find_first, update_many,
  if◌then◌else◌, Exec, ok, err, failure,
}
use ctreader.Schema.{TradeJob, StrategyPositionState, closed_tp, closed_sl, closed_timeout}
use ctreader.TradeJobs.State.{
  scheduled, synced, armed, submitted, partially_filled, filled, managed, includes,
}
use ctreader.Cbot.{is_cbot_venue}
use ctreader.Strategy.{Number}
use ctreader.Strategy.Positions.{ProbePosition, Closing}
use ctreader.Strategy.Candidates.{
  StrategyCandidate, CandidateDecision, execute, skip_entry, CandidateOutcome, hit_tp, hit_sl,
  timed_out, settled,
}

pub record StrategyEvent (W : Type 0) : Type 0 where
  pub position_id : ℕ
  pub state : StrategyPositionState
  pub occurred_at : ℕ
  pub price : W
  pub message : String

-- The tables that the closing of a position touches.
pub record Desk (W : Type 0) : Type 0 where
  pub jobs : List TradeJob
  pub positions : List (ProbePosition W)
  pub events : List (StrategyEvent W)
  pub candidates : List (StrategyCandidate W)

module _ {W : Type 0} (n : Number W) where
  abbrev pub is_timeout : StrategyPositionState → Bool
  is_timeout closed_timeout = true
  is_timeout _ = false

  abbrev pub closing_outcome : StrategyPositionState → CandidateOutcome
  closing_outcome closed_tp = hit_tp
  closing_outcome closed_sl = hit_sl
  closing_outcome _ = timed_out

  abbrev pub is_executed : CandidateDecision → Bool
  is_executed execute = true
  is_executed skip_entry = false

  unfoldable pub is_open_cbot_job : (ℕ → TradeJob → Bool) → ℕ → TradeJob → Bool
  is_open_cbot_job belongs id job =
      is_cbot_venue job.execution_venue
      && belongs id job
      && includes
          (scheduled ∷ synced ∷ armed ∷ submitted ∷ partially_filled ∷ filled ∷ managed ∷ [])
          job.status

  unfoldable pub close_asked : ℕ → TradeJob → TradeJob
  close_asked now job = record job { updated_at = now; close_requested_at = some now }

  -- A position that timed out asks the cBots to close its jobs.
  unfoldable pub ask_to_close :
      (ℕ → TradeJob → Bool) → ℕ → ℕ → StrategyPositionState → Desk W → Desk W
  unfolding is_open_cbot_job close_asked
  ask_to_close belongs now id state d =
      if is_timeout state
      then record d { jobs = update_many (is_open_cbot_job belongs id) (close_asked now) d.jobs }
      else d

  unfoldable pub closed_position : ℕ → Closing W → ProbePosition W → ProbePosition W
  closed_position now closing p = record p {
    state = closing.state;
    closed_at = some now;
    close_price = some closing.price;
    close_reason = some closing.reason;
    realized_r = some closing.realized_r;
  }

  unfoldable pub closing_event : ℕ → ℕ → Closing W → StrategyEvent W
  closing_event now id closing = record {
    position_id = id;
    state = closing.state;
    occurred_at = now;
    price = closing.price;
    message = closing.reason;
  }

  -- The candidate that the position came from.
  unfoldable pub is_origin : ProbePosition W → StrategyCandidate W → Bool
  is_origin p c =
      c.strategy_config_id == p.strategy_config_id
      && c.candle_time == p.opened_at
      && is_executed c.decision

  unfoldable pub record_closing : ℕ → Closing W → ProbePosition W → Desk W → Desk W
  unfolding closed_position closing_event is_origin settled
  record_closing now closing p d = record d {
    positions =
        update_many (λ (q : ProbePosition W). q.id == p.id) (closed_position now closing)
          d.positions;
    events = closing_event now p.id closing ∷ d.events;
    candidates =
        update_many (is_origin p) (settled n now (closing_outcome closing.state)) d.candidates;
  }

  -- `closePosition`, at the time of a candle and at the time of the clock. Which jobs name the position
  -- in their snapshot is given; the update of a position that is not there throws.
  unfoldable pub close_position :
      (ℕ → TradeJob → Bool) → (clock now : ℕ) → ℕ → Closing W → Exec (Desk W) (Unit {0})
  unfolding ask_to_close record_closing
  close_position belongs clock now id closing d =
      let asked = ask_to_close belongs clock id closing.state d in
      elim (find_first (λ (p : ProbePosition W). p.id == id) asked.positions) [
        | none ↦ (err (failure "Record to update not found"), asked)
        | some p ↦ (ok tt, record_closing now closing p asked)
      ]
