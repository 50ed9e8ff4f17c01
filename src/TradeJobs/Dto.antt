-- ===== src/TradeJobs/Dto.antt =====
-- src/trade-jobs/dto/create-trade-job.dto.ts: the request for a job, and the ranges that its
-- decorators declare. `executeAt` is already the instant that the text names.
use ctreader.Prelude.{ℕ, Bool, true, ◌&&◌, Option, none, some, String, [], ◌∷◌, leb, all}
use ctreader.Schema.{TradeDirection, ExecutionMode, VolumeAllocationMode, RiskMode, ExecutionVenue}

pub record CreateTradeJobDto : Type 0 where
  pub execution_venue : ExecutionVenue
  pub account_id : ℕ
  pub economic_event_id : Option ℕ
  pub idempotency_key : Option ℕ
  pub symbol : String
  pub direction : TradeDirection
  pub execution_mode : ExecutionMode
  pub risk_mode : RiskMode
  pub fixed_lot : Option ℕ
  pub risk_percent : Option ℕ
  pub stop_loss_points : ℕ
  pub take_profit_points : ℕ
  pub deviation_points : Option ℕ
  pub max_spread_points : Option ℕ
  pub arm_seconds : Option ℕ
  pub max_lateness_ms : Option ℕ
  pub entry_distance_points : Option ℕ
  pub pending_expiry_seconds : Option ℕ
  pub multi_trades_per_side : Option ℕ
  pub multi_next_step_points : Option ℕ
  pub multi_next_sl_points : Option ℕ
  pub multi_next_tp_points : Option ℕ
  pub volume_allocation_mode : Option VolumeAllocationMode
  pub take_profit2_points : Option ℕ
  pub take_profit3_points : Option ℕ
  pub reversal_tp1_buffer_points : Option ℕ
  pub reversal_tp2_buffer_points : Option ℕ
  pub reversal_gap_points : Option ℕ
  pub management_seconds : Option ℕ
  pub execute_at : ℕ

-- `@Min(lo) @Max(hi)`, and the same under `@IsOptional()`.
abbrev pub within : ℕ → ℕ → ℕ → Bool
within lo hi n = leb lo n && leb n hi

abbrev pub optional_within : ℕ → ℕ → Option ℕ → Bool
optional_within lo hi none = true
optional_within lo hi (some n) = within lo hi n

abbrev pub optional_least : ℕ → Option ℕ → Bool
optional_least lo none = true
optional_least lo (some n) = leb lo n

-- The numeric constraints of the decorators, in the order of the fields; lots are counted in
-- steps of 0.0001 and percentages in steps of 0.01, so that both least values are 1.
unfoldable pub in_declared_ranges : CreateTradeJobDto → Bool
in_declared_ranges dto =
    all (λ b. b)
      (optional_least 1 dto.fixed_lot
        ∷ optional_least 1 dto.risk_percent
        ∷ within 1 1000000 dto.stop_loss_points
        ∷ within 1 1000000 dto.take_profit_points
        ∷ optional_within 0 100000 dto.deviation_points
        ∷ optional_within 0 1000000 dto.max_spread_points
        ∷ optional_within 3 60 dto.arm_seconds
        ∷ optional_within 100 5000 dto.max_lateness_ms
        ∷ optional_within 1 1000000 dto.entry_distance_points
        ∷ optional_within 1 300 dto.pending_expiry_seconds
        ∷ optional_within 2 5 dto.multi_trades_per_side
        ∷ optional_within 1 1000000 dto.multi_next_step_points
        ∷ optional_within 1 1000000 dto.multi_next_sl_points
        ∷ optional_within 1 1000000 dto.multi_next_tp_points
        ∷ optional_within 1 1000000 dto.take_profit2_points
        ∷ optional_within 1 1000000 dto.take_profit3_points
        ∷ optional_within 1 1000000 dto.reversal_tp1_buffer_points
        ∷ optional_within 1 1000000 dto.reversal_tp2_buffer_points
        ∷ optional_within 1 1000000 dto.reversal_gap_points
        ∷ optional_within 30 3600 dto.management_seconds
        ∷ [])
