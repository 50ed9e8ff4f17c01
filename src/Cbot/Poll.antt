-- ===== src/Cbot/Poll.antt =====
-- `poll` of src/cbot/cbot.service.ts: the jobs that a cBot instance is to hold.
use ctreader.Prelude.{
  ℕ, ◌+◌, ◌*◌, String, Bool, true, false, ◌&&◌, ◌||◌, Option, none, some, List, [], ◌∷◌, map, ltb,
  leb, is_some, contains, keep, Exec, bad_request, pure, gets, modify, throw_if, ◌>>=◌, ◌>>◌,
  update_many, find_many,
}
use ctreader.Config.{Config}
use ctreader.Schema.{Db, TradeJob, TradeDirection, ExecutionMode, VolumeAllocationMode}
use ctreader.TradeJobs.State.{
  TradeJobStatus, includes, same_status, scheduled, synced, armed, submitted, partially_filled,
  filled, managed, missed,
}
use ctreader.Cbot.{entitlement, held_by_instance}

-- A job as the cBot receives it.
pub record PolledJob : Type 0 where
  pub id : ℕ
  pub version : ℕ
  pub symbol : String
  pub direction : TradeDirection
  pub execution_mode : ExecutionMode
  pub fixed_lot : Option ℕ
  pub stop_loss_points : ℕ
  pub take_profit_points : ℕ
  pub entry_distance_points : ℕ
  pub deviation_points : ℕ
  pub max_spread_points : ℕ
  pub arm_seconds : ℕ
  pub max_lateness_ms : ℕ
  pub pending_expiry_seconds : ℕ
  pub multi_trades_per_side : Option ℕ
  pub multi_next_step_points : Option ℕ
  pub multi_next_sl_points : Option ℕ
  pub multi_next_tp_points : Option ℕ
  pub volume_allocation_mode : Option VolumeAllocationMode
  pub take_profit2_points : Option ℕ
  pub take_profit3_points : Option ℕ
  pub reversal_gap_points : Option ℕ
  pub max_reversals : ℕ
  pub execute_at : ℕ
  pub expires_at : ℕ
  pub management_expires_at : Option ℕ
  pub cancel_requested : Bool
  pub close_requested : Bool

unfoldable pub polled : TradeJob → PolledJob
polled job = record {
  id = job.id;
  version = job.version;
  symbol = job.terms.symbol;
  direction = job.terms.direction;
  execution_mode = job.terms.execution_mode;
  fixed_lot = job.terms.fixed_lot;
  stop_loss_points = job.terms.stop_loss_points;
  take_profit_points = job.terms.take_profit_points;
  entry_distance_points = job.terms.entry_distance_points;
  deviation_points = job.terms.deviation_points;
  max_spread_points = job.terms.max_spread_points;
  arm_seconds = job.terms.arm_seconds;
  max_lateness_ms = job.terms.max_lateness_ms;
  pending_expiry_seconds = job.terms.pending_expiry_seconds;
  multi_trades_per_side = job.terms.multi_trades_per_side;
  multi_next_step_points = job.terms.multi_next_step_points;
  multi_next_sl_points = job.terms.multi_next_sl_points;
  multi_next_tp_points = job.terms.multi_next_tp_points;
  volume_allocation_mode = job.terms.volume_allocation_mode;
  take_profit2_points = job.terms.take_profit2_points;
  take_profit3_points = job.terms.take_profit3_points;
  reversal_gap_points = job.terms.reversal_gap_points;
  max_reversals = job.max_reversals;
  execute_at = job.execute_at;
  expires_at = job.expires_at;
  management_expires_at = job.management_expires_at;
  cancel_requested = is_some job.cancel_requested_at;
  close_requested = is_some job.close_requested_at;
}

pub record PollReply : Type 0 where
  pub server_time : ℕ
  pub accept_new_jobs : Bool
  pub trading_halted : Bool
  pub jobs : List PolledJob

-- A job that should have been reported on a minute ago and never was.
abbrev pub is_abandoned : ℕ → ℕ → TradeJob → Bool
is_abandoned now instance_id job =
    held_by_instance instance_id job
    && includes (scheduled ∷ synced ∷ armed ∷ []) job.status
    && leb (job.expires_at + 60000) now

unfoldable pub mark_missed : ℕ → TradeJob → TradeJob
mark_missed now job = record job { status = missed; updated_at = now }

-- The statuses of positions that are or may be in the market.
abbrev pub in_market : List TradeJobStatus
in_market = submitted ∷ partially_filled ∷ filled ∷ managed ∷ []

-- A user who may not start new jobs still gets those that are armed or in the market.
abbrev pub delivered_statuses : Bool → List TradeJobStatus
delivered_statuses true = scheduled ∷ synced ∷ armed ∷ in_market
delivered_statuses false = armed ∷ in_market

-- `{ gt: now }` on a column that may be empty.
abbrev pub after : ℕ → Option ℕ → Bool
after now none = false
after now (some at) = ltb now at

abbrev pub is_deliverable : ℕ → ℕ → Bool → ℕ → TradeJob → Bool
is_deliverable now instance_id accepts horizon job =
    held_by_instance instance_id job
    && includes (delivered_statuses accepts) job.status
    && leb job.execute_at (now + horizon * 60000)
    && (after now job.management_expires_at
        || ltb now job.expires_at
        || includes in_market job.status)

unfoldable pub mark_synced : ℕ → TradeJob → TradeJob
mark_synced now job = record job {
  status = synced;
  times = record (job.times) { synced_at = some now };
  updated_at = now;
}

abbrev pub fresh_ids : List TradeJob → List ℕ
fresh_ids jobs = map (λ (j : TradeJob). j.id) (keep (λ j. same_status j.status scheduled) jobs)

abbrev pub is_fresh : List TradeJob → TradeJob → Bool
is_fresh jobs job = contains (fresh_ids jobs) job.id && same_status job.status scheduled

unfoldable pub expire_abandoned : ℕ → ℕ → Db → Db
unfolding mark_missed
expire_abandoned now instance_id db = record db {
  jobs = update_many (is_abandoned now instance_id) (mark_missed now) db.jobs;
}

unfoldable pub sync_fresh : ℕ → List TradeJob → Db → Db
unfolding mark_synced
sync_fresh now jobs db = record db { jobs = update_many (is_fresh jobs) (mark_synced now) db.jobs }

unfoldable pub fetch : ℕ → ℕ → Bool → ℕ → Db → List TradeJob
fetch now instance_id accepts horizon db =
    find_many (is_deliverable now instance_id accepts horizon) (λ (j : TradeJob). j.execute_at) 50
      db.jobs

-- An update of no ids is not sent; it would change nothing.
unfoldable pub poll : Config → ℕ → ℕ → ℕ → ℕ → Exec Db PollReply
unfolding expire_abandoned sync_fresh fetch polled
poll cfg now instance_id user_id horizon = do
  throw_if (ltb horizon 1 || ltb 1440 horizon)
      (bad_request "horizonMinutes must be between 1 and 1440")
  access ← entitlement cfg now user_id
  modify (expire_abandoned now instance_id)
  jobs ← gets (fetch now instance_id access.accept_new_jobs horizon)
  modify (sync_fresh now jobs)
  pure (record {
    server_time = now;
    accept_new_jobs = access.accept_new_jobs;
    trading_halted = access.trading_halted;
    jobs = map polled jobs;
  })
