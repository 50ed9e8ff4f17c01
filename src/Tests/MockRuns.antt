-- ===== src/Tests/MockRuns.antt =====
-- A NEWS_REVERSAL job in mock mode whose buying side is filled.
use ctreader.Prelude.{ℕ, ◌≡◌, refl, none, some, [], ◌∷◌, arith, count, find_first, ok}
use ctreader.Schema.{
  Db, TradeJob, TradeJobLeg, news_reversal, buy, initial, filled, initial_buy_active, completed,
}
use ctreader.TradeJobs.State.{TradeJobStatus, closed}
use ctreader.Ctrader.Mock.{
  MockEnv, MockKey, tp_key, job_of, is_open_target, is_taken, advance_news_reversal,
}
use ctreader.Ctrader.Mock.Targets.{IsAtTarget, at_time}
use ctreader.Ctrader.Mock.Progress.{advance_thrice}
use ctreader.Tests.WorkerData.{job, world}

abbrev key_text : MockKey → ℕ
key_text (tp_key job_id k) = k
key_text _ = 9

abbrev mock_env : MockEnv
mock_env = record {
  now = 101000;
  text = key_text;
  report_id = λ k. 700;
  leg_id = λ side k. k;
  order_id = λ j side k. k;
  position_id = λ j side k. k;
  third = λ v. v;
  last_third = λ v. v;
}

abbrev news_job : TradeJob
news_job = record job {
  terms = record job.terms { execution_mode = news_reversal };
  status = TradeJobStatus.filled;
  active_direction = some buy;
  news_reversal_state = some initial_buy_active;
}

abbrev leg : ℕ → TradeJobLeg
leg k = record {
  id = k;
  job_id = 30;
  revision = 0;
  leg_number = k;
  direction = buy;
  purpose = initial;
  target_number = k;
  planned_volume = 33;
  filled_volume = some 33;
  entry_price = none;
  stop_loss_price = none;
  take_profit_price = none;
  broker_order_id = none;
  broker_position_id = none;
  status = filled;
  closed_at = none;
}

abbrev news_db : Db
news_db = record world.db { jobs = news_job ∷ []; legs = leg 1 ∷ leg 2 ∷ leg 3 ∷ [] }

news_db-IsAtTarget : IsAtTarget mock_env 30 buy 0 news_job news_db
unfolding count find_first is_open_target is_taken
news_db-IsAtTarget = record {
  found = refl;
  active = refl;
  taken = refl;
  waiting = λ k lt le. ground arith;
  unique = λ k. ground arith;
  fresh = λ k lt le. refl;
}

advance_thrice_example :
    let a = advance_news_reversal (at_time 102000 mock_env) 30 news_db in
    let b = advance_news_reversal (at_time 103000 mock_env) 30 a.1 in
    let c = advance_news_reversal (at_time 104000 mock_env) 30 b.1 in
    (a.0 ≡ ok tt)
    × (b.0 ≡ ok tt)
    × (c.0 ≡ ok tt)
    × (count (is_taken 30 buy) c.1.legs ≡ 3)
    × (closed_job : TradeJob) × (job_of 30 c.1 ≡ some closed_job)
    × (closed_job.status ≡ closed)
    × (closed_job.news_reversal_state ≡ some completed)
advance_thrice_example =
    advance_thrice mock_env 30 102000 103000 104000 buy news_job news_db (λ a b e. e)
      news_db-IsAtTarget
