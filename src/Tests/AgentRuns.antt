-- ===== src/Tests/AgentRuns.antt =====
-- A heartbeat of the sample user's agent, and the listings of the sample user's jobs.
use ctreader.Prelude.{
  ◌≡◌, refl, true, false, none, some, List, ok, find_first, update_many, ◌==◌, ◌&&◌, length,
  IsOrdered, All, min, count,
}
use ctreader.Schema.{Db, TradeJob, east, demo, hedging}
use ctreader.TradeJobs.State.Terminal.{is_final}
use ctreader.Agents.{HeartbeatDto, HeartbeatReply, heartbeat}
use ctreader.Agents.Owners.{IsConnected, heartbeat-IsConnected}
use ctreader.TradeJobs.Listings.{
  IsRowOf, is_under_way, list_active_for_telegram_user, list_recent_final_for_telegram_user,
  listings,
}
use ctreader.Tests.Data.{db, cfg, agent, user}

abbrev beat : HeartbeatDto
beat = record {
  server_utc_offset = east 7200;
  agent_version = none;
  terminal_build = some 4000;
  login = 123456;
  broker = "Broker";
  server = 12;
  currency = "USD";
  environment = demo;
  margin_mode = hedging;
  leverage = some 100;
  balance = none;
  equity = none;
  trade_allowed = true;
  expert_trade_allowed = true;
}

abbrev reply : HeartbeatReply
reply = record { server_time = 3000; account_id = 3; real_trading_system_enabled = false }

abbrev after_beat : Db
after_beat = (heartbeat cfg 3000 40 agent beat none db).1

beats : heartbeat cfg 3000 40 agent beat none db ≡ (ok reply, after_beat)
unfolding heartbeat find_first update_many
beats = refl

heartbeat-IsConnected_example : IsConnected agent beat after_beat 3
heartbeat-IsConnected_example =
    heartbeat-IsConnected cfg 3000 40 agent beat none db after_beat reply beats

user_found : find_first (λ (u : ctreader.Schema.User). u.telegram_id == 42) db.users ≡ some user
unfolding find_first
user_found = refl

listings_example :
    (live : List TradeJob) × (ended : List TradeJob) × (list_active_for_telegram_user 42 db
      ≡ (ok live, db))
    × (list_recent_final_for_telegram_user 3000 42 db ≡ (ok ended, db))
    × IsOrdered (λ (j : TradeJob). j.execute_at) live
    × (All (λ job. IsRowOf 1 db job × (is_under_way job.status ≡ true)) live
        × (length live
            ≡ min 20 (count (λ (j : TradeJob). j.user_id == 1 && is_under_way j.status) db.jobs)))
    × (All (λ job. IsRowOf 1 db job × (is_final job.status ≡ true)) ended
        × (length ended
            ≡ min 3 (count (λ (j : TradeJob). j.user_id == 1 && is_final j.status) db.jobs)))
listings_example = listings 3000 42 db user user_found
