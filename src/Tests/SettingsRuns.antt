-- ===== src/Tests/SettingsRuns.antt =====
-- The sample user's settings, and a poll of the sample user's agent.
use ctreader.Prelude.{◌≡◌, true, some, All, arith, map, ok, List}
use ctreader.Schema.{TradeJob, ReversalTemplate}
use ctreader.Users.{
  default_arm_seconds, update_trading_default, update_multi_template, update_news_reversal_template,
  set_real_trading_enabled, set_risk_limit_enabled,
}
use ctreader.Users.Bounds.{IsValidSettings, update-IsValidSettings}
use ctreader.TradeJobs.Lawful.{IsLawful}
use ctreader.TradeJobs.Poll.{AgentPoll, agent_job, poll_for_agent}
use ctreader.TradeJobs.Poll.Delivered.{IsHandedOut, poll_for_agent-IsHandedOut}
use ctreader.Tests.Data.{db, cfg, settings, agent, created}

valid : IsValidSettings cfg settings
valid = record {
  lot = (ground arith, ground arith);
  risk = (ground arith, ground arith);
  arm = (ground arith, ground arith);
  multi = record {
    trades = (ground arith, ground arith);
    first_pips =
        ((ground arith, ground arith), (ground arith, ground arith), (ground arith, ground arith));
    next_pips =
        ((ground arith, ground arith), (ground arith, ground arith), (ground arith, ground arith));
    expiry_range = (ground arith, ground arith);
  };
  reversal = record {
    entry_pips =
        ((ground arith, ground arith), (ground arith, ground arith), (ground arith, ground arith));
    target_pips =
        ((ground arith, ground arith), (ground arith, ground arith), (ground arith, ground arith));
    rising = (ground arith, ground arith);
    pending = (ground arith, ground arith);
    management = (ground arith, ground arith);
  };
}

abbrev wider : ReversalTemplate
wider = record (settings.reversal) { tp3_pips = 1200 }

update-IsValidSettings_example :
    All (IsValidSettings cfg) (update_trading_default cfg 42 (default_arm_seconds 20) db).1.settings
    × All (IsValidSettings cfg) (update_multi_template 42 settings.multi db).1.settings
    × All (IsValidSettings cfg) (update_news_reversal_template 42 wider db).1.settings
    × All (IsValidSettings cfg) (set_real_trading_enabled 42 true db).1.settings
    × All (IsValidSettings cfg) (set_risk_limit_enabled 42 true db).1.settings
update-IsValidSettings_example =
    update-IsValidSettings cfg 42 (default_arm_seconds 20) settings.multi wider true db (valid, tt)

poll_for_agent-IsHandedOut_example :
    (reply : AgentPoll) × (jobs : List TradeJob) × ((poll_for_agent cfg 2000 agent
        (some 60)
        created).0
      ≡ ok reply)
    × (reply.jobs ≡ map (agent_job (poll_for_agent cfg 2000 agent (some 60) created).1) jobs)
    × All (IsHandedOut cfg 2000 agent 60 created) jobs
    × IsLawful created.jobs (poll_for_agent cfg 2000 agent (some 60) created).1.jobs
poll_for_agent-IsHandedOut_example =
    poll_for_agent-IsHandedOut cfg 2000 agent 60 created (ground arith) (ground arith)
