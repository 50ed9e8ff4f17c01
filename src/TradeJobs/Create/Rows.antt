-- ===== src/TradeJobs/Create/Rows.antt =====
-- The rows of the database that `createForTelegramUser` makes a job for.
use ctreader.Prelude.{
  ℕ, ◌≡◌, refl, none, some, List, arith, ok, find_first, find_first-passes, ◌==◌, ==→eq,
}
use ctreader.Config.{Config}
use ctreader.Schema.{
  Db, User, UserSettings, TradeJob, TradingAccount, CtraderAccount, CbotInstance, ExecutionVenue,
  mt5, ctrader, cbot,
}
use ctreader.TradeJobs.Dto.{CreateTradeJobDto}
use ctreader.TradeJobs.Create.{CreateEnv, find_user, select_account, new_job}
use ctreader.TradeJobs.Create.Checks.{
  Account, mt5_account, ctrader_account, cbot_instance, find_account, big_int,
}
use ctreader.TradeJobs.Create.Trace.{SameOwners}

-- The user of a Telegram id.
abbrev pub IsUserOf : List ℕ → Db → User → Type 0
IsUserOf telegram_id db user =
    find_first (λ (u : User). u.telegram_id == big_int telegram_id) db.users ≡ some user

-- The account that a job is for is a row of the database, and the job is for no other.
abbrev pub IsAccountOf : TradeJob → Db → Account → Type 0
IsAccountOf job db (mt5_account a) =
    (find_first (λ (r : TradingAccount). r.id == a.id) db.accounts ≡ some a)
    × (job.execution_venue ≡ mt5)
    × (job.account_id ≡ some a.id)
    × (job.ctrader_account_id ≡ none)
    × (job.cbot_instance_id ≡ none)
IsAccountOf job db (ctrader_account a) =
    (find_first (λ (r : CtraderAccount). r.id == a.id) db.ctrader_accounts ≡ some a)
    × (job.execution_venue ≡ ctrader)
    × (job.account_id ≡ none)
    × (job.ctrader_account_id ≡ some a.id)
    × (job.cbot_instance_id ≡ none)
IsAccountOf job db (cbot_instance c) =
    (find_first (λ (r : CbotInstance). r.id == c.id) db.cbots ≡ some c)
    × (job.execution_venue ≡ cbot)
    × (job.account_id ≡ none)
    × (job.ctrader_account_id ≡ none)
    × (job.cbot_instance_id ≡ some c.id)

pub find_user_row :
    (telegram_id : List ℕ) (user : User) (settings : UserSettings) (db d : Db)
    → find_user telegram_id db ≡ (ok (user, settings), d)
    → IsUserOf telegram_id db user
unfolding find_user
find_user_row telegram_id user settings db d h = ground arith

pub select_account_found :
    (dto : CreateTradeJobDto) (user : User) (account : Account) (db d : Db)
    → select_account dto user db ≡ (ok account, d)
    → find_account dto.execution_venue dto.account_id db ≡ some account
unfolding select_account
select_account_found dto user account db d h = ground arith

-- A query by an id that found a row finds it by the row's own id.
found_by_id :
    {A : Type 0} (id_of : A → ℕ) (id : ℕ) (rows : List A) {a : A}
    → find_first (λ r. id_of r == id) rows ≡ some a
    → find_first (λ r. id_of r == id_of a) rows ≡ some a
found_by_id id_of id rows {a} h =
    rw (==→eq (id_of a) id (find_first-passes (λ r. id_of r == id) rows h)) h

-- The account that a query found, as that of the job which is made for it.
pub account_row :
    (cfg : Config) (env : CreateEnv) (dto : CreateTradeJobDto) (user : User)
    (settings : UserSettings) (account : Account) (at key : ℕ) (db d : Db)
    → SameOwners db d
    → find_account dto.execution_venue dto.account_id d ≡ some account
    → IsAccountOf (new_job cfg env dto user settings account at key) db account
unfolding new_job find_account
account_row cfg env dto user settings account at key db d (_, mt5s, ctraders, cbots) h =
    go dto.execution_venue account h
  where
    go :
        (venue : ExecutionVenue) (account : Account)
        → find_account venue dto.account_id d ≡ some account
        → IsAccountOf (new_job cfg env dto user settings account at key) db account
    go mt5 (mt5_account a) h = (
      rw (← mt5s)
          (found_by_id (λ (r : TradingAccount). r.id) dto.account_id d.accounts (ground arith)),
      refl,
      refl,
      refl,
      refl,
    )
    go ctrader (ctrader_account a) h = (
      rw (← ctraders) (
          found_by_id (λ (r : CtraderAccount). r.id) dto.account_id d.ctrader_accounts
            (ground arith)),
      refl,
      refl,
      refl,
      refl,
    )
    go cbot (cbot_instance c) h = (
      rw (← cbots) (found_by_id (λ (r : CbotInstance). r.id) dto.account_id d.cbots (ground arith)),
      refl,
      refl,
      refl,
      refl,
    )
    go _ _ h = absurd (ground arith)
