-- ===== src/Agents/Owners.antt =====
-- Whose account a heartbeat connects.
use ctreader.Prelude.{
  ℕ, ◌≡◌, refl, inl, inr, Option, none, some, ◌∷◌, arith, ok, ◌==◌, ==_refl, find_first,
  find_first-update, find_first-passes, update_many, Option-cases, Bool-cases, String, ◌∙◌, sym,
}
use ctreader.Config.{Config}
use ctreader.Schema.{Db, Agent, TradingAccount}
use ctreader.Agents.{
  HeartbeatDto, HeartbeatReply, off_boundary, is_account_of, seen_agent, new_account,
  renewed_account, heartbeat,
}

-- What an accepted heartbeat leaves behind: the account that its answer names is the one of the
-- login and server, it belongs to the agent's user and is held by the agent.
pub record IsConnected (agent : Agent) (dto : HeartbeatDto) (db : Db) (id : ℕ) : Type 0 where
  pub account : TradingAccount
  pub found : find_first (is_account_of dto) db.accounts ≡ some account
  pub named : account.id ≡ id
  pub owner : account.user_id ≡ agent.user_id
  pub holder : account.agent_id ≡ agent.id
  pub trades : account.trade_allowed ≡ dto.trade_allowed

abbrev seen_db : ℕ → Agent → HeartbeatDto → Option String → Db → Db
seen_db now agent dto ip db = record db {
  agents = update_many (λ (a : Agent). a.id == agent.id) (seen_agent now dto ip) db.agents;
}

accepted_new :
    (cfg : Config) (now id : ℕ) (agent : Agent) (dto : HeartbeatDto) (ip : Option String)
    (db t : Db) (reply : HeartbeatReply)
    → find_first (is_account_of dto) db.accounts ≡ none
    → heartbeat cfg now id agent dto ip db ≡ (ok reply, t)
    → (reply.account_id ≡ id) × (t.accounts ≡ new_account now id agent dto ∷ db.accounts)
unfolding heartbeat
accepted_new cfg now id agent dto ip db t reply missing h =
    elim (Bool-cases (off_boundary dto.server_utc_offset)) [
      | inl off ↦ absurd (ground arith)
      | inr fine ↦ (ground arith, ground arith)
    ]

accepted_known :
    (cfg : Config) (now id : ℕ) (agent : Agent) (dto : HeartbeatDto) (ip : Option String)
    (db t : Db) (reply : HeartbeatReply) (a : TradingAccount)
    → find_first (is_account_of dto) db.accounts ≡ some a
    → heartbeat cfg now id agent dto ip db ≡ (ok reply, t)
    → (a.user_id ≡ agent.user_id)
      × (reply.account_id ≡ a.id)
      × (t.accounts ≡ update_many (is_account_of dto) (renewed_account now agent dto) db.accounts)
unfolding heartbeat renewed_account
accepted_known cfg now id agent dto ip db t reply a found h =
    elim (Bool-cases (off_boundary dto.server_utc_offset)) [
      | inl off ↦ absurd (ground arith)
      | inr fine ↦ elim (Bool-cases (a.user_id == agent.user_id)) [
        | inl own ↦ (ground arith, ground arith, ground arith)
        | inr other ↦ absurd (ground arith)
      ]
    ]

new_found :
    (now id : ℕ) (agent : Agent) (dto : HeartbeatDto) (db : Db)
    → find_first (is_account_of dto) (new_account now id agent dto ∷ db.accounts)
      ≡ some (new_account now id agent dto)
unfolding find_first new_account
new_found now id agent dto db = ground (arith, ==_refl dto.login, ==_refl dto.server)

known_found :
    (now : ℕ) (agent : Agent) (dto : HeartbeatDto) (db : Db) (a : TradingAccount)
    → find_first (is_account_of dto) db.accounts ≡ some a
    → find_first
        (is_account_of dto)
        (update_many (is_account_of dto) (renewed_account now agent dto) db.accounts)
      ≡ some (renewed_account now agent dto a)
unfolding renewed_account
known_found now agent dto db a found =
    find_first-update (is_account_of dto) (is_account_of dto) (renewed_account now agent dto)
      db.accounts (λ b. refl) found
    ∙ rw (find_first-passes (is_account_of dto) db.accounts found) refl

-- A heartbeat that is accepted connects the account of its login and server to the agent: the
-- answer names that account, which belongs to the agent's user, also where it was known before, and
-- carries what the heartbeat says of trading.
pub heartbeat-IsConnected :
    (cfg : Config) (now id : ℕ) (agent : Agent) (dto : HeartbeatDto) (ip : Option String)
    (db t : Db) (reply : HeartbeatReply)
    → heartbeat cfg now id agent dto ip db ≡ (ok reply, t)
    → IsConnected agent dto t reply.account_id
unfolding new_account renewed_account
heartbeat-IsConnected cfg now id agent dto ip db t reply h =
    elim (Option-cases (find_first (is_account_of dto) db.accounts)) [
      | inl missing ↦
          let (named, rows) = accepted_new cfg now id agent dto ip db t reply missing h in
          record {
            account = new_account now id agent dto;
            found = rw rows (new_found now id agent dto db);
            named = sym named;
            owner = refl;
            holder = refl;
            trades = refl;
          }
      | inr (a, found) ↦
          let (own, named, rows) = accepted_known cfg now id agent dto ip db t reply a found h in
          record {
            account = renewed_account now agent dto a;
            found = rw rows (known_found now agent dto db a found);
            named = sym named;
            owner = own;
            holder = refl;
            trades = refl;
          }
    ]
