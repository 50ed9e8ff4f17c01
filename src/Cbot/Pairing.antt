-- ===== src/Cbot/Pairing.antt =====
-- Pairing, authentication and heartbeats of src/cbot/cbot.service.ts. As for the terminals, the
-- checks before a claim's transaction and the transaction are two functions; `hash` is
-- `hashSecret` with the server's pepper.
use ctreader.Prelude.{
  ℕ, ◌+◌, ◌*◌, String, Bool, true, false, ◌&&◌, ◌||◌, not, Option, none, some, List, ◌∷◌, ◌==◌, ltb,
  leb, is_some, newer, or_else, if◌then◌else◌, Exec, not_found, conflict, bad_request, pure, gets,
  modify, require, throw_if, skip, transaction, ◌>>=◌, ◌>>◌, find_first, update_many, count,
}
use ctreader.Config.{Config}
use ctreader.Schema.{
  Db, PairingCode, CbotInstance, CbotInstanceStatus, CtraderAccountEnvironment, demo, live, online,
  revoked,
}
use ctreader.Crypto.{create_pairing_code, to_upper_case}
use ctreader.Subscriptions.{assert_can_pair_account}

-- src/cbot/dto/claim-cbot-pairing.dto.ts, the account's digits read.
pub record ClaimCbotPairingDto : Type 0 where
  pub code : List ℕ
  pub instance_key : ℕ
  pub account_number : ℕ
  pub broker : ℕ
  pub environment : CtraderAccountEnvironment
  pub symbol : Option String
  pub version : Option String

-- src/cbot/dto/cbot-heartbeat.dto.ts.
pub record CbotHeartbeatDto : Type 0 where
  pub account_number : ℕ
  pub broker : ℕ
  pub environment : CtraderAccountEnvironment
  pub symbol : Option String
  pub version : Option String

pub record CbotClaimReply : Type 0 where
  pub instance_id : ℕ
  pub token : ℕ

abbrev pub same_environment : CtraderAccountEnvironment → CtraderAccountEnvironment → Bool
same_environment demo demo = true
same_environment live live = true
same_environment _ _ = false

abbrev pub is_revoked_instance : CbotInstanceStatus → Bool
is_revoked_instance revoked = true
is_revoked_instance _ = false

-- The unique key (broker, accountNumber, environment).
abbrev pub is_account : ClaimCbotPairingDto → CbotInstance → Bool
is_account dto c =
    c.broker == dto.broker
    && c.account_number == dto.account_number
    && same_environment c.environment dto.environment

abbrev pub is_claimable_code : ℕ → ℕ → PairingCode → Bool
is_claimable_code now id row =
    row.id == id && not (is_some row.claimed_at) && ltb now row.expires_at

unfoldable pub mark_claimed_code : ℕ → PairingCode → PairingCode
mark_claimed_code now row = record row { claimed_at = some now }

abbrev pub is_of_other : ℕ → Option CbotInstance → Bool
is_of_other user_id none = false
is_of_other user_id (some c) = not (c.user_id == user_id)

-- `!existingAccount || existingAccount.status === "REVOKED"`.
abbrev pub needs_room : Option CbotInstance → Bool
needs_room none = true
needs_room (some c) = is_revoked_instance c.status

module _ (hash : List ℕ → ℕ) where
  unfoldable pub create_cbot_code : Config → ℕ → ℕ → ℕ → List ℕ → Exec Db (List ℕ × ℕ)
  create_cbot_code cfg now id user_id bytes = do
    let code = create_pairing_code bytes
    let expires_at = now + cfg.pairing_code_ttl_seconds * 1000
    modify λ db. record db {
      cbot_pairing_codes =
          record {
            id = id;
            user_id = user_id;
            code_hash = hash code;
            expires_at = expires_at;
            claimed_at = none;
          }
          ∷ db.cbot_pairing_codes;
    }
    pure (code, expires_at)

  -- `claim` up to its transaction. The plan's room is asked for only where the account would be a
  -- new one or had been revoked.
  unfoldable pub check_cbot_claim : Config → ℕ → ClaimCbotPairingDto → Exec Db PairingCode
  check_cbot_claim cfg now dto = do
    found ← gets λ db.
        find_first (λ (c : PairingCode). c.code_hash == hash (to_upper_case dto.code))
          db.cbot_pairing_codes
    pairing ← require (not_found "cBot pairing code not found") found
    throw_if (is_some pairing.claimed_at) (conflict "cBot pairing code already used")
    throw_if (leb pairing.expires_at now) (bad_request "cBot pairing code expired")
    existing ← gets λ db. find_first (is_account dto) db.cbots
    throw_if (is_of_other pairing.user_id existing)
        (conflict "This cTrader account is already paired with another user")
    if needs_room existing
        then assert_can_pair_account cfg now pairing.user_id dto.environment
        else skip
    pure pairing

unfoldable pub new_instance :
    ℕ → ℕ → ℕ → PairingCode → ClaimCbotPairingDto → Option String → CbotInstance
new_instance now id token_hash pairing dto ip = record {
  id = id;
  user_id = pairing.user_id;
  instance_key = dto.instance_key;
  token_hash = token_hash;
  account_number = dto.account_number;
  broker = dto.broker;
  environment = dto.environment;
  symbol = or_else dto.symbol "XAUUSD";
  version = dto.version;
  status = online;
  last_ip = ip;
  last_seen_at = some now;
}

unfoldable pub renewed_instance :
    ℕ → ℕ → ClaimCbotPairingDto → Option String → CbotInstance → CbotInstance
renewed_instance now token_hash dto ip c = record c {
  instance_key = dto.instance_key;
  token_hash = token_hash;
  symbol = or_else dto.symbol "XAUUSD";
  version = newer dto.version c.version;
  status = online;
  last_ip = newer ip c.last_ip;
  last_seen_at = some now;
}

-- The upsert by the account.
unfoldable pub upsert_instance :
    ℕ → ℕ → ℕ → PairingCode → ClaimCbotPairingDto → Option String → Exec Db CbotInstance
unfolding new_instance renewed_instance
upsert_instance now id token_hash pairing dto ip = do
  existing ← gets λ db. find_first (is_account dto) db.cbots
  elim existing [
    | none ↦ (do
      modify λ db. record db { cbots = new_instance now id token_hash pairing dto ip ∷ db.cbots }
      pure (new_instance now id token_hash pairing dto ip))
    | some c ↦ (do
      modify λ db. record db {
        cbots = update_many (is_account dto) (renewed_instance now token_hash dto ip) db.cbots;
      }
      pure (renewed_instance now token_hash dto ip c))
  ]

-- The transaction of `claim`.
unfoldable pub commit_cbot_claim :
    ℕ → ℕ → ℕ → PairingCode → ClaimCbotPairingDto → Option String → Exec Db CbotInstance
unfolding mark_claimed_code upsert_instance
commit_cbot_claim now id token_hash pairing dto ip = transaction (do
  claimed ← gets λ db. count (is_claimable_code now pairing.id) db.cbot_pairing_codes
  modify λ db. record db {
    cbot_pairing_codes =
        update_many (is_claimable_code now pairing.id) (mark_claimed_code now)
          db.cbot_pairing_codes;
  }
  throw_if (not (claimed == 1)) (conflict "cBot pairing code cannot be claimed")
  upsert_instance now id token_hash pairing dto ip)

unfoldable pub claim_cbot :
    (List ℕ → ℕ)
    → (ℕ → ℕ)
    → Config
    → ℕ
    → ℕ
    → ℕ
    → ℕ
    → ClaimCbotPairingDto
    → Option String
    → Exec Db CbotClaimReply
unfolding check_cbot_claim commit_cbot_claim
claim_cbot hash hash_token cfg now later id token dto ip = do
  pairing ← check_cbot_claim hash cfg now dto
  c ← commit_cbot_claim later id (hash_token token) pairing dto ip
  pure (record { instance_id = c.id; token = token })

-- `authenticateToken`. The length of the token's text is `size`.
unfoldable pub authenticate_token : (ℕ → ℕ) → ℕ → ℕ → Exec Db CbotInstance
authenticate_token hash_token size token = do
  throw_if (size == 0 || ltb 256 size) (bad_request "Invalid cBot token")
  found ← gets λ db. find_first (λ (c : CbotInstance). c.token_hash == hash_token token) db.cbots
  c ← require (bad_request "Invalid or revoked cBot token") found
  throw_if (is_revoked_instance c.status) (bad_request "Invalid or revoked cBot token")
  pure c

unfoldable pub seen_instance : ℕ → CbotHeartbeatDto → Option String → CbotInstance → CbotInstance
seen_instance now dto ip c = record c {
  status = online;
  last_seen_at = some now;
  last_ip = newer ip c.last_ip;
  symbol = or_else dto.symbol c.symbol;
  version = newer dto.version c.version;
}

unfoldable pub heartbeat : ℕ → ℕ → CbotHeartbeatDto → Option String → Exec Db CbotInstance
unfolding seen_instance
heartbeat now instance_id dto ip = do
  found ← gets λ db. find_first (λ (c : CbotInstance). c.id == instance_id) db.cbots
  c ← require (not_found "cBot instance not found") found
  throw_if
      (not (
        c.account_number == dto.account_number
        && c.broker == dto.broker
        && same_environment c.environment dto.environment))
      (conflict "Active cTrader account does not match the paired cBot account")
  modify λ db. record db {
    cbots =
        update_many (λ (c : CbotInstance). c.id == instance_id) (seen_instance now dto ip) db.cbots;
  }
  pure (seen_instance now dto ip c)
