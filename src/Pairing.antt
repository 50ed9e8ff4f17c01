-- ===== src/Pairing.antt =====
-- src/pairing/pairing.service.ts: a user makes a pairing code, and an MT5 terminal claims it. The
-- checks before the claim's transaction and the transaction are two functions, since the claims of
-- several terminals may interleave between them. Clock, ids, random bytes and tokens are
-- arguments; `hash` is `hashSecret` with the server's pepper.
pub mod Once
pub mod Exchange
use ctreader.Prelude.{
  ℕ, ◌+◌, ◌*◌, String, Bool, true, false, ◌&&◌, not, Option, none, some, List, [], ◌∷◌, ◌==◌, ltb,
  leb, is_some, newer, Exec, not_found, conflict, bad_request, pure, gets, modify, require,
  throw_if, run_checks, transaction, ◌>>=◌, ◌>>◌, find_first, update_many, count,
}
use ctreader.Config.{Config}
use ctreader.Schema.{Db, Agent, PairingCode, online, east}
use ctreader.Crypto.{create_pairing_code, to_upper_case}

-- src/pairing/dto/claim-pairing.dto.ts.
pub record ClaimPairingDto : Type 0 where
  pub code : List ℕ
  pub device_id : ℕ
  pub name : String
  pub version : Option String
  pub terminal_build : Option ℕ

pub record ClaimReply : Type 0 where
  pub agent_id : ℕ
  pub token : ℕ

abbrev pub of_device : ℕ → Agent → Bool
of_device device_id agent = agent.device_id == device_id

-- `{ id, claimedAt: null, expiresAt: { gt: now } }`.
abbrev pub is_claimable : ℕ → ℕ → PairingCode → Bool
is_claimable now id row = row.id == id && not (is_some row.claimed_at) && ltb now row.expires_at

unfoldable pub mark_claimed : ℕ → PairingCode → PairingCode
mark_claimed now row = record row { claimed_at = some now }

abbrev pub is_other_user : ℕ → Option Agent → Bool
is_other_user user_id none = false
is_other_user user_id (some agent) = not (agent.user_id == user_id)

module _ (hash : List ℕ → ℕ) where
  -- `create`, with the bytes of `randomBytes(8)`.
  unfoldable pub create : Config → ℕ → ℕ → ℕ → List ℕ → Exec Db (List ℕ × ℕ)
  create cfg now id user_id bytes = do
    let code = create_pairing_code bytes
    let expires_at = now + cfg.pairing_code_ttl_seconds * 1000
    modify λ db. record db {
      pairing_codes =
          record {
            id = id;
            user_id = user_id;
            code_hash = hash code;
            expires_at = expires_at;
            claimed_at = none;
          }
          ∷ db.pairing_codes;
    }
    pure (code, expires_at)

  -- `claim` up to its transaction.
  unfoldable pub check_claim : ℕ → ClaimPairingDto → Exec Db PairingCode
  check_claim now dto = do
    found ← gets λ db.
        find_first (λ (c : PairingCode). c.code_hash == hash (to_upper_case dto.code))
          db.pairing_codes
    pairing ← require (not_found "Pairing code not found") found
    throw_if (is_some pairing.claimed_at) (conflict "Pairing code already used")
    throw_if (leb pairing.expires_at now) (bad_request "Pairing code expired")
    existing ← gets λ db. find_first (of_device dto.device_id) db.agents
    throw_if (is_other_user pairing.user_id existing)
        (conflict "Device is already paired with another user")
    pure pairing

unfoldable pub new_agent : ℕ → ℕ → ℕ → PairingCode → ClaimPairingDto → Option String → Agent
new_agent now id token_hash pairing dto ip = record {
  id = id;
  user_id = pairing.user_id;
  device_id = dto.device_id;
  token_hash = token_hash;
  status = online;
  name = dto.name;
  version = dto.version;
  terminal_build = dto.terminal_build;
  server_utc_offset = east 0;
  last_ip = ip;
  last_seen_at = some now;
}

unfoldable pub renewed_agent : ℕ → ℕ → ClaimPairingDto → Option String → Agent → Agent
renewed_agent now token_hash dto ip agent = record agent {
  name = dto.name;
  token_hash = token_hash;
  status = online;
  version = newer dto.version agent.version;
  terminal_build = newer dto.terminal_build agent.terminal_build;
  last_ip = newer ip agent.last_ip;
  last_seen_at = some now;
}

-- The upsert by the device.
unfoldable pub upsert_agent :
    ℕ → ℕ → ℕ → PairingCode → ClaimPairingDto → Option String → Exec Db Agent
unfolding new_agent renewed_agent
upsert_agent now id token_hash pairing dto ip = do
  existing ← gets λ db. find_first (of_device dto.device_id) db.agents
  elim existing [
    | none ↦ (do
      modify λ db. record db { agents = new_agent now id token_hash pairing dto ip ∷ db.agents }
      pure (new_agent now id token_hash pairing dto ip))
    | some agent ↦ (do
      modify λ db. record db {
        agents =
            update_many (of_device dto.device_id) (renewed_agent now token_hash dto ip) db.agents;
      }
      pure (renewed_agent now token_hash dto ip agent))
  ]

-- The transaction of `claim`.
unfoldable pub commit_claim :
    ℕ → ℕ → ℕ → PairingCode → ClaimPairingDto → Option String → Exec Db Agent
unfolding mark_claimed upsert_agent
commit_claim now id token_hash pairing dto ip = transaction (do
  claimed ← gets λ db. count (is_claimable now pairing.id) db.pairing_codes
  modify λ db. record db {
    pairing_codes = update_many (is_claimable now pairing.id) (mark_claimed now) db.pairing_codes;
  }
  throw_if (not (claimed == 1)) (conflict "Pairing code cannot be claimed")
  upsert_agent now id token_hash pairing dto ip)

-- `claim`: the token's text is known to the caller only; its hash is stored.
unfoldable pub claim :
    (List ℕ → ℕ) → (ℕ → ℕ) → ℕ → ℕ → ℕ → ClaimPairingDto → Option String → Exec Db (ClaimReply)
unfolding check_claim commit_claim
claim hash hash_token now id token dto ip = do
  pairing ← check_claim hash now dto
  agent ← commit_claim now id (hash_token token) pairing dto ip
  pure (record { agent_id = agent.id; token = token })
