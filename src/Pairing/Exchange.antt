-- ===== src/Pairing/Exchange.antt =====
-- The way of a pairing code from the user to the terminal, and who owns the device after it.
use ctreader.Prelude.{
  ℕ, ◌+◌, ◌*◌, ◌<◌, ◌≡◌, refl, sym, ap, ◌∙◌, String, inl, inr, true, false, Option, none, some,
  List, ◌∷◌, arith, ok, ◌==◌, ==_refl, length, find_first, count, update_many, count-le,
  Option-cases, Bool-cases, Result, find_first-update, find_first-passes,
}
use ctreader.Config.{Config}
use ctreader.Schema.{Db, Agent, PairingCode}
use ctreader.Crypto.{create_pairing_code, create_pairing_code-valid, to_upper_case, is_pairing_code}
use ctreader.Pairing.{
  ClaimPairingDto, create, check_claim, commit_claim, claim, is_claimable, of_device, is_other_user,
  mark_claimed, new_agent, renewed_agent, upsert_agent,
}

ok-inj : {a b : Agent} → ◌≡◌ {A = Result Agent} (ok a) (ok b) → a ≡ b
ok-inj h = ground arith

-- The upsert answers with the row that stands for the device afterwards. A device that is known
-- keeps its id and its owner; a new one belongs to the user of the code.
upsert_found :
    (now id token_hash : ℕ) (pairing : PairingCode) (dto : ClaimPairingDto) (ip : Option String)
    (db : Db) (known : Agent)
    → find_first (of_device dto.device_id) db.agents ≡ some known
    → (upsert_agent now id token_hash pairing dto ip db).0
      ≡ ok (renewed_agent now token_hash dto ip known)
unfolding upsert_agent
upsert_found now id token_hash pairing dto ip db known found = rw found refl

upsert_new :
    (now id token_hash : ℕ) (pairing : PairingCode) (dto : ClaimPairingDto) (ip : Option String)
    (db : Db)
    → find_first (of_device dto.device_id) db.agents ≡ none
    → (upsert_agent now id token_hash pairing dto ip db).0
      ≡ ok (new_agent now id token_hash pairing dto ip)
unfolding upsert_agent
upsert_new now id token_hash pairing dto ip db missing = rw missing refl

commit_answer :
    (now id token_hash : ℕ) (pairing : PairingCode) (dto : ClaimPairingDto) (ip : Option String)
    (db t : Db) (agent : Agent)
    → commit_claim now id token_hash pairing dto ip db ≡ (ok agent, t)
    → let marked = record db {
      pairing_codes = update_many (is_claimable now pairing.id) (mark_claimed now) db.pairing_codes;
    } in
      upsert_agent now id token_hash pairing dto ip marked ≡ (ok agent, t)
unfolding commit_claim
commit_answer now id token_hash pairing dto ip db t agent h =
    elim (Bool-cases (count (is_claimable now pairing.id) db.pairing_codes == 1)) [
      | inl one ↦ ground arith
      | inr other ↦ absurd (ground arith)
    ]

-- The row of the device after the upsert is the answer.
upsert_stored :
    (now id token_hash : ℕ) (pairing : PairingCode) (dto : ClaimPairingDto) (ip : Option String)
    (db t : Db) (agent : Agent)
    → upsert_agent now id token_hash pairing dto ip db ≡ (ok agent, t)
    → find_first (of_device dto.device_id) t.agents ≡ some agent
unfolding upsert_agent new_agent renewed_agent
upsert_stored now id token_hash pairing dto ip db t agent h =
    elim (Option-cases (find_first (of_device dto.device_id) db.agents)) [
      | inl missing ↦
          let new = rw missing at h in
          let same : t.agents ≡ new_agent now id token_hash pairing dto ip ∷ db.agents =
            sym (ap (λ r. r.1.agents) new) in
          let it : agent ≡ new_agent now id token_hash pairing dto ip =
            ok-inj (sym (ap (λ r. r.0) new)) in
          rw (same, it) (unfold find_first new_agent in rw (==_refl dto.device_id) refl)
      | inr (known, found) ↦
          let renewed = rw found at h in
          let rows : t.agents
              ≡ update_many (of_device dto.device_id) (renewed_agent now token_hash dto ip)
                  db.agents =
            sym (ap (λ r. r.1.agents) renewed) in
          let it : agent ≡ renewed_agent now token_hash dto ip known =
            ok-inj (sym (ap (λ r. r.0) renewed)) in
          rw (rows, it)
            (find_first-update (of_device dto.device_id) (of_device dto.device_id)
                (renewed_agent now token_hash dto ip) db.agents (λ b. refl) found
              ∙ rw (find_first-passes (of_device dto.device_id) db.agents found) refl)
    ]

-- A transaction of a claim that returns leaves its new token's hash in the row of the device. If the
-- device was known, the row keeps its id and its owner, also where that owner is not the user of
-- the code; else it is a new row of the user of the code.
pub commit_claim-agent :
    (now id token_hash : ℕ) (pairing : PairingCode) (dto : ClaimPairingDto) (ip : Option String)
    (db t : Db) (agent : Agent)
    → commit_claim now id token_hash pairing dto ip db ≡ (ok agent, t)
    → (find_first (of_device dto.device_id) t.agents ≡ some agent)
      × (agent.token_hash ≡ token_hash)
      × ((known : Agent)
          → find_first (of_device dto.device_id) db.agents ≡ some known
          → (agent.id ≡ known.id) × (agent.user_id ≡ known.user_id))
      × (find_first (of_device dto.device_id) db.agents ≡ none
          → (agent.id ≡ id) × (agent.user_id ≡ pairing.user_id))
unfolding new_agent renewed_agent
commit_claim-agent now id token_hash pairing dto ip db t agent h =
    let marked = record db {
      pairing_codes = update_many (is_claimable now pairing.id) (mark_claimed now) db.pairing_codes;
    } in
    let committed = commit_answer now id token_hash pairing dto ip db t agent h in
    let answer = ap (λ r. r.0) committed in
    (
      upsert_stored now id token_hash pairing dto ip marked t agent committed,
      elim (Option-cases (find_first (of_device dto.device_id) db.agents)) [
        | inl missing ↦ ground (arith, upsert_new now id token_hash pairing dto ip marked missing)
        | inr (known, found) ↦
            ground (arith, upsert_found now id token_hash pairing dto ip marked known found)
      ],
      λ known found.
          let e = upsert_found now id token_hash pairing dto ip marked known found in
          (ground arith, ground arith),
      λ missing.
          let e = upsert_new now id token_hash pairing dto ip marked missing in
          (ground arith, ground arith),
    )

module _ (hash : List ℕ → ℕ) where
  created_row :
      (cfg : Config) (now id user_id : ℕ) (bytes : List ℕ) (db : Db)
      → (create hash cfg now id user_id bytes db).1 ≡ record db {
        pairing_codes =
            record {
              id = id;
              user_id = user_id;
              code_hash = hash (create_pairing_code bytes);
              expires_at = now + cfg.pairing_code_ttl_seconds * 1000;
              claimed_at = none;
            }
            ∷ db.pairing_codes;
      }
  unfolding create
  created_row cfg now id user_id bytes db = refl

  check_created :
      (later : ℕ) (dto : ClaimPairingDto) (row : PairingCode) (rows : List PairingCode) (db : Db)
      → row.code_hash ≡ hash (to_upper_case dto.code)
      → row.claimed_at ≡ none
      → later < row.expires_at
      → is_other_user row.user_id (find_first (of_device dto.device_id) db.agents) ≡ false
      → check_claim hash later dto (record db { pairing_codes = row ∷ rows })
        ≡ (ok row, record db { pairing_codes = row ∷ rows })
  unfolding check_claim find_first
  check_created later dto row rows db same unclaimed early own =
      ground (arith, ==_refl (hash (to_upper_case dto.code)))

claimable_once :
    (later id : ℕ) (row : PairingCode) (rows : List PairingCode)
    → row.claimed_at ≡ none
    → later < row.expires_at
    → count (λ (r : PairingCode). r.id == row.id) rows ≡ 0
    → count (is_claimable later row.id) (row ∷ rows) ≡ 1
unfolding count
claimable_once later id row rows unclaimed early fresh = ground (
  arith,
  ==_refl row.id,
  count-le (is_claimable later row.id) (λ (r : PairingCode). r.id == row.id) rows
      (λ r h. ground arith),
)

commit_returns :
    (now id token_hash : ℕ) (pairing : PairingCode) (dto : ClaimPairingDto) (ip : Option String)
    (db : Db)
    → count (is_claimable now pairing.id) db.pairing_codes ≡ 1
    → (agent : Agent) × ((commit_claim now id token_hash pairing dto ip db).0 ≡ ok agent)
unfolding commit_claim
commit_returns now id token_hash pairing dto ip db one =
    let marked = record db {
      pairing_codes = update_many (is_claimable now pairing.id) (mark_claimed now) db.pairing_codes;
    } in
    elim (Option-cases (find_first (of_device dto.device_id) db.agents)) [
      | inl missing ↦ (
        new_agent now id token_hash pairing dto ip,
        ground (arith, upsert_new now id token_hash pairing dto ip marked missing),
      )
      | inr (known, found) ↦ (
        renewed_agent now token_hash dto ip known,
        ground (arith, upsert_found now id token_hash pairing dto ip marked known found),
      )
    ]

claim_returns :
    (hash : List ℕ → ℕ) (hash_token : ℕ → ℕ) (later id token : ℕ) (dto : ClaimPairingDto)
    (ip : Option String) (db : Db) (row : PairingCode) (agent : Agent)
    → check_claim hash later dto db ≡ (ok row, db)
    → (commit_claim later id (hash_token token) row dto ip db).0 ≡ ok agent
    → (claim hash hash_token later id token dto ip db).0
      ≡ ok (record { agent_id = agent.id; token = token })
unfolding claim
claim_returns hash hash_token later id token dto ip db row agent checked committed = ground arith

-- The round trip of a code, whatever the hash function is: a code that a user creates is one that
-- the claims' validation lets through, and a claim of it before its end, by a device that is new
-- or the user's own, succeeds.
pub create_then_claim :
    (hash : List ℕ → ℕ) (hash_token : ℕ → ℕ) (cfg : Config) (now id user_id : ℕ) (bytes : List ℕ)
    (later agent_id token : ℕ) (dto : ClaimPairingDto) (ip : Option String) (db : Db)
    → length bytes ≡ 8
    → dto.code ≡ create_pairing_code bytes
    → count (λ (r : PairingCode). r.id == id) db.pairing_codes ≡ 0
    → later < now + cfg.pairing_code_ttl_seconds * 1000
    → is_other_user user_id (find_first (of_device dto.device_id) db.agents) ≡ false
    → (is_pairing_code dto.code ≡ true)
      × ((known : ℕ) × ((claim hash hash_token later agent_id token dto ip
              (create hash cfg now id user_id bytes db).1).0
            ≡ ok (record { agent_id = known; token = token })))
create_then_claim hash hash_token cfg now id user_id bytes later agent_id token dto ip db eight same
      fresh early own =
    let (valid, upper) = create_pairing_code-valid bytes eight in
    let row : PairingCode = record {
      id = id;
      user_id = user_id;
      code_hash = hash (create_pairing_code bytes);
      expires_at = now + cfg.pairing_code_ttl_seconds * 1000;
      claimed_at = none;
    } in
    let after = record db { pairing_codes = row ∷ db.pairing_codes } in
    let checked =
      check_created hash later dto row db.pairing_codes db
        (ap hash (sym (ap to_upper_case same ∙ upper))) refl early own in
    let (agent, committed) =
      commit_returns later agent_id (hash_token token) row dto ip after
        (claimable_once later id row db.pairing_codes refl early fresh) in
    (
      ap is_pairing_code same ∙ valid,
      (
        agent.id,
        rw (created_row hash cfg now id user_id bytes db) (
            claim_returns hash hash_token later agent_id token dto ip after row agent checked
              committed),
      ),
    )
