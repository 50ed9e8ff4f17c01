-- ===== src/Tests/PairingRuns.antt =====
-- A pairing code of the sample user, from its creation to its claims.
use ctreader.Prelude.{
  ◌≡◌, refl, true, false, none, some, arith, ok, err, conflict, count, find_first, update_many,
  List, ℕ, ◌+◌, [], ◌∷◌, ◌==◌, length,
}
use ctreader.Schema.{Db, Agent, PairingCode}
use ctreader.Crypto.{create_pairing_code, create_pairing_code-valid, is_pairing_code, to_upper_case}
use ctreader.Pairing.{
  ClaimPairingDto, create, claim, commit_claim, of_device, is_other_user, new_agent, renewed_agent,
}
use ctreader.Pairing.Once.{claim_once}
use ctreader.Pairing.Exchange.{create_then_claim, commit_claim-agent}
use ctreader.Tests.Data.{db, cfg, agent}

abbrev hash : List ℕ → ℕ
hash text = length text

abbrev bytes : List ℕ
bytes = 0 ∷ 1 ∷ 2 ∷ 3 ∷ 4 ∷ 33 ∷ 255 ∷ 7 ∷ []

abbrev dto : ClaimPairingDto
dto = record {
  code = create_pairing_code bytes;
  device_id = 51;
  name = "Terminal";
  version = none;
  terminal_build = none;
}

fresh : count (λ (r : PairingCode). r.id == 70) db.pairing_codes ≡ 0
unfolding count
fresh = refl

own : is_other_user 1 (find_first (of_device 51) db.agents) ≡ false
unfolding find_first
own = refl

create_pairing_code-valid_example :
    (is_pairing_code (create_pairing_code bytes) ≡ true)
    × (to_upper_case (create_pairing_code bytes) ≡ create_pairing_code bytes)
create_pairing_code-valid_example = create_pairing_code-valid bytes refl

create_then_claim_example :
    (is_pairing_code dto.code ≡ true)
    × ((known : ℕ) × ((claim hash
            (λ t. t + 1)
            2000
            90
            4
            dto
            none
            (create hash cfg 1000 70 1 bytes db).1).0
          ≡ ok (record { agent_id = known; token = 4 })))
create_then_claim_example =
    create_then_claim hash (λ t. t + 1) cfg 1000 70 1 bytes 2000 90 4 dto none db refl refl fresh
      (ground arith) own

abbrev row : PairingCode
row = record { id = 70; user_id = 1; code_hash = 8; expires_at = 600000; claimed_at = none }

abbrev with_code : Db
with_code = record db { pairing_codes = row ∷ [] }

abbrev claimed : Db
claimed = (commit_claim 2000 90 5 row dto none with_code).1

commits :
    commit_claim 2000 90 5 row dto none with_code ≡ (ok (new_agent 2000 90 5 row dto none), claimed)
unfolding commit_claim find_first count update_many new_agent
commits = refl

claim_once_example :
    commit_claim 2001 91 6 row dto none claimed
    ≡ (err (conflict "Pairing code cannot be claimed"), claimed)
claim_once_example =
    claim_once 2000 90 5 row dto none with_code claimed (new_agent 2000 90 5 row dto none) 2001 91 6
      row dto none claimed commits (ground arith) refl refl

-- The device got known, as another user's, after the claim's checks.
abbrev stranger : Agent
stranger = record agent { user_id = 2; device_id = 51 }

abbrev with_stranger : Db
with_stranger = record with_code { agents = stranger ∷ [] }

abbrev taken : Agent
taken = renewed_agent 2000 5 dto none stranger

takes :
    commit_claim 2000 90 5 row dto none with_stranger
    ≡ (ok taken, (commit_claim 2000 90 5 row dto none with_stranger).1)
unfolding commit_claim find_first count update_many renewed_agent
takes = refl

commit_claim-agent_example :
    (find_first (of_device 51) (commit_claim 2000 90 5 row dto none with_stranger).1.agents
      ≡ some taken)
    × (taken.token_hash ≡ 5)
    × ((known : Agent)
        → find_first (of_device 51) with_stranger.agents ≡ some known
        → (taken.id ≡ known.id) × (taken.user_id ≡ known.user_id))
    × (find_first (of_device 51) with_stranger.agents ≡ none
        → (taken.id ≡ 90) × (taken.user_id ≡ 1))
commit_claim-agent_example =
    commit_claim-agent 2000 90 5 row dto none with_stranger
      (commit_claim 2000 90 5 row dto none with_stranger).1 taken takes
