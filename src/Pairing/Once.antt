-- ===== src/Pairing/Once.antt =====
-- A pairing code is claimed at most once, and a claim leaves each device with its owner.
use ctreader.Prelude.{
  ℕ, ◌≤◌, ◌≡◌, ◌∙◌, String, inl, inr, Option, List, arith, ok, err, conflict, ◌==◌, count,
  update_many, count-update_covers, Bool-cases,
}
use ctreader.Schema.{Db, Agent, PairingCode}
use ctreader.Pairing.{ClaimPairingDto, commit_claim, is_claimable, mark_claimed, upsert_agent}

claimed_stays :
    (now later id : ℕ) (rows : List PairingCode)
    → now ≤ later
    → count (is_claimable later id) (update_many (is_claimable now id) (mark_claimed now) rows) ≡ 0
unfolding mark_claimed
claimed_stays now later id rows le =
    count-update_covers (is_claimable now id) (is_claimable later id) (mark_claimed now) rows
      (λ row h. ground arith) (λ row. ground arith)

upsert_keeps :
    (now id token_hash : ℕ) (pairing : PairingCode) (dto : ClaimPairingDto) (ip : Option String)
    (db : Db)
    → (upsert_agent now id token_hash pairing dto ip db).1.pairing_codes ≡ db.pairing_codes
unfolding upsert_agent
upsert_keeps now id token_hash pairing dto ip db = ground arith

commit_codes :
    (now id token_hash : ℕ) (pairing : PairingCode) (dto : ClaimPairingDto) (ip : Option String)
    (db t : Db) (agent : Agent)
    → commit_claim now id token_hash pairing dto ip db ≡ (ok agent, t)
    → t.pairing_codes
      ≡ update_many (is_claimable now pairing.id) (mark_claimed now) db.pairing_codes
unfolding commit_claim
commit_codes now id token_hash pairing dto ip db t agent h =
    elim (Bool-cases (count (is_claimable now pairing.id) db.pairing_codes == 1)) [
      | inl one ↦ ground (
        arith,
        upsert_keeps now id token_hash pairing dto ip (record db {
          pairing_codes =
              update_many (is_claimable now pairing.id) (mark_claimed now) db.pairing_codes;
        }),
      )
      | inr other ↦ absurd (ground arith)
    ]

commit_refused :
    (now id token_hash : ℕ) (pairing : PairingCode) (dto : ClaimPairingDto) (ip : Option String)
    (db : Db)
    → count (is_claimable now pairing.id) db.pairing_codes ≡ 0
    → commit_claim now id token_hash pairing dto ip db
      ≡ (err (conflict "Pairing code cannot be claimed"), db)
unfolding commit_claim
commit_refused now id token_hash pairing dto ip db none_left = ground arith

-- However the claims of one code interleave: when the transaction of one of them has returned,
-- every later transaction for the same code throws and changes nothing, whatever it had checked
-- before, on any database with the same table of codes.
pub claim_once :
    (now id token_hash : ℕ) (pairing : PairingCode) (dto : ClaimPairingDto) (ip : Option String)
    (db t : Db) (agent : Agent) (later other other_hash : ℕ) (rival : PairingCode)
    (rival_dto : ClaimPairingDto) (rival_ip : Option String) (u : Db)
    → commit_claim now id token_hash pairing dto ip db ≡ (ok agent, t)
    → now ≤ later
    → rival.id ≡ pairing.id
    → u.pairing_codes ≡ t.pairing_codes
    → commit_claim later other other_hash rival rival_dto rival_ip u
      ≡ (err (conflict "Pairing code cannot be claimed"), u)
claim_once now id token_hash pairing dto ip db t agent later other other_hash rival rival_dto
      rival_ip u h le same codes =
    let table = codes ∙ commit_codes now id token_hash pairing dto ip db t agent h in
    commit_refused later other other_hash rival rival_dto rival_ip u
      (rw (same, table) (claimed_stays now later pairing.id db.pairing_codes le))
