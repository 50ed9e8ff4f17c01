-- ===== src/Cbot/Claims.antt =====
-- What stands behind a claim of a cBot's pairing code.
use ctreader.Prelude.{
  ℕ, ◌<◌, ◌≡◌, sym, String, inl, inr, Bool, true, false, Option, none, some, List, arith, ok, ◌==◌,
  count, find_first, Option-cases, Bool-cases, >>=-split, outcome, ◌∙◌, is_some, leb, ap,
}
use ctreader.Config.{Config}
use ctreader.Schema.{
  Db, PairingCode, Subscription, Entitlement, CtraderAccountEnvironment, demo, live,
}
use ctreader.Crypto.{to_upper_case}
use ctreader.Subscriptions.{
  assert_can_pair_account, check_accounts, connected, current_for_user, open_entitlement,
}
use ctreader.Subscriptions.Queries.{current_for_user_keeps, current_for_user_returns}
use ctreader.Cbot.Pairing.{
  ClaimCbotPairingDto, CbotClaimReply, is_account, needs_room, check_cbot_claim, claim_cbot,
}

-- The plan has room for one more account of the user.
pub record HasRoom (now user_id : ℕ) (environment : CtraderAccountEnvironment) (db : Db)
    : Type 0 where
  pub subscription : Option Subscription
  pub entitlement : Entitlement
  pub current : (current_for_user now user_id db).0 ≡ ok subscription
  pub gives_access : open_entitlement subscription ≡ some entitlement
  pub room : count (connected user_id) db.cbots < entitlement.max_accounts
  pub may_be_live : environment ≡ live → entitlement.live_trading_enabled ≡ true

accounts_room :
    (e : Entitlement) (user_id : ℕ) (environment : CtraderAccountEnvironment) (db t : Db)
    → check_accounts e user_id environment db ≡ (ok tt, t)
    → (count (connected user_id) db.cbots < e.max_accounts)
      × (environment ≡ live → e.live_trading_enabled ≡ true)
unfolding check_accounts
accounts_room e user_id demo db t h = (ground arith, λ f. cc)
accounts_room e user_id live db t h = (ground arith, λ f. ground arith)

pair_room :
    (cfg : Config) (now user_id : ℕ) (environment : CtraderAccountEnvironment) (db t : Db)
    → cfg.subscriptions_enforced ≡ true
    → assert_can_pair_account cfg now user_id environment db ≡ (ok tt, t)
    → HasRoom now user_id environment db
unfolding assert_can_pair_account
pair_room cfg now user_id environment db t enforced h =
    elim (outcome (current_for_user now user_id db)) [
      | inr (x, failed) ↦ absurd (ground (arith, (current_for_user_returns now user_id db).1))
      | inl (o, read) ↦ elim (Option-cases (open_entitlement o)) [
        | inl missing ↦ absurd (ground arith)
        | inr (e, found) ↦
            let u = (current_for_user now user_id db).1 in
            let checked : check_accounts e user_id environment u ≡ (ok tt, t) = ground arith in
            let (room, may) = accounts_room e user_id environment u t checked in
            record {
              subscription = o;
              entitlement = e;
              current = ap (λ r. r.0) read;
              gives_access = found;
              room = rw ((current_for_user_keeps now user_id db).1) at room;
              may_be_live = may;
            }
      ]
    ]

-- The checks of a claim that went through, for an account that is not known or was revoked.
checked_room :
    (hash : List ℕ → ℕ) (cfg : Config) (now : ℕ) (dto : ClaimCbotPairingDto) (db t : Db)
    (pairing : PairingCode)
    → cfg.subscriptions_enforced ≡ true
    → check_cbot_claim hash cfg now dto db ≡ (ok pairing, t)
    → needs_room (find_first (is_account dto) db.cbots) ≡ true
    → (u : Db) × (assert_can_pair_account cfg now pairing.user_id dto.environment db ≡ (ok tt, u))
unfolding check_cbot_claim
checked_room hash cfg now dto db t pairing enforced h new =
    elim (outcome (assert_can_pair_account cfg now pairing.user_id dto.environment db)) [
      | inl (tt, passed) ↦ (_, passed)
      | inr (x, failed) ↦ absurd (ground arith)
    ]

abbrev pub with_hash : ℕ → PairingCode → Bool
with_hash key row = row.code_hash == key

-- The code's row stands behind the checks that passed.
checked_row :
    (hash : List ℕ → ℕ) (cfg : Config) (now : ℕ) (dto : ClaimCbotPairingDto) (db t : Db)
    (row pairing : PairingCode)
    → find_first (with_hash (hash (to_upper_case dto.code))) db.cbot_pairing_codes ≡ some row
    → check_cbot_claim hash cfg now dto db ≡ (ok pairing, t)
    → (is_some row.claimed_at ≡ false) × (leb row.expires_at now ≡ false)
unfolding check_cbot_claim
checked_row hash cfg now dto db t row pairing found h = elim (Bool-cases (is_some row.claimed_at)) [
  | inl used ↦ absurd (ground arith)
  | inr fresh ↦ elim (Bool-cases (leb row.expires_at now)) [
    | inl over ↦ absurd (ground arith)
    | inr early ↦ (fresh, early)
  ]
]

checked_same :
    (hash : List ℕ → ℕ) (cfg : Config) (now : ℕ) (dto : ClaimCbotPairingDto) (db t : Db)
    (row pairing : PairingCode)
    → find_first (with_hash (hash (to_upper_case dto.code))) db.cbot_pairing_codes ≡ some row
    → is_some row.claimed_at ≡ false
    → leb row.expires_at now ≡ false
    → check_cbot_claim hash cfg now dto db ≡ (ok pairing, t)
    → row ≡ pairing
unfolding check_cbot_claim
checked_same hash cfg now dto db t row pairing found fresh early h = ground arith

checked_missing :
    (hash : List ℕ → ℕ) (cfg : Config) (now : ℕ) (dto : ClaimCbotPairingDto) (db t : Db)
    (pairing : PairingCode)
    → find_first (with_hash (hash (to_upper_case dto.code))) db.cbot_pairing_codes ≡ none
    → ¬ (check_cbot_claim hash cfg now dto db ≡ (ok pairing, t))
unfolding check_cbot_claim
checked_missing hash cfg now dto db t pairing missing h = ground arith

checked_code :
    (hash : List ℕ → ℕ) (cfg : Config) (now : ℕ) (dto : ClaimCbotPairingDto) (db t : Db)
    (pairing : PairingCode)
    → check_cbot_claim hash cfg now dto db ≡ (ok pairing, t)
    → (find_first (with_hash (hash (to_upper_case dto.code))) db.cbot_pairing_codes ≡ some pairing)
      × (is_some pairing.claimed_at ≡ false)
      × (leb pairing.expires_at now ≡ false)
checked_code hash cfg now dto db t pairing h =
    elim (Option-cases
      (find_first (with_hash (hash (to_upper_case dto.code))) db.cbot_pairing_codes)) [
        | inl missing ↦ absurd (checked_missing hash cfg now dto db t pairing missing h)
        | inr (row, found) ↦
            let (fresh, early) = checked_row hash cfg now dto db t row pairing found h in
            let same = checked_same hash cfg now dto db t row pairing found fresh early h in
            (
              found ∙ ap some same,
              ap (λ r. is_some r.claimed_at) (sym same) ∙ fresh,
              ap (λ r. leb r.expires_at now) (sym same) ∙ early,
            )
      ]

-- Where subscriptions are enforced, a claim that succeeds for an account that is not connected
-- yet found the plan of the code's user with room for one more account, and allowing live trading
-- if the account is a live one.
pub claim_cbot-HasRoom :
    (hash : List ℕ → ℕ) (hash_token : ℕ → ℕ) (cfg : Config) (now later id token : ℕ)
    (dto : ClaimCbotPairingDto) (ip : Option String) (db t : Db) (reply : CbotClaimReply)
    → cfg.subscriptions_enforced ≡ true
    → claim_cbot hash hash_token cfg now later id token dto ip db ≡ (ok reply, t)
    → needs_room (find_first (is_account dto) db.cbots) ≡ true
    → (pairing : PairingCode) × (find_first
          (with_hash (hash (to_upper_case dto.code)))
          db.cbot_pairing_codes
        ≡ some pairing)
      × (is_some pairing.claimed_at ≡ false)
      × (leb pairing.expires_at now ≡ false)
      × HasRoom now pairing.user_id dto.environment db
unfolding claim_cbot
claim_cbot-HasRoom hash hash_token cfg now later id token dto ip db t reply enforced h new =
    >>=-split (check_cbot_claim hash cfg now dto) _ db h λ pairing u checked rest.
      let (v, passed) = checked_room hash cfg now dto db u pairing enforced checked new in
      let (found, unclaimed, early) = checked_code hash cfg now dto db u pairing checked in
      (
        pairing,
        found,
        unclaimed,
        early,
        pair_room cfg now pairing.user_id dto.environment db v enforced passed,
      )
