-- ===== src/Users/Bounds.antt =====
-- The settings stay within their bounds.
use ctreader.Prelude.{
  ℕ, ◌≡◌, ◌≤◌, ◌<◌, inl, inr, Bool, false, List, [], ◌∷◌, arith, err, All, any, Exception, modify,
  ◌>>=◌, ◌==◌, update_many, run_checks, run_checks_reads, run_checks-ok, find_first, Bool-cases,
  Option-cases, outcome,
}
use ctreader.Config.{Config}
use ctreader.Schema.{Db, User, UserSettings, MultiTemplate, ReversalTemplate}
use ctreader.Users.{
  TradingDefault, default_fixed_lot, default_risk_percent, default_arm_seconds, default_risk_mode,
  default_checks, set_default, update_settings, checked_update, update_trading_default, outside,
  multi_template_checks, update_multi_template, reversal_template_checks,
  update_news_reversal_template, set_real_trading_enabled, set_risk_limit_enabled,
}

-- A number of pips.
abbrev pub IsPips : ℕ → Type 0
IsPips n = (1 ≤ n) × (n ≤ 100000)

pub record IsValidMulti (t : MultiTemplate) : Type 0 where
  pub trades : (2 ≤ t.trades_per_side) × (t.trades_per_side ≤ 5)
  pub first_pips : IsPips t.first_entry_pips × IsPips t.first_sl_pips × IsPips t.first_tp_pips
  pub next_pips : IsPips t.next_step_pips × IsPips t.next_sl_pips × IsPips t.next_tp_pips
  pub expiry_range : (1 ≤ t.expiry_seconds) × (t.expiry_seconds ≤ 300)

-- The three targets rise.
pub record IsValidReversal (t : ReversalTemplate) : Type 0 where
  pub entry_pips : IsPips t.entry_pips × IsPips t.sl_pips × IsPips t.reversal_gap_pips
  pub target_pips : IsPips t.tp1_pips × IsPips t.tp2_pips × IsPips t.tp3_pips
  pub rising : (t.tp1_pips < t.tp2_pips) × (t.tp2_pips < t.tp3_pips)
  pub pending : (1 ≤ t.pending_expiry_seconds) × (t.pending_expiry_seconds ≤ 300)
  pub management : (30 ≤ t.management_seconds) × (t.management_seconds ≤ 3600)

pub record IsValidSettings (cfg : Config) (s : UserSettings) : Type 0 where
  pub lot : (1 ≤ s.default_fixed_lot) × (s.default_fixed_lot ≤ cfg.max_fixed_lot)
  pub risk : (1 ≤ s.default_risk_percent) × (s.default_risk_percent ≤ cfg.max_risk_percent)
  pub arm : (3 ≤ s.default_arm_seconds) × (s.default_arm_seconds ≤ 60)
  pub multi : IsValidMulti s.multi
  pub reversal : IsValidReversal s.reversal

update_valid :
    (cfg : Config) (p : UserSettings → Bool) (f : UserSettings → UserSettings)
    (rows : List UserSettings)
    → ((s : UserSettings) → IsValidSettings cfg s → IsValidSettings cfg (f s))
    → All (IsValidSettings cfg) rows
    → All (IsValidSettings cfg) (update_many p f rows)
unfolding update_many
update_valid cfg p f [] h valid = tt
update_valid cfg p f (s ∷ rows) h (here, rest) = elim (Bool-cases (p s)) [
  | inl changed ↦ rw changed (h s here, update_valid cfg p f rows h rest)
  | inr kept ↦ rw kept (here, update_valid cfg p f rows h rest)
]

failed_valid :
    (cfg : Config) (checks : List (Bool × Exception)) (user_id : ℕ)
    (f : UserSettings → UserSettings) (db : Db) (x : Exception)
    → (run_checks checks db).0 ≡ err x
    → All (IsValidSettings cfg) db.settings
    → All
        (IsValidSettings cfg)
        ((run_checks checks >>= λ _. modify (update_settings user_id f)) db).1.settings
failed_valid cfg checks user_id f db x failed valid =
    let same = run_checks_reads checks db in
    let stays : ((run_checks checks >>= λ _. modify (update_settings user_id f)) db).1 ≡ db =
      ground arith in
    rw stays valid

default_valid :
    (cfg : Config) (update : TradingDefault)
    → All (λ c. c.0 ≡ false) (default_checks cfg update)
    → (s : UserSettings) → IsValidSettings cfg s
    → IsValidSettings cfg (set_default update s)
unfolding default_checks set_default
default_valid cfg (default_fixed_lot n) (fine, _) s v = record {
  lot = ground arith;
  risk = v.risk;
  arm = v.arm;
  multi = v.multi;
  reversal = v.reversal;
}
default_valid cfg (default_risk_percent n) (fine, _) s v = record {
  lot = v.lot;
  risk = ground arith;
  arm = v.arm;
  multi = v.multi;
  reversal = v.reversal;
}
default_valid cfg (default_arm_seconds n) (fine, _) s v = record {
  lot = v.lot;
  risk = v.risk;
  arm = ground arith;
  multi = v.multi;
  reversal = v.reversal;
}
default_valid cfg (default_risk_mode m) fine s v = record {
  lot = v.lot;
  risk = v.risk;
  arm = v.arm;
  multi = v.multi;
  reversal = v.reversal;
}

-- No number of pips is outside, if none of them is.
any_none : (values : List ℕ) → any (outside 1 100000) values ≡ false → All IsPips values
any_none [] h = tt
any_none (x ∷ xs) h = ((ground arith, ground arith), any_none xs (ground arith))

multi_valid :
    (cfg : Config) (t : MultiTemplate)
    → All (λ c. c.0 ≡ false) (multi_template_checks t)
    → (s : UserSettings) → IsValidSettings cfg s
    → IsValidSettings cfg (record s { multi = t })
unfolding multi_template_checks
multi_valid cfg t (a, (b, (c, _))) s v =
    let (h0, (h1, (h2, (h3, (h4, (h5, _)))))) =
      any_none
        (t.first_entry_pips ∷ t.first_sl_pips ∷ t.first_tp_pips ∷ t.next_step_pips ∷ t.next_sl_pips
          ∷ t.next_tp_pips ∷ [])
        b in
    record {
      lot = v.lot;
      risk = v.risk;
      arm = v.arm;
      multi = record {
        trades = ground arith;
        first_pips = (h0, h1, h2);
        next_pips = (h3, h4, h5);
        expiry_range = ground arith;
      };
      reversal = v.reversal;
    }

reversal_valid :
    (cfg : Config) (t : ReversalTemplate)
    → All (λ c. c.0 ≡ false) (reversal_template_checks t)
    → (s : UserSettings) → IsValidSettings cfg s
    → IsValidSettings cfg (record s { reversal = t })
unfolding reversal_template_checks
reversal_valid cfg t (a, (b, (c, (d, _)))) s v =
    let (h0, (h1, (h2, (h3, (h4, (h5, _)))))) =
      any_none
        (t.entry_pips ∷ t.sl_pips ∷ t.tp1_pips ∷ t.tp2_pips ∷ t.tp3_pips ∷ t.reversal_gap_pips ∷ [])
        a in
    record {
      lot = v.lot;
      risk = v.risk;
      arm = v.arm;
      multi = v.multi;
      reversal = record {
        entry_pips = (h0, h1, h5);
        target_pips = (h2, h3, h4);
        rising = (ground arith, ground arith);
        pending = ground arith;
        management = ground arith;
      };
    }

switch_valid :
    (cfg : Config) (s : UserSettings) (a b : Bool)
    → IsValidSettings cfg s
    → IsValidSettings cfg (record s { real_trading_enabled = a; risk_limit_enabled = b })
switch_valid cfg s a b v = record {
  lot = v.lot;
  risk = v.risk;
  arm = v.arm;
  multi = v.multi;
  reversal = v.reversal;
}

-- Where the checks make the update keep the bounds, the handler keeps them.
checked_update_valid :
    (cfg : Config) (telegram_id : ℕ) (checks : List (Bool × Exception))
    (f : UserSettings → UserSettings) (db : Db)
    → (All (λ c. c.0 ≡ false) checks
        → (s : UserSettings) → IsValidSettings cfg s
        → IsValidSettings cfg (f s))
    → All (IsValidSettings cfg) db.settings
    → All (IsValidSettings cfg) (checked_update telegram_id checks f db).1.settings
unfolding checked_update
checked_update_valid cfg telegram_id checks f db keeps valid =
    elim (Option-cases (find_first (λ (u : User). u.telegram_id == telegram_id) db.users)) [
      | inl missing ↦ rw missing valid
      | inr (user, found) ↦ elim (outcome (run_checks checks db)) [
        | inl (tt, passed) ↦
            let (same, fine) = run_checks-ok checks passed in
            rw (found, passed, same)
              (update_valid cfg (λ s. s.user_id == user.id) f db.settings (keeps fine) valid)
        | inr (x, failed) ↦ rw found (failed_valid cfg checks user.id f db x failed valid)
      ]
    ]

-- Every handler of the service keeps the settings of all users within their bounds, whatever it is
-- called with and whether it throws or not.
pub update-IsValidSettings :
    (cfg : Config) (telegram_id : ℕ) (update : TradingDefault) (multi : MultiTemplate)
    (reversal : ReversalTemplate) (enabled : Bool) (db : Db)
    → All (IsValidSettings cfg) db.settings
    → All (IsValidSettings cfg) (update_trading_default cfg telegram_id update db).1.settings
      × All (IsValidSettings cfg) (update_multi_template telegram_id multi db).1.settings
      × All (IsValidSettings cfg) (update_news_reversal_template telegram_id reversal db).1.settings
      × All (IsValidSettings cfg) (set_real_trading_enabled telegram_id enabled db).1.settings
      × All (IsValidSettings cfg) (set_risk_limit_enabled telegram_id enabled db).1.settings
unfolding update_trading_default update_multi_template update_news_reversal_template
    set_real_trading_enabled set_risk_limit_enabled
update-IsValidSettings cfg telegram_id update multi reversal enabled db valid = (
  checked_update_valid cfg telegram_id (default_checks cfg update) (set_default update) db
      (default_valid cfg update) valid,
  checked_update_valid cfg telegram_id (multi_template_checks multi)
      (λ s. record s { multi = multi }) db (multi_valid cfg multi) valid,
  checked_update_valid cfg telegram_id (reversal_template_checks reversal)
      (λ s. record s { reversal = reversal }) db (reversal_valid cfg reversal) valid,
  checked_update_valid cfg telegram_id [] (λ s. record s { real_trading_enabled = enabled }) db
      (λ fine s v. switch_valid cfg s enabled s.risk_limit_enabled v) valid,
  checked_update_valid cfg telegram_id [] (λ s. record s { risk_limit_enabled = enabled }) db
      (λ fine s v. switch_valid cfg s s.real_trading_enabled enabled v) valid,
)
