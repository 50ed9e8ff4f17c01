-- ===== src/Subscriptions/Queries.antt =====
-- What `currentForUser` returns.
use ctreader.Prelude.{
  ℕ, ◌≡◌, ◌<◌, ◌&&◌, refl, true, Option, none, some, arith, ok, find_first, leb, inl, inr,
  Option-cases, Bool-cases,
}
use ctreader.Schema.{Db, Subscription}
use ctreader.Subscriptions.{
  of_user, is_listed, is_open, is_current, settle, expire, current_for_user,
}

-- `currentForUser` by the row that it finds.
pub current_for_user_found :
    (now user_id : ℕ) (db : Db) (s : Subscription)
    → find_first (of_user user_id is_listed) db.subscriptions ≡ some s
    → current_for_user now user_id db ≡ settle now s db
unfolding current_for_user
current_for_user_found now user_id db s e = rw e

pub current_for_user_missing :
    (now user_id : ℕ) (db : Db)
    → find_first (of_user user_id is_listed) db.subscriptions ≡ none
    → current_for_user now user_id db ≡ (ok none, db)
unfolding current_for_user
current_for_user_missing now user_id db e = rw e

-- A subscription whose period still runs is returned as it stands.
pub settle_running :
    (now : ℕ) (s : Subscription) (db : Db)
    → now < s.current_period_end
    → settle now s db ≡ (ok (some s), db)
unfolding settle
settle_running now s db h = ground arith

-- One that gives access after `settle` has not ended.
pub settle_open :
    (now : ℕ) (s t : Subscription) (db : Db)
    → (settle now s db).0 ≡ ok (some t)
    → is_open t.status ≡ true
    → (t ≡ s) × (now < s.current_period_end)
unfolding settle expire
settle_open now s t db h o = ground arith

-- `currentForUser` never throws, and no job, agent or account changes by it.
pub current_for_user_returns :
    (now user_id : ℕ) (db : Db)
    → (o : Option Subscription) × ((current_for_user now user_id db).0 ≡ ok o)
unfolding current_for_user settle
current_for_user_returns now user_id db =
    elim (Option-cases (find_first (of_user user_id is_listed) db.subscriptions)) [
      | inl missing ↦ (none, rw missing refl)
      | inr (s, found) ↦ elim (Bool-cases (is_current s.status && leb s.current_period_end now)) [
        | inl over ↦ (some (expire s), rw (found, over) refl)
        | inr runs ↦ (some s, rw (found, runs) refl)
      ]
    ]

pub current_for_user_keeps :
    (now user_id : ℕ) (db : Db)
    → ((current_for_user now user_id db).1.jobs ≡ db.jobs)
      × ((current_for_user now user_id db).1.cbots ≡ db.cbots)
      × ((current_for_user now user_id db).1.cbot_pairing_codes ≡ db.cbot_pairing_codes)
unfolding current_for_user settle
current_for_user_keeps now user_id db = ground arith
