-- ===== src/Cbot/Expiry.antt =====
-- What a poll of a cBot does to the jobs, and the entitlement that it reads.
use ctreader.Prelude.{
  ℕ, ◌≡◌, refl, ap, inl, inr, true, false, none, List, arith, ok, Option-cases, outcome, count,
  count-update_clears, count-update_le, update_many,
}
use ctreader.Config.{Config}
use ctreader.Schema.{Db, TradeJob, SystemControl}
use ctreader.Safety.{read_control}
use ctreader.Subscriptions.{current_for_user}
use ctreader.Subscriptions.Queries.{current_for_user_keeps, current_for_user_returns}
use ctreader.TradeJobs.State.{can_transition}
use ctreader.TradeJobs.Lawful.{IsLawful, IsLawfulRow, IsLawful-update_many}
use ctreader.Cbot.{Access, entitlement}
use ctreader.Cbot.Poll.{
  is_abandoned, is_fresh, expire_abandoned, sync_fresh, mark_missed, mark_synced,
}

-- The entitlement is read without a change of the jobs, and it never throws.

mark_missed-allowed :
    (now instance_id : ℕ) (job : TradeJob)
    → is_abandoned now instance_id job ≡ true
    → IsLawfulRow job (mark_missed now job)
unfolding mark_missed can_transition
mark_missed-allowed now instance_id job h = record {
  same_id = refl;
  same_user = refl;
  allowed = ground arith;
}

mark_synced-allowed :
    (now : ℕ) (jobs : List TradeJob) (job : TradeJob)
    → is_fresh jobs job ≡ true
    → IsLawfulRow job (mark_synced now job)
unfolding mark_synced can_transition
mark_synced-allowed now jobs job h = record {
  same_id = refl;
  same_user = refl;
  allowed = ground arith;
}

pub expire_abandoned-IsLawful :
    (now instance_id : ℕ) (db : Db) → IsLawful db.jobs (expire_abandoned now instance_id db).jobs
unfolding expire_abandoned
expire_abandoned-IsLawful now instance_id db =
    IsLawful-update_many (is_abandoned now instance_id) (mark_missed now) db.jobs
      (mark_missed-allowed now instance_id)

pub sync_fresh-IsLawful :
    (now : ℕ) (jobs : List TradeJob) (db : Db) → IsLawful db.jobs (sync_fresh now jobs db).jobs
unfolding sync_fresh
sync_fresh-IsLawful now jobs db =
    IsLawful-update_many (is_fresh jobs) (mark_synced now) db.jobs (mark_synced-allowed now jobs)

missed_not_abandoned :
    (now instance_id : ℕ) (job : TradeJob)
    → is_abandoned now instance_id (mark_missed now job) ≡ false
unfolding mark_missed
missed_not_abandoned now instance_id job = ground arith

synced_was_abandoned :
    (now instance_id : ℕ) (jobs : List TradeJob) (job : TradeJob)
    → is_fresh jobs job ≡ true
    → is_abandoned now instance_id (mark_synced now job) ≡ true
    → is_abandoned now instance_id job ≡ true
unfolding mark_synced
synced_was_abandoned now instance_id jobs job fresh h = ground arith

pub none_abandoned :
    (now instance_id : ℕ) (jobs : List TradeJob) (db : Db)
    → count
        (is_abandoned now instance_id)
        (sync_fresh now jobs (expire_abandoned now instance_id db)).jobs
      ≡ 0
unfolding sync_fresh expire_abandoned
none_abandoned now instance_id jobs db =
    let p = is_abandoned now instance_id in
    let before = update_many p (mark_missed now) db.jobs in
    let cleared : count p before ≡ 0 =
      count-update_clears p (mark_missed now) db.jobs
        (λ job h. missed_not_abandoned now instance_id job) in
    let le =
      count-update_le (is_fresh jobs) p (mark_synced now) before
        (synced_was_abandoned now instance_id jobs) in
    omega arith

-- The control row is read, or made, without an exception.
read_control_returns : (db : Db) → (c : SystemControl) × ((read_control db).0 ≡ ok c)
unfolding read_control
read_control_returns db = elim (Option-cases db.control) [
  | inl missing ↦ (record { trading_halted = false; reason = none }, rw missing refl)
  | inr (c, found) ↦ (c, rw found refl)
]

read_control_keeps : (db : Db) → (read_control db).1.jobs ≡ db.jobs
unfolding read_control
read_control_keeps db = ground arith

-- The entitlement is read without an exception and without a change of the jobs; where it lets
-- new jobs in, the halt in the database is off.
pub entitlement_returns :
    (cfg : Config) (now user_id : ℕ) (db : Db)
    → (a : Access) × ((entitlement cfg now user_id db).0 ≡ ok a)
unfolding entitlement
entitlement_returns cfg now user_id db = elim (outcome (entitlement cfg now user_id db)) [
  | inl (a, h) ↦ (a, ap (λ r. r.0) h)
  | inr (x, h) ↦ absurd (
      ground (
        arith,
        (current_for_user_returns now user_id db).1,
        (read_control_returns (current_for_user now user_id db).1).1,
      ))
]

pub entitlement_keeps :
    (cfg : Config) (now user_id : ℕ) (db : Db) → (entitlement cfg now user_id db).1.jobs ≡ db.jobs
unfolding entitlement
entitlement_keeps cfg now user_id db = ground (
  arith,
  (current_for_user_keeps now user_id db).0,
  read_control_keeps (current_for_user now user_id db).1,
)

pub entitlement_accepts :
    (cfg : Config) (now user_id : ℕ) (db : Db) (a : Access)
    → (entitlement cfg now user_id db).0 ≡ ok a
    → a.accept_new_jobs ≡ true
    → a.trading_halted ≡ false
unfolding entitlement
entitlement_accepts cfg now user_id db a h accepts = ground arith
