-- ===== src/Subscriptions/Suspension.antt =====
-- What a suspension leaves behind.
use ctreader.Prelude.{
  ℕ, ◌≡◌, ◌≤◌, Bool, true, Option, none, some, arith, ok, err, forbidden, find_first,
  find_first-passes, count, update_many, count-zero_found, count-update_only, Option-cases, inl,
  inr, ◌==◌, ==_refl,
}
use ctreader.Config.{Config}
use ctreader.Schema.{Db, User, Subscription, ExecutionMode}
use ctreader.Subscriptions.{
  of_user, is_listed, is_current, settle, suspend_row, store_suspension, suspend_by_telegram_id,
  assert_can_create_job,
}
use ctreader.Subscriptions.Queries.{current_for_user_found, current_for_user_missing}

-- Without a current subscription nothing is let through.
none_current_refused :
    (cfg : Config) (now user_id : ℕ) (mode : ExecutionMode) (is_live : Bool) (lot : Option ℕ)
    (db : Db)
    → cfg.subscriptions_enforced ≡ true
    → count (of_user user_id is_current) db.subscriptions ≡ 0
    → (assert_can_create_job cfg now user_id mode is_live lot db).0
      ≡ err (forbidden "SUBSCRIPTION_REQUIRED: active subscription is required")
unfolding assert_can_create_job settle
none_current_refused cfg now user_id mode is_live lot db on zero =
    elim (Option-cases (find_first (of_user user_id is_listed) db.subscriptions)) [
      | inl missing ↦ ground (arith, current_for_user_missing now user_id db missing)
      | inr (s, found) ↦ ground (
        arith,
        current_for_user_found now user_id db s found,
        find_first-passes (of_user user_id is_listed) db.subscriptions found,
        count-zero_found (of_user user_id is_current) (of_user user_id is_listed) db.subscriptions
            zero found,
      )
    ]

module _ (telegram_id actor_id : ℕ) (db : Db) (user : User)
    (found : find_first (λ (u : User). u.telegram_id == telegram_id) db.users ≡ some user) where
  abbrev after_suspension : Db
  after_suspension = (suspend_by_telegram_id telegram_id actor_id db).1

  -- Where there is a current subscription, its rows are the suspended ones.
  rows_after :
      (s : Subscription)
      → find_first (of_user user.id is_current) db.subscriptions ≡ some s
      → after_suspension.subscriptions
        ≡ update_many (λ r. r.id == s.id) suspend_row db.subscriptions
  unfolding suspend_by_telegram_id store_suspension
  rows_after s current = ground (arith, found, current)

  suspended_needs_current :
      find_first (of_user user.id is_current) db.subscriptions ≡ none
      → ¬ ((suspend_by_telegram_id telegram_id actor_id db).0 ≡ ok tt)
  unfolding suspend_by_telegram_id
  suspended_needs_current missing h = ground (arith, found, missing)

  cleared :
      count (of_user user.id is_current) db.subscriptions ≤ 1
      → (suspend_by_telegram_id telegram_id actor_id db).0 ≡ ok tt
      → count (of_user user.id is_current) after_suspension.subscriptions ≡ 0
  unfolding suspend_row
  cleared one done =
      elim (Option-cases (find_first (of_user user.id is_current) db.subscriptions)) [
        | inl missing ↦ absurd (suspended_needs_current missing done)
        | inr (s, current) ↦ rw (rows_after s current) (
            count-update_only (of_user user.id is_current) (λ r. r.id == s.id) suspend_row
              db.subscriptions (λ b. ground arith) one current (==_refl s.id))
      ]

  -- Where the configuration enforces subscriptions, and where a user has at most one current subscription, which grants see to, a suspension that
  -- succeeds shuts the user out of every mode at every time, until a further grant.
  pub suspension_refuses :
      (cfg : Config) (now : ℕ) (mode : ExecutionMode) (is_live : Bool) (lot : Option ℕ)
      → cfg.subscriptions_enforced ≡ true
      → count (of_user user.id is_current) db.subscriptions ≤ 1
      → (suspend_by_telegram_id telegram_id actor_id db).0 ≡ ok tt
      → (assert_can_create_job cfg now user.id mode is_live lot after_suspension).0
        ≡ err (forbidden "SUBSCRIPTION_REQUIRED: active subscription is required")
  suspension_refuses cfg now mode is_live lot on one done =
      none_current_refused cfg now user.id mode is_live lot after_suspension on (cleared one done)
