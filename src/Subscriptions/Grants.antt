-- ===== src/Subscriptions/Grants.antt =====
-- What a grant and a suspension leave behind.
use ctreader.Prelude.{
  ℕ, ◌≡◌, refl, ap, ◌<◌, ◌+◌, ◌*◌, ◌≢◌, some, List, ◌∷◌, arith, ok, find_first, count, update_many,
  count-update_clears, count-update_same, String, ◌==◌, ==_refl,
}
use ctreader.Schema.{Db, Plan, Subscription, SubscriptionPlanCode}
use ctreader.Subscriptions.Presets.{plan_tag}
use ctreader.Subscriptions.{
  of_user, is_listed, is_current, cancel, granted, store_grant, grant_to_user, current_for_user,
}
use ctreader.Subscriptions.Queries.{current_for_user_found, settle_running}

module _ (id now user_id : ℕ) (code : SubscriptionPlanCode) (days : ℕ) (actor_type : String)
    (actor_id : ℕ) (db : Db) (plan : Plan)
    (found : find_first (λ (p : Plan). plan_tag p.code == plan_tag code) db.plans ≡ some plan) where
  abbrev after_grant : Db
  after_grant = (grant_to_user id now user_id code days actor_type actor_id db).1

  grant_to_user_lem : grant_to_user id now user_id code days actor_type actor_id db ≡ (
    ok (granted id now user_id code days plan),
    store_grant now user_id (granted id now user_id code days plan) actor_type actor_id db,
  )
  unfolding grant_to_user
  grant_to_user_lem = rw found refl

  rows_after :
      after_grant.subscriptions
      ≡ granted id now user_id code days plan
        ∷ update_many (of_user user_id is_current) (cancel now) db.subscriptions
  unfolding store_grant
  rows_after = ap (λ r. r.1.subscriptions) grant_to_user_lem

  found_first :
      find_first (of_user user_id is_listed) after_grant.subscriptions
      ≡ some (granted id now user_id code days plan)
  unfolding granted find_first
  found_first = ground (arith, rows_after, ==_refl user_id)

  none_current :
      (rows : List Subscription)
      → count
          (of_user user_id is_current)
          (update_many (of_user user_id is_current) (cancel now) rows)
        ≡ 0
  unfolding cancel
  none_current rows =
      count-update_clears (of_user user_id is_current) (cancel now) rows (λ a h. ground arith)

  one_current : count (of_user user_id is_current) after_grant.subscriptions ≡ 1
  unfolding granted count
  one_current = ground (arith, rows_after, ==_refl user_id, none_current db.subscriptions)

  -- Until its period ends a new grant is what the user's queries find, it carries the plan's
  -- entitlement, and it is the only current subscription of the user.
  pub grant_current :
      (t : ℕ)
      → t < now + days * 86400000
      → ((current_for_user t user_id after_grant).0
          ≡ ok (some (granted id now user_id code days plan)))
        × ((granted id now user_id code days plan).entitlement ≡ some plan.allows)
        × (count (of_user user_id is_current) after_grant.subscriptions ≡ 1)
  unfolding granted
  grant_current t h = (
    rw (current_for_user_found t user_id after_grant _ found_first)
        (rw (settle_running t (granted id now user_id code days plan) after_grant h) refl),
    refl,
    one_current,
  )

  -- The other users' subscriptions are left alone, whatever the test.
  pub grant_others :
      (other : ℕ)
      → other ≢ user_id
      → count (of_user other is_current) after_grant.subscriptions
        ≡ count (of_user other is_current) db.subscriptions
  unfolding granted count cancel
  grant_others other ne = ground (
    arith,
    rows_after,
    count-update_same (of_user user_id is_current) (of_user other is_current) (cancel now)
        db.subscriptions (λ a h. ground arith),
  )
