-- ===== src/Subscriptions/Checks.antt =====
-- When `assertCanCreateJob` lets a job through, and that it only reads or expires subscriptions.
use ctreader.Prelude.{
  ℕ, ◌≡◌, ◌<◌, ◌↔◌, ◌⊎◌, Bool, true, false, Option, none, some, arith, ok, find_first, Option-cases,
  Bool-cases, inl, inr,
}
use ctreader.Config.{Config}
use ctreader.Schema.{Db, Subscription, Entitlement, ExecutionMode}
use ctreader.Subscriptions.{
  of_user, is_listed, is_open, allows_mode, exceeds, settle, expire, check_plan,
  assert_can_create_job,
}
use ctreader.Subscriptions.Queries.{
  current_for_user_found, current_for_user_missing, settle_running,
}

-- The plan covers the order.
pub record Covers (e : Entitlement) (mode : ExecutionMode) (is_live : Bool) (lot : Option ℕ)
    : Type 0 where
  pub covers_mode : allows_mode e mode ≡ true
  pub covers_live : is_live ≡ true → e.live_trading_enabled ≡ true
  pub covers_lot : exceeds lot e.max_lot ≡ false

-- The user's newest listed subscription gives access at this time, under this entitlement.
pub record HasAccess (now user_id : ℕ) (db : Db) (s : Subscription) (e : Entitlement) : Type 0 where
  pub newest : find_first (of_user user_id is_listed) db.subscriptions ≡ some s
  pub gives_access : is_open s.status ≡ true
  pub runs : now < s.current_period_end
  pub entitled : s.entitlement ≡ some e

check_plan_iff :
    (e : Entitlement) (mode : ExecutionMode) (is_live : Bool) (lot : Option ℕ) (db : Db)
    → ((check_plan e mode is_live lot db).0 ≡ ok tt) ↔ Covers e mode is_live lot
unfolding check_plan
check_plan_iff e mode is_live lot db = (
  λ h. record {
    covers_mode = ground arith;
    covers_live = λ l. ground arith;
    covers_lot = ground arith;
  },
  λ c. ground (arith, c.covers_live),
)

-- With access the check is the plan's.
access_check :
    (cfg : Config) (now user_id : ℕ) (mode : ExecutionMode) (is_live : Bool) (lot : Option ℕ)
    (db : Db) (s : Subscription) (e : Entitlement)
    → cfg.subscriptions_enforced ≡ true
    → HasAccess now user_id db s e
    → assert_can_create_job cfg now user_id mode is_live lot db ≡ check_plan e mode is_live lot db
unfolding assert_can_create_job
access_check cfg now user_id mode is_live lot db s e on a =
    ground (arith, current_for_user_found now user_id db s a.newest, settle_running now s db a.runs)

-- Without a subscription that gives access nothing is let through.
refused_missing :
    (cfg : Config) (now user_id : ℕ) (mode : ExecutionMode) (is_live : Bool) (lot : Option ℕ)
    (db : Db)
    → cfg.subscriptions_enforced ≡ true
    → find_first (of_user user_id is_listed) db.subscriptions ≡ none
    → ¬ ((assert_can_create_job cfg now user_id mode is_live lot db).0 ≡ ok tt)
unfolding assert_can_create_job
refused_missing cfg now user_id mode is_live lot db on e h =
    ground (arith, current_for_user_missing now user_id db e)

-- What stands behind a check that passed.
passed_access :
    (cfg : Config) (now user_id : ℕ) (mode : ExecutionMode) (is_live : Bool) (lot : Option ℕ)
    (db : Db) (s : Subscription)
    → cfg.subscriptions_enforced ≡ true
    → find_first (of_user user_id is_listed) db.subscriptions ≡ some s
    → (assert_can_create_job cfg now user_id mode is_live lot db).0 ≡ ok tt
    → (e : Entitlement) × HasAccess now user_id db s e
unfolding assert_can_create_job settle expire
passed_access cfg now user_id mode is_live lot db s on found h = elim (Option-cases s.entitlement) [
  | inl missing ↦ absurd (ground (arith, current_for_user_found now user_id db s found))
  | inr (e, entitled) ↦ (
    e,
    record {
      newest = found;
      gives_access = ground (arith, current_for_user_found now user_id db s found);
      runs = ground (arith, current_for_user_found now user_id db s found);
      entitled = entitled;
    },
  )
]

-- What `assertCanCreateJob` asks for.
abbrev pub MayCreate : Config → ℕ → ℕ → ExecutionMode → Bool → Option ℕ → Db → Type 0
MayCreate cfg now user_id mode is_live lot db =
    (cfg.subscriptions_enforced ≡ false)
    ⊎ ((s : Subscription) × (e : Entitlement) × HasAccess now user_id db s e
        × Covers e mode is_live lot)

module _ (cfg : Config) (now user_id : ℕ) (mode : ExecutionMode) (is_live : Bool) (lot : Option ℕ)
    (db : Db) where
  passes :
      (assert_can_create_job cfg now user_id mode is_live lot db).0 ≡ ok tt
      → MayCreate cfg now user_id mode is_live lot db
  passes h = elim (Bool-cases cfg.subscriptions_enforced) [
    | inr off ↦ inl off
    | inl on ↦ elim (Option-cases (find_first (of_user user_id is_listed) db.subscriptions)) [
      | inl missing ↦ absurd (refused_missing cfg now user_id mode is_live lot db on missing h)
      | inr (s, found) ↦
          let (e, access) = passed_access cfg now user_id mode is_live lot db s on found h in
          inr (
            s,
            e,
            access,
            (check_plan_iff e mode is_live lot db).0
                (rw (← access_check cfg now user_id mode is_live lot db s e on access) h),
          )
    ]
  ]

  admits :
      MayCreate cfg now user_id mode is_live lot db
      → (assert_can_create_job cfg now user_id mode is_live lot db).0 ≡ ok tt
  unfolding assert_can_create_job
  admits (inl off) = ground arith
  admits (inr (s, e, access, covers)) = elim (Bool-cases cfg.subscriptions_enforced) [
    | inr off ↦ ground arith
    | inl on ↦ ground (
      arith,
      access_check cfg now user_id mode is_live lot db s e on access,
      (check_plan_iff e mode is_live lot db).1 covers,
    )
  ]

  -- `assertCanCreateJob` passes exactly when subscriptions are not enforced, or the user's newest
  -- listed subscription is TRIAL or ACTIVE, has not ended, and its entitlement covers the mode, a
  -- live account and the lot.
  pub assert_can_create_job_iff :
      ((assert_can_create_job cfg now user_id mode is_live lot db).0 ≡ ok tt)
      ↔ MayCreate cfg now user_id mode is_live lot db
  assert_can_create_job_iff = (passes, admits)
