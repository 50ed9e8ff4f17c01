-- ===== src/Ctrader/Mock/Targets.antt =====
-- The targets of a NEWS_REVERSAL job in mock mode are reached one after the other.
use ctreader.Prelude.{
  ℕ, ◌+◌, ◌≡◌, ◌≤◌, ◌<◌, refl, Bool, true, false, Bool-cases, inl, inr, none, some, Option-cases,
  List, [], ◌∷◌, arith, ◌==◌, count, count-zero_found, find_first, find_first-none, update_many,
}
use ctreader.Schema.{Db, TradeJob, TradeJobLeg, ExecutionReport, TradeDirection}
use ctreader.Ctrader.Mock.{MockEnv, tp_key, job_of, is_open_target, is_taken, take_leg}

abbrev pub bit : Bool → ℕ
bit true = 1
bit false = 0

module _ {A : Type 0} where
  count-update_missed :
      (p q : A → Bool) (f : A → A) (xs : List A)
      → count q xs ≡ 0
      → count p (update_many q f xs) ≡ count p xs
  unfolding count update_many
  count-update_missed p q f [] h = refl
  count-update_missed p q f (x ∷ xs) h = ground (arith, count-update_missed p q f xs)

  -- The update of the one row that a query found changes a count by that row.
  pub count-update_row :
      (p q r : A → Bool) (f : A → A) (xs : List A) (a : A)
      → count q xs ≤ 1
      → find_first r xs ≡ some a
      → q a ≡ true
      → count p (update_many q f xs) + bit (p a) ≡ count p xs + bit (p (f a))
  unfolding count find_first update_many
  count-update_row p q r f [] a one found hit = absurd (ground arith)
  count-update_row p q r f (x ∷ xs) a one found hit = elim (Bool-cases (q x)) [
    | inl here ↦
        let missed = count-update_missed p q f xs in
        let only = count-zero_found q r xs {a = a} in ground (arith, missed, only)
    | inr away ↦ ground (arith, count-update_row p q r f xs a)
  ]

-- A NEWS_REVERSAL job in mock mode of which some targets have been reached: the next ones have open
-- legs, and their reports are not written yet.
pub record IsAtTarget (env : MockEnv) (job_id : ℕ) (direction : TradeDirection) (reached : ℕ)
    (job : TradeJob) (db : Db) : Type 0 where
  pub found : job_of job_id db ≡ some job
  pub active : job.active_direction ≡ some direction
  pub taken : count (is_taken job_id direction) db.legs ≡ reached
  pub waiting :
      (k : ℕ) → reached < k → k ≤ 3 → 1 ≤ count (is_open_target job_id direction k) db.legs
  pub unique : (k : ℕ) → count (λ (l : TradeJobLeg). l.id == k) db.legs ≤ 1
  pub fresh :
      (k : ℕ)
      → reached < k
      → k ≤ 3
      → find_first (λ (r : ExecutionReport). r.report_key == env.text (tp_key job_id k)) db.reports
        ≡ none

abbrev pub at_time : ℕ → MockEnv → MockEnv
at_time now env = record env { now = now }

pub open_found :
    (job_id : ℕ) (direction : TradeDirection) (k : ℕ) (legs : List TradeJobLeg)
    → 1 ≤ count (is_open_target job_id direction k) legs
    → (leg : TradeJobLeg) × (find_first (is_open_target job_id direction k) legs ≡ some leg)
open_found job_id direction k legs h =
    elim (Option-cases (find_first (is_open_target job_id direction k) legs)) [
      | inl missing ↦
          absurd (omega (arith, find_first-none (is_open_target job_id direction k) legs missing))
      | inr found ↦ found
    ]

-- What a leg counts for before and after it is taken.
pub open_not_taken :
    (job_id : ℕ) (direction : TradeDirection) (k : ℕ) (leg : TradeJobLeg)
    → is_open_target job_id direction k leg ≡ true
    → is_taken job_id direction leg ≡ false
unfolding is_open_target is_taken
open_not_taken job_id direction k leg h = ground arith

pub open-then_taken :
    (now job_id : ℕ) (direction : TradeDirection) (k : ℕ) (leg : TradeJobLeg)
    → is_open_target job_id direction k leg ≡ true
    → is_taken job_id direction (take_leg now leg) ≡ true
unfolding is_open_target is_taken take_leg
open-then_taken now job_id direction k leg h = ground arith

pub other_target :
    (now job_id : ℕ) (direction : TradeDirection) (k m : ℕ) (leg : TradeJobLeg)
    → is_open_target job_id direction k leg ≡ true
    → k < m
    → bit (is_open_target job_id direction m leg) ≡ 0
unfolding is_open_target
other_target now job_id direction k m leg h lt = ground arith

pub taken_not_open :
    (now job_id : ℕ) (direction : TradeDirection) (m : ℕ) (leg : TradeJobLeg)
    → bit (is_open_target job_id direction m (take_leg now leg)) ≡ 0
unfolding is_open_target take_leg
taken_not_open now job_id direction m leg = ground arith

pub taken_id : (now : ℕ) (leg : TradeJobLeg) → (take_leg now leg).id ≡ leg.id
unfolding take_leg
taken_id now leg = refl
