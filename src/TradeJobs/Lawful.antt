-- ===== src/TradeJobs/Lawful.antt =====
-- How the table of jobs may change: row by row, each status by a transition of the table.
use ctreader.Prelude.{
  ℕ, ◌≡◌, refl, Bool, true, List, [], ◌∷◌, arith, update_many, count, count-zero_found, find_first,
  some, ◌==◌, ==_refl, ◌≤◌, Bool-cases, inl, inr,
}
use ctreader.Schema.{TradeJob}
use ctreader.TradeJobs.State.{can_transition}

-- One row before and after: the same job, in a status that the table allows.
pub record IsLawfulRow (a b : TradeJob) : Type 0 where
  pub same_id : b.id ≡ a.id
  pub same_user : b.user_id ≡ a.user_id
  pub allowed : can_transition a.status b.status ≡ true

abbrev pub IsLawful : List TradeJob → List TradeJob → Type 0
IsLawful [] [] = Unit
IsLawful [] (b ∷ ys) = ⊥
IsLawful (a ∷ xs) [] = ⊥
IsLawful (a ∷ xs) (b ∷ ys) = IsLawfulRow a b × IsLawful xs ys

pub IsLawfulRow-refl : (a : TradeJob) → IsLawfulRow a a
unfolding can_transition
IsLawfulRow-refl a = record { same_id = refl; same_user = refl; allowed = ground arith }

pub IsLawful-refl : (jobs : List TradeJob) → IsLawful jobs jobs
IsLawful-refl [] = tt
IsLawful-refl (a ∷ xs) = (IsLawfulRow-refl a, IsLawful-refl xs)

-- An update is lawful if it is so on the rows that it changes.
pub IsLawful-update_many :
    (p : TradeJob → Bool) (f : TradeJob → TradeJob) (jobs : List TradeJob)
    → ((a : TradeJob) → p a ≡ true → IsLawfulRow a (f a))
    → IsLawful jobs (update_many p f jobs)
unfolding update_many
IsLawful-update_many p f [] h = tt
IsLawful-update_many p f (a ∷ xs) h = elim (Bool-cases (p a)) [
  | inl changed ↦ rw changed (h a changed, IsLawful-update_many p f xs h)
  | inr kept ↦ rw kept (IsLawfulRow-refl a, IsLawful-update_many p f xs h)
]

IsLawful-update_none :
    (p : TradeJob → Bool) (f : TradeJob → TradeJob) (jobs : List TradeJob)
    → count p jobs ≡ 0
    → IsLawful jobs (update_many p f jobs)
unfolding update_many count
IsLawful-update_none p f [] h = tt
IsLawful-update_none p f (a ∷ xs) h = elim (Bool-cases (p a)) [
  | inl changed ↦ absurd (ground arith)
  | inr kept ↦ rw kept (IsLawfulRow-refl a, IsLawful-update_none p f xs (ground arith))
]

-- The ids of the table are its primary key.
abbrev pub HasUniqueIds : List TradeJob → Type 0
HasUniqueIds jobs = (k : ℕ) → count (λ (j : TradeJob). j.id == k) jobs ≤ 1

found_is_head :
    (q : TradeJob → Bool) (a job : TradeJob) (xs : List TradeJob)
    → count (λ (j : TradeJob). j.id == job.id) (a ∷ xs) ≤ 1
    → find_first q (a ∷ xs) ≡ some job
    → (a.id == job.id) ≡ true
    → a ≡ job
unfolding count find_first
found_is_head q a job xs one found same = elim (Bool-cases (q a)) [
  | inl passes ↦ ground arith
  | inr fails ↦ absurd (
      ground
        (arith, count-zero_found (λ (j : TradeJob). j.id == job.id) q xs {a = job}, ==_refl job.id))
]

update_one :
    (q : TradeJob → Bool) (f : TradeJob → TradeJob) (jobs : List TradeJob) (job : TradeJob)
    → count (λ (j : TradeJob). j.id == job.id) jobs ≤ 1
    → find_first q jobs ≡ some job
    → IsLawfulRow job (f job)
    → IsLawful jobs (update_many (λ j. j.id == job.id) f jobs)
unfolding update_many count find_first
update_one q f [] job one found row = tt
update_one q f (a ∷ xs) job one found row = elim (Bool-cases (a.id == job.id)) [
  | inl same ↦
      let here : a ≡ job = found_is_head q a job xs one found same in
      rw same (rw here row, IsLawful-update_none (λ j. j.id == job.id) f xs (ground arith))
  | inr other ↦
      rw other (IsLawfulRow-refl a, update_one q f xs job (ground arith) (ground arith) row)
]

-- So the update of the row that a query found, by its id, is lawful if it is so on that row.
pub IsLawful-update_one :
    (q : TradeJob → Bool) (f : TradeJob → TradeJob) (jobs : List TradeJob) (job : TradeJob)
    → HasUniqueIds jobs
    → find_first q jobs ≡ some job
    → IsLawfulRow job (f job)
    → IsLawful jobs (update_many (λ j. j.id == job.id) f jobs)
IsLawful-update_one q f jobs job unique = update_one q f jobs job (unique job.id)
