-- ===== src/TradeJobs/Onward.antt =====
-- How the table of jobs may change over a longer time: no row is lost, and each status stays or
-- moves to a higher rank.
use ctreader.Prelude.{
  ◌≡◌, ◌<◌, ◌⊎◌, refl, ◌∙◌, inl, inr, Bool, true, Bool-cases, List, [], ◌∷◌, arith, update_many,
}
use ctreader.Schema.{TradeJob}
use ctreader.TradeJobs.State.Forward.{rank}

-- A row before and after: the same job of the same user, as it was or further on.
pub record IsOnwardRow (a b : TradeJob) : Type 0 where
  pub same_id : b.id ≡ a.id
  pub same_user : b.user_id ≡ a.user_id
  pub further : (a.status ≡ b.status) ⊎ (rank a.status < rank b.status)

abbrev pub IsOnward : List TradeJob → List TradeJob → Type 0
IsOnward [] [] = Unit
IsOnward [] (b ∷ ys) = ⊥
IsOnward (a ∷ xs) [] = ⊥
IsOnward (a ∷ xs) (b ∷ ys) = IsOnwardRow a b × IsOnward xs ys

IsOnwardRow-refl : (a : TradeJob) → IsOnwardRow a a
IsOnwardRow-refl a = record { same_id = refl; same_user = refl; further = inl refl }

pub IsOnward-refl : (xs : List TradeJob) → IsOnward xs xs
IsOnward-refl [] = tt
IsOnward-refl (a ∷ xs) = (IsOnwardRow-refl a, IsOnward-refl xs)

IsOnwardRow-trans : (a b c : TradeJob) → IsOnwardRow a b → IsOnwardRow b c → IsOnwardRow a c
IsOnwardRow-trans a b c p q = record {
  same_id = q.same_id ∙ p.same_id;
  same_user = q.same_user ∙ p.same_user;
  further = elim (p.further) [
    | inl same ↦ elim (q.further) [ inl again ↦ inl (same ∙ again) | inr more ↦ inr (rw same more) ]
    | inr less ↦ elim (q.further) [
      | inl again ↦ inr (rw again at less)
      | inr more ↦ inr (omega arith)
    ]
  ];
}

pub IsOnward-trans : (xs ys zs : List TradeJob) → IsOnward xs ys → IsOnward ys zs → IsOnward xs zs
IsOnward-trans [] [] [] p q = tt
IsOnward-trans [] (b ∷ ys) zs p q = absurd p
IsOnward-trans (a ∷ xs) [] zs p q = absurd p
IsOnward-trans [] [] (c ∷ zs) p q = absurd q
IsOnward-trans (a ∷ xs) (b ∷ ys) [] p q = absurd q
IsOnward-trans (a ∷ xs) (b ∷ ys) (c ∷ zs) (p, ps) (q, qs) =
    (IsOnwardRow-trans a b c p q, IsOnward-trans xs ys zs ps qs)

-- An update is onward if it is so on the rows that it changes.
pub IsOnward-update_many :
    (p : TradeJob → Bool) (f : TradeJob → TradeJob) (jobs : List TradeJob)
    → ((a : TradeJob) → p a ≡ true → IsOnwardRow a (f a))
    → IsOnward jobs (update_many p f jobs)
unfolding update_many
IsOnward-update_many p f [] h = tt
IsOnward-update_many p f (a ∷ xs) h = elim (Bool-cases (p a)) [
  | inl changed ↦ rw changed (h a changed, IsOnward-update_many p f xs h)
  | inr kept ↦ rw kept (IsOnwardRow-refl a, IsOnward-update_many p f xs h)
]

-- A change of columns other than the status.
pub same_row :
    (a b : TradeJob) → b.id ≡ a.id → b.user_id ≡ a.user_id → b.status ≡ a.status → IsOnwardRow a b
same_row a b i u s = record { same_id = i; same_user = u; further = inl (ground arith) }
