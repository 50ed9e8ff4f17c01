-- ===== src/TradeJobs/State/Forward.antt =====
-- The table of transitions only leads forward.
use ctreader.Prelude.{ℕ, ◌≡◌, ◌<◌, ◌⊎◌, true, arith}
use ctreader.TradeJobs.State.{
  TradeJobStatus, draft, scheduled, synced, armed, submitted, partially_filled, filled, managed,
  can_transition,
}

-- How far a job has come; all final statuses share the last rank.
abbrev pub rank : TradeJobStatus → ℕ
rank draft = 0
rank scheduled = 1
rank synced = 2
rank armed = 3
rank submitted = 4
rank partially_filled = 5
rank filled = 6
rank managed = 7
rank _ = 8

pub can_transition-forward :
    (a b : TradeJobStatus) → can_transition a b ≡ true → (a ≡ b) ⊎ (rank a < rank b)
unfolding can_transition
can_transition-forward draft b h = ground arith
can_transition-forward _ b h = ground arith
