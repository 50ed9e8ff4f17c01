-- ===== src/TradeJobs/State/Terminal.antt =====
-- The final statuses, how every other status leads to one, and where a lost report cannot be
-- made up for.
use ctreader.TradeJobs.State.Forward.{rank}
use ctreader.Prelude.{Bool-cases, inl, inr, ◌<◌, refl, ◌≡◌, ◌≢◌, ◌↔◌, ◌⊎◌, Bool, true, false, arith}
use ctreader.TradeJobs.State.{
  TradeJobStatus, draft, scheduled, synced, armed, submitted, partially_filled, filled, managed,
  rejected, closed, cancelled, expired, missed, can_transition,
}

abbrev pub is_final : TradeJobStatus → Bool
is_final rejected = true
is_final closed = true
is_final cancelled = true
is_final expired = true
is_final missed = true
is_final _ = false

infix 40 ◌⟶*◌
pub data ◌⟶*◌ : TradeJobStatus → TradeJobStatus → Type 0 where
  here : {a : TradeJobStatus} → a ⟶* a
  next : {a b c : TradeJobStatus} → can_transition a b ≡ true → b ⟶* c → a ⟶* c

final_stays : (a b : TradeJobStatus) → is_final a ≡ true → can_transition a b ≡ true → a ≡ b
unfolding can_transition
final_stays draft b h p = ground arith
final_stays _ b h p = ground arith

-- A status that is not final has a transition to another one.
live_moves :
    (a : TradeJobStatus)
    → is_final a ≡ false
    → (b : TradeJobStatus) × (can_transition a b ≡ true) × (a ≢ b)
unfolding can_transition
live_moves draft h = (cancelled, ground arith, λ e. cc)
live_moves scheduled h = (cancelled, ground arith, λ e. cc)
live_moves synced h = (cancelled, ground arith, λ e. cc)
live_moves armed h = (cancelled, ground arith, λ e. cc)
live_moves submitted h = (cancelled, ground arith, λ e. cc)
live_moves partially_filled h = (cancelled, ground arith, λ e. cc)
live_moves filled h = (closed, ground arith, λ e. cc)
live_moves managed h = (closed, ground arith, λ e. cc)
live_moves _ h = cc

-- A status is final exactly when the table allows no change of it.
pub final_iff_stuck :
    (a : TradeJobStatus)
    → (is_final a ≡ true) ↔ ((b : TradeJobStatus) → can_transition a b ≡ true → a ≡ b)
final_iff_stuck a = (
  λ h b p. final_stays a b h p,
  λ stuck. elim (Bool-cases (is_final a)) [
    | inl final ↦ final
    | inr live ↦ let (b, allowed, other) = live_moves a live in absurd (other (stuck b allowed))
  ],
)

-- Every status that is not final has a way to `closed`.
pub ⟶*-closed : (a : TradeJobStatus) → is_final a ≡ false → a ⟶* closed
unfolding can_transition
⟶*-closed draft h =
    next {b = scheduled} (ground arith)
      (next {b = submitted} (ground arith) (next (ground arith) here))
⟶*-closed scheduled h = next {b = submitted} (ground arith) (next (ground arith) here)
⟶*-closed synced h = next {b = submitted} (ground arith) (next (ground arith) here)
⟶*-closed armed h = next {b = submitted} (ground arith) (next (ground arith) here)
⟶*-closed submitted h = next (ground arith) here
⟶*-closed partially_filled h = next (ground arith) here
⟶*-closed filled h = next (ground arith) here
⟶*-closed managed h = next (ground arith) here
⟶*-closed _ h = cc

-- Where a report that was lost can be made up for by the next one: if `a` may become `b` and `b`
-- may become `c`, then `a` may become `c` at once, but for a draft, for the close of a job that
-- was not known to be submitted, and for a managed job that was not known to be filled.
pub recovery :
    (a b c : TradeJobStatus)
    → can_transition a b ≡ true
    → can_transition b c ≡ true
    → (can_transition a c ≡ true)
      ⊎ (a ≡ draft)
      ⊎ ((c ≡ closed) × (rank a < rank submitted))
      ⊎ ((c ≡ managed) × (rank a < rank partially_filled))
unfolding can_transition
recovery draft b c p q = ground arith
recovery _ b c p q = ground arith

-- The exceptions are real: the close of a position is refused while the job stands at `armed`.
pub armed_close_refused : can_transition armed closed ≡ false
unfolding can_transition
armed_close_refused = refl
