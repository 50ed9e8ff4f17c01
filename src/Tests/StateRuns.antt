-- ===== src/Tests/StateRuns.antt =====
-- The tests of test/trade-job-state.spec.ts, and the theorems on the table at concrete statuses.
use ctreader.Prelude.{◌≡◌, refl, ◌<◌, ◌↔◌, ◌⊎◌, true, false, none, some}
use ctreader.TradeJobs.State.{
  TradeJobStatus, ExecutionPhase, draft, synced, armed, submitted, partially_filled, filled,
  managed, closed, rejected, missed, can_transition, status_for_phase,
}
use ctreader.TradeJobs.State.Forward.{rank, can_transition-forward}
use ctreader.TradeJobs.State.Terminal.{is_final, ◌⟶*◌, final_iff_stuck, ⟶*-closed, recovery}

phases :
    (status_for_phase ExecutionPhase.armed ≡ some armed)
    × (status_for_phase ExecutionPhase.accepted ≡ some submitted)
    × (status_for_phase ExecutionPhase.preflight_rejected ≡ some rejected)
    × (status_for_phase ExecutionPhase.error ≡ none)
unfolding status_for_phase
phases = (refl, refl, refl, refl)

normal_path :
    (can_transition synced armed ≡ true)
    × (can_transition armed submitted ≡ true)
    × (can_transition submitted filled ≡ true)
    × (can_transition filled closed ≡ true)
    × (can_transition synced filled ≡ true)
unfolding can_transition
normal_path = (refl, refl, refl, refl, refl)

no_regression :
    (can_transition closed submitted ≡ false)
    × (can_transition rejected armed ≡ false)
    × (can_transition missed filled ≡ false)
unfolding can_transition
no_regression = (refl, refl, refl)

can_transition-forward_example : ◌≡◌ {A = TradeJobStatus} armed filled ⊎ (rank armed < rank filled)
unfolding can_transition
can_transition-forward_example = can_transition-forward armed filled refl

final_iff_stuck_example :
    (is_final closed ≡ true) ↔ ((b : TradeJobStatus) → can_transition closed b ≡ true → closed ≡ b)
final_iff_stuck_example = final_iff_stuck closed

⟶*-closed_example : synced ⟶* closed
⟶*-closed_example = ⟶*-closed synced refl

recovery_example :
    (can_transition armed closed ≡ true)
    ⊎ ◌≡◌ {A = TradeJobStatus} armed draft
    ⊎ (◌≡◌ {A = TradeJobStatus} closed closed × (rank armed < rank submitted))
    ⊎ (◌≡◌ {A = TradeJobStatus} closed managed × (rank armed < rank partially_filled))
unfolding can_transition
recovery_example = recovery armed filled closed refl refl
