-- ===== src/Ctrader/Reversal/Close.antt =====
-- `closeLegPosition` and `ensureRuntimeSymbol` of src/ctrader/ctrader-execution.service.ts.
use ctreader.Prelude.{
  ℕ, ◌==◌, Option, none, some, List, [], ◌∷◌, ltb, or_else, if◌then◌else◌, Exec, ok, err, skip,
  failure, ◌>>=◌, ◌>>◌,
}
use ctreader.Schema.{TradeJobLeg, closed_manual}
use ctreader.Ctrader.{WorkerEnv, World, Runtime, close_position, update_runtime, runtime_of}
use ctreader.Ctrader.Legs.{update_legs}

unfoldable pub closed_by_hand : ℕ → TradeJobLeg → TradeJobLeg
closed_by_hand now leg = record leg { status = closed_manual; closed_at = some now }

unfoldable pub learnt_lot : ℕ → Runtime → Runtime
learnt_lot lot r = record r { lot_size = some lot }

-- The lot size in the broker's details of the symbol is kept before it is looked at.
unfoldable pub learn_lot : ℕ → Option ℕ → Exec World ℕ
unfolding update_runtime learnt_lot
learn_lot job_id none w = (err (failure "Symbol details unavailable during recovery"), w)
learn_lot job_id (some lot) w = (
  if lot == 0 then err (failure "Invalid symbol lot size") else ok lot,
  update_runtime job_id (learnt_lot lot) w,
)

abbrev pub lot_of : ℕ → World → ℕ
lot_of job_id w = elim (runtime_of job_id w) [ none ↦ 0 | some r ↦ or_else r.lot_size 0 ]

-- `ensureRuntimeSymbol`: the size of a lot, asked for when it is missing or zero.
unfoldable pub ensure_runtime_symbol : WorkerEnv → ℕ → Exec World ℕ
unfolding runtime_of learn_lot
ensure_runtime_symbol env job_id w =
    if ltb 0 (lot_of job_id w)
    then (ok (lot_of job_id w), w)
    else learn_lot job_id (env.symbol_lot job_id) w

-- The request that closes a leg's position; a close that the broker refuses throws.
unfoldable pub send_close : WorkerEnv → ℕ → TradeJobLeg → ℕ → Exec World (Unit {0})
unfolding closed_by_hand update_legs
send_close env position_id leg lot w =
    let asked : World = record w {
      sent = close_position position_id (env.units leg.planned_volume lot) ∷ w.sent;
    } in
    if env.closes position_id
    then (ok tt, update_legs (λ l. l.id == leg.id) (closed_by_hand env.now) asked)
    else (err (failure "Request failed"), asked)

-- `closeLegPosition`.
unfoldable pub close_leg_position : WorkerEnv → ℕ → TradeJobLeg → Exec World (Unit {0})
unfolding ensure_runtime_symbol send_close
close_leg_position env job_id leg = elim leg.broker_position_id [
  | none ↦ skip
  | some position_id ↦ (do
    lot ← ensure_runtime_symbol env job_id
    send_close env position_id leg lot)
]

unfoldable pub close_leg_positions : WorkerEnv → ℕ → List TradeJobLeg → Exec World (Unit {0})
unfolding close_leg_position
close_leg_positions env job_id [] = skip
close_leg_positions env job_id (leg ∷ legs) = do
  close_leg_position env job_id leg
  close_leg_positions env job_id legs
