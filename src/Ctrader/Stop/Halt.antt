-- ===== src/Ctrader/Stop/Halt.antt =====
-- What a round of the kill switch reaches, and that no order is placed while trading is halted.
use ctreader.Prelude.{
  ℕ, ◌≡◌, ◌∙◌, refl, ◌⊎◌, inl, inr, Bool, true, false, Bool-cases, Option, List, [], ◌∷◌, arith,
  any, All, count, count-update_clears, count-update_le, update_many, ◌==◌, ==_refl, Exception,
  Result, ok, err, Option-cases, forbidden,
}
use ctreader.Config.{Config}
use ctreader.Schema.{Db, TradeJob}
use ctreader.Safety.{status, SafetyStatus, read_control, assert_trading_open}
use ctreader.Ctrader.{
  WorkerEnv, World, Runtime, Request, OrderDraft, new_order, cancel_order, close_position,
  cancel_all, cancel, update_runtime, update_jobs, report, finish, forget,
}
use ctreader.Ctrader.Onward.{cancelled_jobs}
use ctreader.Ctrader.Orders.{is_unfilled, place, in_db}
use ctreader.Ctrader.Stop.{
  halt_runtime, halt_runtimes, halted_runtime, mark_halted, heed_status, enforce_kill_switch,
}

abbrev pub is_cancel_of : ℕ → Request → Bool
is_cancel_of id (new_order j o draft) = false
is_cancel_of id (cancel_order o) = o == id
is_cancel_of id (close_position p v) = false

-- The orders of a runtime were asked to be cancelled, and unless one had filled its job does not
-- wait for a fill any more. A runtime that was handled before is left alone.
abbrev pub IsStopped : World → Runtime → Type 0
IsStopped w r =
    (r.halt_handled ≡ true)
    ⊎ (All (λ id. any (is_cancel_of id) w.sent ≡ true) r.order_ids
        × ((r.filled ≡ true) ⊎ (count (is_unfilled r.job_id) w.db.jobs ≡ 0)))

cancel_all_keeps :
    (p : Request → Bool) (ids : List ℕ) (w : World)
    → any p w.sent ≡ true
    → any p (cancel_all ids w).sent ≡ true
unfolding cancel_all cancel
cancel_all_keeps p [] w h = h
cancel_all_keeps p (id ∷ ids) w h = cancel_all_keeps p ids _ (ground arith)

cancel_all_asks :
    (ids : List ℕ) (w : World)
    → All (λ id. any (is_cancel_of id) (cancel_all ids w).sent ≡ true) ids
unfolding cancel_all
cancel_all_asks [] w = tt
cancel_all_asks (id ∷ ids) w = (
  cancel_all_keeps (is_cancel_of id) ids (cancel id w)
      (unfold cancel in ground (arith, ==_refl id)),
  cancel_all_asks ids (cancel id w),
)

halted_sent :
    (env : WorkerEnv) (r : Runtime) (w : World)
    → r.halt_handled ≡ false
    → (halt_runtime env r w).sent
      ≡ (cancel_all r.order_ids (update_runtime r.job_id halted_runtime w)).sent
unfolding halt_runtime finish forget report update_jobs
halted_sent env r w fresh = ground arith

handled_same :
    (env : WorkerEnv) (r : Runtime) (w : World) → r.halt_handled ≡ true → halt_runtime env r w ≡ w
unfolding halt_runtime
handled_same env r w done = rw done refl

-- What was asked stays asked.
asked_stays :
    (env : WorkerEnv) (r : Runtime) (p : Request → Bool) (w : World)
    → any p w.sent ≡ true
    → any p (halt_runtime env r w).sent ≡ true
asked_stays env r p w h = elim (Bool-cases r.halt_handled) [
  | inl done ↦ rw (handled_same env r w done) h
  | inr fresh ↦ rw (halted_sent env r w fresh) (
      cancel_all_keeps p r.order_ids (update_runtime r.job_id halted_runtime w)
        (unfold update_runtime in h))
]

halted_not_unfilled :
    (k job_id now : ℕ) (a : TradeJob)
    → is_unfilled k a ≡ true
    → is_unfilled job_id (mark_halted now a) ≡ false
unfolding is_unfilled mark_halted
halted_not_unfilled k job_id now a h = ground arith

pub halted_jobs :
    (env : WorkerEnv) (r : Runtime) (w : World)
    → ((halt_runtime env r w).db.jobs ≡ w.db.jobs)
      ⊎ ((halt_runtime env r w).db.jobs
          ≡ update_many (is_unfilled r.job_id) (mark_halted env.now) w.db.jobs)
unfolding halt_runtime finish forget report update_jobs update_runtime
halted_jobs env r w =
    ground (arith, cancelled_jobs r.order_ids (update_runtime r.job_id halted_runtime w))

stopped_jobs :
    (env : WorkerEnv) (r : Runtime) (w : World)
    → r.halt_handled ≡ false
    → r.filled ≡ false
    → (halt_runtime env r w).db.jobs
      ≡ update_many (is_unfilled r.job_id) (mark_halted env.now) w.db.jobs
unfolding halt_runtime finish forget report update_jobs update_runtime
stopped_jobs env r w fresh pending =
    ground (arith, cancelled_jobs r.order_ids (update_runtime r.job_id halted_runtime w))

-- A job that waits for no fill waits for none later.
idle_stays :
    (env : WorkerEnv) (r : Runtime) (job_id : ℕ) (w : World)
    → count (is_unfilled job_id) w.db.jobs ≡ 0
    → count (is_unfilled job_id) (halt_runtime env r w).db.jobs ≡ 0
idle_stays env r job_id w h =
    let le =
      count-update_le (is_unfilled r.job_id) (is_unfilled job_id) (mark_halted env.now) w.db.jobs
        λ a p q. ground (arith, halted_not_unfilled r.job_id job_id env.now a p) in
    elim (halted_jobs env r w) [ inl same ↦ rw same h | inr moved ↦ rw moved (omega arith) ]

All-stays :
    (p : ℕ → Request → Bool) (env : WorkerEnv) (r : Runtime) (ids : List ℕ) (w : World)
    → All (λ id. any (p id) w.sent ≡ true) ids
    → All (λ id. any (p id) (halt_runtime env r w).sent ≡ true) ids
All-stays p env r [] w h = tt
All-stays p env r (id ∷ ids) w (h, rest) =
    (asked_stays env r (p id) w h, All-stays p env r ids w rest)

IsStopped-stays :
    (env : WorkerEnv) (r other : Runtime) (w : World)
    → IsStopped w other
    → IsStopped (halt_runtime env r w) other
IsStopped-stays env r other w (inl done) = inl done
IsStopped-stays env r other w (inr (asked, inl filled)) =
    inr (All-stays is_cancel_of env r other.order_ids w asked, inl filled)
IsStopped-stays env r other w (inr (asked, inr idle)) = inr (
  All-stays is_cancel_of env r other.order_ids w asked,
  inr (idle_stays env r other.job_id w idle),
)

halt_runtime-IsStopped :
    (env : WorkerEnv) (r : Runtime) (w : World) → IsStopped (halt_runtime env r w) r
halt_runtime-IsStopped env r w = elim (Bool-cases r.halt_handled) [
  | inl done ↦ inl done
  | inr fresh ↦
      let asked = cancel_all_asks r.order_ids (update_runtime r.job_id halted_runtime w) in
      inr (
        rw (halted_sent env r w fresh) asked,
        elim (Bool-cases r.filled) [
          | inl filled ↦ inl filled
          | inr pending ↦ inr (
              rw (stopped_jobs env r w fresh pending) (
                count-update_clears (is_unfilled r.job_id) (mark_halted env.now) w.db.jobs
                  (halted_not_unfilled r.job_id r.job_id env.now)))
        ],
      )
]

IsStopped-through :
    (env : WorkerEnv) (other : Runtime) (rs : List Runtime) (w : World)
    → IsStopped w other
    → IsStopped (halt_runtimes env rs w) other
unfolding halt_runtimes
IsStopped-through env other [] w h = h
IsStopped-through env other (r ∷ rs) w h =
    IsStopped-through env other rs (halt_runtime env r w) (IsStopped-stays env r other w h)

All-IsStopped :
    (env : WorkerEnv) (rs : List Runtime) (w : World) → All (IsStopped (halt_runtimes env rs w)) rs
unfolding halt_runtimes
All-IsStopped env [] w = tt
All-IsStopped env (r ∷ rs) w = (
  IsStopped-through env r rs (halt_runtime env r w) (halt_runtime-IsStopped env r w),
  All-IsStopped env rs (halt_runtime env r w),
)

cancelled_control : (ids : List ℕ) (w : World) → (cancel_all ids w).db.control ≡ w.db.control
unfolding cancel_all cancel
cancelled_control [] w = refl
cancelled_control (id ∷ ids) w = cancelled_control ids _

halted_control :
    (env : WorkerEnv) (r : Runtime) (w : World) → (halt_runtime env r w).db.control ≡ w.db.control
unfolding halt_runtime finish forget report update_jobs update_runtime
halted_control env r w =
    ground (arith, cancelled_control r.order_ids (update_runtime r.job_id halted_runtime w))

all_halted_control :
    (env : WorkerEnv) (rs : List Runtime) (w : World)
    → (halt_runtimes env rs w).db.control ≡ w.db.control
unfolding halt_runtimes
all_halted_control env [] w = refl
all_halted_control env (r ∷ rs) w =
    all_halted_control env rs (halt_runtime env r w) ∙ halted_control env r w

-- While the row of the switch is the one that was read, an order is refused.
while_halted :
    (cfg : Config) (env : WorkerEnv) (job_id : ℕ) (draft : OrderDraft) (answer : Option ℕ) (db : Db)
    (t : World) (s : SafetyStatus)
    → (status cfg db).0 ≡ ok s
    → s.halted ≡ true
    → t.db.control ≡ (status cfg db).1.control
    → (x : Exception) × ((place cfg env job_id draft answer t).0 ≡ err x)
unfolding place in_db assert_trading_open status read_control
while_halted cfg env job_id draft answer db t s read halted same = elim (Option-cases db.control) [
  | inl missing ↦ (forbidden "Trading is halted", ground arith)
  | inr (c, there) ↦ (forbidden "Trading is halted", ground arith)
]

heeded :
    (env : WorkerEnv) (w : World) (r : Result SafetyStatus × Db) (s : SafetyStatus)
    → r.0 ≡ ok s
    → s.halted ≡ true
    → heed_status env w r ≡ halt_runtimes env w.runtimes (record w { db = r.1 })
unfolding heed_status
heeded env w (ok a, db) s read halted = let on : a.halted ≡ true = ground arith in rw on refl
heeded env w (err x, db) s read halted = absurd (ground arith)

-- When a round of the kill switch finds trading halted, then after it every runtime of the worker
-- that was not handled before has had each of its orders asked to be cancelled, and its job is
-- neither ARMED nor SUBMITTED unless an order had filled; and the placing of any order for any job
-- throws.
pub enforce_kill_switch-IsStopped :
    (cfg : Config) (env : WorkerEnv) (w : World) (s : SafetyStatus) (job_id : ℕ)
    (draft : OrderDraft) (answer : Option ℕ)
    → (status cfg w.db).0 ≡ ok s
    → s.halted ≡ true
    → All (IsStopped (enforce_kill_switch cfg env w)) w.runtimes
      × (x : Exception) × ((place cfg env job_id draft answer (enforce_kill_switch cfg env w)).0
          ≡ err x)
unfolding enforce_kill_switch
enforce_kill_switch-IsStopped cfg env w s job_id draft answer read halted =
    let v : World = record w { db = (status cfg w.db).1 } in
    let t = halt_runtimes env w.runtimes v in
    let (x, no_order) =
      while_halted cfg env job_id draft answer w.db t s read halted
        (all_halted_control env w.runtimes v) in
    rw (heeded env w (status cfg w.db) s read halted) (All-IsStopped env w.runtimes v, x, no_order)
