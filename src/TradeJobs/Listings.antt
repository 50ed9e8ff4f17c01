-- ===== src/TradeJobs/Listings.antt =====
-- The listings of a user's jobs in src/trade-jobs/trade-jobs.service.ts: the active ones, the last
-- ones that ended, and the last ones of cTrader.
use ctreader.Prelude.{
  ℕ, ◌-◌, ◌≡◌, refl, Bool, true, false, ◌&&◌, some, List, [], ◌∷◌, arith, ◌==◌, Exec, ok, not_found,
  gets, require, ◌>>=◌, find_first, find_many, IsOrdered, find_many-IsOrdered, take, keep, length,
  All, All-find_many, length-find_many, min, count, count-congr, Memᴰ, not, ap, sym, ◌∙◌,
}
use ctreader.Schema.{Db, User, TradeJob, ctrader}
use ctreader.TradeJobs.State.{
  TradeJobStatus, draft, includes, active_job_statuses, rejected, cancelled, expired, missed,
  closed,
}
use ctreader.TradeJobs.State.Terminal.{is_final}

abbrev pub final_job_statuses : List TradeJobStatus
final_job_statuses = rejected ∷ cancelled ∷ expired ∷ missed ∷ closed ∷ []

abbrev pub is_active_job : ℕ → TradeJob → Bool
is_active_job user_id job = job.user_id == user_id && includes active_job_statuses job.status

abbrev pub is_final_job : ℕ → TradeJob → Bool
is_final_job user_id job = job.user_id == user_id && includes final_job_statuses job.status

abbrev pub is_ctrader_job : ℕ → TradeJob → Bool
is_ctrader_job user_id job =
    job.user_id == user_id && elim (job.execution_venue) [ ctrader ↦ true | _ ↦ false ]

-- The user of a Telegram id, and the jobs that a query finds for the user.
unfoldable pub list_for : ℕ → (ℕ → Db → List TradeJob) → Exec Db (List TradeJob)
list_for telegram_id query = do
  found ← gets λ db. find_first (λ (u : User). u.telegram_id == telegram_id) db.users
  user ← require (not_found "Telegram user not found") found
  gets (query user.id)

unfoldable pub list_active_for_telegram_user : ℕ → Exec Db (List TradeJob)
unfolding list_for
list_active_for_telegram_user telegram_id =
    list_for telegram_id
      (λ user_id db. find_many (is_active_job user_id) (λ (j : TradeJob). j.execute_at) 20 db.jobs)

-- The newest first, at the time `now`.
unfoldable pub list_recent_final_for_telegram_user : ℕ → ℕ → Exec Db (List TradeJob)
unfolding list_for
list_recent_final_for_telegram_user now telegram_id = list_for telegram_id (λ user_id db.
    find_many (is_final_job user_id) (λ (j : TradeJob). now - j.updated_at) 3 db.jobs)

-- The table has the newest rows first.
unfoldable pub list_recent_ctrader_for_telegram_user : ℕ → Exec Db (List TradeJob)
unfolding list_for
list_recent_ctrader_for_telegram_user telegram_id =
    list_for telegram_id (λ user_id db. take 5 (keep (is_ctrader_job user_id) db.jobs))

-- A job that is neither a draft nor over.
abbrev pub is_under_way : TradeJobStatus → Bool
is_under_way draft = false
is_under_way status = not (is_final status)

active_under_way :
    (user_id : ℕ) (job : TradeJob)
    → is_active_job user_id job ≡ (job.user_id == user_id && is_under_way job.status)
active_under_way user_id job = ground arith

final_is_over :
    (user_id : ℕ) (job : TradeJob)
    → is_final_job user_id job ≡ (job.user_id == user_id && is_final job.status)
final_is_over user_id job = ground arith

-- A row of the table, of a user.
abbrev pub IsRowOf : ℕ → Db → TradeJob → Type 0
IsRowOf user_id db job = Memᴰ job db.jobs × (job.user_id ≡ user_id)

found_rows :
    (user_id limit : ℕ) (p : TradeJob → Bool) (q : TradeJobStatus → Bool) (key : TradeJob → ℕ)
    (db : Db)
    → ((job : TradeJob) → p job ≡ (job.user_id == user_id && q job.status))
    → All (λ job. IsRowOf user_id db job × (q job.status ≡ true)) (find_many p key limit db.jobs)
      × (length (find_many p key limit db.jobs)
          ≡ min limit (count (λ (j : TradeJob). j.user_id == user_id && q j.status) db.jobs))
found_rows user_id limit p q key db agree = (
  All-find_many (λ job. IsRowOf user_id db job × (q job.status ≡ true)) p key limit db.jobs
      λ job stored passes.
        let both = sym (agree job) ∙ passes in ((stored, ground arith), ground arith),
  length-find_many p key limit db.jobs
      ∙ ap (min limit)
          (count-congr p (λ (j : TradeJob). j.user_id == user_id && q j.status) db.jobs agree),
)

-- The two listings of a known user change nothing. That of the jobs under way has rows of the user
-- that are neither drafts nor over, in the order of their times: all of them, or 20 where there are
-- more. That of the ended ones has rows of the user that are over: all of them, or 3 where there are
-- more.
pub listings :
    (now telegram_id : ℕ) (db : Db) (user : User)
    → find_first (λ (u : User). u.telegram_id == telegram_id) db.users ≡ some user
    → (live : List TradeJob) × (ended : List TradeJob) × (list_active_for_telegram_user telegram_id
          db
        ≡ (ok live, db))
      × (list_recent_final_for_telegram_user now telegram_id db ≡ (ok ended, db))
      × IsOrdered (λ (j : TradeJob). j.execute_at) live
      × (All (λ job. IsRowOf user.id db job × (is_under_way job.status ≡ true)) live
          × (length live
              ≡ min 20 (
                  count (λ (j : TradeJob). j.user_id == user.id && is_under_way j.status) db.jobs)))
      × (All (λ job. IsRowOf user.id db job × (is_final job.status ≡ true)) ended
          × (length ended
              ≡ min 3
                  (count (λ (j : TradeJob). j.user_id == user.id && is_final j.status) db.jobs)))
unfolding list_active_for_telegram_user list_recent_final_for_telegram_user
listings now telegram_id db user found =
    let at = λ (j : TradeJob). j.execute_at in
    (
      _,
      _,
      rw found refl,
      rw found refl,
      find_many-IsOrdered (is_active_job user.id) at 20 db.jobs,
      found_rows user.id 20 (is_active_job user.id) is_under_way at db (active_under_way user.id),
      found_rows user.id 3 (is_final_job user.id) is_final (λ (j : TradeJob). now - j.updated_at) db
          (final_is_over user.id),
    )
