-- ===== src/Jobs/Stale.antt =====
-- repositories/jobs.py, `recover_stale_running_jobs`.
use post_call_processing_pip.Common.{
  ℕ, ◌-◌, ◌*◌, ◌≤◌, ◌<◌, ◌≡◌, refl, ◌⊎◌, true, false, Option, some, none, arith, All,
  All-update_where_new, find-update_where, if◌then◌else◌, inl, inr, Bool-cases, ◌&&◌, ◌==◌, ◌∙◌,
  ◌++◌,
}
use post_call_processing_pip.Text.{Text, text}
use post_call_processing_pip.Settings.{Settings}
use post_call_processing_pip.Models.{
  Db, InteractionJob, JobStatus, pending, running, deferred, succeeded, failed, dead_lettered,
  is_running,
}
use post_call_processing_pip.Jobs.{
  get, is_before, is_stale, recover_row, recover_stale_running_jobs,
}

-- A running job's lock is not older than the cutoff.
abbrev pub IsLive : ℕ → JobStatus → Option ℕ → Type 0
IsLive cutoff running (some t) = cutoff ≤ t
IsLive cutoff _ _ = Unit

not_stale :
    (cutoff : ℕ) (j : InteractionJob)
    → is_stale cutoff j ≡ false
    → IsLive cutoff j.status j.locked_at
unfolding is_stale
not_stale cutoff j e = go j.status j.locked_at e
  where
    go :
        (s : JobStatus) (l : Option ℕ)
        → is_running s && is_before l cutoff ≡ false
        → IsLive cutoff s l
    go running (some t) h = ground arith
    go running none h = tt
    go pending l h = tt
    go deferred l h = tt
    go succeeded l h = tt
    go failed l h = tt
    go dead_lettered l h = tt

stale :
    (cutoff : ℕ) (j : InteractionJob)
    → is_stale cutoff j ≡ true
    → (j.status ≡ running) × ((t : ℕ) × (j.locked_at ≡ some t) × (t < cutoff))
unfolding is_stale
stale cutoff j e = ground arith

settled :
    (cutoff now : ℕ) (worker_id : Text) (j : InteractionJob)
    → let j' = if is_stale cutoff j then recover_row worker_id now j else j in
      IsLive cutoff j'.status j'.locked_at
settled cutoff now worker_id j = elim (Bool-cases (is_stale cutoff j)) [
  | inl e ↦ rw e tt
  | inr e ↦ rw e (not_stale cutoff j e)
]

module _ (s : Settings) (worker_id : Text) (now : ℕ) (clock : ℕ → ℕ) (db : Db) where
  abbrev cutoff : ℕ
  cutoff = now - s.job_lock_timeout_seconds * 1_000_000

  abbrev recovered : Db
  recovered = (recover_stale_running_jobs s worker_id now clock db).1

  -- After a recovery no running job's lock is older than the timeout.
  pub recover_stale_running_jobs-IsLive :
      All (λ j. IsLive cutoff j.status j.locked_at) recovered.jobs
  unfolding recover_stale_running_jobs
  recover_stale_running_jobs-IsLive =
      All-update_where_new _ _ _ (λ j. settled cutoff (clock j.id) worker_id j) db.jobs

  -- A job of the table that was running under a lock older than the timeout is DEFERRED, unlocked,
  -- due from the reading of the clock, and has the error WORKER_LOCK_TIMEOUT; its other columns, the
  -- attempts among them, are as before. Any other job is left as it was.
  pub recover_stale_running_jobs_rows :
      (i : ℕ) (j : InteractionJob)
      → get i db ≡ some j
      → ((j.status ≡ running)
          × ((t : ℕ) × (j.locked_at ≡ some t) × (t < cutoff))
          × (get i recovered
              ≡ some (record j {
                status = deferred;
                locked_by = none;
                locked_at = none;
                run_after = clock j.id;
                last_error_code = some (text "WORKER_LOCK_TIMEOUT");
                last_error_message = some (text "Recovered stale lock by " ++ worker_id);
              })))
        ⊎ (IsLive cutoff j.status j.locked_at × (get i recovered ≡ some j))
  unfolding recover_stale_running_jobs
  recover_stale_running_jobs_rows i j e =
      let after =
        find-update_where (λ j. j.id == i) (is_stale cutoff)
          (λ j. recover_row worker_id (clock j.id) j) (λ _. refl) db.jobs in
      elim (Bool-cases (is_stale cutoff j)) [
        | inl old ↦ inl ((stale cutoff j old).0, (stale cutoff j old).1, after ∙ rw (e, old))
        | inr new ↦ inr (not_stale cutoff j new, after ∙ rw (e, new))
      ]
