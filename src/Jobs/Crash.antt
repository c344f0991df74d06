-- ===== src/Jobs/Crash.antt =====
-- repositories/jobs.py, `claim_ready_jobs` and `recover_stale_running_jobs`: a job whose worker dies
-- each time.
use post_call_processing_pip.Common.{
  ℕ, zero, suc, ◌+◌, ◌-◌, ◌*◌, ◌≤◌, ◌≡◌, refl, ap, ◌∙◌, true, false, List, [], ◌∷◌, leb, ltb,
  ==_iff, ◌==◌, arith, update_where,
}
use post_call_processing_pip.Text.{Text}
use post_call_processing_pip.Settings.{Settings}
use post_call_processing_pip.Models.{
  Db, InteractionJob, JobType, orchestrate_interaction, llm_analysis, recording_fetch, signal_jobs,
  lead_stage_update, is_waiting, same_type,
}
use post_call_processing_pip.Jobs.{
  claim_row, recover_row, claim_ready_jobs, select_ready, is_ready, order_by, insert_row,
  contains_id, recover_stale_running_jobs, is_stale,
}
use post_call_processing_pip.Jobs.Invariant.{Operation, claims, recovers, operate, run}

-- The first time at which a lock of the time `t` is too old.
abbrev pub timed_out : Settings → ℕ → ℕ
timed_out s t = t + 1 + s.job_lock_timeout_seconds * 1_000_000

-- `n` times: a worker claims jobs of the type, dies, and another recovers the stale lock.
abbrev pub crashes : Settings → Text → JobType → ℕ → ℕ → List Operation
crashes s worker_id job_type zero t = []
crashes s worker_id job_type (suc n) t =
    claims (λ i. false) worker_id (job_type ∷ []) 1 t
    ∷ recovers worker_id (timed_out s t) (λ i. timed_out s t)
    ∷ crashes s worker_id job_type n (timed_out s t)

same_type_refl : (t : JobType) → same_type t t ≡ true
same_type_refl orchestrate_interaction = refl
same_type_refl llm_analysis = refl
same_type_refl recording_fetch = refl
same_type_refl signal_jobs = refl
same_type_refl lead_stage_update = refl

claims_one :
    (s : Settings) (worker_id : Text) (t : ℕ) (j : InteractionJob) (db : Db)
    → db.jobs ≡ j ∷ []
    → is_waiting j.status ≡ true
    → j.run_after ≤ t
    → operate s (claims (λ i. false) worker_id (j.job_type ∷ []) 1 t) db
      ≡ record db { jobs = claim_row worker_id t j ∷ [] }
unfolding operate claim_ready_jobs select_ready is_ready order_by insert_row contains_id
    update_where
claims_one s worker_id t j db only waits due =
    let this : (j.id == j.id) ≡ true = (==_iff j.id j.id).1 refl in
    let ready : leb j.run_after t ≡ true = ground arith in
    rw only (rw (same_type_refl j.job_type, waits, ready) (rw this refl))

recovers_one :
    (s : Settings) (worker_id : Text) (t : ℕ) (j : InteractionJob) (db : Db)
    → db.jobs ≡ claim_row worker_id t j ∷ []
    → operate s (recovers worker_id (timed_out s t) (λ i. timed_out s t)) db
      ≡ record db { jobs = recover_row worker_id (timed_out s t) (claim_row worker_id t j) ∷ [] }
unfolding operate recover_stale_running_jobs is_stale update_where
recovers_one s worker_id t j db only =
    let old : ltb t (timed_out s t - s.job_lock_timeout_seconds * 1_000_000) ≡ true =
      ground arith in
    rw only (rw old refl)

crashed : Settings → Text → ℕ → InteractionJob → InteractionJob
crashed s worker_id t j = recover_row worker_id (timed_out s t) (claim_row worker_id t j)

crash_once :
    (s : Settings) (worker_id : Text) (n t : ℕ) (j : InteractionJob) (db : Db)
    → db.jobs ≡ j ∷ []
    → is_waiting j.status ≡ true
    → j.run_after ≤ t
    → run s (crashes s worker_id j.job_type (suc n) t) db
      ≡ run s
          (crashes s worker_id j.job_type n (timed_out s t))
          (record db { jobs = crashed s worker_id t j ∷ [] })
unfolding run crashed
crash_once s worker_id n t j db only waits due =
    let left = crashes s worker_id j.job_type n (timed_out s t) in
    let claimed = record db { jobs = claim_row worker_id t j ∷ [] } in
    ap (λ d. run s left (operate s (recovers worker_id (timed_out s t) (λ i. timed_out s t)) d))
      (claims_one s worker_id t j db only waits due)
    ∙ ap (run s left) (recovers_one s worker_id t j claimed refl)

-- A waiting job, alone in its table, whose worker dies at each try: after any number of claims and
-- recoveries it still waits, with that many attempts more, whatever its `max_attempts`, and no
-- dead letter was written.
pub run-crashes :
    (s : Settings) (worker_id : Text) (n t : ℕ) (j : InteractionJob) (db : Db)
    → db.jobs ≡ j ∷ []
    → is_waiting j.status ≡ true
    → j.run_after ≤ t
    → let db' = run s (crashes s worker_id j.job_type n t) db in
      (k : InteractionJob) × (db'.jobs ≡ k ∷ [])
      × (is_waiting k.status ≡ true)
      × (k.attempts ≡ j.attempts + n)
      × (k.max_attempts ≡ j.max_attempts)
      × (db'.dead_letters ≡ db.dead_letters)
unfolding run crashed
run-crashes s worker_id zero t j db only waits due = (j, only, waits, omega arith, refl, refl)
run-crashes s worker_id (suc n) t j db only waits due =
    let row = crashed s worker_id t j in
    let (k, there, waits', counted, most, letters) =
      run-crashes s worker_id n (timed_out s t) row (record db { jobs = row ∷ [] }) refl refl
        (omega arith) in
    rw (crash_once s worker_id n t j db only waits due)
      (k, there, waits', omega (arith, counted), most, letters)
