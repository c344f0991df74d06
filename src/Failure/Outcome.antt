-- ===== src/Failure/Outcome.antt =====
-- workers/failure_handler.py: what becomes of a job that failed.
use post_call_processing_pip.Common.{
  ℕ, ◌≤◌, ◌<◌, ◌≡◌, ◌≢◌, refl, ◌⊎◌, inl, inr, Bool, true, false, none, some, [], ◌∷◌, ◌++◌, ◌==◌,
  find-update_where-some, find-passes, Option-cases, Bool-cases, ◌∙◌, arith,
}
use post_call_processing_pip.Runtime.{Runtime}
use post_call_processing_pip.Models.{Db, InteractionJob}
use post_call_processing_pip.Retry.{ExponentialBackoffPolicy, RetryDecision, decide, plus_seconds}
use post_call_processing_pip.Retry.Bounds.{decide_lem}
use post_call_processing_pip.Jobs.{get, defer_row, dead_letter_row, dead_letter_of}
use post_call_processing_pip.Jobs.Lookup.{find-update_where_ne}
use post_call_processing_pip.Failure.{Failure, Readings, handle, planned, decision_for}

module _ (rt : Runtime) (policy : ExponentialBackoffPolicy) (clock : Readings)
    (job : InteractionJob) (f : Failure) (db : Db) where
  abbrev handled : Db
  handled = handle rt policy clock job f db

  pub deferred_row :
      (t delay : ℕ)
      → planned (decision_for policy clock.decided job f) ≡ some (t, delay)
      → get job.id db ≡ some job
      → (get job.id handled ≡ some (defer_row t f.error_code f.error_message job))
        × (handled.dead_letters ≡ db.dead_letters)
  unfolding handle
  deferred_row t delay p e =
      rw (p, handle)
        (
          find-update_where-some own own (defer_row t f.error_code f.error_message) (λ _. refl)
                db.jobs e
              ∙ rw itself,
          refl,
        )
    where
      own : InteractionJob → Bool
      own j = j.id == job.id

      itself : own job ≡ true
      itself = find-passes own db.jobs e

  dead_row :
      planned (decision_for policy clock.decided job f) ≡ none
      → get job.id db ≡ some job
      → (get job.id handled ≡ some (dead_letter_row clock.closed f.error_code f.error_message job))
        × (handled.dead_letters
            ≡ db.dead_letters ++ dead_letter_of job f.stage f.error_code f.error_message ∷ [])
  unfolding handle
  dead_row p e =
      rw (p, handle)
        (
          find-update_where-some own own (dead_letter_row clock.closed f.error_code f.error_message)
                (λ _. refl) db.jobs e
              ∙ rw itself,
          refl,
        )
    where
      own : InteractionJob → Bool
      own j = j.id == job.id

      itself : own job ≡ true
      itself = find-passes own db.jobs e

  -- When a job of the table fails, under a policy with a positive base and maximum: if the failure
  -- is retryable and attempts are left, its row waits, unlocked, for a time after now and at most
  -- the longest delay away, and no dead letter is written; otherwise its row is dead-lettered and
  -- one dead letter with its data is added.
  pub handle_lem :
      get job.id db ≡ some job
      → 0 < policy.base_seconds
      → 0 < policy.max_seconds
      → ((f.retryable ≡ true)
          × (job.attempts < job.max_attempts)
          × ((t : ℕ) × (get job.id handled ≡ some (defer_row t f.error_code f.error_message job))
              × (clock.decided < t)
              × (t ≤ plus_seconds clock.decided policy.max_seconds))
          × (handled.dead_letters ≡ db.dead_letters))
        ⊎ (((f.retryable ≡ false) ⊎ (job.max_attempts ≤ job.attempts))
            × (get job.id handled
                ≡ some (dead_letter_row clock.closed f.error_code f.error_message job))
            × (handled.dead_letters
                ≡ db.dead_letters ++ dead_letter_of job f.stage f.error_code f.error_message ∷ []))
  handle_lem e b m = elim (Bool-cases f.retryable) [
    | inr never ↦ let gone = dead_row (ground arith) e in inr (inl never, gone.0, gone.1)
    | inl may ↦
        elim (decide_lem policy job.attempts job.max_attempts clock.decided f.retry_after_seconds b
          m) [
            | inl (again, left, (t, at, after, within)) ↦
                let kept = deferred_row t (decided.delay_seconds) (ground arith) e in
                inl (may, left, (t, kept.0, after, within), kept.1)
            | inr (over, spent, never) ↦
                let gone = dead_row (ground arith) e in inr (inr spent, gone.0, gone.1)
          ]
  ]
    where
      decided : RetryDecision
      decided = decide policy job.attempts job.max_attempts clock.decided f.retry_after_seconds

  -- No other job's row changes.
  pub handle_others : (i : ℕ) → i ≢ job.id → get i handled ≡ get i db
  unfolding handle
  handle_others i other = elim (Option-cases (planned (decision_for policy clock.decided job f))) [
    | inl p ↦ rw (p, handle) (find-update_where_ne i job.id _ db.jobs other (λ _. refl))
    | inr ((t, delay), p) ↦
        rw (p, handle) (find-update_where_ne i job.id _ db.jobs other (λ _. refl))
  ]

  -- No lead changes.
  pub handle-leads : handled.leads ≡ db.leads
  unfolding handle
  handle-leads = elim (Option-cases (planned (decision_for policy clock.decided job f))) [
    | inl p ↦ rw (p, handle) refl
    | inr ((t, delay), p) ↦ rw (p, handle) refl
  ]
