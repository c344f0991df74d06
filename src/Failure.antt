-- ===== src/Failure.antt =====
-- workers/failure_handler.py: `JobFailureHandler.handle`, where every worker's errors end.
pub mod Outcome
pub mod Retries
mod Tests
use post_call_processing_pip.Common.{
  ℕ, ◌-◌, ◌/◌, Bool, true, false, Option, none, some, ℤ, pos, if◌then◌else◌,
}
use post_call_processing_pip.Text.{Text, text}
use post_call_processing_pip.Json.{str, num, Fields, end, field}
use post_call_processing_pip.Runtime.{Runtime}
use post_call_processing_pip.Models.{
  Db, InteractionJob, workflow_retries_total, workflow_dead_letters_total,
}
use post_call_processing_pip.Retry.{ExponentialBackoffPolicy, RetryDecision, decide}
use post_call_processing_pip.Jobs.{defer, dead_letter}
use post_call_processing_pip.Interactions.{append_error}
use post_call_processing_pip.Audit.{emit, from_job, inc}

-- The keyword arguments of `handle`.
pub record Failure : Type 0 where
  pub stage : Text
  pub error_code : Text
  pub error_message : Text
  pub retry_after_seconds : Option ℤ
  pub retryable : Bool

-- The readings of the clock: for the decision, for the error log, and for the dead letter.
pub record Readings : Type 0 where
  pub decided : ℕ
  pub logged : ℕ
  pub closed : ℕ

abbrev pub schedule_retry : Runtime → InteractionJob → Failure → ℕ → ℕ → Db → Db
schedule_retry rt job f next_run_at delay_seconds db =
    emit (from_job job f.stage) (text "deferred") (text "job_retry_scheduled") (some f.error_code)
      (field (text "next_run_at") (str (rt.isoformat next_run_at)) (
        field (text "delay_seconds") (num (pos delay_seconds))
          (field (text "error_message") (str f.error_message) end)))
      (inc (workflow_retries_total job.job_type f.error_code)
        (defer job next_run_at f.error_code f.error_message db))

abbrev pub give_up : ℕ → InteractionJob → Failure → Db → Db
give_up now job f db =
    emit (from_job job f.stage) (text "dead_lettered") (text "job_moved_to_dead_letter")
      (some f.error_code) (field (text "error_message") (str f.error_message) end)
      (inc (workflow_dead_letters_total job.job_type f.error_code)
        (dead_letter now job f.stage f.error_code f.error_message db))

-- `decision and decision.should_retry and decision.next_run_at is not None`
abbrev pub planned : Option RetryDecision → Option (ℕ × ℕ)
planned none = none
planned (some d) =
    if d.should_retry
    then elim d.next_run_at [ none ↦ none | some t ↦ some (t, d.delay_seconds) ]
    else none

abbrev pub decision_for :
    ExponentialBackoffPolicy → ℕ → InteractionJob → Failure → Option RetryDecision
decision_for policy now job f =
    if f.retryable
    then some (decide policy job.attempts job.max_attempts now f.retry_after_seconds)
    else none

unfoldable pub handle :
    Runtime → ExponentialBackoffPolicy → Readings → InteractionJob → Failure → Db → Db
unfolding append_error emit inc defer dead_letter
handle rt policy clock job f db =
    let decision = decision_for policy clock.decided job f in
    let logged =
      append_error rt clock.logged job.interaction_id f.stage f.error_code f.error_message db in
    elim (planned decision) [
      | some (next_run_at, delay) ↦ schedule_retry rt job f next_run_at delay logged
      | none ↦ give_up clock.closed job f logged
    ]
