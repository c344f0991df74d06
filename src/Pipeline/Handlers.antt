-- ===== src/Pipeline/Handlers.antt =====
-- The failure handler, the queueing of jobs and the webhook, as calls of the repositories.
use post_call_processing_pip.Common.{
  ℕ, refl, Option, none, some, ◌==◌, Bool-cases, Option-cases, inl, inr,
}
use post_call_processing_pip.Text.{Text}
use post_call_processing_pip.Json.{Fields}
use post_call_processing_pip.Settings.{Settings}
use post_call_processing_pip.Runtime.{Runtime}
use post_call_processing_pip.Attempt.{Attempt-cases}
use post_call_processing_pip.Models.{Db, InteractionJob, Interaction}
use post_call_processing_pip.Retry.{ExponentialBackoffPolicy}
use post_call_processing_pip.Jobs.{NewJob, create_if_absent, mark_succeeded, defer, dead_letter}
use post_call_processing_pip.Jobs.Invariant.{creates, succeeds, defers, dead_letters, operate}
use post_call_processing_pip.Interactions.{get, append_error, mark_ended}
use post_call_processing_pip.Interactions.Log.{Update, ends, fails, apply}
use post_call_processing_pip.Audit.{emit, inc}
use post_call_processing_pip.Failure.{Failure, Readings, handle, planned, decision_for}
use post_call_processing_pip.Webhook.{
  InteractionEndRequest, enqueue_interaction_ended, ended, nudge, accept, end_interaction,
  transcript_text, payload_of, new_job,
}
use post_call_processing_pip.Pipeline.{Trace, here, ◌▷◌, job_call, update_call, other_call}

module _ {s : Settings} {rt : Runtime} where
  pub create-Trace :
      (now : ℕ) (n : NewJob) (db : Db) → Trace s rt db (create_if_absent s now n db).1
  unfolding operate
  create-Trace now n db = job_call (creates now n) refl

  pub succeed-Trace :
      (now : ℕ) (job : InteractionJob) (result : Fields) (tokens : ℕ) (db : Db)
      → Trace s rt db (mark_succeeded now job result tokens db)
  unfolding operate
  succeed-Trace now job result tokens db = job_call (succeeds now job result tokens) refl

  pub defer-Trace :
      (job : InteractionJob) (run_after : ℕ) (code message : Text) (db : Db)
      → Trace s rt db (defer job run_after code message db)
  unfolding operate
  defer-Trace job run_after code message db = job_call (defers job run_after code message) refl

  dead_letter-Trace :
      (now : ℕ) (job : InteractionJob) (stage code message : Text) (db : Db)
      → Trace s rt db (dead_letter now job stage code message db)
  unfolding operate
  dead_letter-Trace now job stage code message db =
      job_call (dead_letters now job stage code message) refl

  pub update-Trace : (u : Update) (db : Db) → Trace s rt db (apply rt u db)
  update-Trace u db = update_call u refl

  pub handle-Trace :
      (policy : ExponentialBackoffPolicy) (clock : Readings) (job : InteractionJob) (f : Failure)
      (db : Db)
      → Trace s rt db (handle rt policy clock job f db)
  unfolding handle emit inc apply
  handle-Trace policy clock job f db =
      let logged =
        append_error rt clock.logged job.interaction_id f.stage f.error_code f.error_message db in
      let log =
        update-Trace (fails clock.logged job.interaction_id f.stage f.error_code f.error_message)
          db in
      elim (Option-cases (planned (decision_for policy clock.decided job f))) [
        | inl p ↦
            rw (p, handle)
              (log
                ▷ dead_letter-Trace clock.closed job f.stage f.error_code f.error_message logged
                ▷ other_call refl refl refl)
        | inr ((t, delay), p) ↦
            rw (p, handle)
              (log
                ▷ defer-Trace job t f.error_code f.error_message logged
                ▷ other_call refl refl refl)
      ]

  nudge-Trace :
      (n : Option (Text × Text)) (job : InteractionJob) (db : Db) → Trace s rt db (nudge n job db)
  unfolding nudge emit
  nudge-Trace none job db = here
  nudge-Trace (some (code, error)) job db = other_call refl refl refl

  accept-Trace :
      (ended_at now : ℕ) (i : Interaction) (request : InteractionEndRequest)
      (nudged : Option (Text × Text)) (db : Db)
      → Trace s rt db (accept s rt ended_at now i request nudged db).1
  unfolding accept enqueue_interaction_ended emit apply
  accept-Trace ended_at now i request nudged db =
      elim (Attempt-cases (transcript_text rt i.conversation_data)) [
        | inr (e, broken) ↦ rw (broken, enqueue_interaction_ended, accept) here
        | inl (t, read) ↦
            let e = ended i ended_at request in
            let n = new_job e (payload_of rt e request ended_at t) in
            let marked = mark_ended i ended_at request.duration_seconds request.call_sid db in
            rw (read, enqueue_interaction_ended, accept)
              (update-Trace (ends i ended_at request.duration_seconds request.call_sid) db
                ▷ create-Trace now n marked
                ▷ other_call refl refl refl
                ▷ nudge-Trace nudged _ _)
      ]

  -- A delivery of the webhook.
  pub end_interaction-Trace :
      (signature : Option ℕ) (ended_at now session_id interaction_id : ℕ)
      (request : InteractionEndRequest) (nudged : Option (Text × Text)) (db : Db)
      → Trace s rt db
          (end_interaction s rt signature ended_at now session_id interaction_id request nudged
            db).1
  unfolding end_interaction
  end_interaction-Trace (some code) ended_at now session_id interaction_id request nudged db = here
  end_interaction-Trace none ended_at now session_id interaction_id request nudged db =
      elim (Option-cases (get interaction_id db)) [
        | inl gone ↦ rw (gone, end_interaction) here
        | inr (i, found) ↦ elim (Bool-cases (i.session_id == session_id)) [
          | inr other ↦ rw (found, other, end_interaction) here
          | inl own ↦
              rw (found, own, end_interaction) (accept-Trace ended_at now i request nudged db)
        ]
      ]
