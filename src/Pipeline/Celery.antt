-- ===== src/Pipeline/Celery.antt =====
-- tasks/celery_tasks.py: the old task and the tick of all workers, as operations.
use post_call_processing_pip.Common.{arith, Option-cases, ℕ, ◌≡◌, inl, inr, ap, sym}
use post_call_processing_pip.Json.{Fields}
use post_call_processing_pip.Settings.{Settings}
use post_call_processing_pip.Runtime.{Runtime}
use post_call_processing_pip.Attempt.{raise, stored, ok, bind-ok, ok-injective, Attempt-cases}
use post_call_processing_pip.Models.{Db, InteractionJob}
use post_call_processing_pip.Text.{text}
use post_call_processing_pip.Interactions.{get}
use post_call_processing_pip.Jobs.{NewJob, get_by_idempotency_key, create_if_absent}
use post_call_processing_pip.Jobs.Invariant.{creates, operate}
use post_call_processing_pip.Orchestrator.Run
use post_call_processing_pip.LlmWorker.Run as Analysis
use post_call_processing_pip.Recording
use post_call_processing_pip.Tasks.{
  legacy_job, create_flushed, persist_legacy, Inputs, legacy_task, run_all,
}
use post_call_processing_pip.Pipeline.{Trace, ◌▷◌, job_call}
use post_call_processing_pip.Pipeline.Workers.{orchestrate-Trace}
use post_call_processing_pip.Pipeline.Calls.{apply_results-Trace, fetch_recordings-Trace}
use post_call_processing_pip.Pipeline.Results.{analyse-Trace}

module _ {s : Settings} {rt : Runtime} where
  create_flushed-Trace :
      (now : ℕ) (n : NewJob) (db : Db) (r : InteractionJob × Db)
      → create_flushed s now n db ≡ ok r
      → Trace s rt db r.1
  unfolding create_flushed operate
  create_flushed-Trace now n db r e =
      elim (Option-cases (get_by_idempotency_key n.idempotency_key db)) [
        | inr (_, there) ↦ created (rw (there, create_flushed) at e)
        | inl absent ↦ elim (Option-cases (get n.interaction_id db)) [
          | inl unknown ↦
              let never : raise (text "IntegrityError") ≡ ok r =
                rw (absent, unknown, create_flushed) at e in
              absurd (ground arith)
          | inr (_, known) ↦
              let (_, _, last) =
                bind-ok (stored 255 n.idempotency_key) _
                  (rw (absent, known, create_flushed) at e) in
              created last
        ]
      ]
    where
      created : ok (create_if_absent s now n db) ≡ ok r → Trace s rt db r.1
      created last =
          job_call (creates now n)
            (ap (λ (x : InteractionJob × Db). x.1) (ok-injective r _ (sym last)))

  persist_legacy-Trace :
      (now : ℕ) (payload : Fields) (db : Db) (r : InteractionJob × Db)
      → persist_legacy s rt now payload db ≡ ok r
      → Trace s rt db r.1
  unfolding persist_legacy
  persist_legacy-Trace now payload db r e =
      let (n, _, made) = bind-ok (legacy_job rt payload) _ e in create_flushed-Trace now n db r made

  pub legacy_task-Trace :
      (i : Inputs) (now : ℕ) (payload : Fields) (db : Db) (r : (ℕ × ℕ) × Db)
      → legacy_task s rt i now payload db ≡ ok r
      → Trace s rt db r.1
  unfolding legacy_task
  legacy_task-Trace i now payload db r e =
      let ((job, queued), f, made) = bind-ok (persist_legacy s rt now payload db) _ e in
      let ticked =
        orchestrate-Trace i.scaled i.message i.orchestrated (record i.orchestrator { limit = 1 })
          queued in
      persist_legacy-Trace now payload db (job, queued) f ▷ rw (sym (ok-injective _ r made)) ticked

  pub run_all-Trace : (i : Inputs) (db : Db) → Trace s rt db (run_all s rt i db).1
  unfolding run_all
  run_all-Trace i db =
      let limit = s.job_claim_batch_size in
      let db1 =
        (Run.run_once s rt i.scaled i.message i.orchestrated
          (record i.orchestrator { limit = limit }) db).1 in
      let db2 =
        (Recording.run_once s rt i.message i.provider i.recorded_at i.recording_failed i.held
          i.recording_id limit i.recording_claim db1).1 in
      let ran = Analysis.run_once s rt i.message (record i.llm { limit = 10 }) i.turns db2 in
      let before : Trace s rt db ran.1 =
        orchestrate-Trace i.scaled i.message i.orchestrated
          (record i.orchestrator { limit = limit }) db
        ▷ fetch_recordings-Trace i.message i.provider i.recorded_at i.recording_failed i.held
            i.recording_id limit i.recording_claim db1
        ▷ analyse-Trace i.message (record i.llm { limit = 10 }) i.turns db2 in
      elim (Attempt-cases ran.0) [
        | inl (n, e) ↦
            rw (e, run_all)
              (before
                ▷ apply_results-Trace i.message i.applied_at i.applying_failed i.held i.result_id
                    limit i.result_claim ran.1)
        | inr (x, e) ↦ rw (e, run_all) before
      ]
