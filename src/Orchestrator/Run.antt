-- ===== src/Orchestrator/Run.antt =====
-- orchestrator/workflow.py: `_process_job` and `run_once`.
use post_call_processing_pip.Common.{ℕ, Bool, true, none, some, List, [], ◌∷◌, length}
use post_call_processing_pip.Text.{Text, text}
use post_call_processing_pip.Json.{str, end, field}
use post_call_processing_pip.Settings.{Settings}
use post_call_processing_pip.Runtime.{Runtime}
use post_call_processing_pip.Models.{
  Db, InteractionJob, orchestrate_interaction, workflow_jobs_total,
}
use post_call_processing_pip.Retry.{default_policy}
use post_call_processing_pip.Jobs.{claim_ready_jobs, recover_stale_running_jobs, mark_succeeded}
use post_call_processing_pip.Audit.{emit, from_job, inc}
use post_call_processing_pip.Failure.{Failure, Readings, handle}
use post_call_processing_pip.Orchestrator.{ChildReadings, create_child_jobs}

abbrev pub failure : Text → Text → Failure
failure error_code error_message = record {
  stage = text "orchestrator";
  error_code = error_code;
  error_message = error_message;
  retry_after_seconds = none;
  retryable = true;
}

-- The readings of the clock for one job.
pub record JobReadings : Type 0 where
  pub children : ChildReadings
  pub orchestrated_at : ℕ
  pub completed_at : ℕ
  pub failed : Readings

-- The end of `_process_job` when nothing was raised.
unfoldable pub finish : Runtime → JobReadings → InteractionJob → Db → Db
unfolding emit inc mark_succeeded
finish rt clock job db =
    emit (record (from_job job (text "orchestrator")) { token_usage = 0 }) (text "succeeded")
      (text "workflow_orchestration_completed") none end
      (inc (workflow_jobs_total job.job_type (text "succeeded")) (
        mark_succeeded clock.completed_at job
          (field (text "orchestrated_at") (str (rt.isoformat clock.orchestrated_at)) end) 0 db))

-- `_process_job`. An exception is caught in the session, which keeps what was written before it.
unfoldable pub process_job :
    Settings → Runtime → (ℕ → ℕ) → (Text → Text) → JobReadings → InteractionJob → Db → Db
unfolding create_child_jobs finish handle emit
process_job s rt scaled message clock job db =
    let started =
      emit (from_job job (text "orchestrator")) (text "running")
        (text "workflow_orchestration_started") none end db in
    let (raised, db') = create_child_jobs s rt scaled clock.children job started in
    elim raised [
      | none ↦ finish rt clock job db'
      | some e ↦ handle rt (default_policy s) clock.failed job (failure e (message e)) db'
    ]

-- The loop of `run_once`.
unfoldable pub process_jobs :
    Settings → Runtime → (ℕ → ℕ) → (Text → Text) → (ℕ → JobReadings) → List InteractionJob → Db → Db
unfolding process_job
process_jobs s rt scaled message clock [] db = db
process_jobs s rt scaled message clock (job ∷ jobs) db =
    process_jobs s rt scaled message clock jobs
      (process_job s rt scaled message (clock job.id) job db)

-- A tick: the worker, its limit, the rows that others hold, and the readings of the clock.
pub record Tick : Type 0 where
  pub worker_id : Text
  pub limit : ℕ
  pub held : ℕ → Bool
  pub recover_now : ℕ
  pub recovered_at : ℕ → ℕ
  pub claim_now : ℕ

-- `run_once`, in one transaction: the number of jobs, and the tables.
unfoldable pub run_once :
    Settings → Runtime → (ℕ → ℕ) → (Text → Text) → (ℕ → JobReadings) → Tick → Db → ℕ × Db
unfolding recover_stale_running_jobs claim_ready_jobs process_jobs
run_once s rt scaled message clock t db =
    let (_, recovered) = recover_stale_running_jobs s t.worker_id t.recover_now t.recovered_at db in
    let (jobs, claimed) =
      claim_ready_jobs t.held t.worker_id (orchestrate_interaction ∷ []) t.limit t.claim_now
        recovered in
    (length jobs, process_jobs s rt scaled message clock jobs claimed)
