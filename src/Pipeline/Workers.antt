-- ===== src/Pipeline/Workers.antt =====
-- The ticks of the orchestrator, the recording worker and the result worker, as operations of the
-- repositories.
use post_call_processing_pip.Common.{
  ℕ, refl, Bool, Option, none, some, List, [], ◌∷◌, Bool-cases, inl, inr,
}
use post_call_processing_pip.Text.{Text, text}
use post_call_processing_pip.Json.{str, obj, null, end, field, set, get_or, is_truthy}
use post_call_processing_pip.Settings.{Settings}
use post_call_processing_pip.Runtime.{Runtime}
use post_call_processing_pip.Keys.{staged_key}
use post_call_processing_pip.Attempt.{Attempt-cases}
use post_call_processing_pip.Models.{
  Db, InteractionJob, JobPriority, JobType, signal_jobs, lead_stage_update, high,
  orchestrate_interaction,
}
use post_call_processing_pip.Retry.{default_policy}
use post_call_processing_pip.Jobs.{claim_ready_jobs, recover_stale_running_jobs}
use post_call_processing_pip.Jobs.Invariant.{claims, recovers, operate}
use post_call_processing_pip.Interactions.{mark_processing, mark_short_call}
use post_call_processing_pip.Interactions.Log.{processes, skips, apply}
use post_call_processing_pip.Audit.{emit, from_job, inc}
use post_call_processing_pip.Failure.{handle}
use post_call_processing_pip.LlmWorker.Save.{stage_text}
use post_call_processing_pip.Classifier.{Classification}
use post_call_processing_pip.Orchestrator.{
  ChildReadings, child, recording_job, queue_recording, short_result, queue_result_jobs,
  skip_analysis, analysis_job, queue_analysis, read_call, len_of, estimate, create_child_jobs,
}
use post_call_processing_pip.Orchestrator.Run.{
  JobReadings, failure, finish, process_job, process_jobs, Tick, run_once,
}
use post_call_processing_pip.Pipeline.{Trace, here, ◌▷◌, job_call, other_call}
use post_call_processing_pip.Pipeline.Handlers.{
  create-Trace, succeed-Trace, update-Trace, handle-Trace,
}

module _ {s : Settings} {rt : Runtime} where
  pub claim-Trace :
      (held : ℕ → Bool) (worker_id : Text) (types : List JobType) (limit now : ℕ) (db : Db)
      → Trace s rt db (claim_ready_jobs held worker_id types limit now db).1
  unfolding operate
  claim-Trace held worker_id types limit now db =
      job_call (claims held worker_id types limit now) refl

  pub recover-Trace :
      (worker_id : Text) (now : ℕ) (clock : ℕ → ℕ) (db : Db)
      → Trace s rt db (recover_stale_running_jobs s worker_id now clock db).1
  unfolding operate
  recover-Trace worker_id now clock db = job_call (recovers worker_id now clock) refl

  queue_recording-Trace :
      (clock : ChildReadings) (job : InteractionJob) (priority : JobPriority) (db : Db)
      → Trace s rt db (queue_recording s clock job priority db)
  unfolding queue_recording
  queue_recording-Trace clock job priority db =
      elim (Bool-cases (is_truthy (get_or (text "call_sid") null job.payload))) [
        | inl has ↦
            rw (has, queue_recording)
              (create-Trace clock.recording_at (recording_job s job priority) db)
        | inr without ↦ rw (without, queue_recording) here
      ]

  skip_analysis-Trace :
      (clock : ChildReadings) (job : InteractionJob) (c : Classification) (db : Db)
      → Trace s rt db (skip_analysis s rt clock job c db)
  unfolding skip_analysis queue_result_jobs apply
  skip_analysis-Trace clock job c db =
      let payload = set (text "analysis_result") (obj (short_result c)) job.payload in
      let stage = stage_text rt (short_result c) in
      let signal = staged_key job.interaction_id (text "signal") (text "short_call") in
      let lead = staged_key job.interaction_id (text "lead") stage in
      update-Trace (skips job.interaction_id) db
      ▷ create-Trace clock.signal_at (child job signal_jobs high signal payload)
          (mark_short_call job.interaction_id db)
      ▷ create-Trace clock.lead_at (child job lead_stage_update high lead payload) _

  queue_analysis-Trace :
      (clock : ChildReadings) (job : InteractionJob) (c : Classification) (tokens : ℕ) (db : Db)
      → Trace s rt db (queue_analysis s clock job c tokens db)
  unfolding queue_analysis emit
  queue_analysis-Trace clock job c tokens db =
      create-Trace clock.llm_at (analysis_job job c tokens) db ▷ other_call refl refl refl

  create_child_jobs-Trace :
      (scaled : ℕ → ℕ) (clock : ChildReadings) (job : InteractionJob) (db : Db)
      → Trace s rt db (create_child_jobs s rt scaled clock job db).1
  unfolding create_child_jobs apply
  create_child_jobs-Trace scaled clock job db = elim (Attempt-cases (read_call rt job.payload)) [
    | inr (e, broken) ↦ rw (broken, create_child_jobs) here
    | inl ((words, c), read) ↦
        let recorded = queue_recording s clock job c.priority db in
        let recording = queue_recording-Trace clock job c.priority db in
        let marked = mark_processing job.interaction_id (text "queued") recorded in
        let marking =
          recording ▷ update-Trace (processes job.interaction_id (text "queued")) recorded in
        elim (Bool-cases c.skip_llm) [
          | inl short ↦
              rw (read, create_child_jobs)
                (rw short (recording ▷ skip_analysis-Trace clock job c recorded))
          | inr long ↦ elim (Attempt-cases (len_of words)) [
            | inr (e, broken) ↦ rw (read, create_child_jobs) (rw (long, broken) marking)
            | inl (n, size) ↦
                rw (read, create_child_jobs)
                  (rw (long, size)
                    (marking ▷ queue_analysis-Trace clock job c (estimate s scaled n) marked))
          ]
        ]
  ]

  finish-Trace :
      (clock : JobReadings) (job : InteractionJob) (db : Db)
      → Trace s rt db (finish rt clock job db)
  unfolding finish emit inc
  finish-Trace clock job db =
      succeed-Trace clock.completed_at job
        (field (text "orchestrated_at") (str (rt.isoformat clock.orchestrated_at)) end) 0 db
      ▷ other_call refl refl refl

  process_job-Trace :
      (scaled : ℕ → ℕ) (message : Text → Text) (clock : JobReadings) (job : InteractionJob)
      (db : Db)
      → Trace s rt db (process_job s rt scaled message clock job db)
  unfolding process_job emit
  process_job-Trace scaled message clock job db =
      starting
      ▷ create_child_jobs-Trace scaled clock.children job started
      ▷ ending (create_child_jobs s rt scaled clock.children job started).0
    where
      started : Db
      started =
          emit (from_job job (text "orchestrator")) (text "running")
            (text "workflow_orchestration_started") none end db

      starting : Trace s rt db started
      starting = other_call refl refl refl

      made : Db
      made = (create_child_jobs s rt scaled clock.children job started).1

      ending :
          (raised : Option Text)
          → Trace s rt made (elim raised [
            | none ↦ finish rt clock job made
            | some e ↦ handle rt (default_policy s) clock.failed job (failure e (message e)) made
          ])
      ending none = finish-Trace clock job made
      ending (some e) =
          handle-Trace (default_policy s) clock.failed job (failure e (message e)) made

  process_jobs-Trace :
      (scaled : ℕ → ℕ) (message : Text → Text) (clock : ℕ → JobReadings)
      (jobs : List InteractionJob) (db : Db)
      → Trace s rt db (process_jobs s rt scaled message clock jobs db)
  unfolding process_jobs
  process_jobs-Trace scaled message clock [] db = here
  process_jobs-Trace scaled message clock (job ∷ jobs) db =
      process_job-Trace scaled message (clock job.id) job db
      ▷ process_jobs-Trace scaled message clock jobs _

  -- A tick of the orchestrator.
  pub orchestrate-Trace :
      (scaled : ℕ → ℕ) (message : Text → Text) (clock : ℕ → JobReadings) (t : Tick) (db : Db)
      → Trace s rt db (run_once s rt scaled message clock t db).1
  unfolding run_once
  orchestrate-Trace scaled message clock t db =
      let recovered =
        (recover_stale_running_jobs s t.worker_id t.recover_now t.recovered_at db).1 in
      let (jobs, claimed) =
        claim_ready_jobs t.held t.worker_id (orchestrate_interaction ∷ []) t.limit t.claim_now
          recovered in
      recover-Trace t.worker_id t.recover_now t.recovered_at db
      ▷ claim-Trace t.held t.worker_id (orchestrate_interaction ∷ []) t.limit t.claim_now recovered
      ▷ process_jobs-Trace scaled message clock jobs claimed
