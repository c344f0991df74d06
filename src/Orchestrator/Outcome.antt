-- ===== src/Orchestrator/Outcome.antt =====
-- orchestrator/workflow.py: what `_process_job` leaves behind, on each of its branches.
use post_call_processing_pip.Common.{
  ℕ, ◌≤◌, ◌<◌, ◌≡◌, ◌≢◌, refl, ap, ◌⊎◌, inl, inr, true, false, Option, none, some,
}
use post_call_processing_pip.Text.{Text, text}
use post_call_processing_pip.Json.{Json, null, end, get_or, is_truthy}
use post_call_processing_pip.Keys.{plain_key, staged_key}
use post_call_processing_pip.Settings.{Settings}
use post_call_processing_pip.Runtime.{Runtime}
use post_call_processing_pip.Attempt.{ok, raise}
use post_call_processing_pip.Models.{
  Db, InteractionJob, high, recording_fetch, llm_analysis, signal_jobs, lead_stage_update,
}
use post_call_processing_pip.Jobs.{get, succeed_row, defer_row, dead_letter_row}
use post_call_processing_pip.Interactions.{modify, mark_processing}
use post_call_processing_pip.Audit.{emit, from_job}
use post_call_processing_pip.Classifier.{Classification}
use post_call_processing_pip.LlmWorker.Save.{stage_text}
use post_call_processing_pip.Orchestrator.{
  len_of, estimate, queue_recording, short_result, skip_analysis, queue_analysis, read_call,
  create_child_jobs,
}
use post_call_processing_pip.Orchestrator.Run.{JobReadings, finish, process_job, failure}
use post_call_processing_pip.Retry.{default_policy}
use post_call_processing_pip.Failure.{handle}
use post_call_processing_pip.Failure.Outcome.{handle_lem, handle_others}
use post_call_processing_pip.Orchestrator.Children.{
  orchestrated, finish-get, finish-Queues, queue_recording-get, queue_recording-Queues,
  recording-Queues, analysis-get, analysis-Queues, skip_analysis_lem, after_recording,
  with_classification, with_short_result,
}
use post_call_processing_pip.Jobs.Queued.{
  Queues, IsChildOf, recording-llm, recording-signal, recording-lead,
}

module _ (s : Settings) (rt : Runtime) (scaled : ℕ → ℕ) (message : Text → Text)
    (clock : JobReadings) (job : InteractionJob) (db : Db) where
  abbrev processed : Db
  processed = process_job s rt scaled message clock job db

  abbrev started : Db
  started =
      emit (from_job job (text "orchestrator")) (text "running")
        (text "workflow_orchestration_started") none end db

  process_job-finish :
      (db' : Db)
      → create_child_jobs s rt scaled clock.children job started ≡ (none, db')
      → processed ≡ finish rt clock job db'
  unfolding process_job
  process_job-finish db' made =
      ap
        (λ (r : Option Text × Db). elim r.0 [
          | none ↦ finish rt clock job r.1
          | some e ↦ handle rt (default_policy s) clock.failed job (failure e (message e)) r.1
        ])
        made

  abbrev before_analysis : Classification → Db
  before_analysis c =
      mark_processing job.interaction_id (text "queued")
        (queue_recording s clock.children job c.priority started)

  analysis_queued :
      (words : Json) (c : Classification) (n : ℕ)
      → read_call rt job.payload ≡ ok (words, c)
      → c.skip_llm ≡ false
      → len_of words ≡ ok n
      → create_child_jobs s rt scaled clock.children job started
        ≡ (none, queue_analysis s clock.children job c (estimate s scaled n) (before_analysis c))
  unfolding create_child_jobs
  analysis_queued words c n read long size = rw (read, create_child_jobs) (rw (long, size) refl)

  -- An ended call that can be read and needs an analysis: its job is SUCCEEDED and unlocked, and a
  -- job is in the table under the call's key for the analysis, and, if the payload has the provider's
  -- id of the call, one under the key for the recording. Each of them was there before, or it is of
  -- that type, for the same call, with the classified priority; the one for the analysis has the
  -- payload with the classification and the estimate of the tokens, the one for the recording the
  -- payload as it is.
  pub process_job_analysed :
      (words : Json) (c : Classification) (n : ℕ)
      → read_call rt job.payload ≡ ok (words, c)
      → c.skip_llm ≡ false
      → len_of words ≡ ok n
      → get job.id db ≡ some job
      → (get job.id processed ≡ some (succeed_row clock.completed_at (orchestrated rt clock) 0 job))
        × Queues
            (plain_key job.interaction_id (text "llm"))
            (IsChildOf job llm_analysis c.priority
              (with_classification c job.payload)
              (estimate s scaled n))
            db
            processed
        × ((is_truthy (get_or (text "call_sid") null job.payload) ≡ false)
            ⊎ Queues
                (plain_key job.interaction_id (text "recording"))
                (IsChildOf job recording_fetch c.priority job.payload 0)
                db
                processed)
  unfolding emit mark_processing modify
  process_job_analysed words c n read long size e =
      let children = clock.children in
      let tokens = estimate s scaled n in
      let before = before_analysis c in
      let after = queue_analysis s children job c tokens before in
      let llm = plain_key job.interaction_id (text "llm") in
      let recording = plain_key job.interaction_id (text "recording") in
      let analysis =
        IsChildOf job llm_analysis c.priority (with_classification c job.payload) tokens in
      let fetch = IsChildOf job recording_fetch c.priority job.payload 0 in
      rw (process_job-finish after (analysis_queued words c n read long size)) (
        finish-get rt clock job after (
            analysis-get s children job c tokens before job.id
              (queue_recording-get s children job c.priority started job.id e)),
        finish-Queues rt clock job llm db after (
            after_recording s children job c.priority analysis started after llm
              (recording-llm job.interaction_id) (analysis-Queues s children job c tokens before)),
        (elim (queue_recording-Queues s children job c.priority started) [
          | inl without ↦ inl without
          | inr found ↦ inr (
              finish-Queues rt clock job recording db after
                (recording-Queues s children job c tokens db before fetch recording found))
        ]),
      )

  nothing_created :
      (e : Text)
      → read_call rt job.payload ≡ raise e
      → create_child_jobs s rt scaled clock.children job started ≡ (some e, started)
  unfolding create_child_jobs
  nothing_created e broken = rw (broken, create_child_jobs) refl

  process_job-handle :
      (e : Text)
      → read_call rt job.payload ≡ raise e
      → processed ≡ handle rt (default_policy s) clock.failed job (failure e (message e)) started
  unfolding process_job
  process_job-handle e broken =
      ap
        (λ (r : Option Text × Db). elim r.0 [
          | none ↦ finish rt clock job r.1
          | some e ↦ handle rt (default_policy s) clock.failed job (failure e (message e)) r.1
        ])
        (nothing_created e broken)

  short_queued :
      (words : Json) (c : Classification)
      → read_call rt job.payload ≡ ok (words, c)
      → c.skip_llm ≡ true
      → create_child_jobs s rt scaled clock.children job started ≡ (
        none,
        skip_analysis s rt clock.children job c
            (queue_recording s clock.children job c.priority started),
      )
  unfolding create_child_jobs
  short_queued words c read short = rw (read, create_child_jobs) (rw short refl)

  -- An ended call that can be read and is too short for an analysis: its job is SUCCEEDED and
  -- unlocked, and the jobs for the signals and for the lead's stage are in the table at once: each
  -- was there before, or it is of that type, for the same call, with HIGH priority and the short
  -- result.
  pub process_job_skipped :
      (words : Json) (c : Classification)
      → read_call rt job.payload ≡ ok (words, c)
      → c.skip_llm ≡ true
      → get job.id db ≡ some job
      → let payload = with_short_result c job.payload in
        (get job.id processed ≡ some (succeed_row clock.completed_at (orchestrated rt clock) 0 job))
        × Queues
            (staged_key job.interaction_id (text "signal") (text "short_call"))
            (IsChildOf job signal_jobs high payload 0)
            db
            processed
        × Queues
            (staged_key job.interaction_id (text "lead") (stage_text rt (short_result c)))
            (IsChildOf job lead_stage_update high payload 0)
            db
            processed
  unfolding emit
  process_job_skipped words c read short e =
      let children = clock.children in
      let recorded = queue_recording s children job c.priority started in
      let after = skip_analysis s rt children job c recorded in
      let made =
        skip_analysis_lem s children job rt c recorded job.id
          (queue_recording-get s children job c.priority started job.id e) in
      let stage = stage_text rt (short_result c) in
      let signal = staged_key job.interaction_id (text "signal") (text "short_call") in
      let lead = staged_key job.interaction_id (text "lead") stage in
      let payload = with_short_result c job.payload in
      rw (process_job-finish after (short_queued words c read short)) (
        finish-get rt clock job after made.0,
        finish-Queues rt clock job signal db after (
            after_recording s children job c.priority (IsChildOf job signal_jobs high payload 0)
              started after signal (recording-signal job.interaction_id (text "short_call"))
              made.1),
        finish-Queues rt clock job lead db after (
            after_recording s children job c.priority
              (IsChildOf job lead_stage_update high payload 0) started after lead
              (recording-lead job.interaction_id stage) made.2),
      )

  -- An ended call that cannot be read, with positive retry settings: its job waits for a later
  -- time, or is dead-lettered when its attempts are used up, and no other id of the table has
  -- another row than before, so no child is queued.
  pub process_job_unreadable :
      (e : Text)
      → read_call rt job.payload ≡ raise e
      → get job.id db ≡ some job
      → 0 < s.workflow_base_retry_seconds
      → 0 < s.workflow_max_retry_seconds
      → (((job.attempts < job.max_attempts)
            × ((t : ℕ) × (get job.id processed ≡ some (defer_row t e (message e) job))
                × (clock.failed.decided < t)))
          ⊎ ((job.max_attempts ≤ job.attempts)
              × (get job.id processed
                  ≡ some (dead_letter_row clock.failed.closed e (message e) job))))
        × ((i : ℕ) → i ≢ job.id → get i processed ≡ get i db)
  unfolding emit
  process_job_unreadable e broken here b m =
      let policy = default_policy s in
      let f = failure e (message e) in
      rw (process_job-handle e broken) (
        (elim (handle_lem rt policy clock.failed job f started here b m) [
          | inl (may, left, (t, row, later, within), same) ↦ inl (left, (t, row, later))
          | inr (inl never, row, letter) ↦ absurd cc
          | inr (inr spent, row, letter) ↦ inr (spent, row)
        ]),
        handle_others rt policy clock.failed job f started,
      )
