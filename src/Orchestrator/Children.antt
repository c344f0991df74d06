-- ===== src/Orchestrator/Children.antt =====
-- orchestrator/workflow.py: which jobs follow an ended call, and when none do.
use post_call_processing_pip.Common.{
  ℕ, ◌≡◌, refl, ◌∙◌, ◌⊎◌, inl, inr, false, some, ◌==◌, find-update_where-some, find-passes,
  Bool-cases,
}
use post_call_processing_pip.Text.{Text, text, text_eq}
use post_call_processing_pip.Json.{null, str, obj, set, Fields, end, field, get_or, is_truthy}
use post_call_processing_pip.Keys.{plain_key, staged_key}
use post_call_processing_pip.Settings.{Settings}
use post_call_processing_pip.Runtime.{Runtime}
use post_call_processing_pip.Models.{
  Db, InteractionJob, JobPriority, JobType, high, priority_value, recording_fetch, llm_analysis,
  signal_jobs, lead_stage_update,
}
use post_call_processing_pip.Jobs.{get, create_if_absent, mark_succeeded, succeed_row}
use post_call_processing_pip.Jobs.Create.{get-create_if_absent}
use post_call_processing_pip.Jobs.Queued.{
  Queues, IsChildOf, create_if_absent-Queues, Queues-then, Queues-after, marked-Queues, signal-lead,
}
use post_call_processing_pip.Interactions.{modify, mark_short_call}
use post_call_processing_pip.Audit.{emit, inc}
use post_call_processing_pip.Classifier.{Classification}
use post_call_processing_pip.LlmWorker.Save.{stage_text}
use post_call_processing_pip.Orchestrator.{
  child, recording_job, analysis_job, ChildReadings, queue_recording, short_result,
  queue_result_jobs, skip_analysis, queue_analysis,
}
use post_call_processing_pip.Orchestrator.Run.{JobReadings, finish}

-- The result that `_process_job` stores.
abbrev pub orchestrated : Runtime → JobReadings → Fields
orchestrated rt clock =
    field (text "orchestrated_at") (str (rt.isoformat clock.orchestrated_at)) end

module _ (rt : Runtime) (clock : JobReadings) (job : InteractionJob) where
  pub finish-get :
      (db : Db)
      → get job.id db ≡ some job
      → get job.id (finish rt clock job db)
        ≡ some (succeed_row clock.completed_at (orchestrated rt clock) 0 job)
  unfolding finish emit inc mark_succeeded
  finish-get db e =
      let own = λ (j : InteractionJob). j.id == job.id in
      find-update_where-some own own (succeed_row clock.completed_at (orchestrated rt clock) 0)
        (λ _. refl) db.jobs e
      ∙ rw (find-passes own db.jobs e)

  pub finish-Queues :
      {t : JobType} {p : JobPriority} {payload : Fields} {tokens : ℕ} (key : Text) (before db : Db)
      → Queues key (IsChildOf job t p payload tokens) before db
      → Queues key (IsChildOf job t p payload tokens) before (finish rt clock job db)
  unfolding finish emit inc mark_succeeded
  finish-Queues key before db q =
      marked-Queues clock.completed_at job (orchestrated rt clock) 0 key before db q

-- What the analysis job is given: the payload with the classification of the call.
abbrev pub with_classification : Classification → Fields → Fields
with_classification c payload =
    set (text "classification")
      (obj (
        field (text "priority") (str (priority_value c.priority))
          (field (text "reason") (str c.reason) end)))
      payload

-- What the jobs of a short call are given: the payload with a result in place of an analysis.
abbrev pub with_short_result : Classification → Fields → Fields
with_short_result c payload = set (text "analysis_result") (obj (short_result c)) payload

module _ (s : Settings) (clock : ChildReadings) (job : InteractionJob) where
  pub queue_recording-get :
      (p : JobPriority) (db : Db) (i : ℕ) {j : InteractionJob}
      → get i db ≡ some j
      → get i (queue_recording s clock job p db) ≡ some j
  unfolding queue_recording
  queue_recording-get p db i e =
      elim (Bool-cases (is_truthy (get_or (text "call_sid") null job.payload))) [
        | inl dialled ↦
            rw (dialled, queue_recording)
              (get-create_if_absent s clock.recording_at (recording_job s job p) db i e)
        | inr without ↦ rw (without, queue_recording) e
      ]

  pub queue_recording-Queues :
      (p : JobPriority) (db : Db)
      → (is_truthy (get_or (text "call_sid") null job.payload) ≡ false)
        ⊎ Queues
            (plain_key job.interaction_id (text "recording"))
            (IsChildOf job recording_fetch p job.payload 0)
            db
            (queue_recording s clock job p db)
  unfolding queue_recording
  queue_recording-Queues p db =
      elim (Bool-cases (is_truthy (get_or (text "call_sid") null job.payload))) [
        | inl dialled ↦ inr (
            rw (dialled, queue_recording)
              (create_if_absent-Queues (IsChildOf job recording_fetch p job.payload 0) s
                clock.recording_at (recording_job s job p) db
                (λ _. record {
                  interaction = refl;
                  session = refl;
                  lead = refl;
                  campaign = refl;
                  customer = refl;
                  kind = refl;
                  urgency = refl;
                  input = refl;
                  tokens = refl;
                })))
        | inr without ↦ inl without
      ]

  pub recording-Queues :
      (c : Classification) (n : ℕ) (before db : Db) (Wanted : InteractionJob → Type 0) (key : Text)
      → Queues key Wanted before db
      → Queues key Wanted before (queue_analysis s clock job c n db)
  unfolding queue_analysis emit
  recording-Queues c n before db Wanted key q =
      Queues-then Wanted s clock.llm_at (analysis_job job c n) key before db q

  pub analysis-get :
      (c : Classification) (n : ℕ) (db : Db) (i : ℕ) {j : InteractionJob}
      → get i db ≡ some j
      → get i (queue_analysis s clock job c n db) ≡ some j
  unfolding queue_analysis emit
  analysis-get c n db i e = get-create_if_absent s clock.llm_at (analysis_job job c n) db i e

  pub analysis-Queues :
      (c : Classification) (n : ℕ) (db : Db)
      → Queues
          (plain_key job.interaction_id (text "llm"))
          (IsChildOf job llm_analysis c.priority (with_classification c job.payload) n)
          db
          (queue_analysis s clock job c n db)
  unfolding queue_analysis emit
  analysis-Queues c n db =
      create_if_absent-Queues
        (IsChildOf job llm_analysis c.priority (with_classification c job.payload) n) s clock.llm_at
        (analysis_job job c n) db
        (λ _. record {
          interaction = refl;
          session = refl;
          lead = refl;
          campaign = refl;
          customer = refl;
          kind = refl;
          urgency = refl;
          input = refl;
          tokens = refl;
        })

  -- The recording's job, which was asked for before, is another one.
  pub after_recording :
      (p : JobPriority) (Wanted : InteractionJob → Type 0) (db after : Db) (key : Text)
      → text_eq (plain_key job.interaction_id (text "recording")) key ≡ false
      → Queues key Wanted (queue_recording s clock job p db) after
      → Queues key Wanted db after
  unfolding queue_recording
  after_recording p Wanted db after key other q =
      elim (Bool-cases (is_truthy (get_or (text "call_sid") null job.payload))) [
        | inl dialled ↦
            Queues-after Wanted s clock.recording_at (recording_job s job p) key db after other
              (rw (dialled, queue_recording) at q)
        | inr without ↦ rw (without, queue_recording) at q
      ]

  pub skip_analysis_lem :
      (rt : Runtime) (c : Classification) (db : Db) (i : ℕ) {own : InteractionJob}
      → get i db ≡ some own
      → let db' = skip_analysis s rt clock job c db in
        let payload = with_short_result c job.payload in
        (get i db' ≡ some own)
        × Queues
            (staged_key job.interaction_id (text "signal") (text "short_call"))
            (IsChildOf job signal_jobs high payload 0)
            db
            db'
        × Queues
            (staged_key job.interaction_id (text "lead") (stage_text rt (short_result c)))
            (IsChildOf job lead_stage_update high payload 0)
            db
            db'
  unfolding skip_analysis queue_result_jobs mark_short_call modify
  skip_analysis_lem rt c db i e =
      let payload = with_short_result c job.payload in
      let stage = stage_text rt (short_result c) in
      let signal =
        child job signal_jobs high
          (staged_key job.interaction_id (text "signal") (text "short_call")) payload in
      let lead =
        child job lead_stage_update high (staged_key job.interaction_id (text "lead") stage)
          payload in
      let marked = mark_short_call job.interaction_id db in
      let first = create_if_absent s clock.signal_at signal marked in
      (
        get-create_if_absent s clock.lead_at lead first.1 i
            (get-create_if_absent s clock.signal_at signal marked i e),
        Queues-then (IsChildOf job signal_jobs high payload 0) s clock.lead_at lead
            signal.idempotency_key db first.1
            (create_if_absent-Queues (IsChildOf job signal_jobs high payload 0) s clock.signal_at
              signal marked
              (λ _. record {
                interaction = refl;
                session = refl;
                lead = refl;
                campaign = refl;
                customer = refl;
                kind = refl;
                urgency = refl;
                input = refl;
                tokens = refl;
              })),
        Queues-after (IsChildOf job lead_stage_update high payload 0) s clock.signal_at signal
            lead.idempotency_key marked (create_if_absent s clock.lead_at lead first.1).1
            (signal-lead job.interaction_id (text "short_call") stage)
            (create_if_absent-Queues (IsChildOf job lead_stage_update high payload 0) s
              clock.lead_at lead first.1
              (λ _. record {
                interaction = refl;
                session = refl;
                lead = refl;
                campaign = refl;
                customer = refl;
                kind = refl;
                urgency = refl;
                input = refl;
                tokens = refl;
              })),
      )
