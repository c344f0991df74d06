-- ===== src/Pipeline/Results.antt =====
-- The work of the LLM worker on its admitted jobs, as operations of the repositories.
use mathlib.Core.Path.{subst}
use post_call_processing_pip.Common.{
  ℕ, ◌≡◌, refl, Option, none, some, List, [], ◌∷◌, ℤ, Bool-cases, Option-cases, inl, inr,
}
use post_call_processing_pip.Text.{Text, text}
use post_call_processing_pip.Json.{obj, Fields, set}
use post_call_processing_pip.Settings.{Settings}
use post_call_processing_pip.Runtime.{Runtime}
use post_call_processing_pip.Keys.{staged_key}
use post_call_processing_pip.Attempt.{stored, ok, bind-ok, ok-injective, Attempt-cases}
use post_call_processing_pip.Models.{Db, InteractionJob, is_running, signal_jobs, lead_stage_update}
use post_call_processing_pip.Jobs.{get, mark_succeeded}
use post_call_processing_pip.Budget.Usage.{record_usage}
use post_call_processing_pip.Interactions.{update_analysis_result}
use post_call_processing_pip.Interactions.Log.{analyses, apply}
use post_call_processing_pip.Audit.{emit, inc}
use post_call_processing_pip.Failure.{Readings}
use post_call_processing_pip.Llm.{analyze_call}
use post_call_processing_pip.LlmWorker.{ClaimedLlmJob, Tick, customer_budget, claim_admitted_jobs}
use post_call_processing_pip.Processor.{
  AnalysisResult, Outcome, analysed, rate_limited, failed, process_post_call,
}
use post_call_processing_pip.LlmWorker.Save.{
  result_job, result_key, stage_text, queue_result_jobs, tokens_of, SaveReadings, save_running,
  save_result, handle_failure, failure, process_snapshot,
}
use post_call_processing_pip.LlmWorker.Run.{
  Turn, context_from_snapshot, process, process_all, run_once,
}
use post_call_processing_pip.Pipeline.{Trace, here, ◌▷◌, other_call}
use post_call_processing_pip.Pipeline.Handlers.{create-Trace, succeed-Trace, update-Trace}
use post_call_processing_pip.Pipeline.Calls.{reloaded-Trace}
use post_call_processing_pip.Pipeline.Analysis.{record_usage-Trace, claim_admitted_jobs-Trace}

module _ {s : Settings} {rt : Runtime} where
  queue_results-Trace :
      (now now' : ℕ) (job : InteractionJob) (payload analysis : Fields) (db : Db)
      → Trace s rt db (queue_result_jobs s rt now now' job payload analysis db)
  unfolding queue_result_jobs
  queue_results-Trace now now' job payload analysis db =
      let stage = stage_text rt analysis in
      let both = set (text "analysis_result") (obj analysis) payload in
      let signal = staged_key job.interaction_id (text "signal") stage in
      let lead = staged_key job.interaction_id (text "lead") stage in
      create-Trace now (result_job job signal_jobs signal both) db
      ▷ create-Trace now' (result_job job lead_stage_update lead both) _

  save_running-Trace :
      (clock : SaveReadings) (snapshot : ClaimedLlmJob) (result : AnalysisResult) (tokens : ℕ)
      (budget : Option ℤ) (job : InteractionJob) (db : Db)
      → Trace s rt db (save_running s rt clock snapshot result tokens budget job db)
  unfolding save_running emit inc apply
  save_running-Trace clock snapshot result tokens budget job db =
      let analysed_db =
        update_analysis_result rt clock.analyzed_at snapshot.interaction_id result.call_stage
          result.entities result.summary result.tokens_used result.provider result.model db in
      let used = record_usage s snapshot.customer_id tokens clock.usage_at budget analysed_db in
      let done = mark_succeeded clock.completed_at job result.raw_response tokens used in
      update-Trace
        (analyses clock.analyzed_at snapshot.interaction_id result.call_stage result.entities
          result.summary result.tokens_used result.provider result.model)
        db
      ▷ record_usage-Trace snapshot.customer_id tokens clock.usage_at budget analysed_db
      ▷ succeed-Trace clock.completed_at job result.raw_response tokens used
      ▷ queue_results-Trace clock.signal_at clock.lead_at job snapshot.payload result.raw_response
          done
      ▷ other_call refl refl refl

  save_result-Trace :
      (clock : SaveReadings) (snapshot : ClaimedLlmJob) (result : AnalysisResult) (db : Db)
      (r : Unit {0} × Db)
      → save_result s rt clock snapshot result db ≡ ok r
      → Trace s rt db r.1
  unfolding save_result
  save_result-Trace clock snapshot result db r h = elim (Option-cases (get snapshot.id db)) [
    | inl gone ↦ unchanged (rw (gone, save_result) at h)
    | inr (job, there) ↦ elim (Bool-cases (is_running job.status)) [
      | inr over ↦ unchanged (rw (there, over, save_result) at h)
      | inl runs ↦
          let (budget, _, rest) =
            bind-ok (customer_budget snapshot.payload) _ (rw (there, runs, save_result) at h) in
          let (tokens, _, rest') = bind-ok (tokens_of result.tokens_used) _ rest in
          let (_, _, rest'') =
            bind-ok (stored 255 (result_key rt job (text "signal") result.raw_response)) _ rest' in
          let (_, _, last) =
            bind-ok (stored 255 (result_key rt job (text "lead") result.raw_response)) _ rest'' in
          subst (λ r. Trace s rt db r.1) (ok-injective _ r last)
            (save_running-Trace clock snapshot result tokens budget job db)
    ]
  ]
    where
      unchanged : ok (tt, db) ≡ ok r → Trace s rt db r.1
      unchanged e = subst (λ r. Trace s rt db r.1) (ok-injective (tt, db) r e) here

  process_snapshot-Trace :
      (saved : SaveReadings) (late : Readings) (snapshot : ClaimedLlmJob) (o : Outcome) (db : Db)
      (r : Unit {0} × Db)
      → process_snapshot s rt saved late snapshot o db ≡ ok r
      → Trace s rt db r.1
  unfolding process_snapshot handle_failure
  process_snapshot-Trace saved late snapshot (analysed result) db r h =
      save_result-Trace saved snapshot result db r h
  process_snapshot-Trace saved late snapshot (rate_limited message seconds) db r h =
      subst (λ r. Trace s rt db r.1) (ok-injective _ r h)
        (reloaded-Trace late (failure (text "LLM_RATE_LIMIT") message (some seconds)) snapshot.id
          db)
  process_snapshot-Trace saved late snapshot (failed error_class message) db r h =
      subst (λ r. Trace s rt db r.1) (ok-injective _ r h)
        (reloaded-Trace late (failure error_class message none) snapshot.id db)

  pub process-Trace :
      (message : Text → Text) (turn : Turn) (snapshot : ClaimedLlmJob) (db : Db) (r : Unit {0} × Db)
      → process s rt message turn snapshot db ≡ ok r
      → Trace s rt db r.1
  unfolding process
  process-Trace message turn snapshot db r h =
      let (ctx, _, rest) = bind-ok (context_from_snapshot rt turn.started_at snapshot) _ h in
      process_snapshot-Trace turn.saved turn.late snapshot
        (process_post_call s rt message turn.latency_ms
          (λ prompt. analyze_call s rt message (turn.provider prompt)) ctx)
        db r rest

  process_all-Trace :
      (message : Text → Text) (turns : ℕ → Turn) (jobs : List ClaimedLlmJob) (db : Db)
      → Trace s rt db (process_all s rt message turns jobs db).1
  unfolding process_all
  process_all-Trace message turns [] db = here
  process_all-Trace message turns (job ∷ jobs) db =
      elim (Attempt-cases (process s rt message (turns job.id) job db)) [
        | inr (e, stopped) ↦ rw (stopped, process_all) here
        | inl (r, worked) ↦
            rw (worked, process_all)
              (process-Trace message (turns job.id) job db r worked
                ▷ process_all-Trace message turns jobs r.1)
      ]

  -- A run of the LLM worker, whether it ends or stops at an exception.
  pub analyse-Trace :
      (message : Text → Text) (t : Tick) (turns : ℕ → Turn) (db : Db)
      → Trace s rt db (run_once s rt message t turns db).1
  unfolding run_once
  analyse-Trace message t turns db = elim (Attempt-cases (claim_admitted_jobs s t db)) [
    | inr (e, stopped) ↦ rw (stopped, run_once) here
    | inl (r, claimed) ↦
        rw (claimed, run_once)
          (claim_admitted_jobs-Trace t db r claimed ▷ process_all-Trace message turns r.0 r.1)
  ]
