-- ===== src/LlmWorker/Save.antt =====
-- llm_workers/worker.py: `LLMWorkerService`, from the provider's answer on. The call of the
-- provider is an argument, the outcome of `process_post_call`.
use mathlib.Core.Bool.{not}
use post_call_processing_pip.Common.{
  ℕ, true, false, Option, none, some, if◌then◌else◌, ℤ, pos, negsuc,
}
use post_call_processing_pip.Text.{Text, text}
use post_call_processing_pip.Json.{
  Json, null, bool, num, str, arr, obj, Fields, end, field, get_or, set, is_truthy,
}
use post_call_processing_pip.Json
use post_call_processing_pip.Settings.{Settings}
use post_call_processing_pip.Runtime.{Runtime}
use post_call_processing_pip.Attempt.{Attempt, ok, raise, ◌>>=◌, stored}
use post_call_processing_pip.Processor.{AnalysisResult, Outcome, analysed, rate_limited, failed}
use post_call_processing_pip.Keys.{staged_key}
use post_call_processing_pip.Models.{
  Db, InteractionJob, JobType, signal_jobs, lead_stage_update, is_running, workflow_jobs_total,
  llm_tokens_total, llm_latency_ms,
}
use post_call_processing_pip.Retry.{default_policy}
use post_call_processing_pip.Jobs.{NewJob, get, create_if_absent, mark_succeeded}
use post_call_processing_pip.Budget.Usage.{record_usage}
use post_call_processing_pip.Interactions.{update_analysis_result}
use post_call_processing_pip.Audit.{emit, from_job, inc}
use post_call_processing_pip.Failure.{Failure, Readings, handle}
use post_call_processing_pip.Classifier.{str_of}
use post_call_processing_pip.LlmWorker.{ClaimedLlmJob, customer_budget}

-- The job that `_queue_result_jobs` asks for, of one type and with one key.
abbrev pub result_job : InteractionJob → JobType → Text → Fields → NewJob
result_job job job_type key payload = record {
  interaction_id = job.interaction_id;
  session_id = job.session_id;
  lead_id = job.lead_id;
  campaign_id = job.campaign_id;
  customer_id = job.customer_id;
  job_type = job_type;
  priority = job.priority;
  idempotency_key = key;
  payload = payload;
  token_estimate = 0;
  max_attempts = none;
  run_after = none;
}

-- `analysis_result.get("call_stage", "unknown")`, as the f-string writes it.
abbrev pub stage_text : Runtime → Fields → Text
stage_text rt analysis = elim (Json.get (text "call_stage") analysis) [
  | none ↦ text "unknown"
  | some v ↦ str_of rt v
]

-- The key of a job for the signals or the lead.
abbrev pub result_key : Runtime → InteractionJob → Text → Fields → Text
result_key rt job kind analysis = staged_key job.interaction_id kind (stage_text rt analysis)

-- `_queue_result_jobs`, with one reading of the clock for each job.
unfoldable pub queue_result_jobs :
    Settings → Runtime → ℕ → ℕ → InteractionJob → Fields → Fields → Db → Db
unfolding create_if_absent
queue_result_jobs s rt now now' job payload analysis db =
    let result_payload = set (text "analysis_result") (obj analysis) payload in
    let signal = result_key rt job (text "signal") analysis in
    let lead = result_key rt job (text "lead") analysis in
    (create_if_absent s now' (result_job job lead_stage_update lead result_payload)
      (create_if_absent s now (result_job job signal_jobs signal result_payload) db).1).1

-- The tokens as what they are added to: a bool is a number, an integer cannot be added to any other
-- value, and the counter of the metrics refuses a negative number.
unfoldable pub tokens_of : Json → Attempt ℕ
tokens_of (num (pos n)) = ok n
tokens_of (num (negsuc n)) = raise (text "ValueError")
tokens_of (bool true) = ok 1
tokens_of (bool false) = ok 0
tokens_of v = raise (text "TypeError")

-- The readings of the clock in the second transaction.
pub record SaveReadings : Type 0 where
  pub analyzed_at : ℕ
  pub usage_at : ℕ
  pub completed_at : ℕ
  pub signal_at : ℕ
  pub lead_at : ℕ

-- The second transaction, for a job that still runs, with the tokens that were read.
unfoldable pub save_running :
    Settings
    → Runtime
    → SaveReadings
    → ClaimedLlmJob
    → AnalysisResult
    → ℕ
    → Option ℤ
    → InteractionJob
    → Db
    → Db
unfolding update_analysis_result record_usage mark_succeeded queue_result_jobs
save_running s rt clock snapshot result tokens budget job db =
    let analysed =
      update_analysis_result rt clock.analyzed_at snapshot.interaction_id result.call_stage
        result.entities result.summary result.tokens_used result.provider result.model db in
    let used = record_usage s snapshot.customer_id tokens clock.usage_at budget analysed in
    let done = mark_succeeded clock.completed_at job result.raw_response tokens used in
    let queued =
      queue_result_jobs s rt clock.signal_at clock.lead_at job snapshot.payload result.raw_response
        done in
    let counted = inc (llm_latency_ms result.latency_ms) (
      inc (llm_tokens_total snapshot.customer_id snapshot.campaign_id result.model tokens)
        (inc (workflow_jobs_total job.job_type (text "succeeded")) queued)) in
    emit (record (from_job job (text "llm_worker")) { token_usage = tokens }) (text "succeeded")
      (text "llm_analysis_completed") none
      (field (text "call_stage") result.call_stage (
        field (text "tokens_used") result.tokens_used
          (field (text "latency_ms") result.latency_ms end)))
      counted

-- The second transaction. The keys of its jobs must fit in their column.
unfoldable pub save_result :
    Settings
    → Runtime
    → SaveReadings
    → ClaimedLlmJob
    → AnalysisResult
    → Db
    → Attempt (Unit {0} × Db)
unfolding save_running stored
save_result s rt clock snapshot result db = elim (get snapshot.id db) [
  | none ↦ ok (tt, db)
  | some job ↦
      if not (is_running job.status)
      then ok (tt, db)
      else (customer_budget snapshot.payload >>= λ budget.
          tokens_of result.tokens_used >>= λ tokens.
          stored 255 (result_key rt job (text "signal") result.raw_response) >>= λ _.
          stored 255 (result_key rt job (text "lead") result.raw_response) >>= λ _.
          ok (tt, save_running s rt clock snapshot result tokens budget job db))
]

-- `_handle_failure`
unfoldable pub handle_failure : Settings → Runtime → Readings → ClaimedLlmJob → Failure → Db → Db
unfolding handle
handle_failure s rt clock snapshot f db = elim (get snapshot.id db) [
  | none ↦ db
  | some job ↦ handle rt (default_policy s) clock job f db
]

abbrev pub failure : Text → Text → Option ℤ → Failure
failure error_code error_message retry_after = record {
  stage = text "llm_worker";
  error_code = error_code;
  error_message = error_message;
  retry_after_seconds = retry_after;
  retryable = true;
}

-- `_process_snapshot`, after the provider's answer.
unfoldable pub process_snapshot :
    Settings
    → Runtime
    → SaveReadings
    → Readings
    → ClaimedLlmJob
    → Outcome
    → Db
    → Attempt (Unit {0} × Db)
process_snapshot s rt saved late snapshot (analysed result) db =
    save_result s rt saved snapshot result db
process_snapshot s rt saved late snapshot (rate_limited message seconds) db = ok (
  tt,
  handle_failure s rt late snapshot (failure (text "LLM_RATE_LIMIT") message (some seconds)) db,
)
process_snapshot s rt saved late snapshot (failed error_class message) db =
    ok (tt, handle_failure s rt late snapshot (failure error_class message none) db)
