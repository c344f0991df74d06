-- ===== src/LlmWorker.antt =====
-- llm_workers/worker.py: `LLMWorkerService`, the transaction that claims and admits jobs.
pub mod Claims
pub mod Save
pub mod Results
pub mod Run
pub mod Calls
pub mod Batch
mod Tests
mod CallTests
use mathlib.Core.Bool.{not}
use post_call_processing_pip.Common.{
  ℕ, zero, suc, max, Bool, true, false, Option, none, some, List, [], ◌∷◌, ◌++◌, if◌then◌else◌, ℤ,
  pos, negsuc,
}
use post_call_processing_pip.Text.{Text, text, parse_int}
use post_call_processing_pip.Json.{
  Json, null, bool, num, str, arr, obj, Fields, end, field, get_or, set, is_truthy,
}
use post_call_processing_pip.Json
use post_call_processing_pip.Settings.{Settings}
use post_call_processing_pip.Runtime.{Runtime}
use post_call_processing_pip.Attempt.{Attempt, ok, raise, ◌>>=◌, get_of}
use post_call_processing_pip.Keys.{staged_key}
use post_call_processing_pip.Models.{
  Db, InteractionJob, JobType, llm_analysis, signal_jobs, lead_stage_update, JobPriority,
  is_running, priority_value, workflow_jobs_total, llm_tokens_total, llm_latency_ms,
}
use post_call_processing_pip.Retry.{plus_seconds, default_policy}
use post_call_processing_pip.Jobs.{
  NewJob, get, create_if_absent, claim_ready_jobs, recover_stale_running_jobs, mark_succeeded,
  defer,
}
use post_call_processing_pip.Budget.Usage.{Admission, admit, record_usage}
use post_call_processing_pip.Interactions.{update_analysis_result}
use post_call_processing_pip.Audit.{emit, from_job, inc}
use post_call_processing_pip.Failure.{Failure, Readings, handle}
use post_call_processing_pip.Classifier.{str_of}

pub record ClaimedLlmJob : Type 0 where
  pub id : ℕ
  pub interaction_id : ℕ
  pub session_id : ℕ
  pub lead_id : ℕ
  pub campaign_id : ℕ
  pub customer_id : ℕ
  pub priority : JobPriority
  pub attempts : ℕ
  pub token_estimate : ℕ
  pub payload : Fields

-- `int(v)`
unfoldable pub int_of : Json → Attempt ℤ
unfolding parse_int
int_of (num z) = ok z
int_of (bool true) = ok (pos 1)
int_of (bool false) = ok (pos 0)
int_of (str s) = elim (parse_int s) [ some z ↦ ok z | none ↦ raise (text "ValueError") ]
int_of v = raise (text "TypeError")

abbrev pub optional_int : Option Json → Attempt (Option ℤ)
optional_int none = ok none
optional_int (some v) = if is_truthy v then (int_of v >>= λ z. ok (some z)) else ok none

-- `_customer_budget`
unfoldable pub customer_budget : Fields → Attempt (Option ℤ)
unfolding int_of get_of
customer_budget payload = do
  let additional = get_or (text "additional_data") (obj end) payload
  budget ← get_of (text "customer_token_budget_per_minute") additional
  optional_int budget

-- `_snapshot`
abbrev pub snapshot_of : InteractionJob → ClaimedLlmJob
snapshot_of job = record {
  id = job.id;
  interaction_id = job.interaction_id;
  session_id = job.session_id;
  lead_id = job.lead_id;
  campaign_id = job.campaign_id;
  customer_id = job.customer_id;
  priority = job.priority;
  attempts = job.attempts;
  token_estimate = job.token_estimate;
  payload = job.payload;
}

-- A claim: the worker, its limit, the rows that others hold, and the readings of the clock, by the
-- job that the loop is at.
pub record Tick : Type 0 where
  pub worker_id : Text
  pub limit : ℕ
  pub held : ℕ → Bool
  pub recover_now : ℕ
  pub recovered_at : ℕ → ℕ
  pub claim_now : ℕ
  pub admit_at : ℕ → ℕ
  pub defer_at : ℕ → ℕ

-- The branch of a job that the limiter turned away.
unfoldable pub turn_away : ℕ → Admission → InteractionJob → Db → Db
turn_away now admission job db =
    emit (from_job job (text "llm_scheduler")) (text "deferred")
      (text "llm_job_deferred_by_rate_limiter") (some admission.reason)
      (field (text "defer_seconds") (num (pos admission.defer_seconds)) (
        field (text "token_estimate") (num (pos job.token_estimate)) (
          field (text "customer_budget_tokens") (num admission.customer_budget_tokens) (
            field (text "global_remaining_tokens") (num (pos admission.global_remaining_tokens))
              end))))
      (defer job (plus_seconds now admission.defer_seconds) admission.reason
        (text "LLM admission deferred by rate limiter") db)

-- The branch of a job that may go ahead.
unfoldable pub let_in : Admission → InteractionJob → Db → Db
let_in admission job db =
    emit (from_job job (text "llm_scheduler")) (text "admitted") (text "llm_job_admitted") none
      (field (text "token_estimate") (num (pos job.token_estimate)) (
        field (text "priority") (str (priority_value job.priority)) (
          field (text "global_remaining_tokens") (num (pos admission.global_remaining_tokens))
            end)))
      db

-- The body of the loop: whether the job was admitted.
unfoldable pub admit_job : Settings → Tick → InteractionJob → Db → Attempt (Bool × Db)
unfolding customer_budget admit turn_away let_in
admit_job s t job db = do
  budget ← customer_budget job.payload
  let asked =
      admit s job.customer_id (max job.token_estimate 1) job.priority (t.admit_at job.id) budget db
  ok (
      if asked.0.admitted
      then (true, let_in asked.0 job asked.1)
      else (false, turn_away (t.defer_at job.id) asked.0 job asked.1))

-- The loop over the claimed jobs.
unfoldable pub admit_jobs :
    Settings → Tick → List InteractionJob → Db → Attempt (List ClaimedLlmJob × Db)
unfolding admit_job
admit_jobs s t [] db = ok ([], db)
admit_jobs s t (job ∷ jobs) db = admit_job s t job db >>= λ step.
    admit_jobs s t jobs step.1 >>= λ rest.
    ok (if step.0 then (snapshot_of job ∷ rest.0, rest.1) else rest)

-- `_claim_admitted_jobs`. An exception leaves the transaction, and is what the worker's task ends
-- with: the tables are as before.
unfoldable pub claim_admitted_jobs : Settings → Tick → Db → Attempt (List ClaimedLlmJob × Db)
unfolding admit_jobs recover_stale_running_jobs claim_ready_jobs
claim_admitted_jobs s t db =
    let (_, recovered) = recover_stale_running_jobs s t.worker_id t.recover_now t.recovered_at db in
    let (jobs, claimed) =
      claim_ready_jobs t.held t.worker_id (llm_analysis ∷ []) t.limit t.claim_now recovered in
    admit_jobs s t jobs claimed

-- The tables after a transaction, committed or rolled back.
abbrev pub committed {ℓ} : {A : Type ℓ} → Db → Attempt (A × Db) → Db
committed db (ok (_, db')) = db'
committed db (raise e) = db
