-- ===== src/Samples.antt =====
-- Rows and tables for the tests of the modules.
use post_call_processing_pip.Common.{ℕ, ◌+◌, ◌++◌, Option, none, some, pos, List, [], ◌∷◌}
use post_call_processing_pip.Text.{Text, text}
use post_call_processing_pip.Json.{Fields, end}
use post_call_processing_pip.Runtime.{Runtime}
use post_call_processing_pip.Models.{
  Db, InteractionJob, CustomerTokenUsage, Interaction, InteractionStatus, JobPriority, high, medium,
  low, JobStatus, pending, running, deferred, succeeded, llm_analysis,
}

abbrev pub runtime : Runtime
runtime = record {
  isoformat = λ t. text "2026-05-07T10:00:00";
  repr = λ v. text "";
  fromisoformat = λ s. some 0;
  dumps = λ v. text "{}";
  loads = λ s. none;
  parse_uuid = λ s. some 103;
}

-- A job of the customer 7, with its lock.
abbrev pub job : ℕ → JobPriority → JobStatus → ℕ → Option Text → Option ℕ → Fields → InteractionJob
job id priority status run_after locked_by locked_at payload = record {
  id = id;
  interaction_id = 100 + id;
  session_id = 5;
  lead_id = 6;
  campaign_id = 3;
  customer_id = 7;
  job_type = llm_analysis;
  status = status;
  priority = priority;
  idempotency_key = text "interaction:" ++ id ∷ [];
  payload = payload;
  result = end;
  token_estimate = 1500;
  tokens_used = 0;
  attempts = 1;
  max_attempts = 5;
  run_after = run_after;
  locked_by = locked_by;
  locked_at = locked_at;
  started_at = none;
  completed_at = none;
  last_error_code = none;
  last_error_message = none;
  created_at = id;
}

abbrev pub waiting_low : InteractionJob
waiting_low = job 1 low pending 10 none none end

abbrev pub waiting_high : InteractionJob
waiting_high = job 2 high deferred 20 none none end

abbrev pub busy : InteractionJob
busy = job 3 medium running 10 (some (text "llm-worker-a")) (some 40) end

abbrev pub finished : InteractionJob
finished = job 4 medium succeeded 10 none none end

abbrev pub tables : List InteractionJob → List CustomerTokenUsage → Db
tables jobs usage = record {
  jobs = jobs;
  dead_letters = [];
  usage = usage;
  interactions = [];
  leads = [];
  audit = [];
  metrics = [];
  next_uuid = 9;
}

abbrev pub db : Db
db = tables (waiting_low ∷ waiting_high ∷ busy ∷ finished ∷ []) []

abbrev pub usage_row : ℕ → ℕ → CustomerTokenUsage
usage_row customer_id reserved = record {
  customer_id = customer_id;
  window_start = 0;
  budget_tokens = pos 15000;
  reserved_tokens = reserved;
  used_tokens = 0;
  requests_reserved = 2;
  requests_used = 0;
}

abbrev pub call : Interaction
call = record {
  id = 103;
  session_id = 5;
  lead_id = 6;
  campaign_id = 3;
  customer_id = 7;
  agent_id = 8;
  status = InteractionStatus.in_progress;
  call_sid = some (text "CA1");
  ended_at = none;
  duration_seconds = none;
  conversation_data = end;
  interaction_metadata = end;
  recording_s3_key = none;
  retry_count = 0;
  error_log = [];
}
