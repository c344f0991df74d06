-- ===== src/Models/Audit.antt =====
-- models/workflow.py: a row of `audit_events`; metrics/registry.py: what a counter was told.
use post_call_processing_pip.Common.{ℕ, Option}
use post_call_processing_pip.Text.{Text}
use post_call_processing_pip.Json.{Json, Fields}
use post_call_processing_pip.Models.Enums.{JobType}

pub record AuditEvent : Type 0 where
  pub interaction_id : ℕ
  pub job_id : ℕ
  pub customer_id : ℕ
  pub campaign_id : ℕ
  pub stage : Text
  pub status : Text
  pub retry_count : ℕ
  pub token_usage : ℕ
  pub error_code : Option Text
  pub message : Text
  pub event_metadata : Fields

-- One call of `.inc` or `.observe`, with its labels and its amount.
pub data Metric : Type 0 where
  workflow_jobs_total : JobType → Text → Metric
  workflow_retries_total : JobType → Text → Metric
  workflow_dead_letters_total : JobType → Text → Metric
  recording_attempts_total : Text → Metric
  llm_tokens_total : ℕ → ℕ → Text → ℕ → Metric
  llm_latency_ms : Json → Metric
