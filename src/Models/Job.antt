-- ===== src/Models/Job.antt =====
-- models/workflow.py: rows of `interaction_jobs` and `dead_letter_jobs`. An id is the number of its
-- UUID; a time is in microseconds.
use post_call_processing_pip.Common.{ℕ, Option}
use post_call_processing_pip.Text.{Text}
use post_call_processing_pip.Json.{Fields}
use post_call_processing_pip.Models.Enums.{JobPriority, JobStatus, JobType}

pub record InteractionJob : Type 0 where
  pub id : ℕ
  pub interaction_id : ℕ
  pub session_id : ℕ
  pub lead_id : ℕ
  pub campaign_id : ℕ
  pub customer_id : ℕ
  pub job_type : JobType
  pub status : JobStatus
  pub priority : JobPriority
  pub idempotency_key : Text
  pub payload : Fields
  pub result : Fields
  pub token_estimate : ℕ
  pub tokens_used : ℕ
  pub attempts : ℕ
  pub max_attempts : ℕ
  pub run_after : ℕ
  pub locked_by : Option Text
  pub locked_at : Option ℕ
  pub started_at : Option ℕ
  pub completed_at : Option ℕ
  pub last_error_code : Option Text
  pub last_error_message : Option Text
  pub created_at : ℕ

pub record DeadLetterJob : Type 0 where
  pub original_job_id : ℕ
  pub interaction_id : ℕ
  pub customer_id : ℕ
  pub campaign_id : ℕ
  pub job_type : Text
  pub stage : Text
  pub payload : Fields
  pub attempts : ℕ
  pub last_error_code : Text
  pub last_error_message : Text
