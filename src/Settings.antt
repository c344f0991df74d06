-- ===== src/Settings.antt =====
-- config.py: the settings that the model reads, as a record, so that a theorem holds for every
-- environment; and the defaults.
use post_call_processing_pip.Common.{ℕ, []}
use post_call_processing_pip.Text.{Text, text}

pub record Settings : Type 0 where
  pub llm_provider : Text
  pub llm_model : Text
  pub llm_api_key : Text
  pub llm_tokens_per_minute : ℕ
  pub llm_requests_per_minute : ℕ
  pub llm_max_prompt_tokens : ℕ
  pub customer_default_tokens_per_minute : ℕ
  pub recording_initial_retry_seconds : ℕ
  pub recording_max_retry_seconds : ℕ
  pub recording_max_attempts : ℕ
  pub workflow_max_attempts : ℕ
  pub workflow_base_retry_seconds : ℕ
  pub workflow_max_retry_seconds : ℕ
  pub job_claim_batch_size : ℕ
  pub job_lock_timeout_seconds : ℕ
  pub webhook_signing_secret : Text

abbrev pub defaults : Settings
defaults = record {
  llm_provider = text "openai";
  llm_model = text "gpt-4o";
  llm_api_key = text "sk-mock-key-for-assessment";
  llm_tokens_per_minute = 90000;
  llm_requests_per_minute = 500;
  llm_max_prompt_tokens = 12000;
  customer_default_tokens_per_minute = 15000;
  recording_initial_retry_seconds = 5;
  recording_max_retry_seconds = 120;
  recording_max_attempts = 8;
  workflow_max_attempts = 5;
  workflow_base_retry_seconds = 10;
  workflow_max_retry_seconds = 900;
  job_claim_batch_size = 25;
  job_lock_timeout_seconds = 300;
  webhook_signing_secret = [];
}
