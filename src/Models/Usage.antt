-- ===== src/Models/Usage.antt =====
-- models/workflow.py: a row of `customer_token_usage`.
use post_call_processing_pip.Common.{ℕ, ℤ}

pub record CustomerTokenUsage : Type 0 where
  pub customer_id : ℕ
  pub window_start : ℕ
  pub budget_tokens : ℤ
  pub reserved_tokens : ℕ
  pub used_tokens : ℕ
  pub requests_reserved : ℕ
  pub requests_used : ℕ
