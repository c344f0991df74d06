-- ===== src/Models/Calls.antt =====
-- models/interaction.py and models/lead.py: the columns of the two tables that the workflow reads
-- or writes, and the properties computed from `conversation_data`.
use post_call_processing_pip.Common.{ℕ, ℤ, Option, List}
use post_call_processing_pip.Text.{Text}
use post_call_processing_pip.Json.{Fields}

pub data InteractionStatus : Type 0 where
  initiated ringing in_progress ended failed processing : InteractionStatus

pub record Interaction : Type 0 where
  pub id : ℕ
  pub session_id : ℕ
  pub lead_id : ℕ
  pub campaign_id : ℕ
  pub customer_id : ℕ
  pub agent_id : ℕ
  pub status : InteractionStatus
  pub call_sid : Option Text
  pub ended_at : Option ℕ
  pub duration_seconds : Option ℤ
  pub conversation_data : Fields
  pub interaction_metadata : Fields
  pub recording_s3_key : Option Text
  pub retry_count : ℕ
  pub error_log : List Fields

pub record Lead : Type 0 where
  pub id : ℕ
  pub campaign_id : ℕ
  pub customer_id : ℕ
  pub stage : Text
