-- ===== src/Audit.antt =====
-- logging/audit.py and security/pii.py: audit events, with personal data struck out.
pub mod Redaction
mod Tests
use post_call_processing_pip.Common.{
  ℕ, Bool, true, false, ◌||◌, Option, none, some, List, [], ◌∷◌, ◌++◌, if◌then◌else◌,
}
use post_call_processing_pip.Text.{Text, text, text_eq, lower}
use post_call_processing_pip.Json.{
  Json, null, bool, num, str, arr, obj, Items, nil, cons, Fields, end, field,
}
use post_call_processing_pip.Models.{Db, InteractionJob, AuditEvent, Metric, job_type_value}

-- `settings.PII_LOG_FIELDS`
unfoldable pub pii_log_fields : List Text
unfolding text
pii_log_fields =
    text "phone"
    ∷ text "lead_phone"
    ∷ text "email"
    ∷ text "name"
    ∷ text "transcript"
    ∷ text "transcript_text"
    ∷ text "recording_url"
    ∷ []

unfoldable pub is_one_of : Text → List Text → Bool
is_one_of k [] = false
is_one_of k (s ∷ ss) = text_eq k (lower s) || is_one_of k ss

-- `str(key).lower() in {field.lower() for field in settings.PII_LOG_FIELDS}`
unfoldable pub is_pii : Text → Bool
unfolding is_one_of pii_log_fields
is_pii key = is_one_of (lower key) pii_log_fields

unfoldable pub redacted : Json
redacted = str (text "[REDACTED]")

unfoldable mutual
  pub redact_pii : Json → Json
  redact_pii null = null
  redact_pii (bool b) = bool b
  redact_pii (num z) = num z
  redact_pii (str s) = str s
  redact_pii (arr xs) = arr (redact_items xs)
  redact_pii (obj d) = obj (redact_fields d)

  pub redact_items : Items → Items
  redact_items nil = nil
  redact_items (cons x xs) = cons (redact_pii x) (redact_items xs)

  pub redact_fields : Fields → Fields
  redact_fields end = end
  redact_fields (field k v d) =
      field k (if is_pii k then redacted else redact_pii v) (redact_fields d)

pub record AuditContext : Type 0 where
  pub interaction_id : ℕ
  pub job_id : ℕ
  pub customer_id : ℕ
  pub campaign_id : ℕ
  pub stage : Text
  pub retry_count : ℕ
  pub token_usage : ℕ

-- `AuditContext.from_job(job, stage=stage)`, with a stage that is not empty.
abbrev pub from_job : InteractionJob → Text → AuditContext
from_job job stage = record {
  interaction_id = job.interaction_id;
  job_id = job.id;
  customer_id = job.customer_id;
  campaign_id = job.campaign_id;
  stage = stage;
  retry_count = job.attempts;
  token_usage = job.tokens_used;
}

abbrev pub event_of : AuditContext → Text → Text → Option Text → Fields → AuditEvent
event_of context status message error_code metadata = record {
  interaction_id = context.interaction_id;
  job_id = context.job_id;
  customer_id = context.customer_id;
  campaign_id = context.campaign_id;
  stage = context.stage;
  status = status;
  retry_count = context.retry_count;
  token_usage = context.token_usage;
  error_code = error_code;
  message = message;
  event_metadata = redact_fields metadata;
}

-- `audit_logger.emit(session, context, status, message, error_code=…, metadata=…)`
unfoldable pub emit : AuditContext → Text → Text → Option Text → Fields → Db → Db
emit context status message error_code metadata db = record db {
  audit = db.audit ++ event_of context status message error_code metadata ∷ [];
}

-- `metric.inc()`
unfoldable pub inc : Metric → Db → Db
inc m db = record db { metrics = db.metrics ++ m ∷ [] }
