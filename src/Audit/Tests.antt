-- ===== src/Audit/Tests.antt =====
-- An event with personal data.
use post_call_processing_pip.Common.{◌≡◌, ◌++◌, none, [], ◌∷◌}
use post_call_processing_pip.Text.{text}
use post_call_processing_pip.Json.{str, obj, Fields, end, field}
use post_call_processing_pip.Models.{AuditEvent}
use post_call_processing_pip.Audit.{AuditContext, from_job, emit}
use post_call_processing_pip.Audit.Redaction.{HasCleanFields, keys, emit-HasCleanFields}
use post_call_processing_pip.Samples.{db, waiting_high}

abbrev metadata : Fields
metadata =
    field (text "call_sid") (str (text "CA1"))
      (field (text "lead") (obj (field (text "phone") (str (text "+49 30 1")) end)) end)

abbrev context : AuditContext
context = from_job waiting_high (text "llm_worker")

emit-HasCleanFields_example :
    (event : AuditEvent) × ((emit context (text "succeeded") (text "done") none metadata db).audit
      ≡ db.audit ++ event ∷ [])
    × HasCleanFields event.event_metadata
    × (keys event.event_metadata ≡ keys metadata)
emit-HasCleanFields_example =
    emit-HasCleanFields context (text "succeeded") (text "done") none metadata db
