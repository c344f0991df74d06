-- ===== src/Models/State.antt =====
-- The state of the pipeline: the tables, each in insertion order, the counters of Prometheus, and
-- the UUID that the next `uuid4()` returns.
use post_call_processing_pip.Common.{ℕ, List}
use post_call_processing_pip.Models.Job.{InteractionJob, DeadLetterJob}
use post_call_processing_pip.Models.Usage.{CustomerTokenUsage}
use post_call_processing_pip.Models.Calls.{Interaction, Lead}
use post_call_processing_pip.Models.Audit.{AuditEvent, Metric}

pub record Db : Type 0 where
  pub jobs : List InteractionJob
  pub dead_letters : List DeadLetterJob
  pub usage : List CustomerTokenUsage
  pub interactions : List Interaction
  pub leads : List Lead
  pub audit : List AuditEvent
  pub metrics : List Metric
  pub next_uuid : ℕ
