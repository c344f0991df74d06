-- ===== src/Tasks/Tests.antt =====
-- A message of the old Celery task for the call of `Samples`.
use post_call_processing_pip.Common.{◌≡◌, refl, false, some, none, [], ◌∷◌}
use post_call_processing_pip.Text.{Text, text, text_eq, uuid_str}
use post_call_processing_pip.Json
use post_call_processing_pip.Json.{null, Json, obj, str, field, end, Fields}
use post_call_processing_pip.Settings.{defaults}
use post_call_processing_pip.Attempt.{ok}
use post_call_processing_pip.Models.{Db, InteractionJob, orchestrate_interaction, high}
use post_call_processing_pip.Jobs.{NewJob, get_by_idempotency_key}
use post_call_processing_pip.Webhook.{
  InteractionEndRequest, transcript_text, queued, end_interaction,
}
use post_call_processing_pip.Llm
use post_call_processing_pip.Llm.{item_of}
use post_call_processing_pip.Tasks.{uuid_in, legacy_key, legacy_job, Inputs, legacy_task}
use post_call_processing_pip.Tasks.Legacy.{legacy_task_delivered}
use post_call_processing_pip.Orchestrator.Run
use post_call_processing_pip.Keys.{plain_key}
use post_call_processing_pip.Failure.{Readings}
use post_call_processing_pip.Recording.{answered}
use post_call_processing_pip.Samples.{runtime, call, db}

abbrev calls : Db
calls = record db { interactions = call ∷ [] }

abbrev request : InteractionEndRequest
request = record { call_sid = none; duration_seconds = none; additional_data = none }

abbrev message : Text → Fields
message id = field (text "interaction_id") (str id) (
    field (text "session_id") (str (text "5")) (
      field (text "lead_id") (str (text "6")) (
        field (text "campaign_id") (str (text "3"))
          (field (text "customer_id") (str (text "7")) end))))

abbrev asked : Text → NewJob
asked id = record {
  interaction_id = 103;
  session_id = 103;
  lead_id = 103;
  campaign_id = 103;
  customer_id = 103;
  job_type = orchestrate_interaction;
  priority = high;
  idempotency_key = legacy_key runtime (str id);
  payload = message id;
  token_estimate = 0;
  max_attempts = none;
  run_after = none;
}

abbrev own : Text
own = uuid_str 103

-- The same UUID in braces, which `UUID()` also reads.
abbrev braced : Text
braced = text "{00000000-0000-0000-0000-000000000067}"

own_read : legacy_job runtime (message own) ≡ ok (asked own)
unfolding legacy_job uuid_in item_of Json.get text text_eq
own_read = refl

own_given : item_of (text "interaction_id") (obj (message own)) ≡ ok (str (uuid_str 103))
unfolding item_of Json.get text text_eq
own_given = refl

braced_read : legacy_job runtime (message braced) ≡ ok (asked braced)
unfolding legacy_job uuid_in item_of Json.get text text_eq
braced_read = refl

braced_given : item_of (text "interaction_id") (obj (message braced)) ≡ ok (str braced)
unfolding item_of Json.get text text_eq
braced_given = refl

no_transcript : transcript_text runtime call.conversation_data ≡ ok []
unfolding transcript_text Json.get
no_transcript = refl

abbrev delivered : Db
delivered = (end_interaction defaults runtime none 70 71 5 103 request none calls).1

abbrev clock : Readings
clock = record { decided = 95; logged = 96; closed = 97 }

abbrev inputs : Inputs
inputs = record {
  message = λ e. e;
  scaled = λ n. n;
  orchestrated = λ i. record {
    children = record { recording_at = 93; signal_at = 93; lead_at = 93; llm_at = 93 };
    orchestrated_at = 94;
    completed_at = 94;
    failed = clock;
  };
  orchestrator = record {
    worker_id = text "orchestrator-a";
    limit = 25;
    held = λ i. false;
    recover_now = 91;
    recovered_at = λ i. 91;
    claim_now = 92;
  };
  provider = λ i account call_sid. answered 404 null;
  recorded_at = λ i. 95;
  recording_failed = λ i. clock;
  llm = record {
    worker_id = text "llm-worker-a";
    limit = 10;
    held = λ i. false;
    recover_now = 95;
    recovered_at = λ i. 95;
    claim_now = 95;
    admit_at = λ i. 95;
    defer_at = λ i. 95;
  };
  turns = λ i. record {
    started_at = 95;
    provider = λ prompt. Llm.failed (text "no network");
    latency_ms = null;
    saved = record {
      analyzed_at = 95;
      usage_at = 95;
      completed_at = 95;
      signal_at = 95;
      lead_at = 95;
    };
    late = clock;
  };
  applied_at = λ i. 98;
  applying_failed = λ i. clock;
  held = λ i. false;
  recording_id = text "recording-worker-a";
  result_id = text "result-worker-a";
  recording_claim = 95;
  result_claim = 95;
}

legacy_task_delivered_example :
    let r = end_interaction defaults runtime none 70 71 5 103 request none calls in
    let ticked =
      Run.run_once defaults runtime inputs.scaled inputs.message inputs.orchestrated
        (record inputs.orchestrator { limit = 1 })
        r.1 in
    (job : InteractionJob) × (r.0 ≡ queued job.id)
    × (get_by_idempotency_key (plain_key 103 (text "orchestrate")) r.1 ≡ some job)
    × (legacy_task defaults runtime inputs 90 (message own) r.1 ≡ ok ((job.id, ticked.0), ticked.1))
legacy_task_delivered_example =
    legacy_task_delivered runtime (message own) (asked own) own_read defaults inputs 70 71 90
      request none 5 103 call [] calls refl refl no_transcript own_given
