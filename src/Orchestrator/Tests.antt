-- ===== src/Orchestrator/Tests.antt =====
-- A short call, a call with a booked demo, and a payload that cannot be read.
use post_call_processing_pip.Common.{
  ℕ, ◌≤◌, ◌<◌, ◌+◌, ◌/◌, ◌≡◌, refl, ◌⊎◌, true, false, none, some, [], ◌∷◌,
}
use post_call_processing_pip.Text.{Text, text, text_eq, is_in, starts_with, lower}
use post_call_processing_pip.Json
use post_call_processing_pip.Json.{
  Json, null, str, arr, obj, Items, nil, cons, Fields, end, field, get_or, is_truthy,
}
use post_call_processing_pip.Keys.{plain_key, staged_key}
use post_call_processing_pip.Settings.{defaults}
use post_call_processing_pip.Attempt.{ok, raise}
use post_call_processing_pip.Models.{
  Db, InteractionJob, high, low, running, llm_analysis, recording_fetch, signal_jobs,
  lead_stage_update, orchestrate_interaction,
}
use post_call_processing_pip.Jobs.{get, succeed_row}
use post_call_processing_pip.Classifier.{
  len, Classification, analysed, classify, classify_text, searched, contains_any, high_keywords,
}
use post_call_processing_pip.Attempt.{get_of}
use post_call_processing_pip.Webhook.{
  InteractionEndRequest, join_turns, payload_of, transcript_text,
}
use post_call_processing_pip.Orchestrator.Reading.{
  turns_of, read_call-payload_of, process_job_delivered,
}
use post_call_processing_pip.Orchestrator.{
  transcript_of, transcript_text_of, classification_of, read_call, len_of, estimate,
}
use post_call_processing_pip.Orchestrator.Run.{JobReadings, process_job}
use post_call_processing_pip.Orchestrator.Children.{
  orchestrated, with_classification, with_short_result,
}
use post_call_processing_pip.Jobs.Queued.{Queues, IsChildOf}
use post_call_processing_pip.Orchestrator.Outcome.{process_job_analysed}
use post_call_processing_pip.Samples.{runtime, call, job, tables}

abbrev call_job : Fields → InteractionJob
call_job payload = record (job 5 high running 10 (some (text "orchestrator-a")) (some 40) payload) {
  job_type = orchestrate_interaction;
}

abbrev db : InteractionJob → Db
db j = tables (j ∷ []) []

abbrev clock : JobReadings
clock = record {
  children = record { recording_at = 51; signal_at = 52; lead_at = 53; llm_at = 54 };
  orchestrated_at = 55;
  completed_at = 56;
  failed = record { decided = 57; logged = 58; closed = 59 };
}

-- The safety factor 1.15.
abbrev scaled : ℕ → ℕ
scaled n = n + n / 7

abbrev message : Text → Text
message e = text "'str' object has no attribute 'get'"

abbrev short_call : Classification
short_call = record {
  skip_llm = true;
  priority = low;
  call_stage = text "short_call";
  reason = text "short_transcript";
}

short_is_read : read_call runtime end ≡ ok (str [], short_call)
unfolding read_call transcript_of transcript_text_of classification_of classify get_of get_or
    join_turns is_truthy Json.get
short_is_read = refl

abbrev turns : Items
turns = cons (obj end) (cons (obj end) (cons (obj end) (cons (obj end) nil)))

abbrev demo : Fields
demo = field (text "conversation_data") (obj (field (text "transcript") (arr turns) end)) (
    field (text "transcript_text") (str (text "Demo booked"))
      (field (text "call_sid") (str (text "CA1")) end))

abbrev demo_call : Classification
demo_call = analysed high (text "high_value_keyword")

demo_is_read : read_call runtime demo ≡ ok (str (text "Demo booked"), demo_call)
unfolding read_call transcript_of transcript_text_of classification_of classify classify_text
    searched contains_any high_keywords get_of get_or is_truthy Json.get text text_eq is_in
    starts_with lower
demo_is_read = refl

demo_length : len_of (str (text "Demo booked")) ≡ ok 11
unfolding len_of text
demo_length = refl

process_job_analysed_example :
    let db' =
      process_job defaults runtime scaled message clock (call_job demo) (db (call_job demo)) in
    (get 5 db' ≡ some (succeed_row 56 (orchestrated runtime clock) 0 (call_job demo)))
    × Queues
        (plain_key 105 (text "llm"))
        (IsChildOf
          (call_job demo)
          llm_analysis
          high
          (with_classification demo_call demo)
          (estimate defaults scaled 11))
        (db (call_job demo))
        db'
    × ((is_truthy (get_or (text "call_sid") null demo) ≡ false)
        ⊎ Queues
            (plain_key 105 (text "recording"))
            (IsChildOf (call_job demo) recording_fetch high demo 0)
            (db (call_job demo))
            db')
process_job_analysed_example =
    process_job_analysed defaults runtime scaled message clock (call_job demo) (db (call_job demo))
      (str (text "Demo booked")) demo_call 11 demo_is_read refl demo_length refl

abbrev broken : Fields
broken = field (text "conversation_data") (str (text "oops")) end

broken_raises : read_call runtime broken ≡ raise (text "AttributeError")
unfolding read_call transcript_of get_of get_or is_truthy Json.get text text_eq
broken_raises = refl

-- A call without a transcript, as the webhook queues it.
abbrev request : InteractionEndRequest
request = record { call_sid = some (text "CA2"); duration_seconds = none; additional_data = none }

no_transcript : transcript_text runtime end ≡ ok []
unfolding transcript_text Json.get
no_transcript = refl

abbrev delivered : InteractionJob
delivered = call_job (payload_of runtime call request 70 [])

read_call-payload_of_example :
    read_call runtime (payload_of runtime call request 70 [])
    ≡ ok (str [], classify runtime (turns_of end) [] end)
read_call-payload_of_example = read_call-payload_of runtime call request 70 [] no_transcript

process_job_delivered_example :
    let db' = process_job defaults runtime scaled message clock delivered (db delivered) in
    let c = classify runtime (turns_of end) [] end in
    (get 5 db' ≡ some (succeed_row 56 (orchestrated runtime clock) 0 delivered))
    × (((len (turns_of end) < 4)
          × Queues
              (staged_key 105 (text "signal") (text "short_call"))
              (IsChildOf delivered signal_jobs high (with_short_result c delivered.payload) 0)
              (db delivered)
              db'
          × Queues
              (staged_key 105 (text "lead") (text "short_call"))
              (IsChildOf delivered lead_stage_update high (with_short_result c delivered.payload) 0)
              (db delivered)
              db')
        ⊎ ((4 ≤ len (turns_of end))
            × Queues
                (plain_key 105 (text "llm"))
                (IsChildOf delivered llm_analysis c.priority
                  (with_classification c delivered.payload)
                  (estimate defaults scaled 0))
                (db delivered)
                db'))
process_job_delivered_example =
    process_job_delivered runtime call request 70 [] defaults scaled message clock delivered
      (db delivered) no_transcript refl refl
