-- ===== src/Webhook.antt =====
-- api/endpoints.py, `end_interaction`, and queues/durable.py, `DurableInteractionQueue`. The check
-- of the signature and the nudge of Celery are arguments: what they answered.
pub mod Delivery
mod Tests
use post_call_processing_pip.Common.{
  ℕ, Bool, true, false, not, Option, none, some, [], ◌∷◌, ◌++◌, ◌==◌, ℤ,
}
use post_call_processing_pip.Text.{Text, text, is_nonempty}
use post_call_processing_pip.Json.{
  Json, null, bool, num, str, arr, obj, Items, nil, cons, Fields, end, field,
}
use post_call_processing_pip.Json
use post_call_processing_pip.Settings.{Settings}
use post_call_processing_pip.Runtime.{Runtime}
use post_call_processing_pip.Attempt.{Attempt, ok, raise, ◌>>=◌}
use post_call_processing_pip.Keys.{plain_key}
use post_call_processing_pip.Text.{uuid_str}
use post_call_processing_pip.Models.{
  Db, Interaction, InteractionStatus, InteractionJob, orchestrate_interaction, high,
}
use post_call_processing_pip.Jobs.{NewJob, create_if_absent}
use post_call_processing_pip.Interactions.{get, or_previous, mark_ended}
use post_call_processing_pip.Audit.{emit, from_job}
use post_call_processing_pip.Classifier.{str_of}
use post_call_processing_pip.Attempt.{get_of}

-- The body of the request.
pub record InteractionEndRequest : Type 0 where
  pub call_sid : Option Text
  pub duration_seconds : Option ℤ
  pub additional_data : Option Fields

abbrev or_text : Text → Option Json → Json
or_text s none = str s
or_text s (some v) = v

-- f"{turn.get('role', 'unknown')}: {turn.get('content', '')}"
unfoldable pub turn_text : Runtime → Json → Attempt Text
unfolding get_of
turn_text rt turn = do
  role ← get_of (text "role") turn
  content ← get_of (text "content") turn
  ok (str_of rt (or_text (text "unknown") role) ++ (text ": " ++ str_of rt (or_text [] content)))

-- "\n".join(...)
unfoldable pub join_turns : Runtime → Items → Attempt Text
unfolding turn_text
join_turns rt nil = ok []
join_turns rt (cons turn nil) = turn_text rt turn
join_turns rt (cons turn (cons next rest)) = do
  this ← turn_text rt turn
  others ← join_turns rt (cons next rest)
  ok (this ++ (10 ∷ others))

-- `Interaction.transcript_text`
unfoldable pub transcript_text : Runtime → Fields → Attempt Text
unfolding join_turns
transcript_text rt conversation_data = elim (Json.get (text "transcript") conversation_data) [
  | none ↦ ok []
  | some (arr turns) ↦ join_turns rt turns
  | some v ↦ ok (str_of rt v)
]

abbrev pub or_null : Option Json → Json
or_null none = null
or_null (some v) = v

abbrev pub text_or_null : Option Text → Json
text_or_null none = null
text_or_null (some s) = str s

abbrev int_or_null : Option ℤ → Json
int_or_null none = null
int_or_null (some z) = num z

abbrev pub or_empty : Option Fields → Fields
or_empty none = end
or_empty (some d) = d

-- `payload` of `enqueue_interaction_ended`, given the transcript's text.
abbrev pub payload_of : Runtime → Interaction → InteractionEndRequest → ℕ → Text → Fields
payload_of rt i request ended_at transcript = field (text "interaction_id") (str (uuid_str i.id)) (
    field (text "session_id") (str (uuid_str i.session_id)) (
      field (text "lead_id") (str (uuid_str i.lead_id)) (
        field (text "campaign_id") (str (uuid_str i.campaign_id)) (
          field (text "customer_id") (str (uuid_str i.customer_id)) (
            field (text "agent_id") (str (uuid_str i.agent_id)) (
              field (text "call_sid") (text_or_null (or_previous request.call_sid i.call_sid)) (
                field (text "duration_seconds") (int_or_null request.duration_seconds) (
                  field (text "conversation_data") (obj i.conversation_data) (
                    field (text "transcript_text") (str transcript) (
                      field (text "additional_data") (obj (or_empty request.additional_data)) (
                        field (text "ended_at") (str (rt.isoformat ended_at)) (
                          field (text "exotel_account_id")
                            (or_null (Json.get (text "exotel_account_sid") i.conversation_data))
                            end))))))))))))

abbrev pub new_job : Interaction → Fields → NewJob
new_job i payload = record {
  interaction_id = i.id;
  session_id = i.session_id;
  lead_id = i.lead_id;
  campaign_id = i.campaign_id;
  customer_id = i.customer_id;
  job_type = orchestrate_interaction;
  priority = high;
  idempotency_key = plain_key i.id (text "orchestrate");
  payload = payload;
  token_estimate = 0;
  max_attempts = none;
  run_after = none;
}

-- `bool(payload["call_sid"])`
abbrev is_present : Option Text → Bool
is_present none = false
is_present (some s) = is_nonempty s

-- `enqueue_interaction_ended`, on the interaction as `mark_ended` left it.
unfoldable pub enqueue_interaction_ended :
    Settings
    → Runtime
    → ℕ
    → Interaction
    → InteractionEndRequest
    → ℕ
    → Db
    → Attempt (InteractionJob × Db)
unfolding transcript_text create_if_absent emit
enqueue_interaction_ended s rt now i request ended_at db = do
  transcript ← transcript_text rt i.conversation_data
  let (job, db') =
      create_if_absent s now (new_job i (payload_of rt i request ended_at transcript)) db
  ok (
    job,
    emit (from_job job (text "webhook")) (text "queued") (text "interaction_end_workflow_queued")
        none
        (field (text "call_sid_present")
          (bool (is_present (or_previous request.call_sid i.call_sid))) end)
        db',
  )

-- The answer: the job's id, or the status code of an HTTPException.
pub data Response : Type 0 where
  queued : ℕ → Response
  rejected : ℕ → Response

-- The interaction that the session holds after `mark_ended`.
abbrev pub ended : Interaction → ℕ → InteractionEndRequest → Interaction
ended i ended_at request = record i {
  status = InteractionStatus.ended;
  ended_at = some ended_at;
  duration_seconds = request.duration_seconds;
  call_sid = or_previous request.call_sid i.call_sid;
}

-- The nudge of Celery, after the commit: `none`, or the class and text of what it raised.
unfoldable pub nudge : Option (Text × Text) → InteractionJob → Db → Db
unfolding emit
nudge none job db = db
nudge (some (error_class, error)) job db =
    emit (from_job job (text "webhook")) (text "queued") (text "workflow_wakeup_failed")
      (some error_class) (field (text "error") (str error) end) db

-- The transaction, for an interaction of the session, and what follows it. An exception rolls back.
unfoldable pub accept :
    Settings
    → Runtime
    → ℕ
    → ℕ
    → Interaction
    → InteractionEndRequest
    → Option (Text × Text)
    → Db
    → Response × Db
unfolding mark_ended enqueue_interaction_ended nudge
accept s rt ended_at now i request nudged db =
    elim (enqueue_interaction_ended s rt now (ended i ended_at request) request ended_at
      (mark_ended i ended_at request.duration_seconds request.call_sid db)) [
        | raise e ↦ (rejected 500, db)
        | ok (job, db') ↦ (queued job.id, nudge nudged job db')
      ]

-- `signature` is `none`, or the status code that `validate_webhook_signature` raised.
unfoldable pub end_interaction :
    Settings
    → Runtime
    → Option ℕ
    → ℕ
    → ℕ
    → ℕ
    → ℕ
    → InteractionEndRequest
    → Option (Text × Text)
    → Db
    → Response × Db
unfolding accept
end_interaction s rt signature ended_at now session_id interaction_id request nudged db =
    elim signature [
      | some code ↦ (rejected code, db)
      | none ↦ elim (get interaction_id db) [
        | none ↦ (rejected 404, db)
        | some i ↦ elim (i.session_id == session_id) [
          | false ↦ (rejected 409, db)
          | true ↦ accept s rt ended_at now i request nudged db
        ]
      ]
    ]
