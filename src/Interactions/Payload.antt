-- ===== src/Interactions/Payload.antt =====
-- repositories/interactions.py, `as_payload`, and the property `is_short_transcript` of
-- models/interaction.py: a call as a dict.
use post_call_processing_pip.Common.{
  ℕ, ◌≡◌, refl, Bool, Option, none, some, ltb, Bool-cases, inl, inr,
}
use post_call_processing_pip.Text.{Text, text, uuid_str}
use post_call_processing_pip.Json
use post_call_processing_pip.Json.{Json, null, bool, str, arr, nil, obj, Items, Fields, end, field}
use post_call_processing_pip.Runtime.{Runtime}
use post_call_processing_pip.Attempt.{Attempt, ok, ◌>>=◌}
use post_call_processing_pip.Models.{Db, Interaction}
use post_call_processing_pip.Interactions.{get}
use post_call_processing_pip.Classifier.{len, searched, classify}
use post_call_processing_pip.Classifier.Keywords.{classify_text-analysed}
use post_call_processing_pip.Webhook.{transcript_text, or_null, text_or_null}
use post_call_processing_pip.Orchestrator.{len_of}

abbrev or_no_turns : Option Json → Json
or_no_turns none = arr nil
or_no_turns (some v) = v

-- `Interaction.is_short_transcript`
unfoldable pub is_short_transcript : Fields → Attempt Bool
unfolding len_of
is_short_transcript conversation_data = do
  n ← len_of (or_no_turns (Json.get (text "transcript") conversation_data))
  ok (ltb n 4)

-- The dict of a row.
unfoldable pub fields_of : Runtime → Interaction → Attempt Fields
unfolding transcript_text is_short_transcript
fields_of rt i = do
  transcript ← transcript_text rt i.conversation_data
  short ← is_short_transcript i.conversation_data
  ok (
      field (text "id") (str (uuid_str i.id)) (
        field (text "session_id") (str (uuid_str i.session_id)) (
          field (text "lead_id") (str (uuid_str i.lead_id)) (
            field (text "campaign_id") (str (uuid_str i.campaign_id)) (
              field (text "customer_id") (str (uuid_str i.customer_id)) (
                field (text "agent_id") (str (uuid_str i.agent_id)) (
                  field (text "call_sid") (text_or_null i.call_sid) (
                    field (text "conversation_data") (obj i.conversation_data) (
                      field (text "interaction_metadata") (obj i.interaction_metadata) (
                        field (text "exotel_account_id")
                          (or_null (Json.get (text "exotel_account_sid") i.conversation_data))
                          (field (text "transcript_text") (str transcript)
                            (field (text "is_short_transcript") (bool short) end))))))))))))

-- `as_payload`
unfoldable pub as_payload : Runtime → ℕ → Db → Attempt (Option Fields)
unfolding fields_of
as_payload rt interaction_id db = elim (get interaction_id db) [
  | none ↦ ok none
  | some i ↦ (fields_of rt i >>= λ d. ok (some d))
]

-- For a transcript that is a list, the property says what the classifier decides: the call is short
-- exactly if the classifier skips its analysis.
pub is_short_transcript-classify :
    (rt : Runtime) (conversation_data : Fields) (turns : Items) (words : Text)
    (additional_data : Fields)
    → Json.get (text "transcript") conversation_data ≡ some (arr turns)
    → is_short_transcript conversation_data ≡ ok (classify rt turns words additional_data).skip_llm
unfolding is_short_transcript len_of classify
is_short_transcript-classify rt conversation_data turns words additional_data e =
    let long = (classify_text-analysed (searched rt words additional_data)).0 in
    elim (Bool-cases (ltb (len turns) 4)) [
      | inl short ↦ rw (e, short) refl
      | inr enough ↦ rw (e, enough, long) refl
    ]
