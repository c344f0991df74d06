-- ===== src/Interactions.antt =====
-- repositories/interactions.py: `InteractionRepository`. An update of an interaction or a lead that
-- is not there does nothing.
pub mod Log
pub mod Payload
use post_call_processing_pip.Common.{
  ℕ, ◌+◌, Option, none, some, [], ◌∷◌, ◌++◌, ◌==◌, if◌then◌else◌, find, ℤ, update_where, pos,
}
use post_call_processing_pip.Text.{Text, text, text_eq, is_nonempty}
use post_call_processing_pip.Json.{Json, num, str, Fields, end, field, set, update}
use post_call_processing_pip.Runtime.{Runtime}
use post_call_processing_pip.Models.{Db, Interaction, InteractionStatus}

abbrev pub get : ℕ → Db → Option Interaction
get interaction_id db = find (λ i. i.id == interaction_id) db.interactions

-- `interaction = await self.get(...)`, a return if it is `None`, and assignments to it.
unfoldable pub modify : ℕ → (Interaction → Interaction) → Db → Db
modify interaction_id f db = record db {
  interactions = update_where (λ i. i.id == interaction_id) f db.interactions;
}

-- `if call_sid:`
abbrev pub or_previous : Option Text → Option Text → Option Text
or_previous none old = old
or_previous (some s) old = if is_nonempty s then some s else old

unfoldable pub mark_ended : Interaction → ℕ → Option ℤ → Option Text → Db → Db
unfolding modify
mark_ended interaction ended_at duration_seconds call_sid = modify interaction.id λ i. record i {
  status = InteractionStatus.ended;
  ended_at = some ended_at;
  duration_seconds = duration_seconds;
  call_sid = or_previous call_sid i.call_sid;
}

unfoldable pub mark_processing : ℕ → Text → Db → Db
unfolding modify
mark_processing interaction_id analysis_status = modify interaction_id λ i. record i {
  interaction_metadata = set (text "analysis_status") (str analysis_status) i.interaction_metadata;
}

unfoldable pub update_analysis_result :
    Runtime → ℕ → ℕ → Json → Json → Json → Json → Text → Text → Db → Db
unfolding modify
update_analysis_result rt now interaction_id call_stage entities summary tokens_used provider
      model =
    modify interaction_id λ i. record i {
      interaction_metadata = update i.interaction_metadata (
          field (text "analysis_status") (str (text "completed")) (
            field (text "call_stage") call_stage (
              field (text "entities") entities (
                field (text "summary") summary (
                  field (text "tokens_used") tokens_used (
                    field (text "llm_provider") (str provider) (
                      field (text "llm_model") (str model)
                        (field (text "analyzed_at") (str (rt.isoformat now)) end))))))));
    }

unfoldable pub mark_short_call : ℕ → Db → Db
unfolding modify
mark_short_call interaction_id = modify interaction_id λ i. record i {
  interaction_metadata = update i.interaction_metadata (
      field (text "analysis_status") (str (text "skipped")) (
        field (text "call_stage") (str (text "short_call")) (
          field (text "skip_reason") (str (text "short_transcript"))
            (field (text "tokens_used") (num (pos 0)) end))));
}

unfoldable pub update_recording_key : ℕ → Text → Db → Db
unfolding modify
update_recording_key interaction_id s3_key =
    modify interaction_id λ i. record i { recording_s3_key = some s3_key }

-- The entry that `append_error` adds to the log.
abbrev pub error_entry : Runtime → ℕ → Text → Text → Text → Fields
error_entry rt now stage error_code error_message = field (text "stage") (str stage) (
    field (text "error_code") (str error_code) (
      field (text "error_message") (str error_message)
        (field (text "at") (str (rt.isoformat now)) end)))

unfoldable pub append_error : Runtime → ℕ → ℕ → Text → Text → Text → Db → Db
unfolding modify
append_error rt now interaction_id stage error_code error_message = modify interaction_id λ i.
    record i {
      error_log = i.error_log ++ error_entry rt now stage error_code error_message ∷ [];
      retry_count = i.retry_count + 1;
    }

-- `_map_call_stage_to_lead_stage`
unfoldable pub map_call_stage_to_lead_stage : Text → Text
map_call_stage_to_lead_stage call_stage =
    if text_eq call_stage (text "rebook_confirmed")
    then text "booked"
    else if text_eq call_stage (text "demo_booked")
    then text "booked"
    else if text_eq call_stage (text "callback_requested")
    then text "follow_up"
    else if text_eq call_stage (text "escalation_needed")
    then text "needs_attention"
    else if text_eq call_stage (text "not_interested")
    then text "closed_lost"
    else if text_eq call_stage (text "short_call")
    then text "short_call"
    else if text_eq call_stage (text "already_done")
    then text "completed"
    else if is_nonempty call_stage
    then call_stage
    else text "unknown"

unfoldable pub update_lead_stage : ℕ → Text → Db → Db
unfolding map_call_stage_to_lead_stage
update_lead_stage lead_id call_stage db = record db {
  leads =
      update_where (λ l. l.id == lead_id)
        (λ l. record l { stage = map_call_stage_to_lead_stage call_stage }) db.leads;
}
