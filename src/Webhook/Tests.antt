-- ===== src/Webhook/Tests.antt =====
-- A delivery for the call of `Samples`, one more, and one for an unknown call.
use post_call_processing_pip.Common.{ℕ, ◌≡◌, refl, ◌⊎◌, none, some, [], ◌∷◌, pos}
use post_call_processing_pip.Text.{text}
use post_call_processing_pip.Json
use post_call_processing_pip.Json.{end}
use post_call_processing_pip.Keys.{plain_key}
use post_call_processing_pip.Settings.{defaults}
use post_call_processing_pip.Attempt.{ok}
use post_call_processing_pip.Models.{Db, InteractionJob}
use post_call_processing_pip.Jobs.{get_by_idempotency_key}
use post_call_processing_pip.Interactions.{get}
use post_call_processing_pip.Webhook.{
  InteractionEndRequest, transcript_text, end_interaction, queued, rejected, ended,
}
use post_call_processing_pip.Webhook.Delivery.{end_interaction_accepted, end_interaction_rejected}
use post_call_processing_pip.Samples.{runtime, call, db}

abbrev calls : Db
calls = record db { interactions = call ∷ [] }

abbrev request : InteractionEndRequest
request = record {
  call_sid = some (text "CA2");
  duration_seconds = some (pos 95);
  additional_data = none;
}

abbrev bare : InteractionEndRequest
bare = record { call_sid = none; duration_seconds = none; additional_data = none }

no_transcript : transcript_text runtime end ≡ ok []
unfolding transcript_text Json.get
no_transcript = refl

end_interaction_accepted_example :
    let r = end_interaction defaults runtime none 70 71 5 103 request none calls in
    (job : InteractionJob) × (r.0 ≡ queued job.id)
    × (get_by_idempotency_key (plain_key 103 (text "orchestrate")) r.1 ≡ some job)
    × (get 103 r.1 ≡ some (ended call 70 request))
end_interaction_accepted_example =
    end_interaction_accepted defaults runtime 70 71 request none 5 103 call [] calls refl refl
      no_transcript

end_interaction_rejected_example :
    let r = end_interaction defaults runtime none 70 71 5 104 request none calls in
    ((id : ℕ) × (r.0 ≡ queued id)) ⊎ (((code : ℕ) × (r.0 ≡ rejected code)) × (r.1 ≡ calls))
end_interaction_rejected_example =
    end_interaction_rejected defaults runtime 70 71 request none none 5 104 calls
