-- ===== src/Pipeline/Redelivery.antt =====
-- api/endpoints.py with all parts: a webhook that is delivered again, after whatever has happened.
use post_call_processing_pip.Common.{ℕ, ◌≡◌, sym, ap, ◌∙◌, Option, none, some, [], ◌∷◌, List}
use post_call_processing_pip.Text.{Text, text}
use post_call_processing_pip.Keys.{plain_key}
use post_call_processing_pip.Settings.{Settings}
use post_call_processing_pip.Runtime.{Runtime}
use post_call_processing_pip.Attempt.{ok}
use post_call_processing_pip.Models.{Db, Interaction}
use post_call_processing_pip.Interactions.{get}
use post_call_processing_pip.Webhook.{
  InteractionEndRequest, queued, transcript_text, end_interaction,
}
use post_call_processing_pip.Webhook.Delivery.{end_interaction_accepted, end_interaction_again}
use post_call_processing_pip.Pipeline.Soundness.{IsSound}
use post_call_processing_pip.Pipeline.Transactions.{
  Event, delivers, happen_all, happen_all-IsSound, happen_all-IsLater,
}

module _ (s : Settings) (rt : Runtime) (ended_at now : ℕ) (request : InteractionEndRequest)
    (nudged : Option (Text × Text)) (session_id interaction_id : ℕ) where
  abbrev delivery : Db → Db
  delivery db =
      (end_interaction s rt none ended_at now session_id interaction_id request nudged db).1

  delivery-IsSound : (db : Db) → IsSound db → IsSound (delivery db)
  unfolding happen_all
  delivery-IsSound db v =
      happen_all-IsSound s rt
        (delivers none ended_at now session_id interaction_id request nudged ∷ []) db v

  -- From sound tables, a webhook delivery with a valid signature, for a call of its session whose
  -- transcript can be read, then any sequence of other deliveries, ticks and tasks, and then the same
  -- webhook again with a valid signature, at any time and with whatever body, the call still being
  -- of the session and its transcript readable: the second delivery gets the answer of the first,
  -- and it adds no job and changes none.
  pub end_interaction_redelivered :
      (es : List Event) (ended_at' now' : ℕ) (request' : InteractionEndRequest)
      (nudged' : Option (Text × Text)) (i i' : Interaction) (t t' : Text) (db : Db)
      → IsSound db
      → get interaction_id db ≡ some i
      → i.session_id ≡ session_id
      → transcript_text rt i.conversation_data ≡ ok t
      → get interaction_id (happen_all s rt es (delivery db)) ≡ some i'
      → i'.session_id ≡ session_id
      → transcript_text rt i'.conversation_data ≡ ok t'
      → let first =
          end_interaction s rt none ended_at now session_id interaction_id request nudged db in
        let later = happen_all s rt es first.1 in
        let again =
          end_interaction s rt none ended_at' now' session_id interaction_id request' nudged'
            later in
        (again.0 ≡ first.0) × (again.1.jobs ≡ later.jobs)
  end_interaction_redelivered es ended_at' now' request' nudged' i i' t t' db v e same h e' same'
        h' =
      let (job, answer, there, _) =
        end_interaction_accepted s rt ended_at now request nudged session_id interaction_id i t db e
          same h in
      let key = plain_key interaction_id (text "orchestrate") in
      let (job', there', later) =
        happen_all-IsLater s rt es (delivery db) key job (delivery-IsSound db v) there in
      let (answer', kept) =
        end_interaction_again s rt ended_at' now' request' nudged' session_id interaction_id i' t'
          (happen_all s rt es (delivery db)) {job = job'} e' same' h' there' in
      (answer' ∙ ap (λ r. queued r.id) later.same ∙ sym answer, kept)
