-- ===== src/Tasks/Legacy.antt =====
-- tasks/celery_tasks.py, `_persist_legacy_payload_and_orchestrate`: the job of the old Celery task
-- beside the job of the webhook.
use post_call_processing_pip.Common.{ℕ, ◌≡◌, ap, ◌∙◌, Option, none, some, refl, sym}
use post_call_processing_pip.Text.{Text, text, uuid_str}
use post_call_processing_pip.Json.{Json, obj, str, Fields}
use post_call_processing_pip.Settings.{Settings}
use post_call_processing_pip.Runtime.{Runtime}
use post_call_processing_pip.Attempt.{ok, bind-ok, ok-injective}
use post_call_processing_pip.Models.{Db, InteractionJob, Interaction}
use post_call_processing_pip.Interactions.{get}
use post_call_processing_pip.Jobs.{NewJob, get_by_idempotency_key}
use post_call_processing_pip.Jobs.Create.{create_if_absent-existing}
use post_call_processing_pip.Webhook.{
  InteractionEndRequest, queued, end_interaction, transcript_text,
}
use post_call_processing_pip.Webhook.Delivery.{end_interaction_accepted}
use post_call_processing_pip.Llm.{item_of}
use post_call_processing_pip.Tasks.{
  uuid_in, legacy_key, legacy_job, create_flushed, persist_legacy, Inputs, legacy_task,
}
use post_call_processing_pip.Orchestrator.Run
use post_call_processing_pip.Keys.{plain_key}

module _ (rt : Runtime) (payload : Fields) (n : NewJob) (read : legacy_job rt payload ≡ ok n) where
  -- The job has the id that was parsed and the key of the value as it was given.
  legacy_job-fields :
      (v : Json)
      → item_of (text "interaction_id") (obj payload) ≡ ok v
      → (uuid_in rt (text "interaction_id") payload ≡ ok n.interaction_id)
        × (n.idempotency_key ≡ legacy_key rt v)
  unfolding legacy_job
  legacy_job-fields v given =
      let (interaction_id, e, e1) = bind-ok (uuid_in rt (text "interaction_id") payload) _ read in
      let (session_id, _, e2) = bind-ok (uuid_in rt (text "session_id") payload) _ e1 in
      let (lead_id, _, e3) = bind-ok (uuid_in rt (text "lead_id") payload) _ e2 in
      let (campaign_id, _, e4) = bind-ok (uuid_in rt (text "campaign_id") payload) _ e3 in
      let (customer_id, _, e5) = bind-ok (uuid_in rt (text "customer_id") payload) _ e4 in
      let (w, f, e6) = bind-ok (item_of (text "interaction_id") (obj payload)) _ e5 in
      let made = ok-injective _ n e6 in
      (
        e ∙ ap (λ (m : NewJob). ok m.interaction_id) made,
        sym (ap NewJob.idempotency_key made)
            ∙ ap (legacy_key rt) (ok-injective w v (sym f ∙ given)),
      )

  persist_legacy-existing :
      (s : Settings) (now : ℕ) (db : Db) {job : InteractionJob}
      → get_by_idempotency_key n.idempotency_key db ≡ some job
      → persist_legacy s rt now payload db ≡ ok (job, db)
  unfolding persist_legacy
  persist_legacy-existing s now db there =
      rw read (rw (there, create_flushed) (ap ok (create_if_absent-existing s now n db there)))

  -- A webhook delivery that was accepted (its signature valid, the call known, of the session and
  -- with a transcript that can be read), and right after it the old Celery task with a payload whose
  -- ids can be parsed and whose interaction_id is the call's UUID in its standard spelling: the task
  -- answers with the job that the delivery's answer names, queues no second one, and does nothing to
  -- the tables but one tick of the orchestrator, for at most one job.
  pub legacy_task_delivered :
      (s : Settings) (inputs : Inputs) (ended_at now later : ℕ) (request : InteractionEndRequest)
      (nudged : Option (Text × Text)) (session_id interaction_id : ℕ) (i : Interaction) (t : Text)
      (db : Db)
      → get interaction_id db ≡ some i
      → i.session_id ≡ session_id
      → transcript_text rt i.conversation_data ≡ ok t
      → item_of (text "interaction_id") (obj payload) ≡ ok (str (uuid_str interaction_id))
      → let r =
          end_interaction s rt none ended_at now session_id interaction_id request nudged db in
        let ticked =
          Run.run_once s rt inputs.scaled inputs.message inputs.orchestrated
            (record inputs.orchestrator { limit = 1 })
            r.1 in
        (job : InteractionJob) × (r.0 ≡ queued job.id)
        × (get_by_idempotency_key (plain_key interaction_id (text "orchestrate")) r.1 ≡ some job)
        × (legacy_task s rt inputs later payload r.1 ≡ ok ((job.id, ticked.0), ticked.1))
  unfolding legacy_task
  legacy_task_delivered s inputs ended_at now later request nudged session_id interaction_id i t db
        e same h given =
      let (job, answered, there, _) =
        end_interaction_accepted s rt ended_at now request nudged session_id interaction_id i t db e
          same h in
      let r = end_interaction s rt none ended_at now session_id interaction_id request nudged db in
      let (_, key) = legacy_job-fields (str (uuid_str interaction_id)) given in
      let persisted =
        persist_legacy-existing s later r.1 {job = job}
          (ap (λ k. get_by_idempotency_key k r.1) key ∙ there) in
      (job, answered, there, rw persisted refl)
