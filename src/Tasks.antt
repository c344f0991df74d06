-- ===== src/Tasks.antt =====
-- tasks/celery_tasks.py: the tasks that Celery runs, without Celery.
pub mod Legacy
mod Tests
use post_call_processing_pip.Common.{ℕ, Bool, none, some, ◌++◌}
use post_call_processing_pip.Text.{Text, text}
use post_call_processing_pip.Json.{Json, obj, Fields}
use post_call_processing_pip.Settings.{Settings}
use post_call_processing_pip.Runtime.{Runtime}
use post_call_processing_pip.Attempt.{Attempt, ok, raise, ◌>>=◌, stored}
use post_call_processing_pip.Models.{Db, InteractionJob, orchestrate_interaction, high}
use post_call_processing_pip.Jobs.{NewJob, create_if_absent, get_by_idempotency_key}
use post_call_processing_pip.Interactions.{get}
use post_call_processing_pip.Failure.{Readings}
use post_call_processing_pip.Classifier.{str_of}
use post_call_processing_pip.Llm.{item_of}
use post_call_processing_pip.Orchestrator.Run
use post_call_processing_pip.LlmWorker
use post_call_processing_pip.LlmWorker.Run as Analysis
use post_call_processing_pip.Recording
use post_call_processing_pip.ResultWorker

-- `UUID(str(payload[key]))`
unfoldable pub uuid_in : Runtime → Text → Fields → Attempt ℕ
unfolding item_of
uuid_in rt key payload = do
  v ← item_of key (obj payload)
  elim (rt.parse_uuid (str_of rt v)) [ some u ↦ ok u | none ↦ raise (text "ValueError") ]

-- f"interaction:{payload['interaction_id']}:orchestrate:v1"
abbrev pub legacy_key : Runtime → Json → Text
legacy_key rt v =
    text "interaction:" ++ (str_of rt v ++ (text ":" ++ (text "orchestrate" ++ text ":v1")))

-- The arguments of `create_if_absent`, in the order in which they are read.
unfoldable pub legacy_job : Runtime → Fields → Attempt NewJob
unfolding uuid_in item_of
legacy_job rt payload = do
  interaction_id ← uuid_in rt (text "interaction_id") payload
  session_id ← uuid_in rt (text "session_id") payload
  lead_id ← uuid_in rt (text "lead_id") payload
  campaign_id ← uuid_in rt (text "campaign_id") payload
  customer_id ← uuid_in rt (text "customer_id") payload
  given ← item_of (text "interaction_id") (obj payload)
  ok (record {
    interaction_id = interaction_id;
    session_id = session_id;
    lead_id = lead_id;
    campaign_id = campaign_id;
    customer_id = customer_id;
    job_type = orchestrate_interaction;
    priority = high;
    idempotency_key = legacy_key rt given;
    payload = payload;
    token_estimate = 0;
    max_attempts = none;
    run_after = none;
  })

-- `create_if_absent` and the flush: a new row must refer to a row of the table of interactions, and
-- its key must fit in its column.
unfoldable pub create_flushed : Settings → ℕ → NewJob → Db → Attempt (InteractionJob × Db)
unfolding create_if_absent stored
create_flushed s now n db = elim (get_by_idempotency_key n.idempotency_key db) [
  | some _ ↦ ok (create_if_absent s now n db)
  | none ↦ elim (get n.interaction_id db) [
    | some _ ↦ (stored 255 n.idempotency_key >>= λ _. ok (create_if_absent s now n db))
    | none ↦ raise (text "IntegrityError")
  ]
]

-- The transaction of `_persist_legacy_payload_and_orchestrate`.
unfoldable pub persist_legacy : Settings → Runtime → ℕ → Fields → Db → Attempt (InteractionJob × Db)
unfolding legacy_job create_flushed
persist_legacy s rt now payload db = do n ← legacy_job rt payload; create_flushed s now n db

-- What the outside gives to a tick of each worker.
pub record Inputs : Type 0 where
  pub message : Text → Text
  pub scaled : ℕ → ℕ
  pub orchestrated : ℕ → Run.JobReadings
  pub orchestrator : Run.Tick
  pub provider : ℕ → Text → Text → Recording.HttpAnswer
  pub recorded_at : ℕ → ℕ
  pub recording_failed : ℕ → Readings
  pub llm : LlmWorker.Tick
  pub turns : ℕ → Analysis.Turn
  pub applied_at : ℕ → ℕ
  pub applying_failed : ℕ → Readings
  pub held : ℕ → Bool
  pub recording_id : Text
  pub result_id : Text
  pub recording_claim : ℕ
  pub result_claim : ℕ

-- `process_interaction_end_background_task`: the id of the job, and the jobs orchestrated.
unfoldable pub legacy_task : Settings → Runtime → Inputs → ℕ → Fields → Db → Attempt ((ℕ × ℕ) × Db)
unfolding persist_legacy Run.run_once
legacy_task s rt i now payload db = do
  (job, queued) ← persist_legacy s rt now payload db
  let (processed, db') =
      Run.run_once s rt i.scaled i.message i.orchestrated (record i.orchestrator { limit = 1 })
        queued
  ok ((job.id, processed), db')

-- The counts of `run_all_workers_once_task`.
pub record Counts : Type 0 where
  pub orchestrated : ℕ
  pub recordings : ℕ
  pub llm : ℕ
  pub results : ℕ

-- `run_all_workers_once_task`: the four ticks in this order. What the LLM worker raises ends it.
unfoldable pub run_all : Settings → Runtime → Inputs → Db → Attempt Counts × Db
unfolding Run.run_once Recording.run_once Analysis.run_once ResultWorker.run_once
run_all s rt i db =
    let limit = s.job_claim_batch_size in
    let (orchestrated, db1) =
      Run.run_once s rt i.scaled i.message i.orchestrated (record i.orchestrator { limit = limit })
        db in
    let (recordings, db2) =
      Recording.run_once s rt i.message i.provider i.recorded_at i.recording_failed i.held
        i.recording_id limit i.recording_claim db1 in
    let (llm, db3) = Analysis.run_once s rt i.message (record i.llm { limit = 10 }) i.turns db2 in
    elim llm [
      | raise e ↦ (raise e, db3)
      | ok admitted ↦
          let (results, db4) =
            ResultWorker.run_once s rt i.message i.applied_at i.applying_failed i.held i.result_id
              limit i.result_claim db3 in
          (
            ok (record {
              orchestrated = orchestrated;
              recordings = recordings;
              llm = admitted;
              results = results;
            }),
            db4,
          )
    ]
