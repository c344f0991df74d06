-- ===== src/Orchestrator.antt =====
-- orchestrator/workflow.py: `WorkflowOrchestrator`, which gives an ended call its child jobs.
pub mod Run
pub mod Children
pub mod Outcome
pub mod Reading
mod Tests
use post_call_processing_pip.Common.{
  ℕ, ◌+◌, ◌/◌, min, max, ltb, Bool, true, false, Option, none, some, List, [], ◌∷◌, ◌++◌,
  if◌then◌else◌, pos, length,
}
use post_call_processing_pip.Text.{Text, text}
use post_call_processing_pip.Json.{
  Json, null, bool, num, str, arr, obj, Items, nil, cons, Fields, end, field, get_or, set,
  is_truthy,
}
use post_call_processing_pip.Json
use post_call_processing_pip.Settings.{Settings}
use post_call_processing_pip.Runtime.{Runtime}
use post_call_processing_pip.Attempt.{Attempt, ok, raise, ◌>>=◌}
use post_call_processing_pip.Keys.{plain_key, staged_key}
use post_call_processing_pip.Models.{
  Db, InteractionJob, JobType, JobPriority, recording_fetch, llm_analysis, signal_jobs,
  lead_stage_update, orchestrate_interaction, high, priority_value, workflow_jobs_total,
}
use post_call_processing_pip.Retry.{default_policy}
use post_call_processing_pip.Jobs.{
  NewJob, create_if_absent, claim_ready_jobs, recover_stale_running_jobs, mark_succeeded,
}
use post_call_processing_pip.Interactions.{mark_processing, mark_short_call}
use post_call_processing_pip.Audit.{emit, from_job, inc}
use post_call_processing_pip.Failure.{Failure, Readings, handle}
use post_call_processing_pip.Classifier.{Classification, classify, len, str_of}
use post_call_processing_pip.Attempt.{get_of}
use post_call_processing_pip.LlmWorker.Save.{stage_text}
use post_call_processing_pip.Webhook.{join_turns}

-- The number of keys of a dict.
abbrev size : Fields → ℕ
size end = 0
size (field k v d) = size d + 1

-- `_transcript`
unfoldable pub transcript_of : Fields → Attempt Items
unfolding get_of
transcript_of payload = do
  found ← get_of (text "transcript") (get_or (text "conversation_data") (obj end) payload)
  ok (elim found [ some (arr turns) ↦ turns | _ ↦ nil ])

-- `payload.get("transcript_text") or self._transcript_text(transcript)`
unfoldable pub transcript_text_of : Runtime → Fields → Items → Attempt Json
unfolding join_turns
transcript_text_of rt payload transcript =
    let given = get_or (text "transcript_text") null payload in
    if is_truthy given then ok given else (join_turns rt transcript >>= λ joined. ok (str joined))

-- `len(v)`
unfoldable pub len_of : Json → Attempt ℕ
len_of (str s) = ok (length s)
len_of (arr xs) = ok (len xs)
len_of (obj d) = ok (size d)
len_of v = raise (text "TypeError")

-- `TokenEstimator.estimate` of a text with `n` characters. `scaled` is `int` of the product with
-- the safety factor, a float.
unfoldable pub estimate : Settings → (ℕ → ℕ) → ℕ → ℕ
estimate s scaled n = min (scaled (max (n / 4) 1 + 500)) s.llm_max_prompt_tokens

-- `interaction_classifier.classify`, whose additional data need not be a dict if the call is short.
unfoldable pub classification_of : Runtime → Items → Json → Json → Attempt Classification
unfolding classify
classification_of rt transcript transcript_text (obj additional) =
    ok (classify rt transcript (str_of rt transcript_text) additional)
classification_of rt transcript transcript_text additional =
    if ltb (len transcript) 4
    then ok (classify rt transcript (str_of rt transcript_text) end)
    else raise (text "AttributeError")

-- A child of the job, with its own type, priority, key and payload.
abbrev pub child : InteractionJob → JobType → JobPriority → Text → Fields → NewJob
child job job_type priority key payload = record {
  interaction_id = job.interaction_id;
  session_id = job.session_id;
  lead_id = job.lead_id;
  campaign_id = job.campaign_id;
  customer_id = job.customer_id;
  job_type = job_type;
  priority = priority;
  idempotency_key = key;
  payload = payload;
  token_estimate = 0;
  max_attempts = none;
  run_after = none;
}

-- The readings of the clock for the children.
pub record ChildReadings : Type 0 where
  pub recording_at : ℕ
  pub signal_at : ℕ
  pub lead_at : ℕ
  pub llm_at : ℕ

abbrev pub recording_job : Settings → InteractionJob → JobPriority → NewJob
recording_job s job priority =
    record (child job recording_fetch priority (plain_key job.interaction_id (text "recording"))
      job.payload) { max_attempts = some s.recording_max_attempts }

-- The recording's job, if the call has an id at the provider.
unfoldable pub queue_recording : Settings → ChildReadings → InteractionJob → JobPriority → Db → Db
unfolding create_if_absent
queue_recording s clock job priority db =
    if is_truthy (get_or (text "call_sid") null job.payload)
    then (create_if_absent s clock.recording_at (recording_job s job priority) db).1
    else db

-- The result of a short call, which stands in for an analysis.
abbrev pub short_result : Classification → Fields
short_result c = field (text "call_stage") (str c.call_stage) (
    field (text "entities") (obj end) (
      field (text "summary") (str (text "Short transcript; LLM skipped."))
        (field (text "usage") (obj (field (text "total_tokens") (num (pos 0)) end)) end)))

-- `_queue_result_jobs`
unfoldable pub queue_result_jobs :
    Settings → Runtime → ChildReadings → InteractionJob → Fields → JobPriority → Text → Db → Db
unfolding create_if_absent
queue_result_jobs s rt clock job analysis priority suffix db =
    let payload = set (text "analysis_result") (obj analysis) job.payload in
    let signal = staged_key job.interaction_id (text "signal") suffix in
    let lead = staged_key job.interaction_id (text "lead") (stage_text rt analysis) in
    (create_if_absent s clock.lead_at (child job lead_stage_update priority lead payload)
      (create_if_absent s clock.signal_at (child job signal_jobs priority signal payload) db).1).1

-- The branch of a call that needs no analysis.
unfoldable pub skip_analysis :
    Settings → Runtime → ChildReadings → InteractionJob → Classification → Db → Db
unfolding queue_result_jobs mark_short_call
skip_analysis s rt clock job c db =
    queue_result_jobs s rt clock job (short_result c) high (text "short_call")
      (mark_short_call job.interaction_id db)

abbrev pub classified : Classification → Fields → Fields
classified c payload =
    set (text "classification")
      (obj (
        field (text "priority") (str (priority_value c.priority))
          (field (text "reason") (str c.reason) end)))
      payload

abbrev pub analysis_job : InteractionJob → Classification → ℕ → NewJob
analysis_job job c tokens =
    record (child job llm_analysis c.priority (plain_key job.interaction_id (text "llm"))
      (classified c job.payload)) { token_estimate = tokens }

-- The analysis job and its event, with the estimate.
unfoldable pub queue_analysis :
    Settings → ChildReadings → InteractionJob → Classification → ℕ → Db → Db
unfolding create_if_absent emit
queue_analysis s clock job c tokens db =
    emit (from_job job (text "priority_scheduler")) (text "queued") (text "llm_job_queued") none
      (field (text "priority") (str (priority_value c.priority)) (
        field (text "classification_reason") (str c.reason)
          (field (text "token_estimate") (num (pos tokens)) end)))
      (create_if_absent s clock.llm_at (analysis_job job c tokens) db).1

-- What `_create_child_jobs` reads from the payload: the transcript's text and the classification.
unfoldable pub read_call : Runtime → Fields → Attempt (Json × Classification)
unfolding transcript_of transcript_text_of classification_of
read_call rt payload = do
  transcript ← transcript_of payload
  words ← transcript_text_of rt payload transcript
  c ← classification_of rt transcript words (get_or (text "additional_data") (obj end) payload)
  ok (words, c)

-- `_create_child_jobs`: what it raised, if it did, and the tables that it left.
unfoldable pub create_child_jobs :
    Settings → Runtime → (ℕ → ℕ) → ChildReadings → InteractionJob → Db → Option Text × Db
unfolding read_call queue_recording skip_analysis mark_processing len_of queue_analysis
create_child_jobs s rt scaled clock job db = elim (read_call rt job.payload) [
  | raise e ↦ (some e, db)
  | ok (words, c) ↦
      let recorded = queue_recording s clock job c.priority db in
      if c.skip_llm
      then (none, skip_analysis s rt clock job c recorded)
      else (let marked = mark_processing job.interaction_id (text "queued") recorded in
          elim (len_of words) [
            | raise e ↦ (some e, marked)
            | ok n ↦ (none, queue_analysis s clock job c (estimate s scaled n) marked)
          ])
]
