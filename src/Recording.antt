-- ===== src/Recording.antt =====
-- recording/worker.py, recording/service.py and recording/storage.py: fetching the recording of a
-- call. What the telephony provider answers to a request is an argument.
pub mod Outcome
pub mod Wrapper
mod Tests
use post_call_processing_pip.Common.{
  ℕ, ◌-◌, ◌*◌, ◌^◌, min, ◌&&◌, Bool, true, false, Option, none, some, List, [], ◌∷◌, ◌++◌, map,
  ◌==◌, leb, if◌then◌else◌, ℤ, pos, length,
}
use post_call_processing_pip.Text.{Text, text, is_nonempty, uuid_str}
use post_call_processing_pip.Json.{Json, bool, str, Fields, end, field, get_or, is_truthy}
use post_call_processing_pip.Settings.{Settings}
use post_call_processing_pip.Runtime.{Runtime}
use post_call_processing_pip.Attempt.{Attempt, ok, raise}
use post_call_processing_pip.Models.{
  Db, InteractionJob, recording_fetch, is_running, workflow_jobs_total, recording_attempts_total,
}
use post_call_processing_pip.Retry.{default_policy}
use post_call_processing_pip.Jobs.{get, claim_ready_jobs, mark_succeeded}
use post_call_processing_pip.Interactions.{update_recording_key}
use post_call_processing_pip.Audit.{emit, from_job, inc}
use post_call_processing_pip.Failure.{Failure, Readings, handle}
use post_call_processing_pip.Classifier.{str_of}
use post_call_processing_pip.Attempt.{get_of}

pub record ClaimedRecordingJob : Type 0 where
  pub id : ℕ
  pub interaction_id : ℕ
  pub attempts : ℕ
  pub payload : Fields

abbrev pub snapshot_of : InteractionJob → ClaimedRecordingJob
snapshot_of job = record {
  id = job.id;
  interaction_id = job.interaction_id;
  attempts = job.attempts;
  payload = job.payload;
}

-- `_claim_jobs`
unfoldable pub claim_jobs : (ℕ → Bool) → Text → ℕ → ℕ → Db → List ClaimedRecordingJob × Db
unfolding claim_ready_jobs
claim_jobs held worker_id limit now db =
    let (jobs, db') = claim_ready_jobs held worker_id (recording_fetch ∷ []) limit now db in
    (map snapshot_of jobs, db')

-- What a request to the provider ends with: a status and the parsed body, or an exception.
pub data HttpAnswer : Type 0 where
  answered : ℕ → Json → HttpAnswer
  failed : Text → HttpAnswer

-- How `poll_once` ends: a result, or one of the exceptions that the worker tells apart.
pub data Poll : Type 0 where
  uploaded : Text → Json → Poll
  not_ready : Text → Poll
  unavailable : Text → Poll
  broken : Text → Poll

-- `upload_from_url`, whose key does not depend on the provider's URL.
abbrev pub s3_key_of : ℕ → Text
s3_key_of interaction_id = text "recordings/" ++ (uuid_str interaction_id ++ text ".mp3")

-- The body of a 200 answer.
unfoldable pub read_body : ℕ → Json → Poll
unfolding get_of
read_body interaction_id body = elim (get_of (text "recording_url") body) [
  | raise e ↦ broken e
  | ok none ↦ not_ready (text "Recording response did not include a URL")
  | ok (some url) ↦
      if is_truthy url
      then uploaded (s3_key_of interaction_id) url
      else not_ready (text "Recording response did not include a URL")
]

-- `_fetch_exotel_recording_url`, and the upload. `raise_for_status` raises on what is no success.
unfoldable pub read_answer : ℕ → HttpAnswer → Poll
unfolding read_body
read_answer interaction_id (failed e) = broken e
read_answer interaction_id (answered status body) =
    if status == 200
    then read_body interaction_id body
    else if status == 404
    then not_ready (text "Recording is not ready yet")
    else if status == 400
    then unavailable (text "Recording permanently unavailable: HTTP 400")
    else if status == 410
    then unavailable (text "Recording permanently unavailable: HTTP 410")
    else if leb 200 status && leb status 299
    then not_ready (text "Recording is not ready yet")
    else broken (text "HTTPStatusError")

-- `poll_once`. `provider` answers for an account and a call.
unfoldable pub poll_once : (Text → Text → HttpAnswer) → ℕ → Text → Text → Poll
unfolding read_answer
poll_once provider interaction_id call_sid exotel_account_id =
    if is_nonempty call_sid && is_nonempty exotel_account_id
    then read_answer interaction_id (provider exotel_account_id call_sid)
    else unavailable (text "Missing call SID or Exotel account ID")

-- `str(payload.get(key) or "")`
abbrev pub text_in : Runtime → Text → Fields → Text
text_in rt key payload = str_of rt (get_or key (str []) payload)

-- `_next_recording_delay`
unfoldable pub next_recording_delay : Settings → ℕ → ℕ
next_recording_delay s attempts =
    min (s.recording_initial_retry_seconds * 2 ^ (attempts - 1)) s.recording_max_retry_seconds

abbrev pub failure : Text → Text → Option ℤ → Bool → Failure
failure error_code error_message retry_after retryable = record {
  stage = text "recording_worker";
  error_code = error_code;
  error_message = error_message;
  retry_after_seconds = retry_after;
  retryable = retryable;
}

-- `_handle_failure`
unfoldable pub handle_failure :
    Settings → Runtime → Readings → ClaimedRecordingJob → Failure → Db → Db
unfolding handle
handle_failure s rt clock snapshot f db = elim (get snapshot.id db) [
  | none ↦ db
  | some job ↦ handle rt (default_policy s) clock job f db
]

-- The last transaction of `_process`.
unfoldable pub complete : ℕ → ClaimedRecordingJob → Text → Json → Db → Db
unfolding emit inc mark_succeeded update_recording_key
complete now snapshot s3_key url db = elim (get snapshot.id db) [
  | none ↦ db
  | some job ↦ elim (is_running job.status) [
    | false ↦ db
    | true ↦
        emit (record (from_job job (text "recording_worker")) { token_usage = 0 })
          (text "succeeded") (text "recording_uploaded") none
          (field (text "s3_key") (str s3_key) end)
          (inc (workflow_jobs_total job.job_type (text "succeeded")) (
            inc (recording_attempts_total (text "uploaded")) (
              mark_succeeded now job
                (field (text "s3_key") (str s3_key)
                  (field (text "recording_url_present") (bool (is_truthy url)) end))
                0 (update_recording_key snapshot.interaction_id s3_key db))))
  ]
]

abbrev counted : Text → Db → Db
counted status db = inc (recording_attempts_total status) db

-- What `_process` does with the end of the poll. `message` is the text of an exception, by its
-- class.
unfoldable pub settle :
    Settings → Runtime → (Text → Text) → ℕ → Readings → ClaimedRecordingJob → Poll → Db → Db
unfolding complete handle_failure inc
settle s rt message now clock snapshot (uploaded s3_key url) db =
    complete now snapshot s3_key url db
settle s rt message now clock snapshot (not_ready m) db =
    handle_failure s rt clock snapshot
      (failure (text "RECORDING_NOT_READY") m
        (some (pos (next_recording_delay s snapshot.attempts))) true)
      (counted (text "not_ready") db)
settle s rt message now clock snapshot (unavailable m) db =
    handle_failure s rt clock snapshot (failure (text "RECORDING_UNAVAILABLE") m none false)
      (counted (text "unavailable") db)
settle s rt message now clock snapshot (broken e) db =
    handle_failure s rt clock snapshot (failure e (message e) none true) (counted (text "error") db)

-- `_process`
unfoldable pub process :
    Settings
    → Runtime
    → (Text → Text)
    → (Text → Text → HttpAnswer)
    → ℕ
    → Readings
    → ClaimedRecordingJob
    → Db
    → Db
unfolding settle poll_once
process s rt message provider now clock snapshot db =
    settle s rt message now clock snapshot
      (poll_once provider snapshot.interaction_id (text_in rt (text "call_sid") snapshot.payload)
        (text_in rt (text "exotel_account_id") snapshot.payload))
      db

-- The loop of `run_once`, with the readings and the provider's answers for each job.
unfoldable pub process_all :
    Settings
    → Runtime
    → (Text → Text)
    → (ℕ → Text → Text → HttpAnswer)
    → (ℕ → ℕ)
    → (ℕ → Readings)
    → List ClaimedRecordingJob
    → Db
    → Db
unfolding process
process_all s rt message provider now clock [] db = db
process_all s rt message provider now clock (snapshot ∷ rest) db =
    process_all s rt message provider now clock rest (
      process s rt message (provider snapshot.id) (now snapshot.id) (clock snapshot.id) snapshot db)

-- `run_once`, which counts the jobs.
unfoldable pub run_once :
    Settings
    → Runtime
    → (Text → Text)
    → (ℕ → Text → Text → HttpAnswer)
    → (ℕ → ℕ)
    → (ℕ → Readings)
    → (ℕ → Bool)
    → Text
    → ℕ
    → ℕ
    → Db
    → ℕ × Db
unfolding claim_jobs process_all
run_once s rt message provider now clock held worker_id limit claimed_at db =
    let (snapshots, db') = claim_jobs held worker_id limit claimed_at db in
    (length snapshots, process_all s rt message provider now clock snapshots db')
