-- ===== src/ResultWorker.antt =====
-- workers/result_worker.py: `ResultWorkerService`, the jobs that follow an analysis, and
-- services/signal_jobs.py, whose dispatch only writes to the log.
pub mod Outcome
mod Tests
use mathlib.Core.Bool.{not}
use post_call_processing_pip.Common.{
  ℕ, Bool, true, false, Option, none, some, List, [], ◌∷◌, map, ◌==◌, find, length,
}
use post_call_processing_pip.Text.{Text, text}
use post_call_processing_pip.Json.{
  Json, null, bool, num, str, arr, obj, Fields, end, get_or, is_truthy,
}
use post_call_processing_pip.Settings.{Settings}
use post_call_processing_pip.Runtime.{Runtime}
use post_call_processing_pip.Attempt.{stored, Attempt, ok, raise, ◌>>=◌}
use post_call_processing_pip.Models.{
  Db, InteractionJob, Lead, JobType, signal_jobs, lead_stage_update, is_running,
  workflow_jobs_total,
}
use post_call_processing_pip.Retry.{default_policy}
use post_call_processing_pip.Jobs.{get, claim_ready_jobs, mark_succeeded}
use post_call_processing_pip.Interactions.{map_call_stage_to_lead_stage, update_lead_stage}
use post_call_processing_pip.Audit.{emit, from_job, inc}
use post_call_processing_pip.Failure.{Failure, Readings, handle}
use post_call_processing_pip.Attempt.{get_of}

pub record ClaimedResultJob : Type 0 where
  pub id : ℕ
  pub job_type : JobType
  pub interaction_id : ℕ
  pub session_id : ℕ
  pub lead_id : ℕ
  pub campaign_id : ℕ
  pub payload : Fields

abbrev pub snapshot_of : InteractionJob → ClaimedResultJob
snapshot_of job = record {
  id = job.id;
  job_type = job.job_type;
  interaction_id = job.interaction_id;
  session_id = job.session_id;
  lead_id = job.lead_id;
  campaign_id = job.campaign_id;
  payload = job.payload;
}

-- `_claim_jobs`
unfoldable pub claim_jobs : (ℕ → Bool) → Text → ℕ → ℕ → Db → List ClaimedResultJob × Db
unfolding claim_ready_jobs
claim_jobs held worker_id limit now db =
    let (jobs, db') =
      claim_ready_jobs held worker_id (signal_jobs ∷ lead_stage_update ∷ []) limit now db in
    (map snapshot_of jobs, db')

abbrev pub find_lead : ℕ → Db → Option Lead
find_lead lead_id db = find (λ l. l.id == lead_id) db.leads

-- The call stage, which the table of stages hashes and the driver takes as a text. A false value
-- stands for "unknown", as the empty text does.
unfoldable pub stage_of : Json → Attempt Text
stage_of (str s) = ok s
stage_of (arr xs) = raise (text "TypeError")
stage_of (obj d) = raise (text "TypeError")
stage_of null = ok []
stage_of (bool false) = ok []
stage_of (bool true) = raise (text "DBAPIError")
stage_of (num z) = elim (is_truthy (num z)) [ true ↦ raise (text "DBAPIError") | false ↦ ok [] ]

abbrev pub or_unknown : Option Json → Json
or_unknown none = str (text "unknown")
or_unknown (some v) = v

-- `_process_lead_stage`
unfoldable pub process_lead_stage : ClaimedResultJob → Db → Attempt Db
unfolding get_of stage_of stored update_lead_stage
process_lead_stage snapshot db =
    get_of (text "call_stage") (get_or (text "analysis_result") (obj end) snapshot.payload)
    >>= λ found. elim (find_lead snapshot.lead_id db) [
      | none ↦ ok db
      | some lead ↦ stage_of (or_unknown found) >>= λ stage.
          stored 100 (map_call_stage_to_lead_stage stage) >>= λ _.
          ok (update_lead_stage snapshot.lead_id stage db)
    ]

-- What `_process` does before the job's row. A signal is dispatched to the log alone.
unfoldable pub work : ClaimedResultJob → Db → Attempt Db
unfolding process_lead_stage
work snapshot db = elim snapshot.job_type [
  | JobType.lead_stage_update ↦ process_lead_stage snapshot db
  | _ ↦ ok db
]

-- The last transaction of `_process`.
unfoldable pub complete : ℕ → ClaimedResultJob → Db → Db
unfolding emit inc mark_succeeded
complete now snapshot db = elim (get snapshot.id db) [
  | none ↦ db
  | some job ↦ elim (is_running job.status) [
    | false ↦ db
    | true ↦
        emit (record (from_job job (text "result_worker")) { token_usage = 0 }) (text "succeeded")
          (text "result_job_completed") none end
          (inc (workflow_jobs_total job.job_type (text "succeeded"))
            (mark_succeeded now job end 0 db))
  ]
]

abbrev pub failure : Text → Text → Failure
failure error_code error_message = record {
  stage = text "result_worker";
  error_code = error_code;
  error_message = error_message;
  retry_after_seconds = none;
  retryable = true;
}

-- `_handle_failure`
unfoldable pub handle_failure :
    Settings → Runtime → Readings → ClaimedResultJob → Text → Text → Db → Db
unfolding handle
handle_failure s rt clock snapshot error_code error_message db = elim (get snapshot.id db) [
  | none ↦ db
  | some job ↦ handle rt (default_policy s) clock job (failure error_code error_message) db
]

-- `_process`. `message` is the text of an exception, by its class.
unfoldable pub process :
    Settings → Runtime → (Text → Text) → ℕ → Readings → ClaimedResultJob → Db → Db
unfolding work complete handle_failure
process s rt message now clock snapshot db = elim (work snapshot db) [
  | ok db' ↦ complete now snapshot db'
  | raise e ↦ handle_failure s rt clock snapshot e (message e) db
]

-- The loop of `run_once`, with the readings for each job.
unfoldable pub process_all :
    Settings → Runtime → (Text → Text) → (ℕ → ℕ) → (ℕ → Readings) → List ClaimedResultJob → Db → Db
unfolding process
process_all s rt message now clock [] db = db
process_all s rt message now clock (snapshot ∷ rest) db =
    process_all s rt message now clock rest
      (process s rt message (now snapshot.id) (clock snapshot.id) snapshot db)

-- `run_once`, which counts the jobs.
unfoldable pub run_once :
    Settings
    → Runtime
    → (Text → Text)
    → (ℕ → ℕ)
    → (ℕ → Readings)
    → (ℕ → Bool)
    → Text
    → ℕ
    → ℕ
    → Db
    → ℕ × Db
unfolding claim_jobs process_all
run_once s rt message now clock held worker_id limit claimed_at db =
    let (snapshots, db') = claim_jobs held worker_id limit claimed_at db in
    (length snapshots, process_all s rt message now clock snapshots db')
