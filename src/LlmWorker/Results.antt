-- ===== src/LlmWorker/Results.antt =====
-- llm_workers/worker.py: the second transaction, and failures that come late.
use post_call_processing_pip.Common.{
  ℕ, length, ◌≤◌, ◌≡◌, refl, ◌∙◌, ap, inl, inr, true, Option, some, ◌==◌, find,
  find-update_where-some, find-passes, ==_iff, ℤ, Option-cases,
}
use post_call_processing_pip.Text.{Text, text}
use post_call_processing_pip.Json.{Fields, obj, set}
use post_call_processing_pip.Keys.{staged_key}
use post_call_processing_pip.Settings.{Settings}
use post_call_processing_pip.Runtime.{Runtime}
use post_call_processing_pip.Attempt.{ok, stored-ok}
use post_call_processing_pip.Models.{
  Db, InteractionJob, JobType, signal_jobs, lead_stage_update, is_running,
}
use post_call_processing_pip.Jobs.{get, succeed_row, mark_succeeded, create_if_absent}
use post_call_processing_pip.Jobs.Create.{get-create_if_absent}
use post_call_processing_pip.Jobs.Queued.{
  Queues, IsChildOf, Queues-same, create_if_absent-Queues, Queues-then, Queues-after, Queues-marked,
  signal-lead,
}
use post_call_processing_pip.Budget.Usage.{
  record_usage, open_rows, get_or_create_usage, modify_rows, modify_usage, find_usage,
}
use post_call_processing_pip.Interactions.{update_analysis_result}
use post_call_processing_pip.Audit.{emit, inc}
use post_call_processing_pip.Failure.{Readings}
use post_call_processing_pip.Processor.{AnalysisResult, analysed}
use post_call_processing_pip.LlmWorker.{ClaimedLlmJob, customer_budget}
use post_call_processing_pip.LlmWorker.Save.{
  tokens_of, SaveReadings, save_result, save_running, process_snapshot, queue_result_jobs,
  stage_text, result_job,
}

get_or_create_usage-jobs :
    (c w : ℕ) (b : ℤ) (db : Db) → (get_or_create_usage c w b db).1.jobs ≡ db.jobs
unfolding get_or_create_usage
get_or_create_usage-jobs c w b db = elim (Option-cases (find_usage c w db)) [
  | inl e ↦ rw (e, get_or_create_usage)
  | inr (u, e) ↦ rw (e, get_or_create_usage)
]

record_usage-jobs :
    (s : Settings) (c tokens now : ℕ) (budget : Option ℤ) (db : Db)
    → (record_usage s c tokens now budget db).jobs ≡ db.jobs
unfolding record_usage open_rows modify_rows modify_usage
record_usage-jobs s c tokens now budget db =
    get_or_create_usage-jobs c _ _ _ ∙ get_or_create_usage-jobs _ _ _ db

-- The payload of the jobs that follow a result.
abbrev pub with_result : Fields → Fields → Fields
with_result analysis payload = set (text "analysis_result") (obj analysis) payload

-- The two jobs that follow a result are there, as the result asks, and the job itself is as it was.
queue_result_jobs_lem :
    (s : Settings) (rt : Runtime) (now now' : ℕ) (job : InteractionJob) (payload analysis : Fields)
    (db : Db) (i : ℕ) {own : InteractionJob}
    → get i db ≡ some own
    → let db' = queue_result_jobs s rt now now' job payload analysis db in
      let stage = stage_text rt analysis in
      let both = with_result analysis payload in
      (get i db' ≡ some own)
      × Queues
          (staged_key job.interaction_id (text "signal") stage)
          (IsChildOf job signal_jobs job.priority both 0)
          db
          db'
      × Queues
          (staged_key job.interaction_id (text "lead") stage)
          (IsChildOf job lead_stage_update job.priority both 0)
          db
          db'
unfolding queue_result_jobs
queue_result_jobs_lem s rt now now' job payload analysis db i e =
    let stage = stage_text rt analysis in
    let both = with_result analysis payload in
    let signal =
      result_job job signal_jobs (staged_key job.interaction_id (text "signal") stage) both in
    let lead =
      result_job job lead_stage_update (staged_key job.interaction_id (text "lead") stage) both in
    let first = create_if_absent s now signal db in
    (
      get-create_if_absent s now' lead first.1 i (get-create_if_absent s now signal db i e),
      Queues-then (IsChildOf job signal_jobs job.priority both 0) s now' lead signal.idempotency_key
          db first.1
          (create_if_absent-Queues (IsChildOf job signal_jobs job.priority both 0) s now signal db
            (λ _. record {
              interaction = refl;
              session = refl;
              lead = refl;
              campaign = refl;
              customer = refl;
              kind = refl;
              urgency = refl;
              input = refl;
              tokens = refl;
            })),
      Queues-after (IsChildOf job lead_stage_update job.priority both 0) s now signal
          lead.idempotency_key db (create_if_absent s now' lead first.1).1
          (signal-lead job.interaction_id stage stage)
          (create_if_absent-Queues (IsChildOf job lead_stage_update job.priority both 0) s now' lead
            first.1
            (λ _. record {
              interaction = refl;
              session = refl;
              lead = refl;
              campaign = refl;
              customer = refl;
              kind = refl;
              urgency = refl;
              input = refl;
              tokens = refl;
            })),
    )

-- A result of a job that runs, with a budget and tokens that can be read and keys that fit in their
-- column: the transaction commits, the job is SUCCEEDED with the result, its tokens and no lock, and
-- the jobs for the signals and for the lead's stage are in the table under the keys of the
-- interaction and its call stage.
pub process_snapshot_done :
    (s : Settings) (rt : Runtime) (saved : SaveReadings) (late : Readings)
    (snapshot : ClaimedLlmJob) (result : AnalysisResult) (db : Db) (job : InteractionJob)
    (budget : Option ℤ) (tokens : ℕ)
    → get snapshot.id db ≡ some job
    → is_running job.status ≡ true
    → customer_budget snapshot.payload ≡ ok budget
    → tokens_of result.tokens_used ≡ ok tokens
    → length (staged_key job.interaction_id (text "signal") (stage_text rt result.raw_response))
      ≤ 255
    → length (staged_key job.interaction_id (text "lead") (stage_text rt result.raw_response)) ≤ 255
    → let stage = stage_text rt result.raw_response in
      (db' : Db) × (process_snapshot s rt saved late snapshot (analysed result) db ≡ ok (tt, db'))
      × (get snapshot.id db' ≡ some (succeed_row saved.completed_at result.raw_response tokens job))
      × Queues
          (staged_key job.interaction_id (text "signal") stage)
          (IsChildOf job signal_jobs job.priority
            (with_result result.raw_response snapshot.payload)
            0)
          db
          db'
      × Queues
          (staged_key job.interaction_id (text "lead") stage)
          (IsChildOf job lead_stage_update job.priority
            (with_result result.raw_response snapshot.payload)
            0)
          db
          db'
unfolding process_snapshot save_result save_running emit inc mark_succeeded update_analysis_result
process_snapshot_done s rt saved late snapshot result db job budget tokens e runs h counted
      fits_signal fits_lead =
    let at : job.id ≡ snapshot.id =
      (==_iff job.id snapshot.id).0 (find-passes (λ j. j.id == snapshot.id) db.jobs e) in
    let analysed_db =
      update_analysis_result rt saved.analyzed_at snapshot.interaction_id result.call_stage
        result.entities result.summary result.tokens_used result.provider result.model db in
    let used = record_usage s snapshot.customer_id tokens saved.usage_at budget analysed_db in
    let done = mark_succeeded saved.completed_at job result.raw_response tokens used in
    let still : get snapshot.id used ≡ some job =
      ap (find (λ j. j.id == snapshot.id))
        (record_usage-jobs s snapshot.customer_id tokens saved.usage_at budget analysed_db)
      ∙ e in
    let row : get snapshot.id done
        ≡ some (succeed_row saved.completed_at result.raw_response tokens job) =
      find-update_where-some (λ j. j.id == snapshot.id) (λ j. j.id == job.id)
        (succeed_row saved.completed_at result.raw_response tokens) (λ _. refl) used.jobs still
      ∙ rw ((==_iff job.id job.id).1 refl) in
    let after =
      queue_result_jobs s rt saved.signal_at saved.lead_at job snapshot.payload result.raw_response
        done in
    let child = λ (t : JobType).
      IsChildOf job t job.priority (with_result result.raw_response snapshot.payload) 0 in
    let unmarked = λ (key : Text) (t : JobType) (q : Queues key (child t) done after).
      Queues-same key (child t) used db after
        (record_usage-jobs s snapshot.customer_id tokens saved.usage_at budget analysed_db)
        (Queues-marked saved.completed_at job result.raw_response tokens key (child t) used after
          q) in
    let queued =
      queue_result_jobs_lem s rt saved.signal_at saved.lead_at job snapshot.payload
        result.raw_response done snapshot.id row in
    (
      save_running s rt saved snapshot result tokens budget job db,
      rw (e, runs, h, counted, stored-ok 255 _ fits_signal, stored-ok 255 _ fits_lead, save_result),
      queued.0,
      unmarked (staged_key job.interaction_id (text "signal") (stage_text rt result.raw_response))
          signal_jobs queued.1,
      unmarked (staged_key job.interaction_id (text "lead") (stage_text rt result.raw_response))
          lead_stage_update queued.2,
    )
