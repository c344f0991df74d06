-- ===== src/Pipeline/Calls.antt =====
-- The ticks of the result worker and of the recording worker, as operations of the repositories.
use mathlib.Core.Path.{subst}
use post_call_processing_pip.Common.{
  ℕ, arith, Bool, ◌≡◌, refl, true, false, none, some, List, [], ◌∷◌, pos, Bool-cases, Option-cases,
  inl, inr,
}
use post_call_processing_pip.Text.{Text, text}
use post_call_processing_pip.Json.{Json, str, bool, obj, end, field, get_or, is_truthy}
use post_call_processing_pip.Settings.{Settings}
use post_call_processing_pip.Runtime.{Runtime}
use post_call_processing_pip.Attempt.{stored, ok, get_of, bind-ok, Attempt-cases}
use post_call_processing_pip.Models.{
  Db, JobType, signal_jobs, lead_stage_update, recording_fetch, orchestrate_interaction,
  llm_analysis, is_running,
}
use post_call_processing_pip.Retry.{default_policy}
use post_call_processing_pip.Jobs.{get}
use post_call_processing_pip.Interactions.{
  map_call_stage_to_lead_stage, update_recording_key, update_lead_stage,
}
use post_call_processing_pip.Interactions.Log.{records, moves_lead, apply}
use post_call_processing_pip.Audit.{emit, inc}
use post_call_processing_pip.Failure.{Failure, Readings, handle}
use post_call_processing_pip.ResultWorker
use post_call_processing_pip.ResultWorker.{
  ClaimedResultJob, find_lead, stage_of, or_unknown, process_lead_stage, work,
}
use post_call_processing_pip.Recording
use post_call_processing_pip.Recording.{
  ClaimedRecordingJob, HttpAnswer, Poll, uploaded, not_ready, unavailable, broken, settle,
  next_recording_delay,
}
use post_call_processing_pip.Pipeline.{Trace, here, ◌▷◌, other_call}
use post_call_processing_pip.Pipeline.Handlers.{succeed-Trace, update-Trace, handle-Trace}
use post_call_processing_pip.Pipeline.Workers.{claim-Trace}

module _ {s : Settings} {rt : Runtime} where
  -- The failure path of a worker that reloads its job.
  pub reloaded-Trace :
      (clock : Readings) (f : Failure) (i : ℕ) (db : Db)
      → Trace s rt db
          (elim (get i db) [ none ↦ db | some job ↦ handle rt (default_policy s) clock job f db ])
  reloaded-Trace clock f i db = elim (Option-cases (get i db)) [
    | inl gone ↦ rw gone here
    | inr (job, there) ↦ rw there (handle-Trace (default_policy s) clock job f db)
  ]

  stage-Trace :
      (snapshot : ClaimedResultJob) (db db' : Db)
      → process_lead_stage snapshot db ≡ ok db'
      → Trace s rt db db'
  unfolding process_lead_stage apply
  stage-Trace snapshot db db' h =
      let (found, _, rest) =
        bind-ok
          (get_of (text "call_stage") (get_or (text "analysis_result") (obj end) snapshot.payload))
          _ h in
      elim (Option-cases (find_lead snapshot.lead_id db)) [
        | inl gone ↦
            let kept : ok db ≡ ok db' = rw gone at rest in
            let same : db ≡ db' = ground arith in subst (Trace s rt db) same here
        | inr (lead, there) ↦
            let (stage, _, fits) = bind-ok (stage_of (or_unknown found)) _ (rw there at rest) in
            let (_, _, moved) = bind-ok (stored 100 (map_call_stage_to_lead_stage stage)) _ fits in
            let same : update_lead_stage snapshot.lead_id stage db ≡ db' = ground arith in
            subst (Trace s rt db) same (update-Trace (moves_lead snapshot.lead_id stage) db)
      ]

  work-Trace :
      (snapshot : ClaimedResultJob) (db db' : Db) → work snapshot db ≡ ok db' → Trace s rt db db'
  unfolding work
  work-Trace snapshot db db' = go snapshot.job_type
    where
      kept : ok db ≡ ok db' → Trace s rt db db'
      kept h = let same : db ≡ db' = ground arith in subst (Trace s rt db) same here

      go :
          (t : JobType)
          → elim t [ JobType.lead_stage_update ↦ process_lead_stage snapshot db | _ ↦ ok db ]
            ≡ ok db'
          → Trace s rt db db'
      go lead_stage_update h = stage-Trace snapshot db db' h
      go signal_jobs h = kept h
      go recording_fetch h = kept h
      go llm_analysis h = kept h
      go orchestrate_interaction h = kept h

  complete-Trace :
      (now : ℕ) (snapshot : ClaimedResultJob) (db : Db)
      → Trace s rt db (ResultWorker.complete now snapshot db)
  unfolding ResultWorker.complete emit inc
  complete-Trace now snapshot db = elim (Option-cases (get snapshot.id db)) [
    | inl gone ↦ rw (gone, ResultWorker.complete) here
    | inr (job, there) ↦ elim (Bool-cases (is_running job.status)) [
      | inr over ↦ rw (there, over, ResultWorker.complete) here
      | inl runs ↦
          rw (there, runs, ResultWorker.complete)
            (succeed-Trace now job end 0 db ▷ other_call refl refl refl)
    ]
  ]

  -- The work on one claimed result job.
  pub result-Trace :
      (message : Text → Text) (now : ℕ) (clock : Readings) (snapshot : ClaimedResultJob) (db : Db)
      → Trace s rt db (ResultWorker.process s rt message now clock snapshot db)
  unfolding ResultWorker.process ResultWorker.handle_failure
  result-Trace message now clock snapshot db = elim (Attempt-cases (work snapshot db)) [
    | inl (db', done) ↦
        rw (done, ResultWorker.process)
          (work-Trace snapshot db db' done ▷ complete-Trace now snapshot db')
    | inr (e, stopped) ↦
        rw (stopped, ResultWorker.process)
          (reloaded-Trace clock (ResultWorker.failure e (message e)) snapshot.id db)
  ]

  results-Trace :
      (message : Text → Text) (now : ℕ → ℕ) (clock : ℕ → Readings) (jobs : List ClaimedResultJob)
      (db : Db)
      → Trace s rt db (ResultWorker.process_all s rt message now clock jobs db)
  unfolding ResultWorker.process_all
  results-Trace message now clock [] db = here
  results-Trace message now clock (job ∷ jobs) db =
      result-Trace message (now job.id) (clock job.id) job db
      ▷ results-Trace message now clock jobs _

  -- A tick of the result worker.
  pub apply_results-Trace :
      (message : Text → Text) (now : ℕ → ℕ) (clock : ℕ → Readings) (held : ℕ → Bool)
      (worker_id : Text) (limit claimed_at : ℕ) (db : Db)
      → Trace s rt db
          (ResultWorker.run_once s rt message now clock held worker_id limit claimed_at db).1
  unfolding ResultWorker.run_once ResultWorker.claim_jobs
  apply_results-Trace message now clock held worker_id limit claimed_at db =
      claim-Trace held worker_id (signal_jobs ∷ lead_stage_update ∷ []) limit claimed_at db
      ▷ results-Trace message now clock
          (ResultWorker.claim_jobs held worker_id limit claimed_at db).0 _

  upload-Trace :
      (now : ℕ) (snapshot : ClaimedRecordingJob) (s3_key : Text) (url : Json) (db : Db)
      → Trace s rt db (Recording.complete now snapshot s3_key url db)
  unfolding Recording.complete emit inc apply
  upload-Trace now snapshot s3_key url db = elim (Option-cases (get snapshot.id db)) [
    | inl gone ↦ rw (gone, Recording.complete) here
    | inr (job, there) ↦ elim (Bool-cases (is_running job.status)) [
      | inr over ↦ rw (there, over, Recording.complete) here
      | inl runs ↦
          rw (there, runs, Recording.complete)
            (update-Trace (records snapshot.interaction_id s3_key) db
              ▷ succeed-Trace now job
                  (field (text "s3_key") (str s3_key)
                    (field (text "recording_url_present") (bool (is_truthy url)) end))
                  0 (update_recording_key snapshot.interaction_id s3_key db)
              ▷ other_call refl refl refl)
    ]
  ]

  recording_failure-Trace :
      (clock : Readings) (snapshot : ClaimedRecordingJob) (f : Failure) (db : Db)
      → Trace s rt db (Recording.handle_failure s rt clock snapshot f db)
  unfolding Recording.handle_failure
  recording_failure-Trace clock snapshot f db = reloaded-Trace clock f snapshot.id db

  settle-Trace :
      (message : Text → Text) (now : ℕ) (clock : Readings) (snapshot : ClaimedRecordingJob)
      (p : Poll) (db : Db)
      → Trace s rt db (settle s rt message now clock snapshot p db)
  unfolding settle inc
  settle-Trace message now clock snapshot (uploaded s3_key url) db =
      upload-Trace now snapshot s3_key url db
  settle-Trace message now clock snapshot (not_ready m) db =
      other_call refl refl refl
      ▷ recording_failure-Trace clock snapshot
          (Recording.failure (text "RECORDING_NOT_READY") m
            (some (pos (next_recording_delay s snapshot.attempts))) true)
          _
  settle-Trace message now clock snapshot (unavailable m) db =
      other_call refl refl refl
      ▷ recording_failure-Trace clock snapshot
          (Recording.failure (text "RECORDING_UNAVAILABLE") m none false) _
  settle-Trace message now clock snapshot (broken e) db =
      other_call refl refl refl
      ▷ recording_failure-Trace clock snapshot (Recording.failure e (message e) none true) _

  -- The work on one claimed recording job.
  pub poll-Trace :
      (message : Text → Text) (provider : Text → Text → HttpAnswer) (now : ℕ) (clock : Readings)
      (job : ClaimedRecordingJob) (db : Db)
      → Trace s rt db (Recording.process s rt message provider now clock job db)
  unfolding Recording.process
  poll-Trace message provider now clock job db =
      settle-Trace message now clock job
        (Recording.poll_once provider job.interaction_id
          (Recording.text_in rt (text "call_sid") job.payload)
          (Recording.text_in rt (text "exotel_account_id") job.payload))
        db

  recordings-Trace :
      (message : Text → Text) (provider : ℕ → Text → Text → HttpAnswer) (now : ℕ → ℕ)
      (clock : ℕ → Readings) (jobs : List ClaimedRecordingJob) (db : Db)
      → Trace s rt db (Recording.process_all s rt message provider now clock jobs db)
  unfolding Recording.process_all
  recordings-Trace message provider now clock [] db = here
  recordings-Trace message provider now clock (job ∷ jobs) db =
      poll-Trace message (provider job.id) (now job.id) (clock job.id) job db
      ▷ recordings-Trace message provider now clock jobs _

  -- A tick of the recording worker.
  pub fetch_recordings-Trace :
      (message : Text → Text) (provider : ℕ → Text → Text → HttpAnswer) (now : ℕ → ℕ)
      (clock : ℕ → Readings) (held : ℕ → Bool) (worker_id : Text) (limit claimed_at : ℕ) (db : Db)
      → Trace s rt db
          (Recording.run_once s rt message provider now clock held worker_id limit claimed_at db).1
  unfolding Recording.run_once Recording.claim_jobs
  fetch_recordings-Trace message provider now clock held worker_id limit claimed_at db =
      claim-Trace held worker_id (recording_fetch ∷ []) limit claimed_at db
      ▷ recordings-Trace message provider now clock
          (Recording.claim_jobs held worker_id limit claimed_at db).0 _
