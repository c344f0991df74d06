-- ===== src/Pipeline/Transactions.antt =====
-- The program as a sequence of deliveries, ticks and tasks, in any order.
use post_call_processing_pip.Common.{ℕ, ◌≡◌, refl, Bool, Option, some, List, [], ◌∷◌}
use post_call_processing_pip.Text.{Text}
use post_call_processing_pip.Settings.{Settings}
use post_call_processing_pip.Runtime.{Runtime}
use post_call_processing_pip.Models.{Db, InteractionJob, JobType}
use post_call_processing_pip.Failure.{Readings}
use post_call_processing_pip.Jobs.{get_by_idempotency_key, claim_ready_jobs}
use post_call_processing_pip.Jobs.Spec.{queue_of, entry_of, Reaches, here, IsLater, Reaches-trans}
use post_call_processing_pip.Jobs.Refinement.{Reaches-found}
use post_call_processing_pip.Webhook.{InteractionEndRequest, end_interaction}
use post_call_processing_pip.Orchestrator.Run
use post_call_processing_pip.Attempt.{Attempt, ok, raise}
use post_call_processing_pip.LlmWorker
use post_call_processing_pip.LlmWorker.{committed}
use post_call_processing_pip.LlmWorker.Run as Analysis
use post_call_processing_pip.Recording
use post_call_processing_pip.Recording.{HttpAnswer}
use post_call_processing_pip.ResultWorker
use post_call_processing_pip.Pipeline.{Trace}
use post_call_processing_pip.Pipeline.Handlers.{end_interaction-Trace}
use post_call_processing_pip.Pipeline.Workers.{claim-Trace, orchestrate-Trace}
use post_call_processing_pip.Pipeline.Calls.{
  result-Trace, poll-Trace, apply_results-Trace, fetch_recordings-Trace,
}
use post_call_processing_pip.Pipeline.Results.{process-Trace, analyse-Trace}
use post_call_processing_pip.Pipeline.Analysis.{claim_admitted_jobs-Trace}
use post_call_processing_pip.Pipeline.Celery.{legacy_task-Trace, run_all-Trace}
use post_call_processing_pip.Json.{Fields}
use post_call_processing_pip.Tasks.{Inputs, legacy_task, run_all}
use post_call_processing_pip.Pipeline.Soundness.{IsSound, Trace-IsSound, Trace-Reaches}

-- A delivery of the webhook, a tick of one of the workers, one transaction of a tick, which leaves
-- room for other events before the next, or a task of Celery, with what the outside gives to it.
pub data Event : Type 0 where
  delivers : Option ℕ → ℕ → ℕ → ℕ → ℕ → InteractionEndRequest → Option (Text × Text) → Event
  orchestrates : (ℕ → ℕ) → (Text → Text) → (ℕ → Run.JobReadings) → Run.Tick → Event
  admits : LlmWorker.Tick → Event
  works_on : (Text → Text) → Analysis.Turn → LlmWorker.ClaimedLlmJob → Event
  analyses : (Text → Text) → LlmWorker.Tick → (ℕ → Analysis.Turn) → Event
  claims : (ℕ → Bool) → Text → List JobType → ℕ → ℕ → Event
  polls :
      (Text → Text)
      → (Text → Text → HttpAnswer)
      → ℕ
      → Readings
      → Recording.ClaimedRecordingJob
      → Event
  fetches :
      (Text → Text)
      → (ℕ → Text → Text → HttpAnswer)
      → (ℕ → ℕ)
      → (ℕ → Readings)
      → (ℕ → Bool)
      → Text
      → ℕ
      → ℕ
      → Event
  settles : (Text → Text) → ℕ → Readings → ResultWorker.ClaimedResultJob → Event
  applies : (Text → Text) → (ℕ → ℕ) → (ℕ → Readings) → (ℕ → Bool) → Text → ℕ → ℕ → Event
  takes_legacy : Inputs → ℕ → Fields → Event
  runs_all : Inputs → Event

-- The tables after it.
unfoldable pub happen : Settings → Runtime → Event → Db → Db
happen s rt (delivers signature ended_at now session_id interaction_id request nudged) db =
    (end_interaction s rt signature ended_at now session_id interaction_id request nudged db).1
happen s rt (orchestrates scaled message clock t) db =
    (Run.run_once s rt scaled message clock t db).1
happen s rt (admits t) db = committed db (LlmWorker.claim_admitted_jobs s t db)
happen s rt (works_on message turn snapshot) db =
    committed db (Analysis.process s rt message turn snapshot db)
happen s rt (claims held worker_id types limit now) db =
    (claim_ready_jobs held worker_id types limit now db).1
happen s rt (polls message provider now clock snapshot) db =
    Recording.process s rt message provider now clock snapshot db
happen s rt (settles message now clock snapshot) db =
    ResultWorker.process s rt message now clock snapshot db
happen s rt (analyses message t turns) db = (Analysis.run_once s rt message t turns db).1
happen s rt (fetches message provider now clock held worker_id limit at) db =
    (Recording.run_once s rt message provider now clock held worker_id limit at db).1
happen s rt (applies message now clock held worker_id limit at) db =
    (ResultWorker.run_once s rt message now clock held worker_id limit at db).1
happen s rt (takes_legacy i now payload) db = committed db (legacy_task s rt i now payload db)
happen s rt (runs_all i) db = (run_all s rt i db).1

unfoldable pub happen_all : Settings → Runtime → List Event → Db → Db
unfolding happen
happen_all s rt [] db = db
happen_all s rt (e ∷ es) db = happen_all s rt es (happen s rt e db)

module _ (s : Settings) (rt : Runtime) where
  -- A transaction that raises is rolled back.
  committed-Trace {ℓ} :
      {A : Type ℓ} (db : Db) (m : Attempt (A × Db))
      → ((r : A × Db) → m ≡ ok r → Trace s rt db r.1)
      → Trace s rt db (committed db m)
  committed-Trace db (ok r) t = t r refl
  committed-Trace db (raise e) t = Trace.here

  happen-Trace : (e : Event) (db : Db) → Trace s rt db (happen s rt e db)
  unfolding happen
  happen-Trace (delivers signature ended_at now session_id interaction_id request nudged) db =
      end_interaction-Trace signature ended_at now session_id interaction_id request nudged db
  happen-Trace (orchestrates scaled message clock t) db =
      orchestrate-Trace scaled message clock t db
  happen-Trace (admits t) db =
      committed-Trace db (LlmWorker.claim_admitted_jobs s t db) (claim_admitted_jobs-Trace t db)
  happen-Trace (works_on message turn snapshot) db =
      committed-Trace db (Analysis.process s rt message turn snapshot db)
        (process-Trace message turn snapshot db)
  happen-Trace (claims held worker_id types limit now) db =
      claim-Trace held worker_id types limit now db
  happen-Trace (polls message provider now clock snapshot) db =
      poll-Trace message provider now clock snapshot db
  happen-Trace (settles message now clock snapshot) db = result-Trace message now clock snapshot db
  happen-Trace (analyses message t turns) db = analyse-Trace message t turns db
  happen-Trace (fetches message provider now clock held worker_id limit at) db =
      fetch_recordings-Trace message provider now clock held worker_id limit at db
  happen-Trace (applies message now clock held worker_id limit at) db =
      apply_results-Trace message now clock held worker_id limit at db
  happen-Trace (takes_legacy i now payload) db =
      committed-Trace db (legacy_task s rt i now payload db) (legacy_task-Trace i now payload db)
  happen-Trace (runs_all i) db = run_all-Trace i db

  -- Through any sequence of webhook deliveries, ticks of the four workers, single transactions of
  -- their ticks and Celery's tasks, in any order and with any clocks, answers of the providers,
  -- errors and exceptions: if no two jobs share a key or an id, the jobs that run are those with a
  -- lock, and each call's retry counter matches its error log, then so it is afterwards.
  pub happen_all-IsSound :
      (es : List Event) (db : Db) → IsSound db → IsSound (happen_all s rt es db)
  unfolding happen_all
  happen_all-IsSound [] db v = v
  happen_all-IsSound (e ∷ es) db v =
      happen_all-IsSound es (happen s rt e db)
        (Trace-IsSound db (happen s rt e db) (happen-Trace e db) v)

  -- From sound tables, any sequence of webhook deliveries, ticks of the workers, single transactions
  -- and Celery's tasks is a sequence of steps of the abstract queue: they create, try, put back,
  -- complete and give up jobs only as its rules allow, and only a try that starts on a waiting job
  -- is counted.
  pub happen_all-refines :
      (es : List Event) (db : Db)
      → IsSound db
      → Reaches (queue_of db) (queue_of (happen_all s rt es db))
  unfolding happen_all
  happen_all-refines [] db v = here
  happen_all-refines (e ∷ es) db v =
      Reaches-trans (Trace-Reaches db (happen s rt e db) (happen-Trace e db) v) (
        happen_all-refines es (happen s rt e db)
          (Trace-IsSound db (happen s rt e db) (happen-Trace e db) v))

  -- From sound tables, no sequence of deliveries, ticks and tasks loses a job: under its key there is always the same
  -- request, with at least as many attempts, PENDING only if it was and with no try since, and
  -- FAILED only if it was.
  pub happen_all-IsLater :
      (es : List Event) (db : Db) (key : Text) (j : InteractionJob)
      → IsSound db
      → get_by_idempotency_key key db ≡ some j
      → (j' : InteractionJob) × (get_by_idempotency_key key (happen_all s rt es db) ≡ some j')
        × IsLater (entry_of j) (entry_of j')
  happen_all-IsLater es db key j v e =
      Reaches-found db (happen_all s rt es db) key j (happen_all-refines es db v) e
