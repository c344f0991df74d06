-- ===== src/Jobs/Tests.antt =====
-- The theorems on the job table at the rows of `Samples`.
use post_call_processing_pip.Common.{
  ℕ, ◌≤◌, ◌<◌, ◌≡◌, refl, ◌≢◌, ◌++◌, inl, Bool, ◌⊎◌, true, false, none, some, List, [], ◌∷◌, map,
  length, All, Distinct, arith,
}
use post_call_processing_pip.Text.{text}
use post_call_processing_pip.Json.{end}
use post_call_processing_pip.Settings.{defaults}
use post_call_processing_pip.Models.{
  deferred, InteractionJob, high, running, is_waiting, JobType, llm_analysis, signal_jobs,
}
use post_call_processing_pip.Jobs.{
  NewJob, get, create_if_absent, claim_ready_jobs, contains_id, recover_stale_running_jobs,
  select_ready, is_ready, order_by, insert_row, in_order,
}
use post_call_processing_pip.Jobs.Invariant.{
  IsWellFormed, Operation, creates, claims, recovers, defers, succeeds, dead_letters, run,
  run-IsWellFormed,
}
use post_call_processing_pip.Jobs.Create.{create_if_absent_twice}
use post_call_processing_pip.Jobs.Crash.{crashes, run-crashes}
use post_call_processing_pip.Jobs.Stale.{recover_stale_running_jobs_rows}
use post_call_processing_pip.Jobs.Claim.{IsEligible}
use post_call_processing_pip.Jobs.Exclusion.{
  Precedes, claim_ready_jobs_priority, claim_ready_jobs_once,
}
use post_call_processing_pip.Samples.{db, tables, waiting_low, waiting_high, busy}

abbrev request : NewJob
request = record {
  interaction_id = 101;
  session_id = 5;
  lead_id = 6;
  campaign_id = 3;
  customer_id = 7;
  job_type = signal_jobs;
  priority = high;
  idempotency_key = text "interaction:101:signal:v1";
  payload = end;
  token_estimate = 0;
  max_attempts = none;
  run_after = none;
}

abbrev calls : List Operation
calls =
    creates 50 request
    ∷ claims (λ i. false) (text "llm-worker-a") (llm_analysis ∷ []) 10 50
    ∷ recovers (text "llm-worker-b") 400_000_060 (λ i. 400_000_061)
    ∷ succeeds 70 busy end 900
    ∷ defers waiting_low 80 (text "E") (text "later")
    ∷ dead_letters 90 waiting_high (text "llm_worker") (text "E") (text "closed")
    ∷ []

keys_differ : (i k : ℕ) → i ≢ k → text "interaction:" ++ i ∷ [] ≢ text "interaction:" ++ k ∷ []
unfolding text
keys_differ i k other same = other cc

Distinct-keys : Distinct (map (λ j. j.idempotency_key) db.jobs)
Distinct-keys = (
  (
    keys_differ 1 2 (λ e. omega arith),
    (keys_differ 1 3 (λ e. omega arith), (keys_differ 1 4 (λ e. omega arith), tt)),
  ),
  (
    (keys_differ 2 3 (λ e. omega arith), (keys_differ 2 4 (λ e. omega arith), tt)),
    ((keys_differ 3 4 (λ e. omega arith), tt), (tt, tt)),
  ),
)

Distinct-ids : Distinct (map (λ j. j.id) db.jobs)
Distinct-ids = (
  ((λ e. omega arith), ((λ e. omega arith), ((λ e. omega arith), tt))),
  (((λ e. omega arith), ((λ e. omega arith), tt)), (((λ e. omega arith), tt), (tt, tt))),
)

db-IsWellFormed : IsWellFormed db
db-IsWellFormed = record {
  distinct_keys = Distinct-keys;
  distinct_ids = Distinct-ids;
  fresh = (omega arith, (omega arith, (omega arith, (omega arith, tt))));
  locks = (refl, (refl, (refl, (refl, tt))));
}

run-IsWellFormed_example : IsWellFormed (run defaults calls db)
run-IsWellFormed_example = run-IsWellFormed defaults calls db db-IsWellFormed

create_if_absent_twice_example :
    let first = create_if_absent defaults 50 request db in
    create_if_absent defaults 60 request first.1 ≡ (first.0, first.1)
create_if_absent_twice_example = create_if_absent_twice defaults 50 60 request request db refl

recover_stale_running_jobs_rows_example :
    let db' =
      (recover_stale_running_jobs defaults (text "b") 400_000_060 (λ i. 400_000_061) db).1 in
    ((running ≡ running)
      × ((t : ℕ) × (some 40 ≡ some t) × (t < 100_000_060))
      × (get 3 db'
          ≡ some (record busy {
            status = deferred;
            locked_by = none;
            locked_at = none;
            run_after = 400_000_061;
            last_error_code = some (text "WORKER_LOCK_TIMEOUT");
            last_error_message = some (text "Recovered stale lock by " ++ text "b");
          })))
    ⊎ ((100_000_060 ≤ 40) × (get 3 db' ≡ some busy))
recover_stale_running_jobs_rows_example =
    recover_stale_running_jobs_rows defaults (text "b") 400_000_060 (λ i. 400_000_061) db 3 busy
      refl

abbrev unheld : ℕ → Bool
unheld i = false

abbrev types : List JobType
types = llm_analysis ∷ []

low-IsEligible : IsEligible unheld types 50 waiting_low
low-IsEligible = record { wanted = refl; waiting = inl refl; due = omega arith; free = refl }

claim_ready_jobs_priority_example :
    let claimed = (claim_ready_jobs unheld (text "a") types 1 50 db).0 in
    (contains_id 1 claimed ≡ true)
    ⊎ ((length claimed ≡ 1) × All (λ c. Precedes c waiting_low) claimed)
claim_ready_jobs_priority_example =
    claim_ready_jobs_priority unheld (text "a") types 1 50 1 db waiting_low Distinct-ids refl
      low-IsEligible

high_is_claimed : contains_id 2 (claim_ready_jobs unheld (text "a") types 1 50 db).0 ≡ true
unfolding claim_ready_jobs select_ready is_ready order_by insert_row in_order contains_id
high_is_claimed = refl

claim_ready_jobs_once_example :
    contains_id 2
      (claim_ready_jobs unheld
        (text "b")
        types
        10
        60
        (claim_ready_jobs unheld (text "a") types 1 50 db).1).0
    ≡ false
claim_ready_jobs_once_example =
    claim_ready_jobs_once unheld (text "a") types 1 50 unheld (text "b") types 10 60 2 db
      high_is_claimed

run-crashes_example :
    let db' =
      run defaults (crashes defaults (text "a") llm_analysis 9 50) (tables (waiting_low ∷ []) []) in
    (k : InteractionJob) × (db'.jobs ≡ k ∷ [])
    × (is_waiting k.status ≡ true)
    × (k.attempts ≡ 10)
    × (k.max_attempts ≡ 5)
    × (db'.dead_letters ≡ [])
run-crashes_example =
    run-crashes defaults (text "a") 9 50 waiting_low (tables (waiting_low ∷ []) []) refl refl
      (omega arith)
