-- ===== src/Failure/Tests.antt =====
-- A job that fails, with attempts left and without.
use post_call_processing_pip.Common.{
  ℕ, ◌≤◌, ◌<◌, ◌≡◌, ◌++◌, refl, ◌⊎◌, true, false, none, some, [], ◌∷◌, arith,
}
use post_call_processing_pip.Text.{text}
use post_call_processing_pip.Settings.{defaults}
use post_call_processing_pip.Models.{Db, InteractionJob, dead_lettered, is_waiting}
use post_call_processing_pip.Retry.{default_policy, plus_seconds}
use post_call_processing_pip.Jobs.{get, claim_row, defer_row, dead_letter_row, dead_letter_of}
use post_call_processing_pip.Failure.{Failure, Readings, handle}
use post_call_processing_pip.Failure.Outcome.{handle_lem}
use post_call_processing_pip.Failure.Retries.{rest, round, Rounds-end}
use post_call_processing_pip.Samples.{runtime, db, tables, busy, waiting_low}

abbrev clock : Readings
clock = record { decided = 100; logged = 101; closed = 102 }

abbrev timeout : Failure
timeout = record {
  stage = text "llm_worker";
  error_code = text "TimeoutError";
  error_message = text "no answer";
  retry_after_seconds = none;
  retryable = true;
}

handle_lem_example :
    let db' = handle runtime (default_policy defaults) clock busy timeout db in
    ((true ≡ true)
      × (1 < 5)
      × ((t : ℕ) × (get 3 db' ≡ some (defer_row t timeout.error_code timeout.error_message busy))
          × (100 < t)
          × (t ≤ plus_seconds 100 900))
      × (db'.dead_letters ≡ db.dead_letters))
    ⊎ (((true ≡ false) ⊎ (5 ≤ 1))
        × (get 3 db' ≡ some (dead_letter_row 102 timeout.error_code timeout.error_message busy))
        × (db'.dead_letters
            ≡ db.dead_letters
              ++ dead_letter_of busy timeout.stage timeout.error_code timeout.error_message ∷ []))
handle_lem_example =
    handle_lem runtime (default_policy defaults) clock busy timeout db refl (omega arith)
      (omega arith)

-- The last try of a job.
abbrev tired : InteractionJob
tired = record waiting_low { attempts = 4 }

abbrev claimed : Db
claimed = tables (claim_row (text "a") 50 tired ∷ []) []

abbrev failed : Db
failed =
    handle runtime (default_policy defaults) clock (claim_row (text "a") 50 tired) timeout claimed

Rounds-end_example :
    (1 ≤ 1)
    × ((k : InteractionJob) × (get 1 failed ≡ some k)
        × (((is_waiting k.status ≡ true) × (1 < 1)) ⊎ (k.status ≡ dead_lettered)))
Rounds-end_example =
    Rounds-end runtime (default_policy defaults) 1 1 (tables (tired ∷ []) []) failed tired
      (round claimed failed tired (text "a") 50 clock timeout refl refl refl refl rest)
      (omega arith) (omega arith) refl refl
