-- ===== src/LlmWorker/Tests.antt =====
-- Results and failures of a worker's calls, and a batch with a budget that is no number.
use post_call_processing_pip.Common.{◌≡◌, refl, false, none, [], ◌∷◌, ◌++◌, update_where, pos}
use post_call_processing_pip.Text.{Text, text, text_eq}
use post_call_processing_pip.Json.{str, num, null, obj, Fields, end, field, get_or}
use post_call_processing_pip.Settings.{defaults}
use post_call_processing_pip.Attempt.{raise, ok}
use post_call_processing_pip.Models.{Db, InteractionJob, medium, low, pending}
use post_call_processing_pip.Jobs.{
  claim_row, claim_ready_jobs, select_ready, is_ready, order_by, insert_row, in_order, contains_id,
  recover_stale_running_jobs, is_stale,
}
use post_call_processing_pip.Failure.{Readings}
use post_call_processing_pip.Processor.{AnalysisResult}
use post_call_processing_pip.LlmWorker.{Tick, claim_admitted_jobs, committed, customer_budget}
use post_call_processing_pip.LlmWorker.Save.{tokens_of, SaveReadings}
use post_call_processing_pip.LlmWorker.Claims.{claimed_jobs, claim_admitted_jobs_poisoned}
use post_call_processing_pip.Samples.{job, tables}

abbrev saved : SaveReadings
saved = record { analyzed_at = 90; usage_at = 91; completed_at = 92; signal_at = 93; lead_at = 94 }

abbrev late : Readings
late = record { decided = 90; logged = 91; closed = 92 }

abbrev result : AnalysisResult
result = record {
  call_stage = str (text "demo_booked");
  entities = obj end;
  summary = str (text "A demo is booked");
  raw_response = field (text "call_stage") (str (text "demo_booked")) end;
  tokens_used = num (pos 1200);
  latency_ms = null;
  provider = text "openai";
  model = text "gpt-4o";
}

no_budget : customer_budget end ≡ ok none
unfolding customer_budget get_or
no_budget = refl

counted : tokens_of (num (pos 1200)) ≡ ok 1200
unfolding tokens_of
counted = refl

-- The budget of the second job is a text that is no number.
abbrev bad_payload : Fields
bad_payload =
    field (text "additional_data")
      (obj (field (text "customer_token_budget_per_minute") (str (text "many")) end)) end

abbrev good : InteractionJob
good = job 1 medium pending 10 none none end

abbrev bad : InteractionJob
bad = job 2 low pending 10 none none bad_payload

abbrev waiting : Db
waiting = tables (good ∷ bad ∷ []) []

abbrev tick : Tick
tick = record {
  worker_id = text "llm-worker-a";
  limit = 10;
  held = λ i. false;
  recover_now = 50;
  recovered_at = λ i. 51;
  claim_now = 52;
  admit_at = λ i. 53;
  defer_at = λ i. 54;
}

bad_budget : customer_budget bad_payload ≡ raise (text "ValueError")
unfolding customer_budget get_or text text_eq
bad_budget = refl

second_is_bad :
    claimed_jobs defaults tick waiting
    ≡ (claim_row (text "llm-worker-a") 52 good ∷ []) ++ claim_row (text "llm-worker-a") 52 bad ∷ []
unfolding claim_ready_jobs select_ready is_ready order_by insert_row in_order contains_id
    recover_stale_running_jobs is_stale update_where
second_is_bad = refl

claim_admitted_jobs_poisoned_example :
    ((e' : Text) × (claim_admitted_jobs defaults tick waiting ≡ raise e'))
    × (committed waiting (claim_admitted_jobs defaults tick waiting) ≡ waiting)
claim_admitted_jobs_poisoned_example =
    claim_admitted_jobs_poisoned defaults tick waiting
      (claim_row (text "llm-worker-a") 52 good ∷ []) (claim_row (text "llm-worker-a") 52 bad) []
      (text "ValueError") second_is_bad bad_budget
