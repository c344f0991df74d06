-- ===== src/LlmWorker/Run.antt =====
-- llm_workers/worker.py: `_context_from_snapshot`, and `run_once`, from the claim of the jobs to
-- the save of their results.
use post_call_processing_pip.Common.{ℕ, Option, none, some, List, [], ◌∷◌, length}
use post_call_processing_pip.Text.{Text, text, uuid_str}
use post_call_processing_pip.Json.{Json, null, bool, num, str, arr, obj, Fields, end, get_or}
use post_call_processing_pip.Json
use post_call_processing_pip.Settings.{Settings}
use post_call_processing_pip.Runtime.{Runtime}
use post_call_processing_pip.Attempt.{Attempt, ok, raise, ◌>>=◌}
use post_call_processing_pip.Classifier.{str_of}
use post_call_processing_pip.Models.{Db}
use post_call_processing_pip.Failure.{Readings}
use post_call_processing_pip.Llm.{ProviderAnswer, analyze_call}
use post_call_processing_pip.Processor.{PostCallContext, get_default, process_post_call}
use post_call_processing_pip.LlmWorker.{ClaimedLlmJob, Tick, claim_admitted_jobs}
use post_call_processing_pip.LlmWorker.Save.{SaveReadings, process_snapshot}

-- `parsed_ended_at`, with one reading of the clock.
unfoldable pub ended_at_of : Runtime → ℕ → Option Json → Attempt ℕ
ended_at_of rt now (some (str s)) = elim (rt.fromisoformat s) [
  | some t ↦ ok t
  | none ↦ raise (text "ValueError")
]
ended_at_of rt now _ = ok now

-- `_context_from_snapshot`
unfoldable pub context_from_snapshot : Runtime → ℕ → ClaimedLlmJob → Attempt PostCallContext
unfolding ended_at_of uuid_str
context_from_snapshot rt now snapshot = do
  let payload = snapshot.payload
  ended_at ← ended_at_of rt now (Json.get (text "ended_at") payload)
  ok (record {
    interaction_id = uuid_str snapshot.interaction_id;
    session_id = uuid_str snapshot.session_id;
    lead_id = uuid_str snapshot.lead_id;
    campaign_id = uuid_str snapshot.campaign_id;
    customer_id = uuid_str snapshot.customer_id;
    agent_id = str_of rt (get_default (text "agent_id") (str []) payload);
    call_sid = str_of rt (get_or (text "call_sid") (str []) payload);
    transcript_text = str_of rt (get_or (text "transcript_text") (str []) payload);
    conversation_data = get_or (text "conversation_data") (obj end) payload;
    additional_data = get_or (text "additional_data") (obj end) payload;
    ended_at = ended_at;
    exotel_account_id = Json.get (text "exotel_account_id") payload;
  })

-- What the outside gives to the work on one job: what the provider answers to a prompt and after
-- how many milliseconds, and the readings of the clock.
pub record Turn : Type 0 where
  pub started_at : ℕ
  pub provider : Text → ProviderAnswer
  pub latency_ms : Json
  pub saved : SaveReadings
  pub late : Readings

-- `_process_snapshot`. What `_context_from_snapshot` raises leaves it, since the `try` comes after.
unfoldable pub process :
    Settings → Runtime → (Text → Text) → Turn → ClaimedLlmJob → Db → Attempt (Unit {0} × Db)
unfolding context_from_snapshot process_snapshot process_post_call analyze_call
process s rt message turn snapshot db = context_from_snapshot rt turn.started_at snapshot >>= λ ctx.
    process_snapshot s rt turn.saved turn.late snapshot
      (process_post_call s rt message turn.latency_ms
        (λ prompt. analyze_call s rt message (turn.provider prompt)) ctx)
      db

-- The loop of `run_once`: an exception ends it, and the tables are what the jobs before left.
unfoldable pub process_all :
    Settings
    → Runtime
    → (Text → Text)
    → (ℕ → Turn)
    → List ClaimedLlmJob
    → Db
    → Attempt (Unit {0}) × Db
process_all s rt message turns [] db = (ok tt, db)
process_all s rt message turns (snapshot ∷ snapshots) db =
    elim (process s rt message (turns snapshot.id) snapshot db) [
      | ok (_, db') ↦ process_all s rt message turns snapshots db'
      | raise e ↦ (raise e, db)
    ]

-- `run_once`
unfoldable pub run_once :
    Settings → Runtime → (Text → Text) → Tick → (ℕ → Turn) → Db → Attempt ℕ × Db
unfolding process_all claim_admitted_jobs
run_once s rt message t turns db = elim (claim_admitted_jobs s t db) [
  | raise e ↦ (raise e, db)
  | ok (admitted, claimed) ↦
      let (ended, db') = process_all s rt message turns admitted claimed in
      (ended >>= λ _. ok (length admitted), db')
]
