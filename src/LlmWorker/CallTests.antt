-- ===== src/LlmWorker/CallTests.antt =====
-- A running job whose provider answers 429, with a completion, and with a completion that counts no
-- tokens; and a batch with a job whose call ended at no date.
use post_call_processing_pip.Common.{
  ◌≤◌, length, ◌≡◌, refl, false, none, some, [], ◌∷◌, ◌++◌, pos, min, arith,
}
use post_call_processing_pip.Text.{Text, text, text_eq, uuid_str, parse_int}
use post_call_processing_pip.Json.{
  Json, null, num, str, arr, nil, cons, obj, Fields, end, field, get_or,
}
use post_call_processing_pip.Json
use post_call_processing_pip.Keys.{staged_key}
use post_call_processing_pip.Settings.{Settings, defaults}
use post_call_processing_pip.Runtime.{Runtime}
use post_call_processing_pip.Attempt.{ok, raise, get_of}
use post_call_processing_pip.Models.{Db, medium, running, signal_jobs, lead_stage_update}
use post_call_processing_pip.Retry.{plus_seconds}
use post_call_processing_pip.Jobs.{get, defer_row, succeed_row}
use post_call_processing_pip.Llm.{
  ProviderAnswer, answered, parse_retry_after, read_completion, item_of, first_of, parse_content,
  set_item, analyze_call, mock_result,
}
use post_call_processing_pip.Processor.{PostCallContext, process_post_call, parse_response}
use post_call_processing_pip.LlmWorker.{ClaimedLlmJob, snapshot_of, customer_budget, committed}
use post_call_processing_pip.LlmWorker.Save.{tokens_of, stage_text, process_snapshot, save_result}
use post_call_processing_pip.LlmWorker.Run.{
  Turn, context_from_snapshot, ended_at_of, process, process_all,
}
use post_call_processing_pip.LlmWorker.Calls.{
  seconds_asked, process_rate_limited, process_answered, process_uncounted,
}
use post_call_processing_pip.LlmWorker.Results.{with_result}
use post_call_processing_pip.Jobs.Queued.{Queues, IsChildOf}
use post_call_processing_pip.LlmWorker.Batch.{process_all_stops}
use post_call_processing_pip.Samples.{runtime, db, busy, job}

abbrev settings : Settings
settings = record defaults { llm_api_key = text "sk-live" }

abbrev message : Text → Text
message e = text "error"

abbrev turn : ProviderAnswer → Turn
turn answer = record {
  started_at = 80;
  provider = λ prompt. answer;
  latency_ms = num (pos 250);
  saved = record {
    analyzed_at = 90;
    usage_at = 91;
    completed_at = 92;
    signal_at = 93;
    lead_at = 94;
  };
  late = record { decided = 90; logged = 91; closed = 92 };
}

abbrev context : PostCallContext
context = record {
  interaction_id = uuid_str 103;
  session_id = uuid_str 5;
  lead_id = uuid_str 6;
  campaign_id = uuid_str 3;
  customer_id = uuid_str 7;
  agent_id = [];
  call_sid = [];
  transcript_text = [];
  conversation_data = obj end;
  additional_data = obj end;
  ended_at = 80;
  exotel_account_id = none;
}

context_of_busy : context_from_snapshot runtime 80 (snapshot_of busy) ≡ ok context
unfolding context_from_snapshot ended_at_of get_or Json.get
context_of_busy = refl

live : text_eq settings.llm_api_key (text "sk-mock-key-for-assessment") ≡ false
unfolding text_eq text
live = refl

abbrev busy_response : ProviderAnswer
busy_response = answered 429 (some (text "30")) none

process_rate_limited_example :
    let seconds = min (seconds_asked (some (text "30"))) 900 in
    (db' : Db) × (process settings runtime message (turn busy_response) (snapshot_of busy) db
      ≡ ok (tt, db'))
    × (get 3 db'
        ≡ some (
            defer_row
              (plus_seconds 90 seconds)
              (text "LLM_RATE_LIMIT")
              (text "LLM provider rate limit exceeded")
              busy))
process_rate_limited_example =
    process_rate_limited settings runtime message (turn busy_response) (snapshot_of busy) db context
      live context_of_busy (some (text "30")) none busy refl refl (omega arith)

thirty : parse_retry_after (some (text "30")) ≡ 30
unfolding parse_retry_after parse_int text
thirty = refl

-- A body with this content and this total of tokens.
abbrev completion : Json → Json
completion total = obj (
    field (text "choices")
      (arr (
        cons
          (obj
            (field (text "message") (obj (field (text "content") (str (text "Booked.")) end)) end))
          nil))
      (field (text "usage") (obj (field (text "total_tokens") total end)) end))

abbrev response : Json → Fields
response total = field (text "call_stage") (str (text "unknown")) (
    field (text "entities") (obj (field (text "raw_content") (str (text "Booked.")) end)) (
      field (text "summary") (str (text "Booked."))
        (field (text "usage") (obj (field (text "total_tokens") total end)) end)))

readable : (total : Json) → read_completion runtime (completion total) ≡ ok (response total)
unfolding read_completion item_of first_of parse_content set_item get_of Json.get Json.set text_eq
    text
readable total = refl

charged :
    (total : Json)
    → Json.get (text "usage") (response total) ≡ some (obj (field (text "total_tokens") total end))
unfolding Json.get text_eq text
charged total = refl

no_budget : customer_budget end ≡ ok none
unfolding customer_budget get_or
no_budget = refl

counted : tokens_of (num (pos 1200)) ≡ ok 1200
unfolding tokens_of
counted = refl

uncounted : tokens_of null ≡ raise (text "TypeError")
unfolding tokens_of
uncounted = refl

abbrev success : Json → ProviderAnswer
success total = answered 200 none (some (completion total))

abbrev paid_response : Fields
paid_response = response (num (pos 1200))

unknown_stage : stage_text runtime paid_response ≡ text "unknown"
unfolding Json.get text_eq text
unknown_stage = refl

fits_signal : length (staged_key 103 (text "signal") (stage_text runtime paid_response)) ≤ 255
unfolding uuid_str text
fits_signal = rw unknown_stage (omega arith)

fits_lead : length (staged_key 103 (text "lead") (stage_text runtime paid_response)) ≤ 255
unfolding uuid_str text
fits_lead = rw unknown_stage (omega arith)

process_answered_example :
    let stage = stage_text runtime paid_response in
    let both = with_result paid_response end in
    (db' : Db) × (process settings runtime message
        (turn (success (num (pos 1200))))
        (snapshot_of busy)
        db
      ≡ ok (tt, db'))
    × (get 3 db' ≡ some (succeed_row 92 paid_response 1200 busy))
    × Queues
        (staged_key 103 (text "signal") stage)
        (IsChildOf busy signal_jobs medium both 0)
        db
        db'
    × Queues
        (staged_key 103 (text "lead") stage)
        (IsChildOf busy lead_stage_update medium both 0)
        db
        db'
process_answered_example =
    process_answered settings runtime message (turn (success (num (pos 1200)))) (snapshot_of busy)
      db context live context_of_busy 200 none (completion (num (pos 1200))) paid_response busy none
      (num (pos 1200)) 1200 refl refl (readable (num (pos 1200))) (charged (num (pos 1200))) counted
      refl refl no_budget fits_signal fits_lead

process_uncounted_example :
    let processed = process settings runtime message (turn (success null)) (snapshot_of busy) db in
    (processed ≡ raise (text "TypeError")) × (get 3 (committed db processed) ≡ some busy)
process_uncounted_example =
    process_uncounted settings runtime message (turn (success null)) (snapshot_of busy) db context
      live context_of_busy 200 none (completion null) (response null) busy none null
      (text "TypeError") refl refl (readable null) (charged null) uncounted refl refl no_budget

-- No date can be read here.
abbrev timeless : Runtime
timeless = record runtime { fromisoformat = λ s. none }

abbrev gone : ClaimedLlmJob
gone = snapshot_of (job 99 medium running 10 none none end)

abbrev undated : ClaimedLlmJob
undated =
    snapshot_of
      (job 3 medium running 10 none none (field (text "ended_at") (str (text "yesterday")) end))

done_before :
    process_all defaults timeless message (λ i. turn busy_response) (gone ∷ []) db ≡ (ok tt, db)
unfolding process_all process context_from_snapshot ended_at_of get_or Json.get process_post_call
    analyze_call mock_result parse_response get_of process_snapshot save_result text_eq text
done_before = refl

yesterday : Json.get (text "ended_at") undated.payload ≡ some (str (text "yesterday"))
unfolding Json.get text_eq text
yesterday = refl

process_all_stops_example :
    process_all defaults timeless message
      (λ i. turn busy_response)
      ((gone ∷ []) ++ undated ∷ snapshot_of busy ∷ [])
      db
    ≡ (raise (text "ValueError"), db)
process_all_stops_example =
    process_all_stops defaults timeless message (λ i. turn busy_response) (gone ∷ []) undated
      (snapshot_of busy ∷ []) db db (text "yesterday") done_before yesterday refl
