-- ===== src/Processor.antt =====
-- services/post_call_processor.py: `PostCallProcessor`. What the client answers to a prompt, and
-- the milliseconds that it took, are arguments.
use post_call_processing_pip.Common.{ℕ, ℤ, pos, Option, ◌++◌}
use post_call_processing_pip.Text.{Text, text}
use post_call_processing_pip.Json.{Json, num, str, obj, Fields, end}
use post_call_processing_pip.Json
use post_call_processing_pip.Settings.{Settings}
use post_call_processing_pip.Runtime.{Runtime}
use post_call_processing_pip.Attempt.{Attempt, ok, raise, ◌>>=◌, get_of}
use post_call_processing_pip.Llm.{ClientResult, returned, limited, raised, or_default}

-- `PostCallContext`; `conversation_data` and `additional_data` are what the payload holds, a dict
-- or not.
pub record PostCallContext : Type 0 where
  pub interaction_id : Text
  pub session_id : Text
  pub lead_id : Text
  pub campaign_id : Text
  pub customer_id : Text
  pub agent_id : Text
  pub call_sid : Text
  pub transcript_text : Text
  pub conversation_data : Json
  pub additional_data : Json
  pub ended_at : ℕ
  pub exotel_account_id : Option Json

-- `AnalysisResult`; the latency, a float in Python, is a JSON value that is only passed on. The
-- tokens are what the response holds, a number or not.
pub record AnalysisResult : Type 0 where
  pub call_stage : Json
  pub entities : Json
  pub summary : Json
  pub raw_response : Fields
  pub tokens_used : Json
  pub latency_ms : Json
  pub provider : Text
  pub model : Text

-- How `process_post_call` ends: a result, a `RateLimitExceeded`, or another exception with its
-- class and text.
pub data Outcome : Type 0 where
  analysed : AnalysisResult → Outcome
  rate_limited : Text → ℤ → Outcome
  failed : Text → Text → Outcome

unfoldable pub system_prompt : Text
unfolding text
system_prompt =
    text "You are a call analysis assistant. Analyze the following\n"
    ++ text "call transcript and extract:\n"
    ++ text "1. call_stage: The outcome/disposition of the call\n"
    ++ text "2. entities: Key information mentioned (dates, times, amounts, names, preferences)\n"
    ++ text "3. summary: A brief summary of what happened in the call\n\n"
    ++ text "Respond in JSON format:\n{\n    \"call_stage\": \"...\",\n"
    ++ text "    \"entities\": {...},\n    \"summary\": \"...\"\n}"

-- `_build_analysis_prompt`
unfoldable pub build_analysis_prompt : Runtime → Text → Json → Text
unfolding system_prompt text
build_analysis_prompt rt transcript additional_data =
    system_prompt
    ++ text "\n\nTranscript:\n"
    ++ transcript
    ++ text "\n\nAdditional context:\n"
    ++ rt.dumps additional_data

-- `d.get(key, default)`
abbrev pub get_default : Text → Json → Fields → Json
get_default key default_value d = or_default (Json.get key d) default_value

-- `_parse_response`
unfoldable pub parse_response : Settings → Json → Fields → Attempt AnalysisResult
unfolding get_of
parse_response s latency_ms response = do
  total ← get_of (text "total_tokens") (get_default (text "usage") (obj end) response)
  ok (record {
    call_stage = get_default (text "call_stage") (str (text "unknown")) response;
    entities = get_default (text "entities") (obj end) response;
    summary = get_default (text "summary") (str (text "")) response;
    raw_response = response;
    tokens_used = or_default total (num (pos 0));
    latency_ms = latency_ms;
    provider = s.llm_provider;
    model = s.llm_model;
  })

-- The end of a step, with `message` the text of an exception by its class.
abbrev pub outcome : (Text → Text) → Attempt AnalysisResult → Outcome
outcome message (ok result) = analysed result
outcome message (raise e) = failed e (message e)

-- `process_post_call(ctx, persist_result=False)`
unfoldable pub process_post_call :
    Settings → Runtime → (Text → Text) → Json → (Text → ClientResult) → PostCallContext → Outcome
unfolding parse_response build_analysis_prompt
process_post_call s rt message latency_ms client ctx =
    elim (client (build_analysis_prompt rt ctx.transcript_text ctx.additional_data)) [
      | returned response ↦ outcome message (parse_response s latency_ms response)
      | limited why seconds ↦ rate_limited why (pos seconds)
      | raised error_class why ↦ failed error_class why
    ]
