-- ===== src/LlmWorker/Calls.antt =====
-- llm_workers/worker.py with services/post_call_processor.py and llm/client.py: from the provider's
-- answer to the row of the job.
use post_call_processing_pip.Common.{
  ℕ, zero, suc, length, ◌≤◌, ◌<◌, min, max, none, negsuc, Option-cases, inl, inr, [], ◌∷◌, ◌≡◌,
  refl, sym, ap, ◌∙◌, true, false, Option, some, find-passes, ◌==◌, ==_iff, ℤ, pos, leb, arith,
}
use post_call_processing_pip.Text.{Text, text, text_eq, parse_int}
use post_call_processing_pip.Json.{Json, str, obj, Fields, end}
use post_call_processing_pip.Json
use post_call_processing_pip.Settings.{Settings}
use post_call_processing_pip.Runtime.{Runtime}
use post_call_processing_pip.Attempt.{Attempt, ok, raise}
use post_call_processing_pip.Keys.{staged_key}
use post_call_processing_pip.Models.{Db, InteractionJob, signal_jobs, lead_stage_update, is_running}
use post_call_processing_pip.Retry.{default_policy, plus_seconds, next_delay, decide}
use post_call_processing_pip.Jobs.{get, defer_row, succeed_row}
use post_call_processing_pip.Failure.{handle, planned}
use post_call_processing_pip.Failure.Outcome.{deferred_row}
use post_call_processing_pip.Llm.{
  ProviderAnswer, answered, ClientResult, returned, limited, raised, parse_retry_after, is_success,
  read_completion, read_response, analyze_call,
}
use post_call_processing_pip.Llm.Limits.{parse_retry_after_pos, HasTotal}
use post_call_processing_pip.Processor.{
  PostCallContext, AnalysisResult, Outcome, rate_limited, failed, outcome, build_analysis_prompt,
  parse_response, process_post_call, get_default,
}
use post_call_processing_pip.LlmWorker.{ClaimedLlmJob, customer_budget, committed}
use post_call_processing_pip.LlmWorker.Save.{
  tokens_of, failure, handle_failure, process_snapshot, save_result, stage_text,
}
use post_call_processing_pip.LlmWorker.Results.{process_snapshot_done, with_result}
use post_call_processing_pip.Jobs.Queued.{Queues, IsChildOf}
use post_call_processing_pip.LlmWorker.Run.{Turn, context_from_snapshot, process}

-- The provider is asked, not the mock.
abbrev pub IsReal : Settings → Type 0
IsReal s = text_eq s.llm_api_key (text "sk-mock-key-for-assessment") ≡ false

-- The seconds that a Retry-After header asks for, as the pipeline reads it: at least one, and a
-- minute where there is no number.
abbrev pub seconds_asked : Option Text → ℕ
seconds_asked none = 60
seconds_asked (some value) = elim (parse_int value) [
  | none ↦ 60
  | some (pos n) ↦ max n 1
  | some (negsuc n) ↦ 1
]

no_number : parse_retry_after (some []) ≡ seconds_asked (some [])
unfolding parse_retry_after parse_int
no_number = refl

seconds_asked_lem : (header : Option Text) → parse_retry_after header ≡ seconds_asked header
unfolding parse_retry_after
seconds_asked_lem none = refl
seconds_asked_lem (some []) = no_number
seconds_asked_lem (some (c ∷ value)) = elim (Option-cases (parse_int (c ∷ value))) [
  | inl e ↦ rw (e, seconds_asked) refl
  | inr (pos n, e) ↦ rw (e, seconds_asked) refl
  | inr (negsuc n, e) ↦ rw (e, seconds_asked) refl
]

hinted :
    (s : Settings) (attempts max_attempts now n : ℕ)
    → 0 < n
    → attempts < max_attempts
    → let d = decide (default_policy s) attempts max_attempts now (some (pos n)) in
      planned (some d)
      ≡ some (
        plus_seconds now (min n s.workflow_max_retry_seconds),
        min n s.workflow_max_retry_seconds,
      )
unfolding decide next_delay
hinted s attempts max_attempts now zero h left = absurd (omega arith)
hinted s attempts max_attempts now (suc n) h left =
    let more : leb max_attempts attempts ≡ false = ground arith in
    let delay = min (suc n) s.workflow_max_retry_seconds in
    let granted : decide (default_policy s) attempts max_attempts now (some (pos (suc n)))
        ≡ record {
          should_retry = true;
          next_run_at = some (plus_seconds now delay);
          delay_seconds = delay;
        } =
      rw more refl in
    ap (λ d. planned (some d)) granted

module _ (s : Settings) (rt : Runtime) (message : Text → Text) (turn : Turn)
    (snapshot : ClaimedLlmJob) (db : Db) (ctx : PostCallContext) (real : IsReal s)
    (context : context_from_snapshot rt turn.started_at snapshot ≡ ok ctx) where
  abbrev answer : ProviderAnswer
  answer = turn.provider (build_analysis_prompt rt ctx.transcript_text ctx.additional_data)

  abbrev processed : Attempt (Unit {0} × Db)
  processed = process s rt message turn snapshot db

  abbrev client : Text → ClientResult
  client prompt = analyze_call s rt message (turn.provider prompt)

  abbrev outcome_of : ClientResult → Outcome
  outcome_of (returned response) = outcome message (parse_response s turn.latency_ms response)
  outcome_of (limited why seconds) = rate_limited why (pos seconds)
  outcome_of (raised error_class why) = failed error_class why

  abbrev prompt : Text
  prompt = build_analysis_prompt rt ctx.transcript_text ctx.additional_data

  asked : (r : ClientResult) → read_response rt message answer ≡ r → client prompt ≡ r
  unfolding analyze_call
  asked r h = rw real h

  outcome_lem :
      (r : ClientResult)
      → client prompt ≡ r
      → process_post_call s rt message turn.latency_ms client ctx ≡ outcome_of r
  unfolding process_post_call
  outcome_lem (returned response) h = rw (h, process_post_call) refl
  outcome_lem (limited why seconds) h = rw (h, process_post_call) refl
  outcome_lem (raised error_class why) h = rw (h, process_post_call) refl

  -- The answer decides how the job goes on.
  process_lem :
      (r : ClientResult)
      → read_response rt message answer ≡ r
      → processed ≡ process_snapshot s rt turn.saved turn.late snapshot (outcome_of r) db
  unfolding process
  process_lem r h = rw context (
      ap (λ o. process_snapshot s rt turn.saved turn.late snapshot o db)
        (outcome_lem r (asked r h)))

  -- When the provider answers 429 to a call whose job has attempts left, the job waits for as many
  -- seconds as the Retry-After header asks for, at most the longest delay of the settings: at
  -- least one second, and a minute if the header is missing or no number.
  pub process_rate_limited :
      (header : Option Text) (body : Option Json) (job : InteractionJob)
      → answer ≡ answered 429 header body
      → get snapshot.id db ≡ some job
      → job.attempts < job.max_attempts
      → let seconds = min (seconds_asked header) s.workflow_max_retry_seconds in
        (db' : Db) × (processed ≡ ok (tt, db'))
        × (get snapshot.id db'
            ≡ some (
                defer_row
                  (plus_seconds turn.late.decided seconds)
                  (text "LLM_RATE_LIMIT")
                  (text "LLM provider rate limit exceeded")
                  job))
  unfolding read_response process_snapshot handle_failure
  process_rate_limited header body job h e left =
      let at : job.id ≡ snapshot.id =
        (==_iff job.id snapshot.id).0 (find-passes (λ j. j.id == snapshot.id) db.jobs e) in
      let waits = λ (n : ℕ). some (
        defer_row (plus_seconds turn.late.decided (min n s.workflow_max_retry_seconds))
          (text "LLM_RATE_LIMIT") (text "LLM provider rate limit exceeded") job) in
      let limit = limited (text "LLM provider rate limit exceeded") (parse_retry_after header) in
      let f =
        failure (text "LLM_RATE_LIMIT") (text "LLM provider rate limit exceeded")
          (some (pos (parse_retry_after header))) in
      let row =
        deferred_row rt (default_policy s) turn.late job f db _ _
          (hinted s job.attempts job.max_attempts turn.late.decided (parse_retry_after header)
            (parse_retry_after_pos header) left)
          (ap (λ i. get i db) at ∙ e) in
      (
        handle rt (default_policy s) turn.late job f db,
        process_lem limit (rw (h, read_response) refl) ∙ rw (e, handle_failure) refl,
        ap (λ i. get i (handle rt (default_policy s) turn.late job f db)) (sym at)
            ∙ row.0
            ∙ ap waits (seconds_asked_lem header),
      )

  -- The result that `_parse_response` makes of a completion with this total of tokens.
  abbrev result_of : Fields → Json → AnalysisResult
  result_of response total = record {
    call_stage = get_default (text "call_stage") (str (text "unknown")) response;
    entities = get_default (text "entities") (obj end) response;
    summary = get_default (text "summary") (str (text "")) response;
    raw_response = response;
    tokens_used = total;
    latency_ms = turn.latency_ms;
    provider = s.llm_provider;
    model = s.llm_model;
  }

  parse_response_lem :
      (response : Fields) (total : Json)
      → HasTotal response total
      → parse_response s turn.latency_ms response ≡ ok (result_of response total)
  unfolding parse_response Json.get text_eq text
  parse_response_lem response total h = rw h refl

  analysed_lem :
      (status : ℕ) (header : Option Text) (body total : Json) (response : Fields)
      → answer ≡ answered status header (some body)
      → is_success status ≡ true
      → read_completion rt body ≡ ok response
      → HasTotal response total
      → processed ≡ save_result s rt turn.saved snapshot (result_of response total) db
  unfolding read_response process_snapshot
  analysed_lem status header body total response h success read counted =
      let other : (status == 429) ≡ false = ground arith in
      process_lem (returned response) (rw (h, read_response) (rw (other, success, read) refl))
      ∙ rw (parse_response_lem response total counted) refl

  -- When the provider answers a call with a completion that can be read, its total of tokens a
  -- count, the customer's budget readable, the keys of the jobs that follow at most 255 characters
  -- long, and the job still runs: the job is SUCCEEDED with the completion and exactly the tokens of
  -- the provider, and holds no lock. Under the key for the signals and the key for the lead's stage
  -- a job is in the table: it was there before, or it is of that type, for the same call, with the
  -- priority of the job and the completion added to the payload.
  pub process_answered :
      (status : ℕ) (header : Option Text) (body : Json) (response : Fields) (job : InteractionJob)
      (budget : Option ℤ) (total : Json) (tokens : ℕ)
      → answer ≡ answered status header (some body)
      → is_success status ≡ true
      → read_completion rt body ≡ ok response
      → HasTotal response total
      → tokens_of total ≡ ok tokens
      → get snapshot.id db ≡ some job
      → is_running job.status ≡ true
      → customer_budget snapshot.payload ≡ ok budget
      → length (staged_key job.interaction_id (text "signal") (stage_text rt response)) ≤ 255
      → length (staged_key job.interaction_id (text "lead") (stage_text rt response)) ≤ 255
      → let stage = stage_text rt response in
        let both = with_result response snapshot.payload in
        (db' : Db) × (processed ≡ ok (tt, db'))
        × (get snapshot.id db' ≡ some (succeed_row turn.saved.completed_at response tokens job))
        × Queues
            (staged_key job.interaction_id (text "signal") stage)
            (IsChildOf job signal_jobs job.priority both 0)
            db
            db'
        × Queues
            (staged_key job.interaction_id (text "lead") stage)
            (IsChildOf job lead_stage_update job.priority both 0)
            db
            db'
  unfolding process_snapshot
  process_answered status header body response job budget total tokens h success read has counted e
        runs paid fits_signal fits_lead =
      let result = result_of response total in
      let (db', saved, row, signal, lead) =
        process_snapshot_done s rt turn.saved turn.late snapshot result db job budget tokens e runs
          paid counted fits_signal fits_lead in
      (
        db',
        analysed_lem status header body total response h success read has ∙ saved,
        row,
        signal,
        lead,
      )

  -- When the provider's completion can be read, but its total of tokens is no count (a text, a
  -- null, a negative number), the work on a running job whose budget is readable ends with an
  -- exception that no handler of the worker sees: the tables are as before, and the job goes on
  -- RUNNING under its lock until that times out, with no error on its row.
  pub process_uncounted :
      (status : ℕ) (header : Option Text) (body : Json) (response : Fields) (job : InteractionJob)
      (budget : Option ℤ) (total : Json) (e : Text)
      → answer ≡ answered status header (some body)
      → is_success status ≡ true
      → read_completion rt body ≡ ok response
      → HasTotal response total
      → tokens_of total ≡ raise e
      → get snapshot.id db ≡ some job
      → is_running job.status ≡ true
      → customer_budget snapshot.payload ≡ ok budget
      → (processed ≡ raise e) × (get snapshot.id (committed db processed) ≡ some job)
  unfolding save_result
  process_uncounted status header body response job budget total e h success read has bad found runs
        paid =
      let stopped : processed ≡ raise e =
        analysed_lem status header body total response h success read has
        ∙ rw (found, runs, paid, bad, save_result) refl in
      (stopped, rw stopped found)
