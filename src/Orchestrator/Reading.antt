-- ===== src/Orchestrator/Reading.antt =====
-- queues/durable.py and orchestrator/workflow.py: what the webhook writes, the orchestrator reads.
use post_call_processing_pip.Common.{
  ℕ, leb, leb→le, ◌≤◌, ◌<◌, true, false, sym, arith, ◌≡◌, refl, ◌∙◌, ap, Option, none, some, [],
  ◌∷◌, if◌then◌else◌, length, ◌⊎◌, Bool-cases, inl, inr,
}
use post_call_processing_pip.Text.{Text, text, text_eq, is_nonempty}
use post_call_processing_pip.Json.{
  Json, null, bool, num, str, arr, obj, Items, nil, cons, Fields, end, field, get_or, is_truthy,
}
use post_call_processing_pip.Json
use post_call_processing_pip.Runtime.{Runtime}
use post_call_processing_pip.Attempt.{ok}
use post_call_processing_pip.Models.{
  Db, Interaction, InteractionJob, high, llm_analysis, signal_jobs, lead_stage_update,
}
use post_call_processing_pip.Settings.{Settings}
use post_call_processing_pip.Keys.{plain_key, staged_key}
use post_call_processing_pip.Jobs.{get, succeed_row}
use post_call_processing_pip.LlmWorker.Save.{stage_text}
use post_call_processing_pip.Classifier.{Classification, classify, len, str_of}
use post_call_processing_pip.Webhook.{
  InteractionEndRequest, transcript_text, join_turns, payload_of, or_empty,
}
use post_call_processing_pip.Orchestrator.{
  transcript_of, transcript_text_of, classification_of, read_call, len_of, short_result, estimate,
}
use post_call_processing_pip.Orchestrator.Run.{JobReadings, process_job}
use post_call_processing_pip.Orchestrator.Children.{
  orchestrated, with_classification, with_short_result,
}
use post_call_processing_pip.Jobs.Queued.{Queues, IsChildOf}
use post_call_processing_pip.Classifier.Keywords.{classify-skip_iff}
use mathlib.Core.Path.{subst}
use post_call_processing_pip.Orchestrator.Outcome.{process_job_analysed, process_job_skipped}

-- The turns of the call, if it has a list of them.
abbrev pub turns_of : Fields → Items
turns_of conversation_data = elim (Json.get (text "transcript") conversation_data) [
  | some (arr turns) ↦ turns
  | _ ↦ nil
]

or_end : (d : Fields) → (if is_truthy (obj d) then obj d else obj end) ≡ obj d
unfolding is_truthy
or_end end = refl
or_end (field k v d) = refl

-- An empty text of the transcript comes from no turns, or from turns that join to it.
joined_empty :
    (rt : Runtime) (found : Option Json)
    → (elim found [
      | none ↦ ok []
      | some (arr turns) ↦ join_turns rt turns
      | some v ↦ ok (str_of rt v)
    ])
      ≡ ok []
    → join_turns rt (elim found [ some (arr turns) ↦ turns | _ ↦ nil ]) ≡ ok []
unfolding join_turns
joined_empty rt none h = refl
joined_empty rt (some (arr turns)) h = h
joined_empty rt (some null) h = refl
joined_empty rt (some (bool b)) h = refl
joined_empty rt (some (num z)) h = refl
joined_empty rt (some (str t)) h = refl
joined_empty rt (some (obj d)) h = refl

words_lem :
    (rt : Runtime) (payload : Fields) (turns : Items) (t : Text)
    → get_or (text "transcript_text") null payload ≡ (if is_nonempty t then str t else null)
    → (t ≡ [] → join_turns rt turns ≡ ok [])
    → transcript_text_of rt payload turns ≡ ok (str t)
unfolding transcript_text_of is_truthy
words_lem rt payload turns [] given empty = rw (given, empty refl) refl
words_lem rt payload turns (c ∷ t) given empty = rw given refl

module _ (rt : Runtime) (i : Interaction) (request : InteractionEndRequest) (ended_at : ℕ)
    (transcript : Text) where
  abbrev payload : Fields
  payload = payload_of rt i request ended_at transcript

  conversation : get_or (text "conversation_data") (obj end) payload ≡ obj i.conversation_data
  unfolding get_or Json.get text_eq text
  conversation = or_end i.conversation_data

  additional :
      get_or (text "additional_data") (obj end) payload ≡ obj (or_empty request.additional_data)
  unfolding get_or Json.get text_eq text
  additional = or_end (or_empty request.additional_data)

  given :
      get_or (text "transcript_text") null payload
      ≡ (if is_nonempty transcript then str transcript else null)
  unfolding get_or Json.get text_eq text is_truthy
  given = refl

  read_turns : transcript_of payload ≡ ok (turns_of i.conversation_data)
  unfolding transcript_of
  read_turns = rw conversation refl

  read_words :
      transcript_text rt i.conversation_data ≡ ok transcript
      → transcript_text_of rt payload (turns_of i.conversation_data) ≡ ok (str transcript)
  unfolding transcript_text_of transcript_text
  read_words h = words_lem rt payload (turns_of i.conversation_data) transcript given (λ empty.
      joined_empty rt (Json.get (text "transcript") i.conversation_data) (h ∙ ap ok empty))

  -- What the webhook writes, the orchestrator reads: from the payload of a call whose transcript
  -- the webhook could read, it gets that same text, and the classification of the call's turns,
  -- the text and the request's additional data. Neither the parts that are absent nor the empty
  -- ones make it raise.
  pub read_call-payload_of :
      transcript_text rt i.conversation_data ≡ ok transcript
      → read_call rt payload
        ≡ ok (
          str transcript,
          classify rt (turns_of i.conversation_data) transcript (or_empty request.additional_data),
        )
  unfolding read_call classification_of
  read_call-payload_of h = rw (read_turns, read_words h, additional) refl

  short_stage :
      (c : Classification)
      → c.call_stage ≡ text "short_call"
      → stage_text rt (short_result c) ≡ text "short_call"
  unfolding Json.get text_eq text
  short_stage c e = e

  -- A call whose transcript the webhook could read is orchestrated at the first try: its job is
  -- SUCCEEDED. If the call has fewer than four turns, the jobs for the signals and the lead's stage
  -- are in the table under the keys of a short call; if it has four or more, the job for its
  -- analysis is. Each was there before, or it is of that type, for the same call: HIGH and with the
  -- short result, or with the classified priority, the classification and the estimate.
  pub process_job_delivered :
      (s : Settings) (scaled : ℕ → ℕ) (message : Text → Text) (clock : JobReadings)
      (job : InteractionJob) (db : Db)
      → transcript_text rt i.conversation_data ≡ ok transcript
      → job.payload ≡ payload
      → get job.id db ≡ some job
      → let db' = process_job s rt scaled message clock job db in
        let turns = turns_of i.conversation_data in
        let c = classify rt turns transcript (or_empty request.additional_data) in
        let short = with_short_result c job.payload in
        (get job.id db' ≡ some (succeed_row clock.completed_at (orchestrated rt clock) 0 job))
        × (((len turns < 4)
              × Queues
                  (staged_key job.interaction_id (text "signal") (text "short_call"))
                  (IsChildOf job signal_jobs high short 0)
                  db
                  db'
              × Queues
                  (staged_key job.interaction_id (text "lead") (text "short_call"))
                  (IsChildOf job lead_stage_update high short 0)
                  db
                  db')
            ⊎ ((4 ≤ len turns)
                × Queues
                    (plain_key job.interaction_id (text "llm"))
                    (IsChildOf job llm_analysis c.priority
                      (with_classification c job.payload)
                      (estimate s scaled (length transcript)))
                    db
                    db'))
  unfolding len_of
  process_job_delivered s scaled message clock job db h same e =
      let turns = turns_of i.conversation_data in
      let additional_data = or_empty request.additional_data in
      let c = classify rt turns transcript additional_data in
      let read : read_call rt job.payload ≡ ok (str transcript, c) =
        ap (read_call rt) same ∙ read_call-payload_of h in
      let (skips, named) = classify-skip_iff rt turns transcript additional_data in
      elim (Bool-cases c.skip_llm) [
        | inl short ↦
            let (row, signal, lead) =
              process_job_skipped s rt scaled message clock job db (str transcript) c read short
                e in
            let few = skips.0 short in
            let stage = short_stage c (named.1 few) in
            (
              row,
              inl (
                few,
                signal,
                subst
                    (λ k.
                      Queues (staged_key job.interaction_id (text "lead") k)
                        (IsChildOf job lead_stage_update high (with_short_result c job.payload) 0)
                        db (process_job s rt scaled message clock job db))
                    stage lead,
              ),
            )
        | inr long ↦
            let made =
              process_job_analysed s rt scaled message clock job db (str transcript) c
                (length transcript) read long (measured transcript) e in
            let many : 4 ≤ len turns = elim (Bool-cases (leb 4 (len turns))) [
              | inl enough ↦ leb→le 4 (len turns) enough
              | inr few ↦
                  let both : true ≡ false = sym (skips.1 (ground (arith, few))) ∙ long in
                  absurd (ground arith)
            ] in
            (made.0, inr (many, made.1))
      ]
    where
      measured : (t : Text) → len_of (str t) ≡ ok (length t)
      measured t = refl
