-- ===== src/Recording/Outcome.antt =====
-- recording/worker.py: what a poll of the provider leaves behind.
use post_call_processing_pip.Common.{
  ℕ, suc, ◌*◌, ◌≤◌, ◌<◌, min, ◌≡◌, refl, sym, ap, ◌∙◌, inl, inr, ◌&&◌, true, false, none, some,
  ◌==◌, ◌++◌, [], ◌∷◌, find-update_where-some, find-passes, ==_iff,
}
use post_call_processing_pip.Text.{Text, text, is_nonempty}
use post_call_processing_pip.Json.{Json, bool, str, end, field, is_truthy}
use post_call_processing_pip.Settings.{Settings}
use post_call_processing_pip.Runtime.{Runtime}
use post_call_processing_pip.Models.{
  Db, InteractionJob, Interaction, is_running, recording_attempts_total,
}
use post_call_processing_pip.Retry.{ExponentialBackoffPolicy, default_policy, next_delay}
use post_call_processing_pip.Retry.Bounds.{next_delay_bounds, next_delay_doubles}
use post_call_processing_pip.Jobs.{
  get, mark_succeeded, succeed_row, dead_letter_row, dead_letter_of,
}
use post_call_processing_pip.Interactions
use post_call_processing_pip.Interactions.{modify, update_recording_key}
use post_call_processing_pip.Audit.{emit, inc}
use post_call_processing_pip.Failure.{Failure, Readings, handle}
use post_call_processing_pip.Failure.Outcome.{handle_lem}
use post_call_processing_pip.Recording.{
  ClaimedRecordingJob, HttpAnswer, Poll, next_recording_delay, uploaded, unavailable, poll_once,
  text_in, failure, handle_failure, complete, settle, process,
}

module _ (s : Settings) (rt : Runtime) (message : Text → Text) (provider : Text → Text → HttpAnswer)
    (now : ℕ) (clock : Readings) (snapshot : ClaimedRecordingJob) (db : Db) where
  abbrev call_sid : Text
  call_sid = text_in rt (text "call_sid") snapshot.payload

  abbrev account : Text
  account = text_in rt (text "exotel_account_id") snapshot.payload

  abbrev processed : Db
  processed = process s rt message provider now clock snapshot db

  not_asked :
      is_nonempty call_sid && is_nonempty account ≡ false
      → poll_once provider snapshot.interaction_id call_sid account
        ≡ unavailable (text "Missing call SID or Exotel account ID")
  unfolding poll_once
  not_asked missing = rw missing refl

  settled :
      (p : Poll)
      → poll_once provider snapshot.interaction_id call_sid account ≡ p
      → processed ≡ settle s rt message now clock snapshot p db
  unfolding process
  settled p polled = ap (λ q. settle s rt message now clock snapshot q db) polled

  own_id : {job : InteractionJob} → get snapshot.id db ≡ some job → job.id ≡ snapshot.id
  own_id {job} e = (==_iff job.id snapshot.id).0 (find-passes (λ j. j.id == snapshot.id) db.jobs e)

  failed-handle :
      (f : Failure) (status : Text) (job : InteractionJob)
      → get snapshot.id db ≡ some job
      → handle_failure s rt clock snapshot f (inc (recording_attempts_total status) db)
        ≡ handle rt (default_policy s) clock job f (inc (recording_attempts_total status) db)
  unfolding handle_failure inc
  failed-handle f status job e = rw (e, handle_failure) refl

  -- With positive retry settings: a recording job without the provider's id of the call or of the
  -- account is dead-lettered at once, with one dead letter, whatever attempts are left and whatever
  -- the provider would answer.
  pub process_missing :
      (job : InteractionJob)
      → is_nonempty call_sid && is_nonempty account ≡ false
      → get snapshot.id db ≡ some job
      → 0 < s.workflow_base_retry_seconds
      → 0 < s.workflow_max_retry_seconds
      → let m = text "Missing call SID or Exotel account ID" in
        let code = text "RECORDING_UNAVAILABLE" in
        (get snapshot.id processed ≡ some (dead_letter_row clock.closed code m job))
        × (processed.dead_letters
            ≡ db.dead_letters ++ dead_letter_of job (text "recording_worker") code m ∷ [])
  unfolding settle inc
  process_missing job missing e b m =
      let sentence = text "Missing call SID or Exotel account ID" in
      let f = failure (text "RECORDING_UNAVAILABLE") sentence none false in
      let noted = inc (recording_attempts_total (text "unavailable")) db in
      let after = handle rt (default_policy s) clock job f noted in
      let same : processed ≡ after =
        settled (unavailable sentence) (not_asked missing)
        ∙ failed-handle f (text "unavailable") job e in
      rw same
        (elim (handle_lem rt (default_policy s) clock job f noted
          (ap (λ i. get i db) (own_id e) ∙ e) b m) [
            | inl (may, left, again, kept) ↦ absurd cc
            | inr (why, row, letter) ↦ (ap (λ i. get i after) (sym (own_id e)) ∙ row, letter)
          ])

  -- A running recording job whose poll ends with an upload: the call's recording key is the key of
  -- its upload, and the job is SUCCEEDED and unlocked, with that key in its result.
  pub process_uploaded :
      (s3_key : Text) (url : Json) (job : InteractionJob) (i : Interaction)
      → poll_once provider snapshot.interaction_id call_sid account ≡ uploaded s3_key url
      → get snapshot.id db ≡ some job
      → is_running job.status ≡ true
      → Interactions.get snapshot.interaction_id db ≡ some i
      → (Interactions.get snapshot.interaction_id processed
          ≡ some (record i { recording_s3_key = some s3_key }))
        × (get snapshot.id processed
            ≡ some (
                succeed_row now
                  (field
                    (text "s3_key")
                    (str s3_key)
                    (field (text "recording_url_present") (bool (is_truthy url)) end))
                  0
                  job))
  unfolding settle complete emit inc mark_succeeded update_recording_key modify
  process_uploaded s3_key url job i polled e runs call =
      let result =
        field (text "s3_key") (str s3_key)
          (field (text "recording_url_present") (bool (is_truthy url)) end) in
      let own = λ (x : Interaction). x.id == snapshot.interaction_id in
      rw (settled (uploaded s3_key url) polled) (
        rw (e, runs, complete)
          (
            find-update_where-some own own (λ x. record x { recording_s3_key = some s3_key })
                  (λ _. refl) db.interactions call
                ∙ rw (find-passes own db.interactions call),
            find-update_where-some (λ j. j.id == snapshot.id) (λ j. j.id == job.id)
                  (succeed_row now result 0) (λ _. refl) db.jobs e
                ∙ rw ((==_iff job.id job.id).1 refl),
          ))

-- With positive settings, the delays between the polls of one recording double from the first, up
-- to the longest, and none is longer than that or zero.
pub next_recording_delay_lem :
    (s : Settings) (attempts : ℕ)
    → 0 < s.recording_initial_retry_seconds
    → 0 < s.recording_max_retry_seconds
    → (next_recording_delay s 1
        ≡ min s.recording_initial_retry_seconds s.recording_max_retry_seconds)
      × (next_recording_delay s (suc (suc attempts))
          ≡ min (2 * next_recording_delay s (suc attempts)) s.recording_max_retry_seconds)
      × (0 < next_recording_delay s attempts)
      × (next_recording_delay s attempts ≤ s.recording_max_retry_seconds)
unfolding next_recording_delay next_delay
next_recording_delay_lem s attempts initial longest =
    let p : ExponentialBackoffPolicy = record {
      base_seconds = s.recording_initial_retry_seconds;
      max_seconds = s.recording_max_retry_seconds;
    } in
    let doubles = next_delay_doubles p attempts in
    let bounds = next_delay_bounds p attempts none initial longest in
    (doubles.0, doubles.1, bounds.0, bounds.1)
