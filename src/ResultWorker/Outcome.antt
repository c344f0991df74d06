-- ===== src/ResultWorker/Outcome.antt =====
-- workers/result_worker.py: what a job for the lead's stage leaves behind.
use post_call_processing_pip.Common.{
  ℕ, ◌≤◌, ◌<◌, ◌≡◌, ◌≢◌, refl, sym, ap, ◌∙◌, ◌⊎◌, inl, inr, true, some, ◌==◌, List, [], ◌∷◌, ◌++◌,
  find, find-update_where-some, find-passes, ==_iff, update_where, arith, length, if◌then◌else◌,
}
use post_call_processing_pip.Text.{Text, text, text_eq, is_nonempty}
use post_call_processing_pip.Json.{Json, str, obj, Fields, end, get_or}
use post_call_processing_pip.Json
use post_call_processing_pip.Settings.{Settings}
use post_call_processing_pip.Runtime.{Runtime}
use post_call_processing_pip.Attempt.{ok, raise, stored-ok}
use post_call_processing_pip.Models.{Db, InteractionJob, Lead, lead_stage_update, is_running}
use post_call_processing_pip.Jobs.{
  get, succeed_row, mark_succeeded, defer_row, dead_letter_row, dead_letter_of,
}
use post_call_processing_pip.Interactions.{update_lead_stage, map_call_stage_to_lead_stage}
use post_call_processing_pip.Audit.{emit, inc}
use post_call_processing_pip.Retry.{default_policy}
use post_call_processing_pip.Failure.{Readings, handle}
use post_call_processing_pip.Failure.Outcome.{handle_lem, handle-leads}
use post_call_processing_pip.Attempt.{get_of}
use post_call_processing_pip.ResultWorker.{
  ClaimedResultJob, find_lead, stage_of, process_lead_stage, work, complete, handle_failure,
  process, failure,
}

lead-update_where_ne :
    (i k : ℕ) (f : Lead → Lead) (xs : List Lead)
    → i ≢ k
    → ((l : Lead) → (f l).id ≡ l.id)
    → find (λ l. l.id == i) (update_where (λ l. l.id == k) f xs) ≡ find (λ l. l.id == i) xs
unfolding update_where
lead-update_where_ne i k f [] ne same = refl
lead-update_where_ne i k f (x ∷ xs) ne same =
    ground (arith, same x, lead-update_where_ne i k f xs ne same)

-- The stage of the lead for each call stage that the pipeline knows.
abbrev pub lead_stages : List (Text × Text)
lead_stages =
    (text "rebook_confirmed", text "booked")
    ∷ (text "demo_booked", text "booked")
    ∷ (text "callback_requested", text "follow_up")
    ∷ (text "escalation_needed", text "needs_attention")
    ∷ (text "not_interested", text "closed_lost")
    ∷ (text "short_call", text "short_call")
    ∷ (text "already_done", text "completed")
    ∷ []

-- The stage that the table has for a call stage; another call stage is the lead's stage itself,
-- and none is "unknown".
abbrev pub listed : List (Text × Text) → Text → Text
listed [] call_stage = if is_nonempty call_stage then call_stage else text "unknown"
listed ((from, to) ∷ rest) call_stage =
    if text_eq call_stage from then to else listed rest call_stage

map_call_stage_to_lead_stage_lem :
    (call_stage : Text) → map_call_stage_to_lead_stage call_stage ≡ listed lead_stages call_stage
unfolding map_call_stage_to_lead_stage
map_call_stage_to_lead_stage_lem call_stage = refl

work_lead :
    (snapshot : ClaimedResultJob) (db : Db) (analysis : Fields) (stage : Text) (lead : Lead)
    → snapshot.job_type ≡ lead_stage_update
    → get_or (text "analysis_result") (obj end) snapshot.payload ≡ obj analysis
    → Json.get (text "call_stage") analysis ≡ some (str stage)
    → find_lead snapshot.lead_id db ≡ some lead
    → length (listed lead_stages stage) ≤ 100
    → work snapshot db ≡ ok (update_lead_stage snapshot.lead_id stage db)
unfolding get_of stage_of work update_lead_stage
work_lead snapshot db analysis stage lead kind analysed staged here fits =
    let stored_stage =
      stored-ok 100 (map_call_stage_to_lead_stage stage)
        (rw (map_call_stage_to_lead_stage_lem stage) fits) in
    rw (kind, analysed, staged, here, work, process_lead_stage) (rw stored_stage refl)

work_raises :
    (snapshot : ClaimedResultJob) (db : Db) (e : Text)
    → snapshot.job_type ≡ lead_stage_update
    → get_of (text "call_stage") (get_or (text "analysis_result") (obj end) snapshot.payload)
      ≡ raise e
    → work snapshot db ≡ raise e
unfolding work process_lead_stage
work_raises snapshot db e kind broken = rw (kind, work, process_lead_stage) (rw broken)

complete_running :
    (now : ℕ) (snapshot : ClaimedResultJob) (db : Db) (job : InteractionJob)
    → get snapshot.id db ≡ some job
    → is_running job.status ≡ true
    → (get snapshot.id (complete now snapshot db) ≡ some (succeed_row now end 0 job))
      × ((complete now snapshot db).leads ≡ db.leads)
unfolding emit inc mark_succeeded complete
complete_running now snapshot db job e runs =
    let at : job.id ≡ snapshot.id =
      (==_iff job.id snapshot.id).0 (find-passes (λ j. j.id == snapshot.id) db.jobs e) in
    rw (e, runs, complete)
      (
        find-update_where-some (λ j. j.id == snapshot.id) (λ j. j.id == job.id)
              (succeed_row now end 0) (λ _. refl) db.jobs e
            ∙ rw ((==_iff job.id job.id).1 refl),
        refl,
      )

-- A running job for the lead's stage, whose analysis result is a dict with a text as call stage that
-- stands for a lead's stage of at most 100 characters: the lead has that stage (from the table, or
-- the text itself, or "unknown" if it is empty), every other lead is as it was, and the job is
-- SUCCEEDED and unlocked.
pub process_lead :
    (s : Settings) (rt : Runtime) (message : Text → Text) (now : ℕ) (clock : Readings)
    (snapshot : ClaimedResultJob) (db : Db) (analysis : Fields) (stage : Text) (lead : Lead)
    (job : InteractionJob)
    → snapshot.job_type ≡ lead_stage_update
    → get_or (text "analysis_result") (obj end) snapshot.payload ≡ obj analysis
    → Json.get (text "call_stage") analysis ≡ some (str stage)
    → find_lead snapshot.lead_id db ≡ some lead
    → get snapshot.id db ≡ some job
    → is_running job.status ≡ true
    → length (listed lead_stages stage) ≤ 100
    → let db' = process s rt message now clock snapshot db in
      (find_lead snapshot.lead_id db' ≡ some (record lead { stage = listed lead_stages stage }))
      × ((i : ℕ) → i ≢ snapshot.lead_id → find_lead i db' ≡ find_lead i db)
      × (get snapshot.id db' ≡ some (succeed_row now end 0 job))
unfolding process update_lead_stage
process_lead s rt message now clock snapshot db analysis stage lead job kind analysed staged here e
      runs fits =
    let worked = work_lead snapshot db analysis stage lead kind analysed staged here fits in
    let moved = update_lead_stage snapshot.lead_id stage db in
    let to = λ (l : Lead). record l { stage = map_call_stage_to_lead_stage stage } in
    let done = complete_running now snapshot moved job e runs in
    let own = λ (l : Lead). l.id == snapshot.lead_id in
    rw (worked, process)
      (
        ap (find own) done.1
            ∙ find-update_where-some own own to (λ _. refl) db.leads here
            ∙ rw (find-passes own db.leads here) (
                ap (λ t. some (record lead { stage = t }))
                  (map_call_stage_to_lead_stage_lem stage)),
        (λ i other.
            ap (find (λ l. l.id == i)) done.1
            ∙ lead-update_where_ne i snapshot.lead_id to db.leads other (λ _. refl)),
        done.0,
      )

-- A job for the lead's stage whose analysis result cannot be read as a dict, with positive retry
-- settings: no lead changes, and
-- the job waits for a later time, unlocked, or, when its attempts are used up, is dead-lettered
-- with one dead letter.
pub process_unreadable :
    (s : Settings) (rt : Runtime) (message : Text → Text) (now : ℕ) (clock : Readings)
    (snapshot : ClaimedResultJob) (db : Db) (e : Text) (job : InteractionJob)
    → snapshot.job_type ≡ lead_stage_update
    → get_of (text "call_stage") (get_or (text "analysis_result") (obj end) snapshot.payload)
      ≡ raise e
    → get snapshot.id db ≡ some job
    → 0 < s.workflow_base_retry_seconds
    → 0 < s.workflow_max_retry_seconds
    → let db' = process s rt message now clock snapshot db in
      (db'.leads ≡ db.leads)
      × (((job.attempts < job.max_attempts)
            × ((t : ℕ) × (get snapshot.id db' ≡ some (defer_row t e (message e) job))
                × (clock.decided < t))
            × (db'.dead_letters ≡ db.dead_letters))
          ⊎ ((job.max_attempts ≤ job.attempts)
              × (get snapshot.id db' ≡ some (dead_letter_row clock.closed e (message e) job))
              × (db'.dead_letters
                  ≡ db.dead_letters
                    ++ dead_letter_of job (text "result_worker") e (message e) ∷ [])))
unfolding process handle_failure
process_unreadable s rt message now clock snapshot db e job kind broken here b m =
    let f = failure e (message e) in
    let at : job.id ≡ snapshot.id =
      (==_iff job.id snapshot.id).0 (find-passes (λ j. j.id == snapshot.id) db.jobs here) in
    let policy = default_policy s in
    let after = handle rt policy clock job f db in
    let row = λ (i : ℕ). get i after in
    rw (work_raises snapshot db e kind broken, here, process, handle_failure)
      (
        handle-leads rt policy clock job f db,
        elim (handle_lem rt policy clock job f db (ap (λ i. get i db) at ∙ here) b m) [
          | inl (may, left, (t, deferred_row, later, within), same) ↦
              inl (left, (t, ap row (sym at) ∙ deferred_row, later), same)
          | inr (inl never, dead_row, letter) ↦ absurd cc
          | inr (inr spent, dead_row, letter) ↦ inr (spent, ap row (sym at) ∙ dead_row, letter)
        ],
      )
