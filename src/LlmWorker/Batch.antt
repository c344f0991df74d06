-- ===== src/LlmWorker/Batch.antt =====
-- llm_workers/worker.py, `run_once`: the loop over the admitted jobs.
use post_call_processing_pip.Common.{
  ℕ, ◌≡◌, refl, ap, List, [], ◌∷◌, ◌++◌, none, some, inl, inr, arith,
}
use post_call_processing_pip.Text.{Text, text}
use post_call_processing_pip.Json.{str}
use post_call_processing_pip.Json
use post_call_processing_pip.Settings.{Settings}
use post_call_processing_pip.Runtime.{Runtime}
use post_call_processing_pip.Attempt.{Attempt, ok, raise, Attempt-cases}
use post_call_processing_pip.Models.{Db}
use post_call_processing_pip.LlmWorker.{ClaimedLlmJob}
use post_call_processing_pip.LlmWorker.Run.{
  Turn, context_from_snapshot, ended_at_of, process, process_all,
}

module _ (s : Settings) (rt : Runtime) (message : Text → Text) (turns : ℕ → Turn) where
  abbrev step : ClaimedLlmJob → Db → Attempt (Unit {0} × Db)
  step snapshot = process s rt message (turns snapshot.id) snapshot

  undated :
      (bad : ClaimedLlmJob) (db : Db) {date : Text}
      → Json.get (text "ended_at") bad.payload ≡ some (str date)
      → rt.fromisoformat date ≡ none
      → step bad db ≡ raise (text "ValueError")
  unfolding process context_from_snapshot ended_at_of
  undated bad db there no_date = rw (there, no_date, ended_at_of) refl

  -- When the loop comes to a job whose payload has a text for the time of the call's end that is
  -- no date, it stops with a ValueError: the jobs before it have been worked on, and of the admitted
  -- jobs that follow none is, whatever they hold.
  pub process_all_stops :
      (before : List ClaimedLlmJob) (bad : ClaimedLlmJob) (after : List ClaimedLlmJob) (db db' : Db)
      (date : Text)
      → process_all s rt message turns before db ≡ (ok tt, db')
      → Json.get (text "ended_at") bad.payload ≡ some (str date)
      → rt.fromisoformat date ≡ none
      → process_all s rt message turns (before ++ bad ∷ after) db ≡ (raise (text "ValueError"), db')
  unfolding process_all
  process_all_stops [] bad after db db' date done there no_date =
      let same : db ≡ db' = ap (λ r. r.1) done in
      rw (undated bad db there no_date, process_all) (ap (λ d. (raise (text "ValueError"), d)) same)
  process_all_stops (first ∷ before) bad after db db' date done there no_date =
      elim (Attempt-cases (step first db)) [
        | inr (e, failed) ↦
            let ended : (raise e, db) ≡ (ok tt, db') = rw (failed, process_all) at done in
            let status : raise e ≡ ok tt = ap (λ r. r.0) ended in absurd (ground arith)
        | inl ((_, next), worked) ↦
            rw (worked, process_all)
              (process_all_stops before bad after next db' date (rw (worked, process_all) at done)
                there no_date)
      ]
