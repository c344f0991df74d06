-- ===== src/LlmWorker/Claims.antt =====
-- llm_workers/worker.py, `_claim_admitted_jobs`: one job with an unreadable budget stops them all.
use post_call_processing_pip.Common.{◌≡◌, refl, inl, inr, List, [], ◌∷◌, ◌++◌}
use post_call_processing_pip.Text.{Text}
use post_call_processing_pip.Settings.{Settings}
use post_call_processing_pip.Attempt.{raise, Attempt-cases}
use post_call_processing_pip.Models.{Db, InteractionJob, llm_analysis}
use post_call_processing_pip.Jobs.{claim_ready_jobs, recover_stale_running_jobs}
use post_call_processing_pip.LlmWorker.{
  Tick, customer_budget, admit_job, admit_jobs, claim_admitted_jobs, committed,
}

-- What the claim sees after the stale jobs are recovered.
abbrev pub claimed_jobs : Settings → Tick → Db → List InteractionJob
claimed_jobs s t db =
    (claim_ready_jobs t.held t.worker_id (llm_analysis ∷ []) t.limit t.claim_now
      (recover_stale_running_jobs s t.worker_id t.recover_now t.recovered_at db).1).0

admit_job-raises :
    (s : Settings) (t : Tick) (job : InteractionJob) (db : Db) {e : Text}
    → customer_budget job.payload ≡ raise e
    → admit_job s t job db ≡ raise e
unfolding admit_job
admit_job-raises s t job db h = rw (h, admit_job)

admit_jobs-raises :
    (s : Settings) (t : Tick) (before : List InteractionJob) (bad : InteractionJob)
    (after : List InteractionJob) (db : Db) {e : Text}
    → customer_budget bad.payload ≡ raise e
    → (e' : Text) × (admit_jobs s t (before ++ bad ∷ after) db ≡ raise e')
unfolding admit_jobs
admit_jobs-raises s t [] bad after db {e} h = (e, rw (admit_job-raises s t bad db h))
admit_jobs-raises s t (job ∷ before) bad after db h = elim (Attempt-cases (admit_job s t job db)) [
  | inr (e', first) ↦ (e', rw first)
  | inl (step, first) ↦
      let (e', rest) = admit_jobs-raises s t before bad after step.1 h in (e', rw (first, rest))
]

-- If one of the claimed jobs has a budget that cannot be read, such as a text that is no number,
-- the claim of the whole batch raises, wherever in the batch it stands and whatever the other jobs
-- are: none of them is admitted, and the tables are as before the tick.
pub claim_admitted_jobs_poisoned :
    (s : Settings) (t : Tick) (db : Db) (before : List InteractionJob) (bad : InteractionJob)
    (after : List InteractionJob) (e : Text)
    → claimed_jobs s t db ≡ before ++ bad ∷ after
    → customer_budget bad.payload ≡ raise e
    → ((e' : Text) × (claim_admitted_jobs s t db ≡ raise e'))
      × (committed db (claim_admitted_jobs s t db) ≡ db)
unfolding claim_admitted_jobs
claim_admitted_jobs_poisoned s t db before bad after e split h =
    let (e', stopped) =
      admit_jobs-raises s t before bad after
        (claim_ready_jobs t.held t.worker_id (llm_analysis ∷ []) t.limit t.claim_now
          (recover_stale_running_jobs s t.worker_id t.recover_now t.recovered_at db).1).1
        h in
    rw (split, stopped) ((e', refl), refl)
