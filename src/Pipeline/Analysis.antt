-- ===== src/Pipeline/Analysis.antt =====
-- The claim of the LLM worker with the limiter, as operations of the repositories.
use mathlib.Core.Path.{subst}
use post_call_processing_pip.Common.{
  ℕ, max, ◌≡◌, refl, true, false, Bool, Option, List, [], ◌∷◌, ℤ, pos, Bool-cases, Option-cases,
  inl, inr,
}
use post_call_processing_pip.Text.{text}
use post_call_processing_pip.Settings.{Settings}
use post_call_processing_pip.Runtime.{Runtime}
use post_call_processing_pip.Attempt.{ok, bind-ok, ok-injective}
use post_call_processing_pip.Models.{Db, InteractionJob, JobPriority, is_high, llm_analysis}
use post_call_processing_pip.Retry.{plus_seconds}
use post_call_processing_pip.Jobs.{claim_ready_jobs, recover_stale_running_jobs}
use post_call_processing_pip.Budget.{decide}
use post_call_processing_pip.Budget.Usage.{
  Admission, admit, reserve, record_usage, open_rows, get_or_create_usage, modify_rows,
  modify_usage, find_usage, minute_window, global_rate_limit_id,
}
use post_call_processing_pip.Budget.Usage
use post_call_processing_pip.Audit.{emit}
use post_call_processing_pip.LlmWorker.{
  ClaimedLlmJob, snapshot_of, Tick, customer_budget, turn_away, let_in, admit_job, admit_jobs,
  claim_admitted_jobs,
}
use post_call_processing_pip.Pipeline.{Trace, here, ◌▷◌, other_call}
use post_call_processing_pip.Pipeline.Handlers.{defer-Trace}
use post_call_processing_pip.Pipeline.Workers.{claim-Trace, recover-Trace}

module _ {s : Settings} {rt : Runtime} where
  row-Trace : (c w : ℕ) (b : ℤ) (db : Db) → Trace s rt db (get_or_create_usage c w b db).1
  unfolding get_or_create_usage
  row-Trace c w b db = elim (Option-cases (find_usage c w db)) [
    | inl e ↦ rw (e, get_or_create_usage) (other_call refl refl refl)
    | inr (u, e) ↦ rw (e, get_or_create_usage) here
  ]

  rows-Trace : (c w : ℕ) (b : ℤ) (db : Db) → Trace s rt db (open_rows s c w b db).2
  unfolding open_rows
  rows-Trace c w b db =
      row-Trace global_rate_limit_id w (pos s.llm_tokens_per_minute) db ▷ row-Trace c w b _

  pub record_usage-Trace :
      (c tokens now : ℕ) (budget : Option ℤ) (db : Db)
      → Trace s rt db (record_usage s c tokens now budget db)
  unfolding record_usage modify_rows modify_usage
  record_usage-Trace c tokens now budget db =
      rows-Trace c (minute_window now) (Usage.customer_budget s budget) db
      ▷ other_call refl refl refl

  admit-Trace :
      (c tokens : ℕ) (priority : JobPriority) (now : ℕ) (budget : Option ℤ) (db : Db)
      → Trace s rt db (admit s c tokens priority now budget db).1
  unfolding admit reserve modify_rows modify_usage
  admit-Trace c tokens priority now budget db =
      let z = Usage.customer_budget s budget in
      let rows = open_rows s c (minute_window now) z db in
      let opened = rows-Trace c (minute_window now) z db in
      let allowed =
        (decide (Usage.budget_state (pos s.llm_tokens_per_minute) s.llm_requests_per_minute rows.0)
          (Usage.budget_state z s.llm_requests_per_minute rows.1) tokens
          (Usage.overflow_priority (is_high priority))).allowed in
      elim (Bool-cases allowed) [
        | inl granted ↦ rw granted (opened ▷ other_call refl refl refl)
        | inr refused ↦ rw refused opened
      ]

  turn_away-Trace :
      (now : ℕ) (a : Admission) (job : InteractionJob) (db : Db)
      → Trace s rt db (turn_away now a job db)
  unfolding turn_away emit
  turn_away-Trace now a job db =
      defer-Trace job (plus_seconds now a.defer_seconds) a.reason
        (text "LLM admission deferred by rate limiter") db
      ▷ other_call refl refl refl

  let_in-Trace : (a : Admission) (job : InteractionJob) (db : Db) → Trace s rt db (let_in a job db)
  unfolding let_in emit
  let_in-Trace a job db = other_call refl refl refl

  admit_job-Trace :
      (t : Tick) (job : InteractionJob) (db : Db) (step : Bool × Db)
      → admit_job s t job db ≡ ok step
      → Trace s rt db step.1
  unfolding admit_job
  admit_job-Trace t job db step h =
      let (budget, _, rest) = bind-ok (customer_budget job.payload) _ h in
      let asked =
        admit s job.customer_id (max job.token_estimate 1) job.priority (t.admit_at job.id) budget
          db in
      let asking =
        admit-Trace job.customer_id (max job.token_estimate 1) job.priority (t.admit_at job.id)
          budget db in
      elim (Bool-cases asked.0.admitted) [
        | inl granted ↦
            let same : (true, let_in asked.0 job asked.1) ≡ step =
              ok-injective _ step (rw granted at rest) in
            subst (λ r. Trace s rt db r.1) same (asking ▷ let_in-Trace asked.0 job asked.1)
        | inr refused ↦
            let same : (false, turn_away (t.defer_at job.id) asked.0 job asked.1) ≡ step =
              ok-injective _ step (rw refused at rest) in
            subst (λ r. Trace s rt db r.1) same
              (asking ▷ turn_away-Trace (t.defer_at job.id) asked.0 job asked.1)
      ]

  admit_jobs-Trace :
      (t : Tick) (jobs : List InteractionJob) (db : Db) (r : List ClaimedLlmJob × Db)
      → admit_jobs s t jobs db ≡ ok r
      → Trace s rt db r.1
  unfolding admit_jobs
  admit_jobs-Trace t [] db r h = subst (λ r. Trace s rt db r.1) (ok-injective ([], db) r h) here
  admit_jobs-Trace t (job ∷ jobs) db r h =
      let (step, first, more) = bind-ok (admit_job s t job db) _ h in
      let (rest, later, last) = bind-ok (admit_jobs s t jobs step.1) _ more in
      let trace = admit_job-Trace t job db step first ▷ admit_jobs-Trace t jobs step.1 rest later in
      elim (Bool-cases step.0) [
        | inl granted ↦
            subst (λ r. Trace s rt db r.1)
              (ok-injective (snapshot_of job ∷ rest.0, rest.1) r (rw granted at last)) trace
        | inr refused ↦
            subst (λ r. Trace s rt db r.1) (ok-injective rest r (rw refused at last)) trace
      ]

  pub claim_admitted_jobs-Trace :
      (t : Tick) (db : Db) (r : List ClaimedLlmJob × Db)
      → claim_admitted_jobs s t db ≡ ok r
      → Trace s rt db r.1
  unfolding claim_admitted_jobs
  claim_admitted_jobs-Trace t db r h =
      let recovered =
        (recover_stale_running_jobs s t.worker_id t.recover_now t.recovered_at db).1 in
      let (jobs, claimed) =
        claim_ready_jobs t.held t.worker_id (llm_analysis ∷ []) t.limit t.claim_now recovered in
      recover-Trace t.worker_id t.recover_now t.recovered_at db
      ▷ claim-Trace t.held t.worker_id (llm_analysis ∷ []) t.limit t.claim_now recovered
      ▷ admit_jobs-Trace t jobs claimed r h
