-- ===== src/Jobs/Claim.antt =====
-- repositories/jobs.py, `claim_ready_jobs`: who is claimed, and in which order.
use post_call_processing_pip.Common.{
  ℕ, ◌≤◌, ◌≡◌, refl, ◌∙◌, ◌⊎◌, inl, inr, Bool, true, false, not, ◌&&◌, some, List, [], ◌∷◌, map,
  ◌==◌, length, All, All-take, All-select, select, length-take-le, length-map, All-zip, find-passes,
  find-update_where-some, ==_iff, Distinct, Bool-cases, arith,
}
use mathlib.Core.Path.{subst}
use post_call_processing_pip.Text.{Text}
use post_call_processing_pip.Models.{
  Db, InteractionJob, JobType, JobStatus, pending, deferred, is_waiting,
}
use post_call_processing_pip.Jobs.{
  get, is_ready, type_in, select_ready, contains_id, claim_row, claim_ready_jobs,
}
use post_call_processing_pip.Jobs.Order.{All-order_by, All-select_of, All-contains_id, only_row}

-- Waiting, due, of a wanted type and not locked by another transaction.
pub record IsEligible (held : ℕ → Bool) (job_types : List JobType) (now : ℕ) (j : InteractionJob)
    : Type 0 where
  pub wanted : type_in j.job_type job_types ≡ true
  pub waiting : (j.status ≡ pending) ⊎ (j.status ≡ deferred)
  pub due : j.run_after ≤ now
  pub free : held j.id ≡ false

is_waiting-cases : (s : JobStatus) → is_waiting s ≡ true → (s ≡ pending) ⊎ (s ≡ deferred)
is_waiting-cases s h = ground arith

pub contains_id-map :
    (i : ℕ) (f : InteractionJob → InteractionJob)
    → ((j : InteractionJob) → (f j).id ≡ j.id)
    → (xs : List InteractionJob) → contains_id i (map f xs) ≡ contains_id i xs
unfolding contains_id
contains_id-map i f same [] = refl
contains_id-map i f same (x ∷ xs) = rw (same x, contains_id-map i f same xs)

module _ (held : ℕ → Bool) (worker_id : Text) (job_types : List JobType) (limit now : ℕ) where
  abbrev pub is_free : InteractionJob → Bool
  is_free j = is_ready job_types now j && not (held j.id)

  eligible : (j : InteractionJob) → is_free j ≡ true → IsEligible held job_types now j
  unfolding is_ready
  eligible j h = record {
    wanted = ground arith;
    waiting = is_waiting-cases j.status (ground arith);
    due = ground arith;
    free = ground arith;
  }

  pub not_eligible : (j : InteractionJob) → IsEligible held job_types now j → is_free j ≡ true
  unfolding is_ready
  not_eligible j v = ground arith

  pub All-select_ready {ℓ} :
      (P : InteractionJob → Type ℓ) (xs : List InteractionJob)
      → All P (select is_free xs)
      → All P (select_ready held job_types limit now xs)
  unfolding select_ready
  All-select_ready P xs h = All-take P limit _ (All-order_by P _ h)

  -- At most `limit` jobs are claimed.
  pub length-claimed :
      (db : Db) → length (claim_ready_jobs held worker_id job_types limit now db).0 ≤ limit
  unfolding claim_ready_jobs select_ready
  length-claimed db =
      rw (length-map (claim_row worker_id now) (select_ready held job_types limit now db.jobs))
        (length-take-le limit _)

  pub selected_row :
      (i : ℕ) (db : Db) {j : InteractionJob}
      → Distinct (map (λ x. x.id) db.jobs)
      → get i db ≡ some j
      → contains_id i (select_ready held job_types limit now db.jobs) ≡ true
      → IsEligible held job_types now j
  selected_row i db {j} d e c =
      let rows =
        All-zip _ _ _ (All-select_of _ is_free db.jobs (only_row i db.jobs d e))
          (All-select is_free db.jobs) in
      let (x, at, only) = All-contains_id _ i _ (All-select_ready _ db.jobs rows) c in
      eligible j (subst (λ y. is_free y ≡ true) (only.0 at) only.1)

  -- In a table without two equal ids, each job, by its id: it was eligible, and is returned and now
  -- runs under this worker's lock with one attempt more; or it is not returned and its row is as it
  -- was.
  pub claim_ready_jobs_rows :
      (i : ℕ) (db : Db) (j : InteractionJob)
      → Distinct (map (λ x. x.id) db.jobs)
      → get i db ≡ some j
      → let (claimed, db') = claim_ready_jobs held worker_id job_types limit now db in
        (IsEligible held job_types now j
          × (contains_id i claimed ≡ true)
          × (get i db' ≡ some (claim_row worker_id now j)))
        ⊎ ((contains_id i claimed ≡ false) × (get i db' ≡ some j))
  unfolding claim_ready_jobs
  claim_ready_jobs_rows i db j d e =
      let at : j.id ≡ i = (==_iff j.id i).0 (find-passes (λ x. x.id == i) db.jobs e) in
      let after =
        find-update_where-some (λ x. x.id == i) (λ x. contains_id x.id selected)
          (claim_row worker_id now) (λ _. refl) db.jobs e in
      let returned = contains_id-map i (claim_row worker_id now) (λ _. refl) selected in
      elim (Bool-cases (contains_id i selected)) [
        | inl c ↦ inl (selected_row i db d e c, returned ∙ c, after ∙ rw (at, c))
        | inr c ↦ inr (returned ∙ c, after ∙ rw (at, c))
      ]
    where
      selected : List InteractionJob
      selected = select_ready held job_types limit now db.jobs
