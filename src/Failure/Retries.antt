-- ===== src/Failure/Retries.antt =====
-- workers/failure_handler.py with repositories/jobs.py and retries/policy.py: a job whose tries all
-- end in the failure handler.
use post_call_processing_pip.Common.{
  ℕ, zero, suc, ◌+◌, ◌-◌, ◌≤◌, ◌<◌, max, ◌≡◌, refl, sym, ap, ◌∙◌, ◌⊎◌, inl, inr, true, some, ◌==◌,
  ==_iff, find-passes, arith,
}
use post_call_processing_pip.Text.{Text}
use post_call_processing_pip.Runtime.{Runtime}
use post_call_processing_pip.Models.{Db, InteractionJob, deferred, dead_lettered, is_waiting}
use post_call_processing_pip.Retry.{ExponentialBackoffPolicy}
use post_call_processing_pip.Jobs.{get, claim_row}
use post_call_processing_pip.Failure.{Failure, Readings, handle}
use post_call_processing_pip.Failure.Outcome.{handle_lem}

-- `n` rounds of the job `i`: it waits, a worker claims it, and the failure handler is called. What else happens to
-- the tables between the steps is left open, as long as the job's row stays as it is.
pub data Rounds (rt : Runtime) (policy : ExponentialBackoffPolicy) (i : ℕ)
    : ℕ → Db → Db → Type 0 where
  rest : {db : Db} → Rounds rt policy i zero db db
  round :
      {n : ℕ} {db last : Db} (claimed next : Db) (job : InteractionJob) (worker_id : Text) (now : ℕ)
      (clock : Readings) (f : Failure)
      → get i db ≡ some job
      → is_waiting job.status ≡ true
      → get i claimed ≡ some (claim_row worker_id now job)
      → get i next ≡ get i (handle rt policy clock (claim_row worker_id now job) f claimed)
      → Rounds rt policy i n next last
      → Rounds rt policy i (suc n) db last

-- The tries that a job has left, and at least the one that a claim always gives.
abbrev pub tries_left : InteractionJob → ℕ
tries_left j = max (j.max_attempts - j.attempts) 1

-- A row after some rounds of `j`: it waits with the attempts counted, or it is closed.
abbrev pub IsTriedRow : ℕ → InteractionJob → InteractionJob → Type 0
IsTriedRow n j k =
    ((k.attempts ≡ j.attempts + n)
      × (k.max_attempts ≡ j.max_attempts)
      × (k.status ≡ deferred)
      × (k.attempts < k.max_attempts))
    ⊎ (k.status ≡ dead_lettered)

module _ (rt : Runtime) (policy : ExponentialBackoffPolicy) (i : ℕ) where
  failed_once :
      (clock : Readings) (f : Failure) (worker_id : Text) (now : ℕ) (job : InteractionJob)
      (claimed : Db)
      → 0 < policy.base_seconds
      → 0 < policy.max_seconds
      → get i claimed ≡ some (claim_row worker_id now job)
      → (k : InteractionJob) × (get i
            (handle rt policy clock (claim_row worker_id now job) f claimed)
          ≡ some k)
        × IsTriedRow 1 job k
  failed_once clock f worker_id now job claimed b m e =
      let row = claim_row worker_id now job in
      let at : job.id ≡ i = (==_iff job.id i).0 (find-passes (λ j. j.id == i) claimed.jobs e) in
      let there : get job.id claimed ≡ some row = ap (λ x. get x claimed) at ∙ e in
      let back = ap (λ x. get x (handle rt policy clock row f claimed)) (sym at) in
      elim (handle_lem rt policy clock row f claimed there b m) [
        | inl (may, left, (t, kept, after, within), letters) ↦
            (_, back ∙ kept, inl (refl, refl, refl, left))
        | inr (over, gone, letters) ↦ (_, back ∙ gone, inr refl)
      ]

  no_more :
      (n : ℕ) (db last : Db) (k : InteractionJob)
      → Rounds rt policy i n db last
      → get i db ≡ some k
      → k.status ≡ dead_lettered
      → (n ≡ 0) × (get i last ≡ some k)
  no_more n db last k rest e closed = (refl, e)
  no_more _ db last k (round claimed next job worker_id now clock f there waits taken after rounds)
        e closed =
      let same : job ≡ k = ground arith in
      let stopped : is_waiting k.status ≡ true = rw (sym same) waits in
      absurd (ground (arith, closed))

  -- A job each of whose tries ends in the failure handler, under a policy with positive delays,
  -- whatever its workers, the failures and the times: there are at most as many rounds of a claim
  -- and a failure as it has tries left, at least one. After fewer it waits for the next try or is
  -- dead-lettered, and after that many it is dead-lettered. Tries that never come to the handler (a
  -- worker that dies, an exception past it) are no such rounds.
  pub Rounds-end :
      (n : ℕ) (db last : Db) (j : InteractionJob)
      → Rounds rt policy i n db last
      → 0 < policy.base_seconds
      → 0 < policy.max_seconds
      → get i db ≡ some j
      → is_waiting j.status ≡ true
      → (n ≤ tries_left j)
        × ((k : InteractionJob) × (get i last ≡ some k)
            × (((is_waiting k.status ≡ true) × (n < tries_left j)) ⊎ (k.status ≡ dead_lettered)))
  Rounds-end n db last j rest b m e waits = (omega arith, (j, e, inl (waits, omega arith)))
  Rounds-end _ db last j
        (round {n} claimed next job worker_id now clock f there again taken after rounds) b m e
        waits =
      let same : job ≡ j = ground arith in
      let (k, row, tried) = failed_once clock f worker_id now job claimed b m taken in
      elim tried [
        | inr closed ↦
            let (over, final) = no_more n next last k rounds (after ∙ row) closed in
            (omega (arith, over), (k, final, inr closed))
        | inl (counted, most, waiting, left) ↦
            let (fewer, (k', final, ends)) =
              Rounds-end n next last k rounds b m (after ∙ row) (rw waiting refl) in
            let tries : suc (tries_left k) ≤ tries_left j =
              ground (arith, ap (λ x. x.attempts) same, ap (λ x. x.max_attempts) same) in
            (
              omega (arith, fewer, tries),
              (
                k',
                final,
                elim ends [
                  | inl (waits', more) ↦ inl (waits', omega (arith, more, tries))
                  | inr closed ↦ inr closed
                ],
              ),
            )
      ]
