-- ===== src/Metrics/Depth.antt =====
-- metrics/collector.py and repositories/jobs.py, `queue_depth_by_status`: what the counts say.
use post_call_processing_pip.Common.{
  ℕ, suc, ◌+◌, ◌≡◌, refl, sym, ap, ◌∙◌, ◌⊎◌, inl, inr, some, List, [], ◌∷◌, if◌then◌else◌, length,
  pos, Bool-cases, arith,
}
use post_call_processing_pip.Text.{Text, text, text_eq, text_eq_iff}
use post_call_processing_pip.Json.{Fields, num, end, set}
use post_call_processing_pip.Json
use post_call_processing_pip.Json.Lookup.{get-set, get-set_other}
use post_call_processing_pip.Models.{
  Db, InteractionJob, JobStatus, pending, running, deferred, succeeded, failed, dead_lettered,
}
use post_call_processing_pip.Metrics.{status_value, count_status, count_all, queue_depth_by_status}

abbrev all_counts : List InteractionJob → ℕ
all_counts jobs =
    count_status pending jobs
    + count_status running jobs
    + count_status deferred jobs
    + count_status succeeded jobs
    + count_status failed jobs
    + count_status dead_lettered jobs

one_more :
    (j : InteractionJob) (jobs : List InteractionJob) (s : JobStatus)
    → j.status ≡ s
    → all_counts (j ∷ jobs) ≡ suc (all_counts jobs)
one_more j jobs pending e = rw e (omega arith)
one_more j jobs running e = rw e (omega arith)
one_more j jobs deferred e = rw e (omega arith)
one_more j jobs succeeded e = rw e (omega arith)
one_more j jobs failed e = rw e (omega arith)
one_more j jobs dead_lettered e = rw e (omega arith)

-- The all_counts of the six statuses add up to the jobs of the table: each job is counted once.
pub count_status_partition : (jobs : List InteractionJob) → all_counts jobs ≡ length jobs
count_status_partition [] = refl
count_status_partition (j ∷ jobs) =
    omega (arith, one_more j jobs j.status refl, count_status_partition jobs)

-- A left inverse of `status_value`.
status_of : Text → JobStatus
status_of t =
    if text_eq t (text "PENDING")
    then pending
    else if text_eq t (text "RUNNING")
    then running
    else if text_eq t (text "DEFERRED")
    then deferred
    else if text_eq t (text "SUCCEEDED")
    then succeeded
    else if text_eq t (text "FAILED")
    then failed
    else dead_lettered

status_of-value : (s : JobStatus) → status_of (status_value s) ≡ s
unfolding status_of status_value text_eq text
status_of-value pending = refl
status_of-value running = refl
status_of-value deferred = refl
status_of-value succeeded = refl
status_of-value failed = refl
status_of-value dead_lettered = refl

status_value-injective : (a b : JobStatus) → status_value a ≡ status_value b → a ≡ b
status_value-injective a b e = sym (status_of-value a) ∙ ap status_of e ∙ status_of-value b

abbrev IsCounted : JobStatus → Db → Fields → Type 0
IsCounted s db counts = Json.get (status_value s) counts ≡ some (num (pos (count_status s db.jobs)))

count_one-keeps :
    (s status : JobStatus) (counts : Fields) (db : Db)
    → IsCounted s db counts
    → IsCounted s db (set (status_value status) (num (pos (count_status status db.jobs))) counts)
count_one-keeps s status counts db h =
    elim (Bool-cases (text_eq (status_value s) (status_value status))) [
      | inr other ↦ get-set_other (status_value s) (status_value status) _ counts other ∙ h
      | inl hit ↦
          let same : s ≡ status = status_value-injective s status ((text_eq_iff _ _).0 hit) in
          rw same (get-set (status_value status) _ counts)
    ]

count_all-keeps :
    (s : JobStatus) (statuses : List JobStatus) (counts : Fields) (db : Db)
    → IsCounted s db counts
    → IsCounted s db (count_all statuses counts db)
unfolding count_all
count_all-keeps s [] counts db h = h
count_all-keeps s (status ∷ statuses) counts db h =
    count_all-keeps s statuses _ db (count_one-keeps s status counts db h)

abbrev pub IsAsked : JobStatus → List JobStatus → Type 0
IsAsked s [] = ⊥
IsAsked s (status ∷ statuses) = (s ≡ status) ⊎ IsAsked s statuses

count_all-IsCounted :
    (s : JobStatus) (statuses : List JobStatus) (counts : Fields) (db : Db)
    → IsAsked s statuses
    → IsCounted s db (count_all statuses counts db)
unfolding count_all
count_all-IsCounted s [] counts db h = absurd h
count_all-IsCounted s (status ∷ statuses) counts db (inl e) =
    count_all-keeps s statuses _ db (rw e (get-set (status_value status) _ counts))
count_all-IsCounted s (status ∷ statuses) counts db (inr h) = count_all-IsCounted s statuses _ db h

-- Each status that was asked for, whatever the others and however often, has in the result the
-- number of the jobs of the table with that status.
pub queue_depth_by_status_lem :
    (s : JobStatus) (statuses : List JobStatus) (db : Db)
    → IsAsked s statuses
    → Json.get (status_value s) (queue_depth_by_status statuses db)
      ≡ some (num (pos (count_status s db.jobs)))
unfolding queue_depth_by_status
queue_depth_by_status_lem s statuses db h = count_all-IsCounted s statuses end db h
