-- ===== src/Jobs.antt =====
-- repositories/jobs.py: `InteractionJobRepository`. An operation takes the tables and returns the
-- new ones; each reading of the clock is an argument.
pub mod Claim
pub mod Create
pub mod Queued
pub mod Invariant
pub mod Order
pub mod Exclusion
pub mod Lookup
pub mod Stale
pub mod Crash
pub mod Spec
pub mod Refinement
mod Tests
use post_call_processing_pip.Common.{
  ℕ, suc, ◌+◌, ◌-◌, ◌*◌, Bool, true, false, not, ◌&&◌, ◌||◌, Option, none, some, List, [], ◌∷◌,
  ◌++◌, map, ltb, leb, ◌==◌, if◌then◌else◌, length, take, find, select, update_where,
}
use post_call_processing_pip.Text.{Text, text, text_eq}
use post_call_processing_pip.Json.{Fields, end}
use post_call_processing_pip.Settings.{Settings}
use post_call_processing_pip.Models.{
  Db, InteractionJob, DeadLetterJob, JobPriority, high, medium, low, JobType, JobStatus, pending,
  running, deferred, succeeded, dead_lettered, is_running, is_waiting, same_type, job_type_value,
}

-- `select(InteractionJob).where(InteractionJob.id == job_id)`
abbrev pub get : ℕ → Db → Option InteractionJob
get job_id db = find (λ j. j.id == job_id) db.jobs

abbrev pub get_by_idempotency_key : Text → Db → Option InteractionJob
get_by_idempotency_key key db = find (λ j. text_eq j.idempotency_key key) db.jobs

-- The keyword arguments of `create_if_absent`.
pub record NewJob : Type 0 where
  pub interaction_id : ℕ
  pub session_id : ℕ
  pub lead_id : ℕ
  pub campaign_id : ℕ
  pub customer_id : ℕ
  pub job_type : JobType
  pub priority : JobPriority
  pub idempotency_key : Text
  pub payload : Fields
  pub token_estimate : ℕ
  pub max_attempts : Option ℕ
  pub run_after : Option ℕ

-- `n or default`
abbrev pub or_default : Option ℕ → ℕ → ℕ
or_default none d = d
or_default (some n) d = if n == 0 then d else n

abbrev pub or_now : Option ℕ → ℕ → ℕ
or_now none now = now
or_now (some t) now = t

-- The row that the constructor and the column defaults make.
abbrev pub new_row : Settings → ℕ → NewJob → ℕ → InteractionJob
new_row settings now n uuid = record {
  id = uuid;
  interaction_id = n.interaction_id;
  session_id = n.session_id;
  lead_id = n.lead_id;
  campaign_id = n.campaign_id;
  customer_id = n.customer_id;
  job_type = n.job_type;
  status = pending;
  priority = n.priority;
  idempotency_key = n.idempotency_key;
  payload = n.payload;
  result = end;
  token_estimate = n.token_estimate;
  tokens_used = 0;
  attempts = 0;
  max_attempts = or_default n.max_attempts settings.workflow_max_attempts;
  run_after = or_now n.run_after now;
  locked_by = none;
  locked_at = none;
  started_at = none;
  completed_at = none;
  last_error_code = none;
  last_error_message = none;
  created_at = now;
}

unfoldable pub create_if_absent : Settings → ℕ → NewJob → Db → InteractionJob × Db
create_if_absent settings now n db = elim (get_by_idempotency_key n.idempotency_key db) [
  | some existing ↦ (existing, db)
  | none ↦
      let job = new_row settings now n db.next_uuid in
      (job, record db { jobs = db.jobs ++ job ∷ []; next_uuid = suc db.next_uuid })
]

-- `job_type.in_(job_types)`
abbrev pub type_in : JobType → List JobType → Bool
type_in t [] = false
type_in t (u ∷ us) = same_type t u || type_in t us

-- The WHERE of `claim_ready_jobs`.
unfoldable pub is_ready : List JobType → ℕ → InteractionJob → Bool
is_ready job_types now j =
    type_in j.job_type job_types && is_waiting j.status && leb j.run_after now

-- `priority_order`
abbrev pub priority_order : JobPriority → ℕ
priority_order high = 0
priority_order medium = 1
priority_order low = 2

-- `order_by(priority_order, created_at)`: whether `a` may stand before `b`.
unfoldable pub in_order : InteractionJob → InteractionJob → Bool
in_order a b =
    ltb (priority_order a.priority) (priority_order b.priority)
    || (priority_order a.priority == priority_order b.priority && leb a.created_at b.created_at)

unfoldable pub insert_row : InteractionJob → List InteractionJob → List InteractionJob
insert_row a [] = a ∷ []
insert_row a (b ∷ bs) = if in_order a b then a ∷ b ∷ bs else b ∷ insert_row a bs

unfoldable pub order_by : List InteractionJob → List InteractionJob
order_by [] = []
order_by (a ∷ as_) = insert_row a (order_by as_)

-- The SELECT. `held` tells the rows that other transactions have locked, which SKIP LOCKED leaves.
unfoldable pub select_ready :
    (ℕ → Bool) → List JobType → ℕ → ℕ → List InteractionJob → List InteractionJob
unfolding is_ready order_by
select_ready held job_types limit now jobs =
    take limit (order_by (select (λ j. is_ready job_types now j && not (held j.id)) jobs))

unfoldable pub contains_id : ℕ → List InteractionJob → Bool
contains_id i [] = false
contains_id i (j ∷ js) = j.id == i || contains_id i js

abbrev pub first : Option ℕ → ℕ → ℕ
first none now = now
first (some t) now = t

-- What the loop of `claim_ready_jobs` writes to one row.
abbrev pub claim_row : Text → ℕ → InteractionJob → InteractionJob
claim_row worker_id now j = record j {
  status = running;
  attempts = j.attempts + 1;
  locked_by = some worker_id;
  locked_at = some now;
  started_at = some (first j.started_at now);
}

unfoldable pub claim_ready_jobs :
    (ℕ → Bool) → Text → List JobType → ℕ → ℕ → Db → List InteractionJob × Db
claim_ready_jobs held worker_id job_types limit now db =
    let selected = select_ready held job_types limit now db.jobs in
    (
      map (claim_row worker_id now) selected,
      record db {
        jobs = update_where (λ j. contains_id j.id selected) (claim_row worker_id now) db.jobs;
      },
    )

-- `locked_at < cutoff`, with SQL's NULL.
abbrev pub is_before : Option ℕ → ℕ → Bool
is_before none cutoff = false
is_before (some t) cutoff = ltb t cutoff

unfoldable pub is_stale : ℕ → InteractionJob → Bool
is_stale cutoff j = is_running j.status && is_before j.locked_at cutoff

abbrev pub recover_row : Text → ℕ → InteractionJob → InteractionJob
recover_row worker_id now j = record j {
  status = deferred;
  locked_by = none;
  locked_at = none;
  run_after = now;
  last_error_code = some (text "WORKER_LOCK_TIMEOUT");
  last_error_message = some (text "Recovered stale lock by " ++ worker_id);
}

-- `clock i` is the reading of the clock when the loop comes to the row `i`.
unfoldable pub recover_stale_running_jobs : Settings → Text → ℕ → (ℕ → ℕ) → Db → ℕ × Db
recover_stale_running_jobs settings worker_id now clock db =
    let cutoff = now - settings.job_lock_timeout_seconds * 1_000_000 in
    (
      length (select (is_stale cutoff) db.jobs),
      record db {
        jobs = update_where (is_stale cutoff) (λ j. recover_row worker_id (clock j.id) j) db.jobs;
      },
    )

-- The assignments to a job that the session holds, which the flush writes to its row.
abbrev pub modify : ℕ → (InteractionJob → InteractionJob) → Db → Db
modify i f db = record db { jobs = update_where (λ j. j.id == i) f db.jobs }

abbrev pub succeed_row : ℕ → Fields → ℕ → InteractionJob → InteractionJob
succeed_row now result tokens_used j = record j {
  status = succeeded;
  result = result;
  tokens_used = tokens_used;
  completed_at = some now;
  locked_by = none;
  locked_at = none;
}

unfoldable pub mark_succeeded : ℕ → InteractionJob → Fields → ℕ → Db → Db
mark_succeeded now job result tokens_used = modify job.id (succeed_row now result tokens_used)

abbrev pub defer_row : ℕ → Text → Text → InteractionJob → InteractionJob
defer_row run_after error_code error_message j = record j {
  status = deferred;
  run_after = run_after;
  locked_by = none;
  locked_at = none;
  last_error_code = some error_code;
  last_error_message = some error_message;
}

unfoldable pub defer : InteractionJob → ℕ → Text → Text → Db → Db
defer job run_after error_code error_message =
    modify job.id (defer_row run_after error_code error_message)

abbrev pub dead_letter_row : ℕ → Text → Text → InteractionJob → InteractionJob
dead_letter_row now error_code error_message j = record j {
  status = dead_lettered;
  completed_at = some now;
  locked_by = none;
  locked_at = none;
  last_error_code = some error_code;
  last_error_message = some error_message;
}

abbrev pub dead_letter_of : InteractionJob → Text → Text → Text → DeadLetterJob
dead_letter_of job stage error_code error_message = record {
  original_job_id = job.id;
  interaction_id = job.interaction_id;
  customer_id = job.customer_id;
  campaign_id = job.campaign_id;
  job_type = job_type_value job.job_type;
  stage = stage;
  payload = job.payload;
  attempts = job.attempts;
  last_error_code = error_code;
  last_error_message = error_message;
}

unfoldable pub dead_letter : ℕ → InteractionJob → Text → Text → Text → Db → Db
dead_letter now job stage error_code error_message db =
    let dead = dead_letter_of job stage error_code error_message in
    modify job.id (dead_letter_row now error_code error_message)
      (record db { dead_letters = db.dead_letters ++ dead ∷ [] })
