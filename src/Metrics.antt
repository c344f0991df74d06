-- ===== src/Metrics.antt =====
-- metrics/collector.py, `WorkflowMetricsCollector`, and repositories/jobs.py,
-- `queue_depth_by_status`: how many jobs wait where. The gauge `workflow_queue_depth` is a function
-- of its labels, `none` where it was never set.
pub mod Depth
pub mod Gauges
mod Tests
use post_call_processing_pip.Common.{
  ℕ, suc, ◌+◌, Bool, true, false, ◌&&◌, Option, none, some, List, [], ◌∷◌, if◌then◌else◌, length,
  select, pos,
}
use post_call_processing_pip.Text.{Text, text}
use post_call_processing_pip.Json.{Fields, num, end, set}
use post_call_processing_pip.Models.{
  Db, InteractionJob, JobType, JobStatus, pending, running, deferred, succeeded, failed,
  dead_lettered, same_type,
}

abbrev pub same_status : JobStatus → JobStatus → Bool
same_status pending pending = true
same_status running running = true
same_status deferred deferred = true
same_status succeeded succeeded = true
same_status failed failed = true
same_status dead_lettered dead_lettered = true
same_status _ _ = false

-- `status.value`
unfoldable pub status_value : JobStatus → Text
status_value pending = text "PENDING"
status_value running = text "RUNNING"
status_value deferred = text "DEFERRED"
status_value succeeded = text "SUCCEEDED"
status_value failed = text "FAILED"
status_value dead_lettered = text "DEAD_LETTERED"

-- `select(func.count()).where(status == ...)`
abbrev pub count_status : JobStatus → List InteractionJob → ℕ
count_status status jobs = length (select (λ j. same_status j.status status) jobs)

-- The loop of `queue_depth_by_status`.
unfoldable pub count_all : List JobStatus → Fields → Db → Fields
unfolding status_value set
count_all [] counts db = counts
count_all (status ∷ statuses) counts db =
    count_all statuses (set (status_value status) (num (pos (count_status status db.jobs))) counts)
      db

unfoldable pub queue_depth_by_status : List JobStatus → Db → Fields
unfolding count_all
queue_depth_by_status statuses db = count_all statuses end db

-- A row of `group_by(job_type, status)` with its count.
pub record Group : Type 0 where
  pub job_type : JobType
  pub status : JobStatus
  pub size : ℕ

abbrev pub in_group : JobType → JobStatus → JobType → JobStatus → Bool
in_group t status t' status' = same_type t t' && same_status status status'

-- One job more.
unfoldable pub count_job : InteractionJob → List Group → List Group
count_job j [] = record { job_type = j.job_type; status = j.status; size = 1 } ∷ []
count_job j (g ∷ gs) =
    if in_group j.job_type j.status g.job_type g.status
    then record g { size = g.size + 1 } ∷ gs
    else g ∷ count_job j gs

-- The result of the query.
unfoldable pub group_by : List InteractionJob → List Group
unfolding count_job
group_by [] = []
group_by (j ∷ js) = count_job j (group_by js)

abbrev pub Gauge : Type 0
Gauge = JobType → JobStatus → Option ℕ

-- `registry.queue_depth.labels(...).set(count)`
abbrev pub set_gauge : Group → Gauge → Gauge
set_gauge g gauge t status =
    if in_group t status g.job_type g.status then some g.size else gauge t status

unfoldable pub set_all : List Group → Gauge → Gauge
set_all [] gauge = gauge
set_all (g ∷ gs) gauge = set_all gs (set_gauge g gauge)

-- `refresh_queue_depths`
unfoldable pub refresh_queue_depths : Db → Gauge → Gauge
unfolding set_all group_by
refresh_queue_depths db gauge = set_all (group_by db.jobs) gauge
