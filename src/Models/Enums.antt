-- ===== src/Models/Enums.antt =====
-- models/workflow.py: the enumerations of a job, their values, and equality.
use post_call_processing_pip.Common.{Bool, true, false}
use post_call_processing_pip.Text.{Text, text}

pub data JobPriority : Type 0 where
  high medium low : JobPriority

pub data JobStatus : Type 0 where
  pending running deferred succeeded failed dead_lettered : JobStatus

pub data JobType : Type 0 where
  orchestrate_interaction llm_analysis recording_fetch signal_jobs lead_stage_update : JobType

-- `priority.value`
unfoldable pub priority_value : JobPriority → Text
priority_value high = text "HIGH"
priority_value medium = text "MEDIUM"
priority_value low = text "LOW"

-- `job_type.value`
unfoldable pub job_type_value : JobType → Text
job_type_value orchestrate_interaction = text "ORCHESTRATE_INTERACTION"
job_type_value llm_analysis = text "LLM_ANALYSIS"
job_type_value recording_fetch = text "RECORDING_FETCH"
job_type_value signal_jobs = text "SIGNAL_JOBS"
job_type_value lead_stage_update = text "LEAD_STAGE_UPDATE"

abbrev pub is_high : JobPriority → Bool
is_high high = true
is_high _ = false

abbrev pub is_running : JobStatus → Bool
is_running running = true
is_running _ = false

-- `status in [PENDING, DEFERRED]`
abbrev pub is_waiting : JobStatus → Bool
is_waiting pending = true
is_waiting deferred = true
is_waiting _ = false

abbrev pub same_type : JobType → JobType → Bool
same_type orchestrate_interaction orchestrate_interaction = true
same_type llm_analysis llm_analysis = true
same_type recording_fetch recording_fetch = true
same_type signal_jobs signal_jobs = true
same_type lead_stage_update lead_stage_update = true
same_type _ _ = false
