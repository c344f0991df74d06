-- ===== src/Retry/Tests.antt =====
-- The policy of tests/test_workflow_components.py, and the theorems at concrete inputs.
use post_call_processing_pip.Common.{◌≤◌, ◌<◌, ◌≡◌, refl, none, some, negsuc, arith}
use post_call_processing_pip.Retry.{ExponentialBackoffPolicy, next_delay, decide}
use post_call_processing_pip.Retry.Bounds.{next_delay_bounds}

abbrev policy : ExponentialBackoffPolicy
policy = record { base_seconds = 10; max_seconds = 300 }

third_attempt : (decide policy 3 5 0 none).next_run_at ≡ some 40_000_000
unfolding decide next_delay
third_attempt = refl

exhausted : (decide policy 5 5 0 none).next_run_at ≡ none
unfolding decide
exhausted = refl

next_delay_bounds_example :
    (0 < next_delay policy 30 (some (negsuc 4))) × (next_delay policy 30 (some (negsuc 4)) ≤ 300)
next_delay_bounds_example =
    next_delay_bounds policy 30 (some (negsuc 4)) (omega arith) (omega arith)
