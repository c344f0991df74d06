-- ===== src/Metrics/Tests.antt =====
-- The depths of the table of `Samples`, and a gauge whose queue was drained.
use post_call_processing_pip.Common.{◌<◌, ◌≡◌, ◌⊎◌, some}
use post_call_processing_pip.Models.{recording_fetch, running}
use post_call_processing_pip.Metrics.{Gauge, refresh_queue_depths}
use post_call_processing_pip.Metrics.Gauges.{count_group, refresh_queue_depths_lem}
use post_call_processing_pip.Samples.{db}

abbrev before : Gauge
before t status = some 7

refresh_queue_depths_lem_example :
    let n = count_group recording_fetch running db.jobs in
    ((0 < n) × (refresh_queue_depths db before recording_fetch running ≡ some n))
    ⊎ ((n ≡ 0) × (refresh_queue_depths db before recording_fetch running ≡ some 7))
refresh_queue_depths_lem_example = refresh_queue_depths_lem db before recording_fetch running
