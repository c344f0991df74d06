-- ===== src/Capacity/Tests.antt =====
-- Two minutes of a platform with the default limits.
use post_call_processing_pip.Common.{◌≤◌, ◌<◌, ◌≡◌, ◌↔◌, refl, true, none, some, pos, arith}
use post_call_processing_pip.Text.{text, parse_int}
use post_call_processing_pip.Settings.{defaults}
use post_call_processing_pip.Attempt.{ok}
use post_call_processing_pip.Capacity.{counter_of, CapacitySignal, capacity_signal, check_capacity}
use post_call_processing_pip.Capacity.Signal.{check_capacity_iff, capacity_signal_grows}

calls_now : counter_of (some (text "120")) ≡ ok (pos 120)
unfolding counter_of parse_int text
calls_now = refl

tokens_now : counter_of none ≡ ok (pos 0)
unfolding counter_of
tokens_now = refl

calls_later : counter_of (some (text "460")) ≡ ok (pos 460)
unfolding counter_of parse_int text
calls_later = refl

tokens_later : counter_of (some (text "88000")) ≡ ok (pos 88000)
unfolding counter_of parse_int text
tokens_later = refl

check_capacity_iff_example :
    (check_capacity defaults (some (text "460")) (some (text "88000")) ≡ ok true)
    ↔ ((460 < 500) × (88000 < 90000))
check_capacity_iff_example =
    check_capacity_iff defaults (some (text "460")) (some (text "88000")) 460 88000 calls_later
      tokens_later (omega arith) (omega arith)

capacity_signal_grows_example :
    (now later : CapacitySignal) × (capacity_signal defaults (some (text "120")) none ≡ ok now)
    × (capacity_signal defaults (some (text "460")) (some (text "88000")) ≡ ok later)
    × (now.suggested_delay_seconds ≤ later.suggested_delay_seconds)
    × (later.suggested_delay_seconds ≤ 15)
capacity_signal_grows_example =
    capacity_signal_grows defaults (some (text "120")) none 120 0 calls_now tokens_now
      (some (text "460")) (some (text "88000")) 460 88000 calls_later tokens_later (omega arith)
      (omega arith)
