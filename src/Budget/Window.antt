-- ===== src/Budget/Window.antt =====
-- repositories/token_usage.py: the one-minute windows and the wait for the next.
use post_call_processing_pip.Common.{ℕ, ◌+◌, ◌*◌, ◌≤◌, ◌≡◌, arith}
use post_call_processing_pip.Budget.Usage.{minute_window, seconds_to_next_window}

-- A wait of `_seconds_to_next_window` ends in the window right after the current one, at most a
-- second into it, whatever the time; and it takes between 1 and 61 seconds.
pub seconds_to_next_window_lem :
    (now : ℕ)
    → let wake = now + seconds_to_next_window now * 1_000_000 in
      (minute_window wake ≡ minute_window now + 60_000_000)
      × (wake ≤ minute_window now + 61_000_000)
      × (1 ≤ seconds_to_next_window now)
      × (seconds_to_next_window now ≤ 61)
unfolding seconds_to_next_window
seconds_to_next_window_lem now = omega arith
