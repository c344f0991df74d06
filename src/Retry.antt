-- ===== src/Retry.antt =====
-- retries/policy.py: `ExponentialBackoffPolicy`. Times are microseconds, delays seconds.
pub mod Bounds
mod Tests
use post_call_processing_pip.Common.{
  ℕ, zero, suc, ◌+◌, ◌-◌, ◌*◌, ◌^◌, min, Bool, true, false, Option, none, some, ℤ, pos, leb,
  if◌then◌else◌,
}
use post_call_processing_pip.Settings.{Settings}

pub record RetryDecision : Type 0 where
  pub should_retry : Bool
  pub next_run_at : Option ℕ
  pub delay_seconds : ℕ

pub record ExponentialBackoffPolicy : Type 0 where
  pub base_seconds : ℕ
  pub max_seconds : ℕ

abbrev pub default_policy : Settings → ExponentialBackoffPolicy
default_policy s = record {
  base_seconds = s.workflow_base_retry_seconds;
  max_seconds = s.workflow_max_retry_seconds;
}

-- `now + timedelta(seconds=n)`
abbrev pub plus_seconds : ℕ → ℕ → ℕ
plus_seconds now n = now + n * 1_000_000

-- `max(attempt - 1, 0)` is the subtraction of ℕ.
abbrev pub backoff : ExponentialBackoffPolicy → ℕ → ℕ
backoff p attempt = min (p.base_seconds * 2 ^ (attempt - 1)) p.max_seconds

unfoldable pub next_delay : ExponentialBackoffPolicy → ℕ → Option ℤ → ℕ
next_delay p attempt (some (pos (suc n))) = min (suc n) p.max_seconds
next_delay p attempt _ = backoff p attempt

unfoldable pub decide : ExponentialBackoffPolicy → ℕ → ℕ → ℕ → Option ℤ → RetryDecision
decide p attempt max_attempts now retry_after =
    if leb max_attempts attempt
    then record { should_retry = false; next_run_at = none; delay_seconds = 0 }
    else let delay = next_delay p attempt retry_after in
      record {
        should_retry = true;
        next_run_at = some (plus_seconds now delay);
        delay_seconds = delay;
      }
