-- ===== src/Capacity.antt =====
-- services/circuit_breaker.py: the signal for the dialler. What Redis holds under the two keys is
-- an argument. The ratios, floats in Python, are compared as exact quotients.
pub mod Signal
mod Tests
use post_call_processing_pip.Common.{
  ℕ, zero, suc, ◌*◌, Bool, true, false, ◌||◌, Option, none, some, leb, if◌then◌else◌, ℤ, pos,
  negsuc,
}
use post_call_processing_pip.Text.{Text, text, is_nonempty, parse_int}
use post_call_processing_pip.Settings.{Settings}
use post_call_processing_pip.Attempt.{Attempt, ok, raise, ◌>>=◌}

-- `int(value or 0)`
unfoldable pub counter_of : Option Text → Attempt ℤ
unfolding parse_int
counter_of none = ok (pos 0)
counter_of (some value) =
    if is_nonempty value
    then elim (parse_int value) [ some z ↦ ok z | none ↦ raise (text "ValueError") ]
    else ok (pos 0)

-- `current / limit if limit else 1`
pub record Ratio : Type 0 where
  pub current : ℤ
  pub limit : ℕ

-- `max(rpm_ratio, tpm_ratio)`, kept as the two.
pub record UsageRatio : Type 0 where
  pub rpm : Ratio
  pub tpm : Ratio

-- Whether a quotient is at least `p / q`.
unfoldable pub quotient_at_least : ℕ → ℕ → ℤ → ℕ → Bool
quotient_at_least p q current zero = leb p q
quotient_at_least p q (pos n) (suc limit) = leb (p * suc limit) (q * n)
quotient_at_least p q (negsuc n) (suc limit) = leb p 0

-- `usage_ratio >= p / q`
unfoldable pub at_least : ℕ → ℕ → UsageRatio → Bool
unfolding quotient_at_least
at_least p q u =
    quotient_at_least p q u.rpm.current u.rpm.limit
    || quotient_at_least p q u.tpm.current u.tpm.limit

pub record CapacitySignal : Type 0 where
  pub allowed : Bool
  pub usage_ratio : UsageRatio
  pub suggested_delay_seconds : ℕ
  pub reason : Text

-- The branches on the ratio.
unfoldable pub signal_of : UsageRatio → CapacitySignal
unfolding at_least
signal_of u =
    if at_least 1 1 u
    then record {
      allowed = false;
      usage_ratio = u;
      suggested_delay_seconds = 15;
      reason = text "rate_limit_exhausted";
    }
    else if at_least 90 100 u
    then record {
      allowed = true;
      usage_ratio = u;
      suggested_delay_seconds = 5;
      reason = text "slow_down";
    }
    else if at_least 75 100 u
    then record {
      allowed = true;
      usage_ratio = u;
      suggested_delay_seconds = 1;
      reason = text "warm";
    }
    else record {
      allowed = true;
      usage_ratio = u;
      suggested_delay_seconds = 0;
      reason = text "healthy";
    }

-- `capacity_signal`, on what the keys hold.
unfoldable pub capacity_signal : Settings → Option Text → Option Text → Attempt CapacitySignal
unfolding counter_of signal_of
capacity_signal s rpm_value tpm_value = do
  current_rpm ← counter_of rpm_value
  current_tpm ← counter_of tpm_value
  ok (
      signal_of (record {
        rpm = record { current = current_rpm; limit = s.llm_requests_per_minute };
        tpm = record { current = current_tpm; limit = s.llm_tokens_per_minute };
      }))

-- `check_capacity`
unfoldable pub check_capacity : Settings → Option Text → Option Text → Attempt Bool
unfolding capacity_signal
check_capacity s rpm_value tpm_value = do
  signal ← capacity_signal s rpm_value tpm_value
  ok signal.allowed
