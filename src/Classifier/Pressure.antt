-- ===== src/Classifier/Pressure.antt =====
-- scheduler/priority.py: which priorities wait when the platform is busy. The utilisation, a float
-- in Python, is the quotient of `used` and `limit`, with a positive limit.
use post_call_processing_pip.Common.{ℕ, ◌*◌, ◌≡◌, Bool, true, false, leb, refl, arith}
use post_call_processing_pip.Models.{JobPriority, high, medium, low}

unfoldable pub should_defer_under_pressure : JobPriority → ℕ → ℕ → Bool
should_defer_under_pressure high used limit = false
should_defer_under_pressure medium used limit = leb (95 * limit) (100 * used)
should_defer_under_pressure low used limit = leb (75 * limit) (100 * used)

-- A job of HIGH priority never waits, and where a job of MEDIUM priority waits, one of LOW does.
pub should_defer_under_pressure_low :
    (used limit : ℕ)
    → (should_defer_under_pressure high used limit ≡ false)
      × (should_defer_under_pressure medium used limit ≡ true
          → should_defer_under_pressure low used limit ≡ true)
unfolding should_defer_under_pressure
should_defer_under_pressure_low used limit = (refl, λ h. ground arith)
