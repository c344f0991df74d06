-- ===== src/Budget.antt =====
-- rate_limiter/budget.py: `BudgetAdmissionPolicy`, the decision on one LLM call.
pub mod Decision
pub mod Usage
pub mod Rows
pub mod Limits
pub mod Effects
pub mod Window
mod Tests
use post_call_processing_pip.Common.{
  ℕ, suc, ◌+◌, ◌*◌, Bool, true, false, not, ◌&&◌, ltb, leb, if◌then◌else◌, ℤ, pos, negsuc, at_most,
}
use post_call_processing_pip.Text.{Text, text}
use post_call_processing_pip.Models.{JobPriority, is_high}

pub record BudgetState : Type 0 where
  pub token_limit : ℤ
  pub request_limit : ℕ
  pub reserved_tokens : ℕ
  pub reserved_requests : ℕ

pub record BudgetDecision : Type 0 where
  pub allowed : Bool
  pub reason : Text

-- `(reserved / limit if limit else 1) < 0.70`, on the exact quotient. For the 32-bit columns the
-- rounded quotient compares the same way.
abbrev pub is_below_70_percent : ℕ → ℤ → Bool
is_below_70_percent reserved (pos limit) = ltb (10 * reserved) (7 * limit)
is_below_70_percent reserved (negsuc limit) = true

unfoldable pub decide : BudgetState → BudgetState → ℕ → JobPriority → BudgetDecision
decide global customer estimated_tokens priority =
    if not (at_most (global.reserved_tokens + estimated_tokens) global.token_limit)
    then record { allowed = false; reason = text "GLOBAL_RATE_LIMIT" }
    else if ltb global.request_limit (global.reserved_requests + 1)
    then record { allowed = false; reason = text "GLOBAL_RATE_LIMIT" }
    else if at_most (customer.reserved_tokens + estimated_tokens) customer.token_limit
    then record { allowed = true; reason = text "ADMITTED" }
    else if is_high priority && is_below_70_percent global.reserved_tokens global.token_limit
    then record { allowed = true; reason = text "ADMITTED_OVERFLOW" }
    else record { allowed = false; reason = text "CUSTOMER_TOKEN_BUDGET" }
