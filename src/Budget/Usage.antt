-- ===== src/Budget/Usage.antt =====
-- repositories/token_usage.py: `TokenUsageRepository`, and rate_limiter/service.py, which passes
-- its arguments on. Times are microseconds.
use post_call_processing_pip.Common.{
  ℕ, zero, ◌+◌, ◌-◌, ◌/◌, ◌%◌, max, Bool, true, false, not, ◌&&◌, Option, none, some, [], ◌∷◌, ◌++◌,
  ◌==◌, if◌then◌else◌, find, update_where, ℤ, pos,
}
use post_call_processing_pip.Text.{Text}
use post_call_processing_pip.Settings.{Settings}
use post_call_processing_pip.Models.{Db, CustomerTokenUsage, JobPriority, high, medium, is_high}
use post_call_processing_pip.Budget.{BudgetState, decide}

-- UUID("00000000-0000-0000-0000-000000000000")
abbrev pub global_rate_limit_id : ℕ
global_rate_limit_id = 0

pub record ReservationResult : Type 0 where
  pub allowed : Bool
  pub defer_seconds : ℕ
  pub reason : Text
  pub customer_budget_tokens : ℤ
  pub global_remaining_tokens : ℕ

-- `now.replace(second=0, microsecond=0)`
unfoldable pub minute_window : ℕ → ℕ
minute_window now = now - now % 60_000_000

-- Whole seconds up to one second past the next window, and at least one.
unfoldable pub seconds_to_next_window : ℕ → ℕ
unfolding minute_window
seconds_to_next_window now = max ((minute_window now + 61_000_000 - now) / 1_000_000) 1

-- `customer_budget_tokens or settings.CUSTOMER_DEFAULT_TOKENS_PER_MINUTE`
abbrev pub customer_budget : Settings → Option ℤ → ℤ
customer_budget s none = pos s.customer_default_tokens_per_minute
customer_budget s (some (pos zero)) = pos s.customer_default_tokens_per_minute
customer_budget s (some z) = z

-- The row of a customer and a window, which the unique constraint makes one.
abbrev pub is_row : ℕ → ℕ → CustomerTokenUsage → Bool
is_row customer_id window_start u = u.customer_id == customer_id && u.window_start == window_start

abbrev pub find_usage : ℕ → ℕ → Db → Option CustomerTokenUsage
find_usage customer_id window_start db = find (is_row customer_id window_start) db.usage

abbrev pub new_usage : ℕ → ℕ → ℤ → CustomerTokenUsage
new_usage customer_id window_start budget_tokens = record {
  customer_id = customer_id;
  window_start = window_start;
  budget_tokens = budget_tokens;
  reserved_tokens = 0;
  used_tokens = 0;
  requests_reserved = 0;
  requests_used = 0;
}

unfoldable pub get_or_create_usage : ℕ → ℕ → ℤ → Db → CustomerTokenUsage × Db
get_or_create_usage customer_id window_start budget_tokens db =
    elim (find_usage customer_id window_start db) [
      | some usage ↦ (usage, db)
      | none ↦
          let usage = new_usage customer_id window_start budget_tokens in
          (usage, record db { usage = db.usage ++ usage ∷ [] })
    ]

-- An assignment to the row that the session holds.
unfoldable pub modify_usage : ℕ → ℕ → (CustomerTokenUsage → CustomerTokenUsage) → Db → Db
modify_usage customer_id window_start f db = record db {
  usage = update_where (is_row customer_id window_start) f db.usage;
}

abbrev pub add_reservation : ℕ → CustomerTokenUsage → CustomerTokenUsage
add_reservation estimated_tokens u = record u {
  reserved_tokens = u.reserved_tokens + estimated_tokens;
  requests_reserved = u.requests_reserved + 1;
}

abbrev pub add_usage : ℕ → CustomerTokenUsage → CustomerTokenUsage
add_usage actual_tokens u = record u {
  used_tokens = u.used_tokens + actual_tokens;
  requests_used = u.requests_used + 1;
}

-- What a row that the session holds reads as after the tables changed.
abbrev pub reread : CustomerTokenUsage → Db → CustomerTokenUsage
reread u db = elim (find_usage u.customer_id u.window_start db) [ none ↦ u | some v ↦ v ]

abbrev pub budget_state : ℤ → ℕ → CustomerTokenUsage → BudgetState
budget_state token_limit request_limit u = record {
  token_limit = token_limit;
  request_limit = request_limit;
  reserved_tokens = u.reserved_tokens;
  reserved_requests = u.requests_reserved;
}

-- The two rows, fetched or made in this order.
unfoldable pub open_rows : Settings → ℕ → ℕ → ℤ → Db → CustomerTokenUsage × CustomerTokenUsage × Db
unfolding get_or_create_usage
open_rows s customer_id window_start budget db =
    let (global_usage, db1) =
      get_or_create_usage global_rate_limit_id window_start (pos s.llm_tokens_per_minute) db in
    let (customer_usage, db2) = get_or_create_usage customer_id window_start budget db1 in
    (global_usage, customer_usage, db2)

-- The same assignment to the global row and to the customer's.
unfoldable pub modify_rows : ℕ → ℕ → (CustomerTokenUsage → CustomerTokenUsage) → Db → Db
unfolding modify_usage
modify_rows customer_id window_start f db =
    modify_usage customer_id window_start f (modify_usage global_rate_limit_id window_start f db)

abbrev pub overflow_priority : Bool → JobPriority
overflow_priority true = high
overflow_priority false = medium

unfoldable pub reserve : Settings → ℕ → ℕ → Bool → ℕ → Option ℤ → Db → ReservationResult × Db
unfolding seconds_to_next_window decide open_rows modify_rows
reserve s customer_id estimated_tokens allow_overflow now customer_budget_tokens db =
    let window_start = minute_window now in
    let budget = customer_budget s customer_budget_tokens in
    let (global_usage, customer_usage, opened) = open_rows s customer_id window_start budget db in
    let decision =
      decide (budget_state (pos s.llm_tokens_per_minute) s.llm_requests_per_minute global_usage)
        (budget_state budget s.llm_requests_per_minute customer_usage) estimated_tokens
        (overflow_priority allow_overflow) in
    let reserved = modify_rows customer_id window_start (add_reservation estimated_tokens) opened in
    if not decision.allowed
    then (
      record {
        allowed = false;
        defer_seconds = seconds_to_next_window now;
        reason = decision.reason;
        customer_budget_tokens = budget;
        global_remaining_tokens = s.llm_tokens_per_minute - global_usage.reserved_tokens;
      },
      opened,
    )
    else (
      record {
        allowed = true;
        defer_seconds = 0;
        reason = decision.reason;
        customer_budget_tokens = budget;
        global_remaining_tokens =
            s.llm_tokens_per_minute - (reread global_usage reserved).reserved_tokens;
      },
      reserved,
    )

unfoldable pub record_usage : Settings → ℕ → ℕ → ℕ → Option ℤ → Db → Db
unfolding open_rows modify_rows
record_usage s customer_id actual_tokens now customer_budget_tokens db =
    let window_start = minute_window now in
    let (_, _, opened) =
      open_rows s customer_id window_start (customer_budget s customer_budget_tokens) db in
    modify_rows customer_id window_start (add_usage actual_tokens) opened

-- The result of `LLMRateLimiter.admit`.
pub record Admission : Type 0 where
  pub admitted : Bool
  pub defer_seconds : ℕ
  pub reason : Text
  pub customer_budget_tokens : ℤ
  pub global_remaining_tokens : ℕ

abbrev pub admission_of : ReservationResult → Admission
admission_of r = record {
  admitted = r.allowed;
  defer_seconds = r.defer_seconds;
  reason = r.reason;
  customer_budget_tokens = r.customer_budget_tokens;
  global_remaining_tokens = r.global_remaining_tokens;
}

unfoldable pub admit : Settings → ℕ → ℕ → JobPriority → ℕ → Option ℤ → Db → Admission × Db
unfolding reserve
admit s customer_id estimated_tokens priority now customer_budget_tokens db =
    let (reservation, db') =
      reserve s customer_id estimated_tokens (is_high priority) now customer_budget_tokens db in
    (admission_of reservation, db')
