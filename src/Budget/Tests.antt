-- ===== src/Budget/Tests.antt =====
-- The theorems on the token budgets at concrete windows, budgets and requests.
use post_call_processing_pip.Common.{
  ℕ, ◌+◌, ◌*◌, ◌≤◌, ◌<◌, ◌≡◌, refl, ◌⊎◌, ◌↔◌, true, false, none, some, List, [], ◌∷◌, pos, arith,
}
use post_call_processing_pip.Settings.{defaults}
use post_call_processing_pip.Models.{Db, CustomerTokenUsage, high, low, medium}
use post_call_processing_pip.Budget.{BudgetState, decide}
use post_call_processing_pip.Budget.Decision.{Fits, decide-allowed_iff}
use post_call_processing_pip.Budget.Usage.{global_rate_limit_id, find_usage, admit}
use post_call_processing_pip.Budget.Limits.{
  IsWithinLimits, Request, admits, records, serve, serve-IsWithinLimits,
}
use post_call_processing_pip.Budget.Effects.{admit_starved}
use post_call_processing_pip.Samples.{tables, usage_row}

-- The platform's row and the customer's.
abbrev global : BudgetState
global = record {
  token_limit = pos 90000;
  request_limit = 500;
  reserved_tokens = 60000;
  reserved_requests = 40;
}

abbrev customer : BudgetState
customer = record {
  token_limit = pos 15000;
  request_limit = 500;
  reserved_tokens = 14000;
  reserved_requests = 9;
}

high_overflows : (decide global customer 2000 high).allowed ≡ true
unfolding decide
high_overflows = refl

low_waits : (decide global customer 2000 low).allowed ≡ false
unfolding decide
low_waits = refl

decide-allowed_iff_example : ((decide global customer 2000 high).allowed ≡ true) ↔ (
    (60000 + 2000 ≤ 90000)
    × (40 + 1 ≤ 500)
    × (Fits (14000 + 2000) (pos 15000) ⊎ ((high ≡ high) × (10 * 60000 < 7 * 90000))))
decide-allowed_iff_example = decide-allowed_iff global customer 90000 2000 high refl

abbrev db : Db
db = tables [] (usage_row 0 60000 ∷ usage_row 7 14000 ∷ [])

abbrev requests : List Request
requests =
    admits 7 1000 low 5 none
    ∷ admits 7 9000 high 6 (some (pos 20000))
    ∷ records 7 800 7 none
    ∷ admits 8 2500 medium 61_000_000 none
    ∷ []

within :
    (window : ℕ) (u : CustomerTokenUsage)
    → find_usage global_rate_limit_id window db ≡ some u
    → (u.reserved_tokens ≤ 90000) × (u.requests_reserved ≤ 500)
within window u e = grind arith

db-IsWithinLimits : IsWithinLimits defaults db
db-IsWithinLimits = record { at = within }

serve-IsWithinLimits_example : IsWithinLimits defaults (serve defaults requests db)
serve-IsWithinLimits_example =
    serve-IsWithinLimits defaults requests db
      ((λ e. omega arith), ((λ e. omega arith), ((λ e. omega arith), ((λ e. omega arith), tt))))
      db-IsWithinLimits

admit_starved_example : (admit defaults 7 16000 low 5 none db).0.admitted ≡ false
admit_starved_example = admit_starved defaults 7 16000 low 5 none db (λ e. cc) (λ h. omega arith)
