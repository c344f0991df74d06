-- ===== src/Budget/Decision.antt =====
-- rate_limiter/budget.py: who is admitted.
use post_call_processing_pip.Common.{
  ℕ, ◌+◌, ◌*◌, ◌≤◌, ◌<◌, ◌≡◌, ◌⊎◌, ◌↔◌, true, ℤ, pos, negsuc, at_most, arith, Bool-cases, leb, inl,
  inr, refl, false,
}
use post_call_processing_pip.Models.{JobPriority, high, is_high}
use post_call_processing_pip.Budget.{BudgetState, decide}

-- `n` is at most the integer.
abbrev pub Fits : ℕ → ℤ → Type 0
Fits n (pos z) = n ≤ z
Fits n (negsuc z) = ⊥

pub at_most-Fits : (n : ℕ) (z : ℤ) → at_most n z ≡ true → Fits n z
at_most-Fits n (pos z) h = ground arith
at_most-Fits n (negsuc z) h = cc

pub Fits-at_most : (n : ℕ) (z : ℤ) → Fits n z → at_most n z ≡ true
Fits-at_most n (pos z) h = ground arith
Fits-at_most n (negsuc z) h = elim h [ ]

-- Under a global token limit that is not negative, a call is admitted exactly when it fits the
-- global token and request limits, and the customer's budget has room for it or it has HIGH
-- priority while less than 70% of the global limit is taken.
pub decide-allowed_iff :
    (global customer : BudgetState) (limit estimated_tokens : ℕ) (priority : JobPriority)
    → global.token_limit ≡ pos limit
    → ((decide global customer estimated_tokens priority).allowed ≡ true) ↔ (
        (global.reserved_tokens + estimated_tokens ≤ limit)
        × (global.reserved_requests + 1 ≤ global.request_limit)
        × (Fits (customer.reserved_tokens + estimated_tokens) customer.token_limit
            ⊎ ((priority ≡ high) × (10 * global.reserved_tokens < 7 * limit))))
unfolding decide
decide-allowed_iff global customer limit estimated_tokens priority e =
    let sum = customer.reserved_tokens + estimated_tokens in
    let fits = at_most-Fits sum customer.token_limit in
    let room = Fits-at_most sum customer.token_limit in
    (λ h. (ground arith, ground arith, grind (arith, fits)), λ h. grind (arith, room))

never-Fits : (n m : ℕ) (z : ℤ) → ¬ Fits m z → at_most (n + m) z ≡ false
never-Fits n m (pos z) h = elim (Bool-cases (leb (n + m) z)) [
  | inl e ↦ absurd (h (ground arith))
  | inr e ↦ e
]
never-Fits n m (negsuc z) h = refl

-- A call larger than the customer's whole budget is refused, unless its priority is HIGH.
pub decide_starved :
    (global customer : BudgetState) (est : ℕ) (priority : JobPriority)
    → is_high priority ≡ false
    → ¬ Fits est customer.token_limit
    → (decide global customer est priority).allowed ≡ false
unfolding decide
decide_starved global customer est priority low big =
    ground (arith, never-Fits customer.reserved_tokens est customer.token_limit big)
