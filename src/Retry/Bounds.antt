-- ===== src/Retry/Bounds.antt =====
-- retries/policy.py: the delay's range, its doubling, and when a job is tried again.
use native.Mathlib.Nat.{pow-suc}
use post_call_processing_pip.Common.{
  ℕ, zero, suc, ◌-◌, ◌*◌, ◌^◌, ◌≤◌, ◌<◌, min, ◌≡◌, ◌⊎◌, inl, inr, true, false, Option, none, some,
  ℤ, arith, Bool-cases, leb, leb→le,
}
use post_call_processing_pip.Retry.{
  ExponentialBackoffPolicy, next_delay, backoff, decide, plus_seconds,
}

pow_pos : (n : ℕ) → 0 < 2 ^ n
pow_pos zero = omega arith
pow_pos (suc n) = rw pow-suc (omega (arith, pow_pos n))

backoff_bounds :
    (p : ExponentialBackoffPolicy) (attempt : ℕ)
    → 0 < p.base_seconds
    → 0 < p.max_seconds
    → (0 < backoff p attempt) × (backoff p attempt ≤ p.max_seconds)
backoff_bounds p attempt b m = grind (arith, pow_pos (attempt - 1))

-- With positive base and maximum, every delay is at least one second and at most `max_seconds`,
-- whatever the attempt and whatever delay the provider asked for, none, zero or negative included.
pub next_delay_bounds :
    (p : ExponentialBackoffPolicy) (attempt : ℕ) (hint : Option ℤ)
    → 0 < p.base_seconds
    → 0 < p.max_seconds
    → (0 < next_delay p attempt hint) × (next_delay p attempt hint ≤ p.max_seconds)
unfolding next_delay
next_delay_bounds p attempt hint b m = ground (arith, backoff_bounds p attempt b m)

double_pow : (n : ℕ) → 2 ^ (suc (suc n) - 1) ≡ 2 * 2 ^ (suc n - 1)
double_pow n =
    let later : suc (suc n) - 1 ≡ suc n = omega arith in
    let sooner : suc n - 1 ≡ n = omega arith in rw (later, sooner, pow-suc) (omega arith)

-- Without a hint the first delay is the base, each later one doubles the one before, and both are
-- cut at `max_seconds`.
pub next_delay_doubles :
    (p : ExponentialBackoffPolicy) (n : ℕ)
    → (next_delay p 1 none ≡ min p.base_seconds p.max_seconds)
      × (next_delay p (suc (suc n)) none ≡ min (2 * next_delay p (suc n) none) p.max_seconds)
unfolding next_delay
next_delay_doubles p n = (omega arith, grind (arith, double_pow n))

-- With positive base and maximum, a retry is granted exactly while attempts are left. It is then
-- planned strictly later than `now`, by at most `max_seconds`; otherwise no time is planned.
pub decide_lem :
    (p : ExponentialBackoffPolicy) (attempt max_attempts now : ℕ) (hint : Option ℤ)
    → 0 < p.base_seconds
    → 0 < p.max_seconds
    → let d = decide p attempt max_attempts now hint in
      ((d.should_retry ≡ true)
        × (attempt < max_attempts)
        × ((t : ℕ) × (d.next_run_at ≡ some t) × (now < t) × (t ≤ plus_seconds now p.max_seconds)))
      ⊎ ((d.should_retry ≡ false) × (max_attempts ≤ attempt) × (d.next_run_at ≡ none))
unfolding decide
decide_lem p attempt max_attempts now hint b m = elim (Bool-cases (leb max_attempts attempt)) [
  | inl e ↦ inr (ground arith, leb→le _ _ e, ground arith)
  | inr e ↦ inl (
    ground arith,
    ground arith,
    (
      plus_seconds now (next_delay p attempt hint),
      ground arith,
      omega (arith, next_delay_bounds p attempt hint b m),
      omega (arith, next_delay_bounds p attempt hint b m),
    ),
  )
]
