-- ===== src/Capacity/Signal.antt =====
-- services/circuit_breaker.py: when the dialler may go on, and how its delay grows.
use post_call_processing_pip.Common.{
  ℕ, zero, suc, ◌*◌, ◌≤◌, ◌<◌, ◌≡◌, ◌↔◌, refl, sym, ap, ◌∙◌, not, inl, inr, Bool, true, ◌||◌,
  Option, leb, leb→le, if◌then◌else◌, pos, Bool-cases, arith,
}
use native.Mathlib.Nat.{mul-le-mul_left}
use post_call_processing_pip.Text.{Text}
use post_call_processing_pip.Settings.{Settings}
use post_call_processing_pip.Attempt.{ok, ok-injective}
use post_call_processing_pip.Capacity.{
  counter_of, UsageRatio, quotient_at_least, at_least, CapacitySignal, signal_of, capacity_signal,
  check_capacity,
}

abbrev usage : Settings → ℕ → ℕ → UsageRatio
usage s rpm tpm = record {
  rpm = record { current = pos rpm; limit = s.llm_requests_per_minute };
  tpm = record { current = pos tpm; limit = s.llm_tokens_per_minute };
}

quotient_one : (n limit : ℕ) → 0 < limit → (quotient_at_least 1 1 (pos n) limit ≡ leb limit n)
unfolding quotient_at_least
quotient_one n zero h = absurd (omega arith)
quotient_one n (suc limit) h = ground arith

le→leb : (a b : ℕ) → a ≤ b → leb a b ≡ true
le→leb a b h = ground arith

quotient_grows :
    (p q n m limit : ℕ)
    → n ≤ m
    → quotient_at_least p q (pos n) limit ≡ true
    → quotient_at_least p q (pos m) limit ≡ true
unfolding quotient_at_least
quotient_grows p q n m zero le h = h
quotient_grows p q n m (suc limit) le h =
    le→leb _ _ (omega (arith, leb→le (p * suc limit) (q * n) h, mul-le-mul_left q le))

allowed_of : (u : UsageRatio) → (signal_of u).allowed ≡ not (at_least 1 1 u)
unfolding signal_of
allowed_of u = elim (Bool-cases (at_least 1 1 u)) [
  | inl out ↦ rw out refl
  | inr in_ ↦ rw in_ (elim (Bool-cases (at_least 90 100 u)) [
    | inl slow ↦ rw slow refl
    | inr fast ↦ rw fast (elim (Bool-cases (at_least 75 100 u)) [
      | inl warm ↦ rw warm refl
      | inr cool ↦ rw cool refl
    ])
  ])
]

abbrev delay : Bool → Bool → Bool → ℕ
delay out slow warm = if out then 15 else if slow then 5 else if warm then 1 else 0

delay_of :
    (u : UsageRatio)
    → (signal_of u).suggested_delay_seconds
      ≡ delay (at_least 1 1 u) (at_least 90 100 u) (at_least 75 100 u)
unfolding signal_of
delay_of u = elim (Bool-cases (at_least 1 1 u)) [
  | inl out ↦ rw out refl
  | inr in_ ↦ rw in_ (elim (Bool-cases (at_least 90 100 u)) [
    | inl slow ↦ rw slow refl
    | inr fast ↦ rw fast (elim (Bool-cases (at_least 75 100 u)) [
      | inl warm ↦ rw warm refl
      | inr cool ↦ rw cool refl
    ])
  ])
]

-- `b` is true wherever `a` is.
abbrev Implies : Bool → Bool → Type 0
Implies a b = a ≡ true → b ≡ true

delay_grows :
    (a b c a' b' c' : Bool)
    → Implies a a'
    → Implies b b'
    → Implies c c'
    → delay a b c ≤ delay a' b' c'
delay_grows a b c a' b' c' ha hb hc = ground arith

at_least_grows :
    (s : Settings) (p q r r' t t' : ℕ)
    → r ≤ r'
    → t ≤ t'
    → Implies (at_least p q (usage s r t)) (at_least p q (usage s r' t'))
unfolding at_least
at_least_grows s p q r r' t t' hr ht h = ground (
  arith,
  quotient_grows p q r r' s.llm_requests_per_minute hr,
  quotient_grows p q t t' s.llm_tokens_per_minute ht,
)

at_limit :
    (s : Settings) (rpm tpm : ℕ)
    → 0 < s.llm_requests_per_minute
    → 0 < s.llm_tokens_per_minute
    → at_least 1 1 (usage s rpm tpm)
      ≡ (leb s.llm_requests_per_minute rpm || leb s.llm_tokens_per_minute tpm)
unfolding at_least
at_limit s rpm tpm hr ht =
    rw (quotient_one rpm s.llm_requests_per_minute hr, quotient_one tpm s.llm_tokens_per_minute ht)
      refl

below_limits :
    (r limit t limit' : ℕ)
    → (not (leb limit r || leb limit' t) ≡ true) ↔ ((r < limit) × (t < limit'))
below_limits r limit t limit' = (λ h. (ground arith, ground arith), λ h. ground arith)

delay_most : (a b c : Bool) → delay a b c ≤ 15
delay_most a b c = ground arith

module _ (s : Settings) (rpm_value tpm_value : Option Text) (rpm tpm : ℕ)
    (rpm_read : counter_of rpm_value ≡ ok (pos rpm))
    (tpm_read : counter_of tpm_value ≡ ok (pos tpm)) where
  signalled : capacity_signal s rpm_value tpm_value ≡ ok (signal_of (usage s rpm tpm))
  unfolding capacity_signal
  signalled = rw (rpm_read, tpm_read) refl

  checked : check_capacity s rpm_value tpm_value ≡ ok (not (at_least 1 1 (usage s rpm tpm)))
  unfolding check_capacity
  checked = rw signalled (ap ok (allowed_of (usage s rpm tpm)))

  -- With positive limits, and counters in Redis that are no negative numbers, the dialler may go
  -- on exactly while both the calls and the tokens of the minute are below their limits.
  pub check_capacity_iff :
      0 < s.llm_requests_per_minute
      → 0 < s.llm_tokens_per_minute
      → (check_capacity s rpm_value tpm_value ≡ ok true)
        ↔ ((rpm < s.llm_requests_per_minute) × (tpm < s.llm_tokens_per_minute))
  check_capacity_iff hr ht =
      let limits = below_limits rpm s.llm_requests_per_minute tpm s.llm_tokens_per_minute in
      let same = at_limit s rpm tpm hr ht in
      (
        λ h. limits.0 (ap not (sym same) ∙ ok-injective _ true (sym checked ∙ h)),
        λ h. checked ∙ ap ok (ap not same ∙ limits.1 h),
      )

  -- With counters in Redis that are no negative numbers, the suggested delay is at most 15 seconds,
  -- and never shrinks when the calls or the tokens of the minute grow, whatever the limits, zero
  -- included.
  pub capacity_signal_grows :
      (rpm_later tpm_later : Option Text) (rpm' tpm' : ℕ)
      → counter_of rpm_later ≡ ok (pos rpm')
      → counter_of tpm_later ≡ ok (pos tpm')
      → rpm ≤ rpm'
      → tpm ≤ tpm'
      → (now later : CapacitySignal) × (capacity_signal s rpm_value tpm_value ≡ ok now)
        × (capacity_signal s rpm_later tpm_later ≡ ok later)
        × (now.suggested_delay_seconds ≤ later.suggested_delay_seconds)
        × (later.suggested_delay_seconds ≤ 15)
  unfolding capacity_signal
  capacity_signal_grows rpm_later tpm_later rpm' tpm' rpm_read' tpm_read' hr ht =
      let u = usage s rpm tpm in
      let u' = usage s rpm' tpm' in
      let grows =
        delay_grows (at_least 1 1 u) (at_least 90 100 u) (at_least 75 100 u) (at_least 1 1 u')
          (at_least 90 100 u') (at_least 75 100 u') (at_least_grows s 1 1 rpm rpm' tpm tpm' hr ht)
          (at_least_grows s 90 100 rpm rpm' tpm tpm' hr ht)
          (at_least_grows s 75 100 rpm rpm' tpm tpm' hr ht) in
      (
        signal_of u,
        signal_of u',
        signalled,
        rw (rpm_read', tpm_read') refl,
        rw (delay_of u, delay_of u') grows,
        rw (delay_of u') (delay_most (at_least 1 1 u') (at_least 90 100 u') (at_least 75 100 u')),
      )
