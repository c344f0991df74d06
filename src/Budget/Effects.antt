-- ===== src/Budget/Effects.antt =====
-- repositories/token_usage.py: what a reservation does to each row, and which never succeeds.
use post_call_processing_pip.Common.{
  ℕ, ◌≡◌, ◌≢◌, refl, ap, ◌∙◌, inl, inr, Bool, false, ◌&&◌, ◌||◌, Option, some, ◌==◌, if◌then◌else◌,
  Bool-cases, ℤ, pos, arith,
}
use post_call_processing_pip.Settings.{Settings}
use post_call_processing_pip.Models.{Db, CustomerTokenUsage, JobPriority, high, is_high}
use post_call_processing_pip.Budget.{decide}
use post_call_processing_pip.Budget.Decision.{Fits, decide_starved}
use post_call_processing_pip.Budget.Usage.{
  global_rate_limit_id, minute_window, customer_budget, is_row, find_usage, modify_usage,
  modify_rows, open_rows, add_reservation, budget_state, overflow_priority, reserve, admit,
}
use post_call_processing_pip.Budget.Rows.{get_or_create_usage-kept, find_usage-modify_usage}

one_of_two :
    (g c d : ℕ) (b : Bool) (f : CustomerTokenUsage → CustomerTokenUsage) (u : CustomerTokenUsage)
    → c ≢ g
    → let first = if (d == g) && b then f u else u in
      (if (d == c) && b then f first else first) ≡ (if (d == g || d == c) && b then f u else u)
one_of_two g c d b f u ne = ground arith

modify_rows_lem :
    (c w d v : ℕ) (f : CustomerTokenUsage → CustomerTokenUsage) (db : Db)
    → c ≢ global_rate_limit_id
    → ((d v : ℕ) (u : CustomerTokenUsage) → is_row d v (f u) ≡ is_row d v u)
    → {u : CustomerTokenUsage} → find_usage d v db ≡ some u
    → find_usage d v (modify_rows c w f db)
      ≡ some (if (d == global_rate_limit_id || d == c) && v == w then f u else u)
unfolding modify_rows
modify_rows_lem c w d v f db other same {u} e =
    let g = global_rate_limit_id in
    let first = find_usage-modify_usage g w d v f db (same d v) e in
    let second = find_usage-modify_usage c w d v f (modify_usage g w f db) (same d v) first in
    second ∙ ap some (one_of_two g c d (v == w) f u other)

module _ (s : Settings) where
  open_rows-kept :
      (c w : ℕ) (b : ℤ) (db : Db) (d v : ℕ) {u : CustomerTokenUsage}
      → find_usage d v db ≡ some u
      → find_usage d v (open_rows s c w b db).2 ≡ some u
  unfolding open_rows
  open_rows-kept c w b db d v e =
      get_or_create_usage-kept c w b _ d v
        (get_or_create_usage-kept global_rate_limit_id w (pos s.llm_tokens_per_minute) db d v e)

  module _ (c est now : ℕ) (overflow : Bool) (budget : Option ℤ) (db : Db) where
    -- An admitted reservation adds its tokens and one request to the platform's row and to the
    -- customer's row of the current minute; every other row that was there, and every row when the
    -- reservation is refused, stays as it was. The customer's id is not the platform's.
    pub reserve_lem :
        (d v : ℕ) (u : CustomerTokenUsage)
        → c ≢ global_rate_limit_id
        → find_usage d v db ≡ some u
        → let (result, db') = reserve s c est overflow now budget db in
          find_usage d v db'
          ≡ some (
              if result.allowed && ((d == global_rate_limit_id || d == c) && v == minute_window now)
              then add_reservation est u
              else u)
    unfolding reserve
    reserve_lem d v u other e =
        let z = customer_budget s budget in
        let window = minute_window now in
        let rows = open_rows s c window z db in
        let kept = open_rows-kept c window z db d v e in
        let allowed =
          (decide (budget_state (pos s.llm_tokens_per_minute) s.llm_requests_per_minute rows.0)
            (budget_state z s.llm_requests_per_minute rows.1) est
            (overflow_priority overflow)).allowed in
        elim (Bool-cases allowed) [
          | inl ok ↦
              rw ok (
                modify_rows_lem c window d v (add_reservation est) rows.2 other (λ d v u. refl)
                  kept)
          | inr out ↦ rw out kept
        ]

not_high : (p : JobPriority) → p ≢ high → is_high p ≡ false
not_high p h = ground arith

-- A reservation that alone is larger than the customer's budget is refused in every state of the
-- tables and at every time, unless the job's priority is HIGH: no later window ever admits it.
pub admit_starved :
    (s : Settings) (c est : ℕ) (priority : JobPriority) (now : ℕ) (budget : Option ℤ) (db : Db)
    → priority ≢ high
    → ¬ Fits est (customer_budget s budget)
    → (admit s c est priority now budget db).0.admitted ≡ false
unfolding admit
admit_starved s c est priority now budget db low big = rw (
    decide_starved (budget_state (pos s.llm_tokens_per_minute) s.llm_requests_per_minute rows.0)
      (budget_state z s.llm_requests_per_minute rows.1) est (overflow_priority (is_high priority))
      (rw (not_high priority low)) big)
  where
    z : ℤ
    z = customer_budget s budget

    rows : CustomerTokenUsage × CustomerTokenUsage × Db
    rows = open_rows s c (minute_window now) z db
