-- ===== src/Budget/Limits.antt =====
-- repositories/token_usage.py: reservations never pass the platform's limits.
use post_call_processing_pip.Common.{
  ℕ, ◌≤◌, ◌≡◌, ◌≢◌, refl, sym, ap, ◌∙◌, inl, inr, Bool, true, ◌&&◌, Option, none, some, List, [],
  ◌∷◌, All, ◌==◌, if◌then◌else◌, Option-cases, Bool-cases, ℤ, pos, arith,
}
use mathlib.Core.Path.{subst}
use post_call_processing_pip.Settings.{Settings}
use post_call_processing_pip.Models.{Db, CustomerTokenUsage, JobPriority, is_high}
use post_call_processing_pip.Budget.{decide}
use post_call_processing_pip.Budget.Decision.{decide-allowed_iff}
use post_call_processing_pip.Budget.Usage.{
  global_rate_limit_id, minute_window, customer_budget, is_row, find_usage, get_or_create_usage,
  modify_usage, modify_rows, open_rows, add_reservation, add_usage, budget_state, overflow_priority,
  reserve, record_usage, admit,
}
use post_call_processing_pip.Budget.Rows.{
  get_or_create_usage-found, get_or_create_usage-kept, get_or_create_usage-cases,
  find_usage-modify_usage, find_usage-modify_usage-none,
}

abbrev Fitting : Settings → CustomerTokenUsage → Type 0
Fitting s u =
    (u.reserved_tokens ≤ s.llm_tokens_per_minute)
    × (u.requests_reserved ≤ s.llm_requests_per_minute)

-- In no window has more been reserved than the platform's tokens and requests per minute.
pub record IsWithinLimits (s : Settings) (db : Db) : Type 0 where
  pub at :
      (window : ℕ) (u : CustomerTokenUsage)
      → find_usage global_rate_limit_id window db ≡ some u
      → Fitting s u

-- For a customer that is not the platform's own id, a change of both rows changes the global row
-- of its window once, and no other global row.
modify_rows_global :
    (c w v : ℕ) (f : CustomerTokenUsage → CustomerTokenUsage) (db : Db)
    → c ≢ global_rate_limit_id
    → ((d v : ℕ) (u : CustomerTokenUsage) → is_row d v (f u) ≡ is_row d v u)
    → {u : CustomerTokenUsage} → find_usage global_rate_limit_id v db ≡ some u
    → find_usage global_rate_limit_id v (modify_rows c w f db) ≡ some (if v == w then f u else u)
unfolding modify_rows
modify_rows_global c w v f db other same e =
    let g = global_rate_limit_id in
    let first = find_usage-modify_usage g w g v f db (same g v) e in
    let second = find_usage-modify_usage c w g v f (modify_usage g w f db) (same g v) first in
    second ∙ ap some (not_the_customer g c (v == w) f _ (λ h. other (sym h)))
  where
    not_the_customer :
        (g c : ℕ) (b : Bool) (f : CustomerTokenUsage → CustomerTokenUsage) (u : CustomerTokenUsage)
        → g ≢ c
        → (if (g == c) && b then f u else u) ≡ u
    not_the_customer g c b f u ne = ground arith

modify_rows-none :
    (c w v : ℕ) (f : CustomerTokenUsage → CustomerTokenUsage) (db : Db)
    → ((d v : ℕ) (u : CustomerTokenUsage) → is_row d v (f u) ≡ is_row d v u)
    → find_usage global_rate_limit_id v db ≡ none
    → find_usage global_rate_limit_id v (modify_rows c w f db) ≡ none
unfolding modify_rows
modify_rows-none c w v f db same e =
    let g = global_rate_limit_id in
    find_usage-modify_usage-none c w g v f (modify_usage g w f db) (same g v)
      (find_usage-modify_usage-none g w g v f db (same g v) e)

module _ (s : Settings) where
  get_or_create_usage-IsWithinLimits :
      (c w : ℕ) (b : ℤ) (db : Db)
      → IsWithinLimits s db
      → IsWithinLimits s (get_or_create_usage c w b db).1
  get_or_create_usage-IsWithinLimits c w b db v = record {
    at = λ window u e. elim (get_or_create_usage-cases c w b db global_rate_limit_id window e) [
      | inl old ↦ v.at window u old
      | inr new ↦ ground arith
    ];
  }

  open_rows-IsWithinLimits :
      (c w : ℕ) (b : ℤ) (db : Db) → IsWithinLimits s db → IsWithinLimits s (open_rows s c w b db).2
  unfolding open_rows
  open_rows-IsWithinLimits c w b db v =
      get_or_create_usage-IsWithinLimits c w b _
        (get_or_create_usage-IsWithinLimits global_rate_limit_id w _ db v)

  -- The global row that the session holds is in the table.
  open_rows-found :
      (c w : ℕ) (b : ℤ) (db : Db)
      → find_usage global_rate_limit_id w (open_rows s c w b db).2 ≡ some (open_rows s c w b db).0
  unfolding open_rows
  open_rows-found c w b db =
      get_or_create_usage-kept c w b _ global_rate_limit_id w
        (get_or_create_usage-found global_rate_limit_id w (pos s.llm_tokens_per_minute) db)

  -- A change of both rows that leaves their keys alone: for the global rows it is the change of
  -- the one, if the customer is another.
  modify_rows-IsWithinLimits :
      (c w : ℕ) (f : CustomerTokenUsage → CustomerTokenUsage) (db : Db)
      → c ≢ global_rate_limit_id
      → ((d v : ℕ) (u : CustomerTokenUsage) → is_row d v (f u) ≡ is_row d v u)
      → ((u : CustomerTokenUsage) → find_usage global_rate_limit_id w db ≡ some u → Fitting s (f u))
      → IsWithinLimits s db
      → IsWithinLimits s (modify_rows c w f db)
  modify_rows-IsWithinLimits c w f db other same fits v = record {
    at = λ window u e. elim (Option-cases (find_usage global_rate_limit_id window db)) [
      | inl miss ↦ absurd (ground (arith, modify_rows-none c w window f db same miss))
      | inr (old, hit) ↦ changed window u old e hit
    ];
  }
    where
      changed :
          (window : ℕ) (u old : CustomerTokenUsage)
          → find_usage global_rate_limit_id window (modify_rows c w f db) ≡ some u
          → find_usage global_rate_limit_id window db ≡ some old
          → Fitting s u
      changed window u old e hit =
          let now_is = modify_rows_global c w window f db other same hit in
          elim (Bool-cases (window == w)) [
            | inl this ↦
                let at_w : window ≡ w = ground arith in
                let is_new : f old ≡ u = ground arith in
                subst (Fitting s) is_new (fits old (rw (← at_w) hit))
            | inr other_window ↦
                let is_old : old ≡ u = ground arith in
                subst (Fitting s) is_old (v.at window old hit)
          ]

  pub reserve-IsWithinLimits :
      (c est now : ℕ) (overflow : Bool) (budget : Option ℤ) (db : Db)
      → c ≢ global_rate_limit_id
      → IsWithinLimits s db
      → IsWithinLimits s (reserve s c est overflow now budget db).1
  unfolding reserve
  reserve-IsWithinLimits c est now overflow budget db other v = elim (Bool-cases allowed) [
    | inl ok ↦ rw ok (
        modify_rows-IsWithinLimits c window (add_reservation est) opened other (λ d v u. refl)
          (room ok) still)
    | inr out ↦ rw out still
  ]
    where
      window : ℕ
      window = minute_window now

      z : ℤ
      z = customer_budget s budget

      rows : CustomerTokenUsage × CustomerTokenUsage × Db
      rows = open_rows s c window z db

      opened : Db
      opened = rows.2

      still : IsWithinLimits s opened
      still = open_rows-IsWithinLimits c window z db v

      allowed : Bool
      allowed =
          (decide (budget_state (pos s.llm_tokens_per_minute) s.llm_requests_per_minute rows.0)
            (budget_state z s.llm_requests_per_minute rows.1) est
            (overflow_priority overflow)).allowed

      room :
          allowed ≡ true
          → (u : CustomerTokenUsage) → find_usage global_rate_limit_id window opened ≡ some u
          → Fitting s (add_reservation est u)
      room ok u e =
          let same : u ≡ rows.0 = ground (arith, open_rows-found c window z db) in
          let fits =
            (decide-allowed_iff
                (budget_state (pos s.llm_tokens_per_minute) s.llm_requests_per_minute rows.0)
                (budget_state z s.llm_requests_per_minute rows.1) s.llm_tokens_per_minute est
                (overflow_priority overflow) refl).0
              ok in
          rw same (fits.0, fits.1)

  record_usage-IsWithinLimits :
      (c tokens now : ℕ) (budget : Option ℤ) (db : Db)
      → c ≢ global_rate_limit_id
      → IsWithinLimits s db
      → IsWithinLimits s (record_usage s c tokens now budget db)
  unfolding record_usage
  record_usage-IsWithinLimits c tokens now budget db other v =
      let z = customer_budget s budget in
      let still = open_rows-IsWithinLimits c (minute_window now) z db v in
      modify_rows-IsWithinLimits c (minute_window now) (add_usage tokens)
        (open_rows s c (minute_window now) z db).2 other (λ d w u. refl)
        (λ u e. still.at (minute_window now) u e) still

-- A call of the rate limiter: its customer, tokens, priority, the clock, the budget passed along.
pub data Request : Type 0 where
  admits : ℕ → ℕ → JobPriority → ℕ → Option ℤ → Request
  records : ℕ → ℕ → ℕ → Option ℤ → Request

abbrev pub customer_of : Request → ℕ
customer_of (admits c tokens priority now budget) = c
customer_of (records c tokens now budget) = c

unfoldable pub serve : Settings → List Request → Db → Db
serve s [] db = db
serve s (admits c tokens priority now budget ∷ rs) db =
    serve s rs (admit s c tokens priority now budget db).1
serve s (records c tokens now budget ∷ rs) db = serve s rs (record_usage s c tokens now budget db)

-- Whatever calls come in, at whatever times and priorities and with whatever budgets, no window's
-- reservations pass the platform's tokens per minute or its requests per minute, if no customer has
-- the id under which the platform's own row is kept and none passes them at the start.
pub serve-IsWithinLimits :
    (s : Settings) (rs : List Request) (db : Db)
    → All (λ r. customer_of r ≢ global_rate_limit_id) rs
    → IsWithinLimits s db
    → IsWithinLimits s (serve s rs db)
unfolding serve admit
serve-IsWithinLimits s [] db h v = v
serve-IsWithinLimits s (admits c tokens priority now budget ∷ rs) db h v =
    serve-IsWithinLimits s rs _ h.1
      (reserve-IsWithinLimits s c tokens now (is_high priority) budget db h.0 v)
serve-IsWithinLimits s (records c tokens now budget ∷ rs) db h v =
    serve-IsWithinLimits s rs _ h.1 (record_usage-IsWithinLimits s c tokens now budget db h.0 v)
