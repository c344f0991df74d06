-- ===== src/Budget/Rows.antt =====
-- repositories/token_usage.py: which row of `customer_token_usage` each step finds or changes.
use post_call_processing_pip.Common.{
  ℕ, ◌≡◌, ◌∙◌, ◌⊎◌, inl, inr, true, ◌&&◌, none, some, List, [], ◌∷◌, ◌++◌, ◌==◌, if◌then◌else◌,
  find, find-passes, find-update_where-some, find-update_where, Option-cases, ℤ, arith,
}
use post_call_processing_pip.Models.{Db, CustomerTokenUsage}
use post_call_processing_pip.Budget.Usage.{
  is_row, find_usage, new_usage, get_or_create_usage, modify_usage,
}

-- The row that a search finds has the customer and the window that were asked for.
pub find_usage_key :
    (c w : ℕ) (db : Db) {u : CustomerTokenUsage}
    → find_usage c w db ≡ some u
    → (u.customer_id ≡ c) × (u.window_start ≡ w)
find_usage_key c w db {u} e =
    let passes = find-passes (is_row c w) db.usage e in (ground arith, ground arith)

find-append_cases :
    (c w : ℕ) (xs : List CustomerTokenUsage) (x : CustomerTokenUsage) {u : CustomerTokenUsage}
    → find (is_row c w) (xs ++ x ∷ []) ≡ some u
    → (find (is_row c w) xs ≡ some u) ⊎ (u ≡ x)
find-append_cases c w [] x {u} e = ground arith
find-append_cases c w (y ∷ xs) x {u} e = ground (arith, find-append_cases c w xs x {u = u})

find-append_kept :
    (c w : ℕ) (xs : List CustomerTokenUsage) (x : CustomerTokenUsage) {u : CustomerTokenUsage}
    → find (is_row c w) xs ≡ some u
    → find (is_row c w) (xs ++ x ∷ []) ≡ some u
find-append_kept c w [] x {u} e = cc
find-append_kept c w (y ∷ xs) x {u} e = ground (arith, find-append_kept c w xs x {u = u})

find-append_new :
    (c w : ℕ) (xs : List CustomerTokenUsage) (x : CustomerTokenUsage)
    → find (is_row c w) xs ≡ none
    → is_row c w x ≡ true
    → find (is_row c w) (xs ++ x ∷ []) ≡ some x
find-append_new c w [] x e h = rw h
find-append_new c w (y ∷ xs) x e h = ground (arith, find-append_new c w xs x)

module _ (c w : ℕ) (b : ℤ) (db : Db) where
  missing :
      find_usage c w db ≡ none
      → get_or_create_usage c w b db
        ≡ (new_usage c w b, record db { usage = db.usage ++ new_usage c w b ∷ [] })
  unfolding get_or_create_usage
  missing e = rw (e, get_or_create_usage)

  present :
      {u : CustomerTokenUsage} → find_usage c w db ≡ some u → get_or_create_usage c w b db ≡ (u, db)
  unfolding get_or_create_usage
  present e = rw (e, get_or_create_usage)

  -- The row that is returned is the one in the table.
  pub get_or_create_usage-found :
      find_usage c w (get_or_create_usage c w b db).1 ≡ some (get_or_create_usage c w b db).0
  get_or_create_usage-found = elim (Option-cases (find_usage c w db)) [
    | inl e ↦ rw (missing e) (find-append_new c w db.usage _ e (ground arith))
    | inr (u, e) ↦ rw (present e) e
  ]

  -- Rows that were there stay.
  pub get_or_create_usage-kept :
      (d v : ℕ) {u : CustomerTokenUsage}
      → find_usage d v db ≡ some u
      → find_usage d v (get_or_create_usage c w b db).1 ≡ some u
  get_or_create_usage-kept d v e = elim (Option-cases (find_usage c w db)) [
    | inl miss ↦ rw (missing miss) (find-append_kept d v db.usage _ e)
    | inr (_, hit) ↦ rw (present hit) e
  ]

  -- A row that is there afterwards was there, or is the new one.
  pub get_or_create_usage-cases :
      (d v : ℕ) {u : CustomerTokenUsage}
      → find_usage d v (get_or_create_usage c w b db).1 ≡ some u
      → (find_usage d v db ≡ some u) ⊎ (u ≡ new_usage c w b)
  get_or_create_usage-cases d v {u} e = elim (Option-cases (find_usage c w db)) [
    | inl miss ↦ find-append_cases d v db.usage _ (rw (missing miss) at e)
    | inr (_, hit) ↦ inl (rw (present hit) at e)
  ]

-- A modification changes the row of its key, and no row of another key.
pub find_usage-modify_usage :
    (c w d v : ℕ) (f : CustomerTokenUsage → CustomerTokenUsage) (db : Db)
    → ((u : CustomerTokenUsage) → is_row d v (f u) ≡ is_row d v u)
    → {u : CustomerTokenUsage} → find_usage d v db ≡ some u
    → find_usage d v (modify_usage c w f db) ≡ some (if (d == c) && (v == w) then f u else u)
unfolding modify_usage
find_usage-modify_usage c w d v f db same {u} e =
    let (customer, window) = find_usage_key d v db e in
    find-update_where-some (is_row d v) (is_row c w) f same db.usage e ∙ rw (customer, window)

pub find_usage-modify_usage-none :
    (c w d v : ℕ) (f : CustomerTokenUsage → CustomerTokenUsage) (db : Db)
    → ((u : CustomerTokenUsage) → is_row d v (f u) ≡ is_row d v u)
    → find_usage d v db ≡ none
    → find_usage d v (modify_usage c w f db) ≡ none
unfolding modify_usage
find_usage-modify_usage-none c w d v f db same e =
    rw (find-update_where (is_row d v) (is_row c w) f same db.usage, e)
