-- ===== src/Common/Rows.antt =====
-- A table as the list of its rows: an UPDATE with its WHERE, and columns without duplicates.
use mathlib.Core.Path.{◌≡◌, refl, sym, subst}
use mathlib.Core.Logic.{◌≢◌, inl, inr}
use mathlib.Core.List.{List, [], ◌∷◌, ◌++◌, map}
use mathlib.Core.Bool.{Bool, true}
use mathlib.Core.Option
use mathlib.Core.Option.{Option, none, some}
use native.Mathlib.Omega.{arith}
use post_call_processing_pip.Common.Tests.{if◌then◌else◌, Bool-cases}
use post_call_processing_pip.Common.Lists.{All, find}

module _ {ℓ} {A : Type ℓ} where
  unfoldable pub update_where : (A → Bool) → (A → A) → List A → List A
  update_where test f [] = []
  update_where test f (x ∷ xs) = (if test x then f x else x) ∷ update_where test f xs

  -- What an update that respects `P` on the rows that it changes keeps true of every row.
  pub All-update_where {κ} :
      (P : A → Type κ) (test : A → Bool) (f : A → A)
      → ((x : A) → test x ≡ true → P x → P (f x))
      → (xs : List A) → All P xs
      → All P (update_where test f xs)
  unfolding update_where
  All-update_where P test f keep [] h = tt
  All-update_where P test f keep (x ∷ xs) h = elim (Bool-cases (test x)) [
    | inl e ↦ rw e (keep x e h.0, All-update_where P test f keep xs h.1)
    | inr e ↦ rw e (h.0, All-update_where P test f keep xs h.1)
  ]

  -- Every row of the table after an update, in terms of those before.
  pub All-update_where_new {κ} :
      (P : A → Type κ) (test : A → Bool) (f : A → A)
      → ((x : A) → P (if test x then f x else x))
      → (xs : List A) → All P (update_where test f xs)
  unfolding update_where
  All-update_where_new P test f make [] = tt
  All-update_where_new P test f make (x ∷ xs) = (make x, All-update_where_new P test f make xs)

  -- A column that the update leaves alone.
  pub map-update_where {κ} :
      {B : Type κ} (column : A → B) (test : A → Bool) (f : A → A)
      → ((x : A) → column (f x) ≡ column x)
      → (xs : List A) → map column (update_where test f xs) ≡ map column xs
  unfolding update_where
  map-update_where column test f same [] = refl
  map-update_where column test f same (x ∷ xs) = elim (Bool-cases (test x)) [
    | inl e ↦ rw (e, same x, map-update_where column test f same xs)
    | inr e ↦ rw (e, map-update_where column test f same xs)
  ]

  -- A search by a column that the update leaves alone finds the updated row.
  pub find-update_where :
      (probe test : A → Bool) (f : A → A)
      → ((x : A) → probe (f x) ≡ probe x)
      → (xs : List A)
      → find probe (update_where test f xs)
        ≡ Option.map (λ x. if test x then f x else x) (find probe xs)
  unfolding update_where
  find-update_where probe test f same [] = refl
  find-update_where probe test f same (x ∷ xs) =
      ground (arith, same x, find-update_where probe test f same xs)

  pub find-update_where-some :
      (probe test : A → Bool) (f : A → A)
      → ((x : A) → probe (f x) ≡ probe x)
      → (xs : List A) {a : A} → find probe xs ≡ some a
      → find probe (update_where test f xs) ≡ some (if test a then f a else a)
  find-update_where-some probe test f same xs e = rw (find-update_where probe test f same xs, e)

  abbrev pub Absent : A → List A → Type ℓ
  Absent a = All (λ x. a ≢ x)

  abbrev pub Distinct : List A → Type ℓ
  Distinct [] = Unit
  Distinct (x ∷ xs) = Absent x xs × Distinct xs

  Absent-append : (a b : A) (xs : List A) → Absent a xs → a ≢ b → Absent a (xs ++ b ∷ [])
  Absent-append a b [] h ne = (ne, tt)
  Absent-append a b (x ∷ xs) h ne = (h.0, Absent-append a b xs h.1 ne)

  pub Distinct-append : (b : A) (xs : List A) → Distinct xs → Absent b xs → Distinct (xs ++ b ∷ [])
  Distinct-append b [] d h = (tt, tt)
  Distinct-append b (x ∷ xs) d h =
      (Absent-append x b xs d.0 (λ e. h.0 (sym e)), Distinct-append b xs d.1 h.1)

  -- The row that a search finds passes the test.
  pub find-passes :
      (probe : A → Bool) (xs : List A) {a : A} → find probe xs ≡ some a → probe a ≡ true
  find-passes probe [] e = cc
  find-passes probe (x ∷ xs) {a} e = elim (Bool-cases (probe x)) [
    | inl hit ↦ let same : x ≡ a = ground arith in subst (λ y. probe y ≡ true) same hit
    | inr miss ↦ find-passes probe xs (ground arith)
  ]
