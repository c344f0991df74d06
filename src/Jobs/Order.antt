-- ===== src/Jobs/Order.antt =====
-- repositories/jobs.py, the SELECT of `claim_ready_jobs`: filter, order and limit as lists.
use post_call_processing_pip.Common.{
  ℕ, zero, suc, ◌≡◌, refl, sym, ◌⊎◌, inl, inr, Bool, true, false, ◌||◌, some, List, [], ◌∷◌, map,
  ◌==◌, length, take, drop, All, All-weaken, find, select, Distinct, Absent, Bool-cases, arith,
}
use post_call_processing_pip.Models.{InteractionJob}
use post_call_processing_pip.Jobs.{in_order, insert_row, order_by, contains_id}

-- Each row may stand before all later ones.
abbrev pub IsSorted : List InteractionJob → Type 0
IsSorted [] = Unit
IsSorted (a ∷ as_) = All (λ b. in_order a b ≡ true) as_ × IsSorted as_

in_order_total : (a b : InteractionJob) → in_order a b ≡ false → in_order b a ≡ true
unfolding in_order
in_order_total a b h = ground arith

in_order_trans :
    (a b c : InteractionJob) → in_order a b ≡ true → in_order b c ≡ true → in_order a c ≡ true
unfolding in_order
in_order_trans a b c h k = ground arith

module _ {ℓ} (P : InteractionJob → Type ℓ) where
  All-insert_row :
      (a : InteractionJob) (bs : List InteractionJob) → P a → All P bs → All P (insert_row a bs)
  unfolding insert_row
  All-insert_row a [] p h = (p, tt)
  All-insert_row a (b ∷ bs) p h = elim (Bool-cases (in_order a b)) [
    | inl e ↦ rw e (p, h)
    | inr e ↦ rw e (h.0, All-insert_row a bs p h.1)
  ]

  pub All-order_by : (xs : List InteractionJob) → All P xs → All P (order_by xs)
  unfolding order_by
  All-order_by [] h = tt
  All-order_by (x ∷ xs) h = All-insert_row x (order_by xs) h.0 (All-order_by xs h.1)

  pub All-select_of :
      (test : InteractionJob → Bool) (xs : List InteractionJob) → All P xs → All P (select test xs)
  All-select_of test [] h = tt
  All-select_of test (x ∷ xs) h = elim (Bool-cases (test x)) [
    | inl e ↦ rw e (h.0, All-select_of test xs h.1)
    | inr e ↦ rw e (All-select_of test xs h.1)
  ]

  pub All-drop : (n : ℕ) (xs : List InteractionJob) → All P xs → All P (drop n xs)
  All-drop zero xs h = h
  All-drop (suc n) [] h = tt
  All-drop (suc n) (x ∷ xs) h = All-drop n xs h.1

  -- A row with the id is among the rows, and has what they all have.
  pub All-contains_id :
      (i : ℕ) (xs : List InteractionJob)
      → All P xs
      → contains_id i xs ≡ true
      → (x : InteractionJob) × (x.id ≡ i) × P x
  unfolding contains_id
  All-contains_id i [] h e = cc
  All-contains_id i (x ∷ xs) h e = elim (Bool-cases (x.id == i)) [
    | inl hit ↦ (x, ground arith, h.0)
    | inr miss ↦ All-contains_id i xs h.1 (ground arith)
  ]

insert_row-IsSorted :
    (a : InteractionJob) (bs : List InteractionJob) → IsSorted bs → IsSorted (insert_row a bs)
unfolding insert_row
insert_row-IsSorted a [] s = (tt, tt)
insert_row-IsSorted a (b ∷ bs) s = elim (Bool-cases (in_order a b)) [
  | inl e ↦ rw e ((e, All-weaken (λ c h. in_order_trans a b c e h) bs s.0), s)
  | inr e ↦ rw e (All-insert_row _ a bs (in_order_total a b e) s.0, insert_row-IsSorted a bs s.1)
]

pub order_by-IsSorted : (xs : List InteractionJob) → IsSorted (order_by xs)
unfolding order_by
order_by-IsSorted [] = tt
order_by-IsSorted (x ∷ xs) = insert_row-IsSorted x (order_by xs) (order_by-IsSorted xs)

-- What is cut off by the limit comes after everything that is kept.
pub take_before_drop :
    (n : ℕ) (xs : List InteractionJob)
    → IsSorted xs
    → All (λ a. All (λ b. in_order a b ≡ true) (drop n xs)) (take n xs)
take_before_drop zero xs s = tt
take_before_drop (suc n) [] s = tt
take_before_drop (suc n) (x ∷ xs) s = (All-drop _ n xs s.0, take_before_drop n xs s.1)

contains_id-insert_row :
    (i : ℕ) (a : InteractionJob) (bs : List InteractionJob)
    → contains_id i (insert_row a bs) ≡ (a.id == i || contains_id i bs)
unfolding contains_id insert_row
contains_id-insert_row i a [] = refl
contains_id-insert_row i a (b ∷ bs) = ground (arith, contains_id-insert_row i a bs)

pub contains_id-order_by :
    (i : ℕ) (xs : List InteractionJob) → contains_id i (order_by xs) ≡ contains_id i xs
unfolding contains_id order_by
contains_id-order_by i [] = refl
contains_id-order_by i (x ∷ xs) =
    ground (arith, contains_id-insert_row i x (order_by xs), contains_id-order_by i xs)

-- A row of the list is kept by the limit, or it is cut off and the limit is used up.
pub contains_id-take_or_drop :
    (i n : ℕ) (xs : List InteractionJob)
    → contains_id i xs ≡ true
    → (contains_id i (take n xs) ≡ true)
      ⊎ ((contains_id i (drop n xs) ≡ true) × (length (take n xs) ≡ n))
unfolding contains_id
contains_id-take_or_drop i zero xs h = inr (h, refl)
contains_id-take_or_drop i (suc n) [] h = cc
contains_id-take_or_drop i (suc n) (x ∷ xs) h = ground (arith, contains_id-take_or_drop i n xs)

pub contains_id-select :
    (i : ℕ) (test : InteractionJob → Bool) (xs : List InteractionJob) {j : InteractionJob}
    → find (λ x. x.id == i) xs ≡ some j
    → test j ≡ true
    → contains_id i (select test xs) ≡ true
unfolding contains_id
contains_id-select i test [] e h = cc
contains_id-select i test (x ∷ xs) {j} e h = elim (Bool-cases (x.id == i)) [
  | inl hit ↦
      let same : x ≡ j = ground arith in
      let passes : test x ≡ true = rw same h in rw passes (ground arith)
  | inr miss ↦ ground (arith, contains_id-select i test xs {j = j})
]

not-id :
    (i : ℕ) (j : InteractionJob) (xs : List InteractionJob)
    → Absent i (map (λ x. x.id) xs)
    → All (λ x. x.id ≡ i → x ≡ j) xs
not-id i j [] h = tt
not-id i j (x ∷ xs) h = (λ e. absurd (h.0 (sym e)), not-id i j xs h.1)

-- Ids being distinct, the row that is found by an id is the only one that has it.
pub only_row :
    (i : ℕ) (xs : List InteractionJob) {j : InteractionJob}
    → Distinct (map (λ x. x.id) xs)
    → find (λ x. x.id == i) xs ≡ some j
    → All (λ x. x.id ≡ i → x ≡ j) xs
only_row i [] d e = tt
only_row i (x ∷ xs) {j} d e = elim (Bool-cases (x.id == i)) [
  | inl hit ↦
      let same : x.id ≡ i = ground arith in (λ _. ground arith, not-id i j xs (rw same at d.0))
  | inr miss ↦ (λ same. absurd (ground arith), only_row i xs d.1 (ground arith))
]
