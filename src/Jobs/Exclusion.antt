-- ===== src/Jobs/Exclusion.antt =====
-- repositories/jobs.py, `claim_ready_jobs`: priorities are respected, and no job is claimed twice.
use mathlib.Core.Path.{subst}
use post_call_processing_pip.Common.{
  ℕ, ◌≤◌, ◌<◌, ◌≡◌, refl, ◌∙◌, ◌⊎◌, inl, inr, Bool, true, false, some, List, [], ◌∷◌, map,
  if◌then◌else◌, length, take, drop, All, All-weaken, All-select, All-zip, length-map,
  All-update_where_new, update_where, Distinct, Bool-cases, arith, select, ltb,
}
use post_call_processing_pip.Text.{Text}
use post_call_processing_pip.Models.{Db, InteractionJob, JobType}
use post_call_processing_pip.Jobs.{
  get, is_ready, in_order, order_by, select_ready, contains_id, claim_row, claim_ready_jobs,
  priority_order,
}
use post_call_processing_pip.Jobs.Order.{
  All-order_by, All-select_of, All-drop, All-contains_id, order_by-IsSorted, take_before_drop,
  contains_id-order_by, contains_id-take_or_drop, contains_id-select, only_row,
}
use post_call_processing_pip.Jobs.Claim.{
  IsEligible, is_free, not_eligible, contains_id-map, All-select_ready,
}

-- Of a more urgent priority, or of the same priority and not created later.
abbrev pub Precedes : InteractionJob → InteractionJob → Type 0
Precedes a b =
    (priority_order a.priority < priority_order b.priority)
    ⊎ ((priority_order a.priority ≡ priority_order b.priority) × (a.created_at ≤ b.created_at))

in_order-Precedes : (a b : InteractionJob) → in_order a b ≡ true → Precedes a b
unfolding in_order
in_order-Precedes a b h =
    elim (Bool-cases (ltb (priority_order a.priority) (priority_order b.priority))) [
      | inl less ↦ inl (ground arith)
      | inr more ↦ inr (ground arith, ground arith)
    ]

All-map_of {ℓ} :
    (P : InteractionJob → Type ℓ) (f : InteractionJob → InteractionJob) (xs : List InteractionJob)
    → All (λ x. P (f x)) xs
    → All P (map f xs)
All-map_of P f [] h = tt
All-map_of P f (x ∷ xs) h = (h.0, All-map_of P f xs h.1)

-- A row that stands before all that was cut off stands before a given one of these.
before_row :
    (a : InteractionJob) (i : ℕ) (rest : List InteractionJob) (j : InteractionJob)
    → All (λ x. x.id ≡ i → x ≡ j) rest
    → contains_id i rest ≡ true
    → All (λ b. in_order a b ≡ true) rest
    → Precedes a j
before_row a i rest j only c h =
    let (x, at, both) = All-contains_id _ i rest (All-zip _ _ rest only h) c in
    in_order-Precedes a j (subst (λ y. in_order a y ≡ true) (both.0 at) both.1)

module _ (held : ℕ → Bool) (worker_id : Text) (job_types : List JobType) (limit now : ℕ) where
  -- In a table without two equal ids, an eligible job is claimed, or the claim is full and all that
  -- it returns precede the job, by priority first and by age within a priority.
  pub claim_ready_jobs_priority :
      (i : ℕ) (db : Db) (j : InteractionJob)
      → Distinct (map (λ x. x.id) db.jobs)
      → get i db ≡ some j
      → IsEligible held job_types now j
      → let claimed = (claim_ready_jobs held worker_id job_types limit now db).0 in
        (contains_id i claimed ≡ true)
        ⊎ ((length claimed ≡ limit) × All (λ c. Precedes c j) claimed)
  unfolding claim_ready_jobs select_ready
  claim_ready_jobs_priority i db j d e v =
      let here =
        contains_id-order_by i (select free db.jobs)
        ∙ contains_id-select i free db.jobs e
            (not_eligible held worker_id job_types limit now j v) in
      let only = All-order_by _ _ (All-select_of _ free db.jobs (only_row i db.jobs d e)) in
      elim (contains_id-take_or_drop i limit sorted here) [
        | inl c ↦ inl (contains_id-map i (claim_row worker_id now) (λ _. refl) _ ∙ c)
        | inr (c, full) ↦ inr (
          length-map (claim_row worker_id now) _ ∙ full,
          All-map_of _ (claim_row worker_id now) _ (
              All-weaken
                (λ a h. before_row a i (drop limit sorted) j (All-drop _ limit sorted only) c h)
                (take limit sorted) (take_before_drop limit sorted (order_by-IsSorted _))),
        )
      ]
    where
      free : InteractionJob → Bool
      free = is_free held worker_id job_types limit now

      sorted : List InteractionJob
      sorted = order_by (select free db.jobs)

  -- After a claim a row was not selected, or no claim may select it.
  abbrev IsSettled : List InteractionJob → InteractionJob → Type 0
  IsSettled selected y =
      (contains_id y.id selected ≡ false) ⊎ (is_free held worker_id job_types limit now y ≡ false)

  claim_row-IsSettled :
      (selected : List InteractionJob) (worker : Text) (time : ℕ) (x : InteractionJob)
      → IsSettled selected (if contains_id x.id selected then claim_row worker time x else x)
  unfolding is_ready
  claim_row-IsSettled selected worker time x = elim (Bool-cases (contains_id x.id selected)) [
    | inl e ↦ rw e (inr (ground arith))
    | inr e ↦ rw e (inl e)
  ]

  settled_out :
      (selected : List InteractionJob) (y : InteractionJob)
      → IsSettled selected y
      → is_free held worker_id job_types limit now y ≡ true
      → contains_id y.id selected ≡ false
  settled_out selected y (inl out) h = out
  settled_out selected y (inr busy) h = absurd (ground arith)

  not_again :
      (selected : List InteractionJob) (worker : Text) (time : ℕ) (xs : List InteractionJob)
      → All
          (λ y. contains_id y.id selected ≡ false)
          (select_ready held job_types limit now
            (update_where (λ x. contains_id x.id selected) (claim_row worker time) xs))
  not_again selected worker time xs =
      let free = is_free held worker_id job_types limit now in
      let after = update_where (λ x. contains_id x.id selected) (claim_row worker time) xs in
      All-select_ready held worker_id job_types limit now _ after (
        All-weaken (λ y h. settled_out selected y h.0 h.1) (select free after)
          (All-zip _ _ _
            (All-select_of _ free after
              (All-update_where_new _ _ _ (claim_row-IsSettled selected worker time) xs))
            (All-select free after)))

module _ (held : ℕ → Bool) (worker_id : Text) (job_types : List JobType) (limit now : ℕ) where
  -- A job that one claim returned is not returned by a claim on the tables that it left, whichever
  -- worker makes it, for whatever types, limit and time.
  pub claim_ready_jobs_once :
      (held' : ℕ → Bool) (worker_id' : Text) (job_types' : List JobType) (limit' now' i : ℕ)
      (db : Db)
      → contains_id i (claim_ready_jobs held worker_id job_types limit now db).0 ≡ true
      → contains_id i
          (claim_ready_jobs held' worker_id' job_types' limit' now'
            (claim_ready_jobs held worker_id job_types limit now db).1).0
        ≡ false
  unfolding claim_ready_jobs
  claim_ready_jobs_once held' worker_id' job_types' limit' now' i db c =
      elim (Bool-cases (contains_id i again)) [
        | inl twice ↦
            let (x, at, out) = All-contains_id _ i again others twice in
            absurd
              (ground (arith, contains_id-map i (claim_row worker_id now) (λ _. refl) selected))
        | inr once ↦ contains_id-map i (claim_row worker_id' now') (λ _. refl) again ∙ once
      ]
    where
      selected : List InteractionJob
      selected = select_ready held job_types limit now db.jobs

      again : List InteractionJob
      again =
          select_ready held' job_types' limit' now'
            (update_where (λ x. contains_id x.id selected) (claim_row worker_id now) db.jobs)

      others : All (λ y. contains_id y.id selected ≡ false) again
      others = not_again held' worker_id' job_types' limit' now' selected worker_id now db.jobs
