-- ===== src/Metrics/Gauges.antt =====
-- metrics/collector.py, `refresh_queue_depths`: what the gauge shows after a refresh.
use post_call_processing_pip.Common.{
  ℕ, zero, suc, ◌+◌, ◌<◌, ◌≡◌, refl, ap, ◌∙◌, ◌⊎◌, Bool, true, false, Option, none, some, List, [],
  ◌∷◌, if◌then◌else◌, length, select, All, All-weaken, Bool-cases, inl, inr, arith,
}
use post_call_processing_pip.Models.{Db, InteractionJob, JobType, JobStatus, same_type}
use post_call_processing_pip.Metrics.{
  same_status, Group, in_group, count_job, group_by, Gauge, set_gauge, set_all,
  refresh_queue_depths,
}

same_type_eq : (t u : JobType) → same_type t u ≡ true → t ≡ u
same_type_eq t u h = ground arith

same_status_eq : (t u : JobStatus) → same_status t u ≡ true → t ≡ u
same_status_eq t u h = ground arith

same_type-sym : (t u : JobType) → same_type t u ≡ same_type u t
same_type-sym t u = ground arith

same_status-sym : (t u : JobStatus) → same_status t u ≡ same_status u t
same_status-sym t u = ground arith

in_group-sym : (t u : JobType) (s r : JobStatus) → in_group t s u r ≡ in_group u r t s
in_group-sym t u s r = rw (same_type-sym t u, same_status-sym s r) refl

-- Equal labels are in the same groups.
in_group-same :
    (t u v : JobType) (s r q : JobStatus)
    → in_group t s u r ≡ true
    → in_group t s v q ≡ in_group u r v q
in_group-same t u v s r q h =
    rw (same_type_eq t u (ground arith), same_status_eq s r (ground arith)) refl

-- The number of the jobs of a type and a status.
abbrev pub count_group : JobType → JobStatus → List InteractionJob → ℕ
count_group t s jobs = length (select (λ j. in_group t s j.job_type j.status) jobs)

-- The size of the first group with these labels.
abbrev look : JobType → JobStatus → List Group → Option ℕ
look t s [] = none
look t s (g ∷ gs) = if in_group t s g.job_type g.status then some g.size else look t s gs

abbrev or_zero : Option ℕ → ℕ
or_zero none = 0
or_zero (some n) = n

look-count_job :
    (t : JobType) (s : JobStatus) (j : InteractionJob) (gs : List Group)
    → look t s (count_job j gs) ≡ (
        if in_group t s j.job_type j.status
        then some (suc (or_zero (look t s gs)))
        else look t s gs)
unfolding count_job
look-count_job t s j [] = refl
look-count_job t s j (g ∷ gs) =
    elim (Bool-cases (in_group j.job_type j.status g.job_type g.status)) [
      | inl hit ↦
          let same : in_group t s j.job_type j.status ≡ in_group t s g.job_type g.status =
            in_group-sym t j.job_type s j.status
            ∙ in_group-same j.job_type g.job_type t j.status g.status s hit
            ∙ in_group-sym g.job_type t g.status s in
          rw (hit, count_job) (rw same (added (in_group t s g.job_type g.status) g.size))
      | inr miss ↦
          rw (miss, count_job)
            (elim (Bool-cases (in_group t s j.job_type j.status)) [
              | inl own ↦
                  let other : in_group t s g.job_type g.status ≡ false =
                    in_group-same t j.job_type g.job_type s j.status g.status own ∙ miss in
                  rw other (look-count_job t s j gs)
              | inr not_own ↦ rw not_own (
                  ap (λ r. if in_group t s g.job_type g.status then some g.size else r)
                    (look-count_job t s j gs ∙ rw not_own refl))
            ])
    ]
  where
    added :
        (b : Bool) (n : ℕ)
        → (if b then some (n + 1) else look t s gs) ≡ (
            if b
            then some (suc (or_zero (if b then some n else look t s gs)))
            else if b
            then some n
            else look t s gs)
    added true n = ap some (omega arith)
    added false n = refl

-- No group, or one with a positive size.
abbrev of_count : ℕ → Option ℕ
of_count zero = none
of_count (suc n) = some (suc n)

or_zero-of_count : (n : ℕ) → or_zero (of_count n) ≡ n
or_zero-of_count zero = refl
or_zero-of_count (suc n) = refl

look-group_by :
    (t : JobType) (s : JobStatus) (jobs : List InteractionJob)
    → look t s (group_by jobs) ≡ of_count (count_group t s jobs)
unfolding group_by
look-group_by t s [] = refl
look-group_by t s (j ∷ jobs) =
    look-count_job t s j (group_by jobs) ∙ elim (Bool-cases (in_group t s j.job_type j.status)) [
      | inl own ↦ rw own (
          rw (look-group_by t s jobs)
            (ap (λ n. some (suc n)) (or_zero-of_count (count_group t s jobs))))
      | inr other ↦ rw other (look-group_by t s jobs)
    ]

-- No two groups have the same labels.
abbrev IsMissing : JobType → JobStatus → List Group → Type 0
IsMissing t s = All (λ g. in_group t s g.job_type g.status ≡ false)

abbrev IsUnique : List Group → Type 0
IsUnique [] = Unit
IsUnique (g ∷ gs) = IsMissing g.job_type g.status gs × IsUnique gs

count_job-IsMissing :
    (t : JobType) (s : JobStatus) (j : InteractionJob) (gs : List Group)
    → in_group t s j.job_type j.status ≡ false
    → IsMissing t s gs
    → IsMissing t s (count_job j gs)
unfolding count_job
count_job-IsMissing t s j [] other h = (other, tt)
count_job-IsMissing t s j (g ∷ gs) other h =
    elim (Bool-cases (in_group j.job_type j.status g.job_type g.status)) [
      | inl hit ↦ rw (hit, count_job) (h.0, h.1)
      | inr miss ↦ rw (miss, count_job) (h.0, count_job-IsMissing t s j gs other h.1)
    ]

count_job-IsUnique :
    (j : InteractionJob) (gs : List Group) → IsUnique gs → IsUnique (count_job j gs)
unfolding count_job
count_job-IsUnique j [] u = (tt, tt)
count_job-IsUnique j (g ∷ gs) u =
    elim (Bool-cases (in_group j.job_type j.status g.job_type g.status)) [
      | inl hit ↦ rw (hit, count_job) (u.0, u.1)
      | inr miss ↦
          let other : in_group g.job_type g.status j.job_type j.status ≡ false =
            in_group-sym g.job_type j.job_type g.status j.status ∙ miss in
          rw (miss, count_job)
            (count_job-IsMissing g.job_type g.status j gs other u.0, count_job-IsUnique j gs u.1)
    ]

group_by-IsUnique : (jobs : List InteractionJob) → IsUnique (group_by jobs)
unfolding group_by
group_by-IsUnique [] = tt
group_by-IsUnique (j ∷ jobs) = count_job-IsUnique j (group_by jobs) (group_by-IsUnique jobs)

set_all-IsMissing :
    (t : JobType) (s : JobStatus) (gs : List Group) (gauge : Gauge)
    → IsMissing t s gs
    → set_all gs gauge t s ≡ gauge t s
unfolding set_all
set_all-IsMissing t s [] gauge h = refl
set_all-IsMissing t s (g ∷ gs) gauge h =
    set_all-IsMissing t s gs (set_gauge g gauge) h.1 ∙ rw h.0 refl

-- What the gauge shows: the new value, or the one before.
abbrev pub shown : Option ℕ → Option ℕ → Option ℕ
shown none before = before
shown (some n) before = some n

set_all-look :
    (t : JobType) (s : JobStatus) (gs : List Group) (gauge : Gauge)
    → IsUnique gs
    → set_all gs gauge t s ≡ shown (look t s gs) (gauge t s)
unfolding set_all
set_all-look t s [] gauge u = refl
set_all-look t s (g ∷ gs) gauge u = elim (Bool-cases (in_group t s g.job_type g.status)) [
  | inr miss ↦ set_all-look t s gs (set_gauge g gauge) u.1 ∙ rw miss refl
  | inl hit ↦
      let missing : IsMissing t s gs =
        All-weaken (λ h e. in_group-same t g.job_type h.job_type s g.status h.status hit ∙ e) gs
          u.0 in
      set_all-IsMissing t s gs (set_gauge g gauge) missing ∙ rw hit refl
]

-- A refresh sets the gauge of a type and a status to the number of such jobs in the table, if
-- there are any. If there are none, it shows what it showed before: the gauge of a queue that was
-- drained keeps its last depth.
pub refresh_queue_depths_lem :
    (db : Db) (gauge : Gauge) (t : JobType) (s : JobStatus)
    → let n = count_group t s db.jobs in
      ((0 < n) × (refresh_queue_depths db gauge t s ≡ some n))
      ⊎ ((n ≡ 0) × (refresh_queue_depths db gauge t s ≡ gauge t s))
unfolding refresh_queue_depths
refresh_queue_depths_lem db gauge t s = by_count (count_group t s db.jobs) (
    set_all-look t s (group_by db.jobs) gauge (group_by-IsUnique db.jobs)
    ∙ ap (λ o. shown o (gauge t s)) (look-group_by t s db.jobs))
  where
    by_count :
        (n : ℕ)
        → refresh_queue_depths db gauge t s ≡ shown (of_count n) (gauge t s)
        → ((0 < n) × (refresh_queue_depths db gauge t s ≡ some n))
          ⊎ ((n ≡ 0) × (refresh_queue_depths db gauge t s ≡ gauge t s))
    by_count zero after = inr (refl, after)
    by_count (suc n) after = inl (omega arith, after)
