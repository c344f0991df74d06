-- ===== src/Jobs/Invariant.antt =====
-- repositories/jobs.py: what holds of the tables after every operation.
use post_call_processing_pip.Common.{
  ℕ, suc, ◌<◌, ◌≡◌, refl, sym, Bool, true, false, Option, none, some, List, [], ◌∷◌, ◌++◌, map, All,
  All-append, All-weaken, find, Distinct, Absent, Distinct-append, update_where, All-update_where,
  map-update_where, Option-cases, Bool-cases, inl, inr, arith,
}
use post_call_processing_pip.Text.{Text, text_eq, text_eq_iff}
use post_call_processing_pip.Json.{Fields}
use post_call_processing_pip.Settings.{Settings}
use post_call_processing_pip.Models.{Db, InteractionJob, JobStatus, JobType, running}
use post_call_processing_pip.Jobs.{
  NewJob, new_row, create_if_absent, get_by_idempotency_key, claim_ready_jobs,
  recover_stale_running_jobs, mark_succeeded, defer, dead_letter, dead_letter_row, dead_letter_of,
}

-- A lock is held exactly while the job runs.
abbrev pub lock_matches : JobStatus → Option Text → Option ℕ → Bool
lock_matches running (some _) (some _) = true
lock_matches running _ _ = false
lock_matches _ none none = true
lock_matches _ _ _ = false

abbrev pub HasLock : InteractionJob → Type 0
HasLock j = lock_matches j.status j.locked_by j.locked_at ≡ true

-- Keys and ids are unique, ids come from the supply, and a lock is held exactly while a job runs.
pub record IsWellFormed (db : Db) : Type 0 where
  pub distinct_keys : Distinct (map (λ j. j.idempotency_key) db.jobs)
  pub distinct_ids : Distinct (map (λ j. j.id) db.jobs)
  pub fresh : All (λ j. j.id < db.next_uuid) db.jobs
  pub locks : All HasLock db.jobs

Absent-keys :
    (key : Text) (xs : List InteractionJob)
    → find (λ j. text_eq j.idempotency_key key) xs ≡ none
    → Absent key (map (λ j. j.idempotency_key) xs)
Absent-keys key [] e = tt
Absent-keys key (x ∷ xs) e = elim (Bool-cases (text_eq x.idempotency_key key)) [
  | inl hit ↦ absurd (ground arith)
  | inr miss ↦ (
    λ same. ground (arith, (text_eq_iff x.idempotency_key key).1 (sym same)),
    Absent-keys key xs (ground arith),
  )
]

Absent-ids :
    (n : ℕ) (xs : List InteractionJob) → All (λ j. j.id < n) xs → Absent n (map (λ j. j.id) xs)
Absent-ids n [] h = tt
Absent-ids n (x ∷ xs) h = (λ e. omega arith, Absent-ids n xs h.1)

map-append_one {ℓ} :
    {A : Type ℓ} (column : InteractionJob → A) (xs : List InteractionJob) (x : InteractionJob)
    → map column (xs ++ x ∷ []) ≡ map column xs ++ column x ∷ []
map-append_one column [] x = refl
map-append_one column (y ∷ xs) x = rw (map-append_one column xs x)

insert-IsWellFormed :
    (s : Settings) (now : ℕ) (n : NewJob) (db : Db)
    → IsWellFormed db
    → get_by_idempotency_key n.idempotency_key db ≡ none
    → IsWellFormed (record db {
      jobs = db.jobs ++ new_row s now n db.next_uuid ∷ [];
      next_uuid = suc db.next_uuid;
    })
insert-IsWellFormed s now n db v e = record {
  distinct_keys =
      rw (map-append_one (λ j. j.idempotency_key) db.jobs (new_row s now n db.next_uuid))
        (Distinct-append _ _ v.distinct_keys (Absent-keys _ db.jobs e));
  distinct_ids =
      rw (map-append_one (λ j. j.id) db.jobs (new_row s now n db.next_uuid))
        (Distinct-append _ _ v.distinct_ids (Absent-ids _ db.jobs v.fresh));
  fresh =
      All-append _ db.jobs _ (All-weaken (λ x h. omega arith) db.jobs v.fresh) (omega arith, tt);
  locks = All-append _ db.jobs _ v.locks (refl, tt);
}

pub create_if_absent-IsWellFormed :
    (s : Settings) (now : ℕ) (n : NewJob) (db : Db)
    → IsWellFormed db
    → IsWellFormed (create_if_absent s now n db).1
unfolding create_if_absent
create_if_absent-IsWellFormed s now n db v =
    elim (Option-cases (get_by_idempotency_key n.idempotency_key db)) [
      | inl e ↦ rw (e, create_if_absent) (insert-IsWellFormed s now n db v e)
      | inr (_, e) ↦ rw (e, create_if_absent) v
    ]

-- An update that leaves ids and keys alone and sets status and lock together.
update-IsWellFormed :
    (test : InteractionJob → Bool) (f : InteractionJob → InteractionJob) (db : Db)
    → ((j : InteractionJob) → (f j).idempotency_key ≡ j.idempotency_key)
    → ((j : InteractionJob) → (f j).id ≡ j.id)
    → ((j : InteractionJob) → HasLock (f j))
    → IsWellFormed db
    → IsWellFormed (record db { jobs = update_where test f db.jobs })
update-IsWellFormed test f db keys ids locks v = record {
  distinct_keys =
      rw (map-update_where (λ j. j.idempotency_key) test f keys db.jobs) v.distinct_keys;
  distinct_ids = rw (map-update_where (λ j. j.id) test f ids db.jobs) v.distinct_ids;
  fresh = All-update_where _ test f (λ j _ h. rw (ids j) h) db.jobs v.fresh;
  locks = All-update_where _ test f (λ j _ _. locks j) db.jobs v.locks;
}

pub claim_ready_jobs-IsWellFormed :
    (held : ℕ → Bool) (worker_id : Text) (job_types : List JobType) (limit now : ℕ) (db : Db)
    → IsWellFormed db
    → IsWellFormed (claim_ready_jobs held worker_id job_types limit now db).1
unfolding claim_ready_jobs
claim_ready_jobs-IsWellFormed held worker_id job_types limit now db =
    update-IsWellFormed _ _ db (λ _. refl) (λ _. refl) (λ _. refl)

pub recover_stale_running_jobs-IsWellFormed :
    (s : Settings) (worker_id : Text) (now : ℕ) (clock : ℕ → ℕ) (db : Db)
    → IsWellFormed db
    → IsWellFormed (recover_stale_running_jobs s worker_id now clock db).1
unfolding recover_stale_running_jobs
recover_stale_running_jobs-IsWellFormed s worker_id now clock db =
    update-IsWellFormed _ _ db (λ _. refl) (λ _. refl) (λ _. refl)

pub mark_succeeded-IsWellFormed :
    (now : ℕ) (job : InteractionJob) (result : Fields) (tokens_used : ℕ) (db : Db)
    → IsWellFormed db
    → IsWellFormed (mark_succeeded now job result tokens_used db)
unfolding mark_succeeded
mark_succeeded-IsWellFormed now job result tokens_used db =
    update-IsWellFormed _ _ db (λ _. refl) (λ _. refl) (λ _. refl)

pub defer-IsWellFormed :
    (job : InteractionJob) (run_after : ℕ) (error_code error_message : Text) (db : Db)
    → IsWellFormed db
    → IsWellFormed (defer job run_after error_code error_message db)
unfolding defer
defer-IsWellFormed job run_after error_code error_message db =
    update-IsWellFormed _ _ db (λ _. refl) (λ _. refl) (λ _. refl)

pub dead_letter-IsWellFormed :
    (now : ℕ) (job : InteractionJob) (stage error_code error_message : Text) (db : Db)
    → IsWellFormed db
    → IsWellFormed (dead_letter now job stage error_code error_message db)
unfolding dead_letter
dead_letter-IsWellFormed now job stage error_code error_message db v =
    update-IsWellFormed _ (dead_letter_row now error_code error_message) grown (λ _. refl)
      (λ _. refl) (λ _. refl)
      (record {
        distinct_keys = v.distinct_keys;
        distinct_ids = v.distinct_ids;
        fresh = v.fresh;
        locks = v.locks;
      })
  where
    grown : Db
    grown = record db {
      dead_letters = db.dead_letters ++ dead_letter_of job stage error_code error_message ∷ [];
    }

-- A call of the repository, with the clock's readings and the rows that others hold.
pub data Operation : Type 0 where
  creates : ℕ → NewJob → Operation
  claims : (ℕ → Bool) → Text → List JobType → ℕ → ℕ → Operation
  recovers : Text → ℕ → (ℕ → ℕ) → Operation
  succeeds : ℕ → InteractionJob → Fields → ℕ → Operation
  defers : InteractionJob → ℕ → Text → Text → Operation
  dead_letters : ℕ → InteractionJob → Text → Text → Text → Operation

unfoldable pub operate : Settings → Operation → Db → Db
operate s (creates now n) db = (create_if_absent s now n db).1
operate s (claims held worker types limit now) db =
    (claim_ready_jobs held worker types limit now db).1
operate s (recovers worker now clock) db = (recover_stale_running_jobs s worker now clock db).1
operate s (succeeds now job result tokens) db = mark_succeeded now job result tokens db
operate s (defers job run_after code message) db = defer job run_after code message db
operate s (dead_letters now job stage code message) db = dead_letter now job stage code message db

unfoldable pub run : Settings → List Operation → Db → Db
run s [] db = db
run s (o ∷ os) db = run s os (operate s o db)

pub operate-IsWellFormed :
    (s : Settings) (o : Operation) (db : Db) → IsWellFormed db → IsWellFormed (operate s o db)
unfolding operate
operate-IsWellFormed s (creates now n) db = create_if_absent-IsWellFormed s now n db
operate-IsWellFormed s (claims held worker types limit now) db =
    claim_ready_jobs-IsWellFormed held worker types limit now db
operate-IsWellFormed s (recovers worker now clock) db =
    recover_stale_running_jobs-IsWellFormed s worker now clock db
operate-IsWellFormed s (succeeds now job result tokens) db =
    mark_succeeded-IsWellFormed now job result tokens db
operate-IsWellFormed s (defers job run_after code message) db =
    defer-IsWellFormed job run_after code message db
operate-IsWellFormed s (dead_letters now job stage code message) db =
    dead_letter-IsWellFormed now job stage code message db

-- From tables where this holds, and so from empty ones: through any sequence of repository calls,
-- by any workers at any times, no two jobs share an
-- idempotency key or an id, ids stay below the supply, and a job has a lock owner and a lock time
-- exactly while it is RUNNING.
pub run-IsWellFormed :
    (s : Settings) (os : List Operation) (db : Db) → IsWellFormed db → IsWellFormed (run s os db)
unfolding run
run-IsWellFormed s [] db v = v
run-IsWellFormed s (o ∷ os) db v =
    run-IsWellFormed s os (operate s o db) (operate-IsWellFormed s o db v)
