-- ===== src/Jobs/Refinement.antt =====
-- repositories/jobs.py: the operations on the table are steps of the queue that it stands for.
use mathlib.Core.Path.{subst}
use mathlib.Core.Option
use post_call_processing_pip.Common.{
  ℕ, ◌≡◌, ◌≢◌, refl, sym, ap, ◌∙◌, Bool, true, false, none, some, List, [], ◌∷◌, ◌++◌, map, find,
  find-update_where, ◌==◌, ==_iff, Distinct, All, update_where, Option-cases, Bool-cases, inl, inr,
  arith,
}
use post_call_processing_pip.Text.{Text, text_eq, text_eq_iff}
use post_call_processing_pip.Settings.{Settings}
use post_call_processing_pip.Models.{Db, InteractionJob, JobType}
use post_call_processing_pip.Jobs.{
  get_by_idempotency_key, NewJob, new_row, create_if_absent, claim_row, select_ready, contains_id,
  claim_ready_jobs, recover_stale_running_jobs, mark_succeeded, defer, dead_letter, dead_letter_row,
  dead_letter_of,
}
use post_call_processing_pip.Jobs.Claim.{selected_row}
use post_call_processing_pip.Jobs.Create.{create_if_absent-found}
use post_call_processing_pip.Jobs.Invariant.{
  IsWellFormed, Operation, creates, claims, recovers, succeeds, defers, dead_letters, operate, run,
  operate-IsWellFormed,
}
use post_call_processing_pip.Jobs.Spec.{
  queue_of, entry_of, EntryStep, unchanged, taken, put_back, completed, given_up, QueueStep,
  submits, works, Reaches, here, then_, IsLater, Reaches-IsLater,
}

find-append_other :
    (test : InteractionJob → Bool) (xs : List InteractionJob) (x : InteractionJob)
    → test x ≡ false
    → find test (xs ++ x ∷ []) ≡ find test xs
find-append_other test [] x h = rw h
find-append_other test (y ∷ xs) x h = ground (arith, find-append_other test xs x h)

All-find :
    (n : ℕ) (test : InteractionJob → Bool) (xs : List InteractionJob) {j : InteractionJob}
    → All (λ i. n ≢ i) (map (λ j. j.id) xs)
    → find test xs ≡ some j
    → n ≢ j.id
All-find n test [] h e = cc
All-find n test (x ∷ xs) {j} h e = elim (Bool-cases (test x)) [
  | inl hit ↦ let same : x ≡ j = ground arith in rw (sym same) h.0
  | inr miss ↦ All-find n test xs {j = j} h.1 (ground arith)
]

-- Where ids are distinct, the row that a search finds is the row of its id.
get-found :
    (test : InteractionJob → Bool) (xs : List InteractionJob) {j : InteractionJob}
    → Distinct (map (λ j. j.id) xs)
    → find test xs ≡ some j
    → find (λ x. x.id == j.id) xs ≡ some j
get-found test [] d e = cc
get-found test (x ∷ xs) {j} d e = elim (Bool-cases (test x)) [
  | inl hit ↦
      let same : x ≡ j = ground arith in
      let own : (x.id == j.id) ≡ true = (==_iff x.id j.id).1 (ap (λ y. y.id) same) in
      rw own (ap some same)
  | inr miss ↦
      let rest : find test xs ≡ some j = ground arith in
      let other : (x.id == j.id) ≡ false = ground (arith, All-find x.id test xs d.0 rest) in
      rw other (get-found test xs d.1 rest)
]

-- An UPDATE of rows, each by a step of its entry.
works_lem :
    (test : InteractionJob → Bool) (f : InteractionJob → InteractionJob) (db : Db)
    → ((j : InteractionJob) → (f j).idempotency_key ≡ j.idempotency_key)
    → ((key : Text) (j : InteractionJob)
        → get_by_idempotency_key key db ≡ some j
        → test j ≡ true
        → EntryStep (some (entry_of j)) (some (entry_of (f j))))
    → QueueStep (queue_of db) (queue_of (record db { jobs = update_where test f db.jobs }))
works_lem test f db keys step = works λ key. by_key key
  where
    by_key :
        (key : Text)
        → EntryStep (queue_of db key) (
            Option.map entry_of
              (find (λ j. text_eq j.idempotency_key key) (update_where test f db.jobs)))
    by_key key =
        rw
          (find-update_where (λ j. text_eq j.idempotency_key key) test f (λ j. rw (keys j)) db.jobs)
          (elim (Option-cases (get_by_idempotency_key key db)) [
            | inl e ↦ rw e unchanged
            | inr (j, e) ↦ rw e (elim (Bool-cases (test j)) [
              | inl hit ↦ rw hit (step key j e hit)
              | inr miss ↦ rw miss unchanged
            ])
          ])

creates-refines :
    (s : Settings) (now : ℕ) (n : NewJob) (db : Db)
    → QueueStep (queue_of db) (queue_of (create_if_absent s now n db).1)
unfolding create_if_absent
creates-refines s now n db = elim (Option-cases (get_by_idempotency_key n.idempotency_key db)) [
  | inr (j, e) ↦ rw (e, create_if_absent) (works λ key. unchanged)
  | inl e ↦
      let row = new_row s now n db.next_uuid in
      let grown = (create_if_absent s now n db).1 in
      let made : grown.jobs ≡ db.jobs ++ row ∷ [] = rw (e, create_if_absent) refl in
      let returned : (create_if_absent s now n db).0 ≡ row = rw (e, create_if_absent) refl in
      let others : (k : Text) → k ≢ n.idempotency_key → queue_of grown k ≡ queue_of db k = λ k ne.
        ap (λ jobs. Option.map entry_of (find (λ j. text_eq j.idempotency_key k) jobs)) made
        ∙ ap (Option.map entry_of)
            (find-append_other (λ j. text_eq j.idempotency_key k) db.jobs row (other k ne)) in
      submits n.idempotency_key (entry_of row) (rw e refl)
        (ap (Option.map entry_of) (create_if_absent-found s now n db ∙ ap some returned)) refl refl
        others
]
  where
    other : (k : Text) → k ≢ n.idempotency_key → text_eq n.idempotency_key k ≡ false
    other k ne = elim (Bool-cases (text_eq n.idempotency_key k)) [
      | inr miss ↦ miss
      | inl hit ↦ absurd (ne (sym ((text_eq_iff n.idempotency_key k).0 hit)))
    ]

claims-refines :
    (held : ℕ → Bool) (worker_id : Text) (types : List JobType) (limit now : ℕ) (db : Db)
    → Distinct (map (λ j. j.id) db.jobs)
    → QueueStep (queue_of db) (queue_of (claim_ready_jobs held worker_id types limit now db).1)
unfolding claim_ready_jobs
claims-refines held worker_id types limit now db distinct =
    works_lem (λ j. contains_id j.id (select_ready held types limit now db.jobs))
      (claim_row worker_id now) db (λ j. refl)
      (λ key j e hit.
        let own = get-found (λ x. text_eq x.idempotency_key key) db.jobs distinct e in
        let eligible = selected_row held worker_id types limit now j.id db distinct own hit in
        taken (entry_of j) (elim eligible.waiting [ inl p ↦ rw p refl | inr d ↦ rw d refl ]))

-- Every call of the repository is one step of the queue.
pub operate-refines :
    (s : Settings) (o : Operation) (db : Db)
    → IsWellFormed db
    → QueueStep (queue_of db) (queue_of (operate s o db))
unfolding operate recover_stale_running_jobs mark_succeeded defer dead_letter
operate-refines s (creates now n) db v = creates-refines s now n db
operate-refines s (claims held worker types limit now) db v =
    claims-refines held worker types limit now db v.distinct_ids
operate-refines s (recovers worker now clock) db v =
    works_lem _ _ db (λ j. refl) (λ key j e hit. put_back (entry_of j))
operate-refines s (succeeds now job result tokens) db v =
    works_lem _ _ db (λ j. refl) (λ key j e hit. completed (entry_of j))
operate-refines s (defers job run_after code message) db v =
    works_lem _ _ db (λ j. refl) (λ key j e hit. put_back (entry_of j))
operate-refines s (dead_letters now job stage code message) db v =
    works_lem _ (dead_letter_row now code message)
      (record db { dead_letters = db.dead_letters ++ dead_letter_of job stage code message ∷ [] })
      (λ j. refl) (λ key j e hit. given_up (entry_of j))

-- From well-formed tables, any sequence of repository calls, by any workers at any times, is a
-- sequence of steps of the abstract queue: each call submits one new job that is PENDING with no
-- try, or moves each job of the table by nothing, by a counted try of a job that was waiting, or to
-- DEFERRED, SUCCEEDED or DEAD_LETTERED without one.
pub run-refines :
    (s : Settings) (os : List Operation) (db : Db)
    → IsWellFormed db
    → Reaches (queue_of db) (queue_of (run s os db))
unfolding run
run-refines s [] db v = here
run-refines s (o ∷ os) db v =
    then_ (queue_of (operate s o db)) (operate-refines s o db v)
      (run-refines s os (operate s o db) (operate-IsWellFormed s o db v))

-- Along steps of the queue, a job that was found under a key is found there, and later.
pub Reaches-found :
    (db db' : Db) (key : Text) (j : InteractionJob)
    → Reaches (queue_of db) (queue_of db')
    → get_by_idempotency_key key db ≡ some j
    → (j' : InteractionJob) × (get_by_idempotency_key key db' ≡ some j')
      × IsLater (entry_of j) (entry_of j')
Reaches-found db db' key j steps e =
    let (entry, there, later) =
      Reaches-IsLater _ _ key (entry_of j) steps (ap (Option.map entry_of) e) in
    elim (Option-cases (get_by_idempotency_key key db')) [
      | inl gone ↦
          let both : none ≡ some entry = sym (ap (Option.map entry_of) gone) ∙ there in
          absurd (ground arith)
      | inr (j', found) ↦
          let both : some (entry_of j') ≡ some entry =
            sym (ap (Option.map entry_of) found) ∙ there in
          let same : entry ≡ entry_of j' = ground arith in
          (j', found, subst (IsLater (entry_of j)) same later)
    ]
