-- ===== src/Jobs/Create.antt =====
-- repositories/jobs.py, `create_if_absent`: one job for each idempotency key.
use post_call_processing_pip.Common.{
  ℕ, ◌≡◌, refl, inl, inr, Bool, none, some, List, [], ◌∷◌, ◌++◌, arith, Option-cases, find, true,
}
use post_call_processing_pip.Text.{Text, text_eq_iff}
use post_call_processing_pip.Settings.{Settings}
use post_call_processing_pip.Models.{Db, InteractionJob}
use post_call_processing_pip.Jobs.{NewJob, create_if_absent, get_by_idempotency_key, get}

find-append :
    (test : InteractionJob → Bool) (xs : List InteractionJob) (x : InteractionJob)
    → find test xs ≡ none
    → test x ≡ true
    → find test (xs ++ x ∷ []) ≡ some x
find-append test [] x h e = rw e
find-append test (y ∷ xs) x h e = ground (arith, find-append test xs x)

find-append_old :
    (test : InteractionJob → Bool) (xs : List InteractionJob) (x : InteractionJob)
    {y : InteractionJob}
    → find test xs ≡ some y
    → find test (xs ++ x ∷ []) ≡ some y
find-append_old test [] x e = cc
find-append_old test (z ∷ xs) x {y} e = ground (arith, find-append_old test xs x {y = y})

-- After the call a job with the key is there, and it is the job returned.
pub create_if_absent-found :
    (s : Settings) (now : ℕ) (n : NewJob) (db : Db)
    → let (job, db') = create_if_absent s now n db in
      get_by_idempotency_key n.idempotency_key db' ≡ some job
unfolding create_if_absent
create_if_absent-found s now n db =
    elim (Option-cases (get_by_idempotency_key n.idempotency_key db)) [
      | inl e ↦ rw (e, create_if_absent) (find-append _ db.jobs _ e ((text_eq_iff _ _).1 refl))
      | inr (job, e) ↦ rw (e, create_if_absent) e
    ]

pub create_if_absent-existing :
    (s : Settings) (now : ℕ) (n : NewJob) (db : Db) {job : InteractionJob}
    → get_by_idempotency_key n.idempotency_key db ≡ some job
    → create_if_absent s now n db ≡ (job, db)
unfolding create_if_absent
create_if_absent-existing s now n db e = rw (e, create_if_absent)

-- A repeated request with the same key, at any time and whatever its other arguments, returns the
-- job that the first one made or found, and changes no table.
pub create_if_absent_twice :
    (s : Settings) (now later : ℕ) (n again : NewJob) (db : Db)
    → again.idempotency_key ≡ n.idempotency_key
    → let first = create_if_absent s now n db in
      create_if_absent s later again first.1 ≡ (first.0, first.1)
create_if_absent_twice s now later n again db same =
    create_if_absent-existing s later again _ (rw same (create_if_absent-found s now n db))

-- What is already in the table stays: every job that could be found by its key is found unchanged.
pub create_if_absent_keeps :
    (s : Settings) (now : ℕ) (n : NewJob) (db : Db) (key : Text) {job : InteractionJob}
    → get_by_idempotency_key key db ≡ some job
    → get_by_idempotency_key key (create_if_absent s now n db).1 ≡ some job
unfolding create_if_absent
create_if_absent_keeps s now n db key e =
    elim (Option-cases (get_by_idempotency_key n.idempotency_key db)) [
      | inl none_yet ↦ rw (none_yet, create_if_absent) (find-append_old _ db.jobs _ e)
      | inr (_, found) ↦ rw (found, create_if_absent) e
    ]

-- The same by id.
pub get-create_if_absent :
    (s : Settings) (now : ℕ) (n : NewJob) (db : Db) (i : ℕ) {job : InteractionJob}
    → get i db ≡ some job
    → get i (create_if_absent s now n db).1 ≡ some job
unfolding create_if_absent
get-create_if_absent s now n db i e =
    elim (Option-cases (get_by_idempotency_key n.idempotency_key db)) [
      | inl none_yet ↦ rw (none_yet, create_if_absent) (find-append_old _ db.jobs _ e)
      | inr (_, found) ↦ rw (found, create_if_absent) e
    ]
