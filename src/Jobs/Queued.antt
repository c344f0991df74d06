-- ===== src/Jobs/Queued.antt =====
-- repositories/jobs.py, `create_if_absent`: what stands under a key after some jobs were asked for.
use post_call_processing_pip.Common.{
  ℕ, ◌≡◌, refl, sym, ap, ◌∙◌, ◌⊎◌, inl, inr, Bool, false, some, List, [], ◌∷◌, ◌++◌, find,
  Option-cases, find-update_where, Bool-cases, ◌==◌, arith, if◌then◌else◌,
}
use mathlib.Core.Option
use post_call_processing_pip.Text.{Text, text, text_eq, uuid_str}
use post_call_processing_pip.Keys.{plain_key, staged_key}
use post_call_processing_pip.Json.{Fields}
use post_call_processing_pip.Settings.{Settings}
use post_call_processing_pip.Models.{Db, InteractionJob, JobType, JobPriority}
use post_call_processing_pip.Jobs.{
  NewJob, new_row, create_if_absent, get_by_idempotency_key, mark_succeeded, succeed_row,
}
use post_call_processing_pip.Jobs.Create.{create_if_absent-found, create_if_absent_keeps}

-- A job with the key is in the table.
abbrev pub IsQueued : Text → Db → Type 0
IsQueued key db = (j : InteractionJob) × (get_by_idempotency_key key db ≡ some j)

-- The second job does the work of this type for the call of the first, with this priority, payload
-- and estimate.
pub record IsChildOf (parent : InteractionJob) (job_type : JobType) (priority : JobPriority)
    (payload : Fields) (token_estimate : ℕ) (j : InteractionJob) : Type 0 where
  pub interaction : j.interaction_id ≡ parent.interaction_id
  pub session : j.session_id ≡ parent.session_id
  pub lead : j.lead_id ≡ parent.lead_id
  pub campaign : j.campaign_id ≡ parent.campaign_id
  pub customer : j.customer_id ≡ parent.customer_id
  pub kind : j.job_type ≡ job_type
  pub urgency : j.priority ≡ priority
  pub input : j.payload ≡ payload
  pub tokens : j.token_estimate ≡ token_estimate

-- After the step a job is found under the key; it was there before, or it is as wanted.
abbrev pub Queues : Text → (InteractionJob → Type 0) → Db → Db → Type 0
Queues key Wanted before after =
    (j : InteractionJob) × (get_by_idempotency_key key after ≡ some j)
    × (IsQueued key before ⊎ Wanted j)

find-append_other :
    (test : InteractionJob → Bool) (xs : List InteractionJob) (x : InteractionJob)
    → test x ≡ false
    → find test (xs ++ x ∷ []) ≡ find test xs
find-append_other test [] x e = rw e refl
find-append_other test (y ∷ xs) x e = ground (arith, find-append_other test xs x e)

create_if_absent-other :
    (s : Settings) (now : ℕ) (n : NewJob) (db : Db) (key : Text)
    → text_eq n.idempotency_key key ≡ false
    → get_by_idempotency_key key (create_if_absent s now n db).1 ≡ get_by_idempotency_key key db
unfolding create_if_absent
create_if_absent-other s now n db key other =
    elim (Option-cases (get_by_idempotency_key n.idempotency_key db)) [
      | inl absent ↦ rw (absent, create_if_absent) (find-append_other _ db.jobs _ other)
      | inr (_, found) ↦ rw (found, create_if_absent) refl
    ]

module _ (Wanted : InteractionJob → Type 0) (s : Settings) (now : ℕ) (n : NewJob) where
  pub create_if_absent-Queues :
      (db : Db)
      → ((uuid : ℕ) → Wanted (new_row s now n uuid))
      → Queues n.idempotency_key Wanted db (create_if_absent s now n db).1
  unfolding create_if_absent
  create_if_absent-Queues db fits = (
    (create_if_absent s now n db).0,
    create_if_absent-found s now n db,
    elim (Option-cases (get_by_idempotency_key n.idempotency_key db)) [
      | inl absent ↦ rw (absent, create_if_absent) (inr (fits db.next_uuid))
      | inr found ↦ inl found
    ],
  )

  -- A job that is asked for later leaves it there.
  pub Queues-then :
      (key : Text) (before db : Db)
      → Queues key Wanted before db
      → Queues key Wanted before (create_if_absent s now n db).1
  Queues-then key before db (j, found, which) =
      (j, create_if_absent_keeps s now n db key found, which)

  -- A job under another key that was asked for earlier does not matter.
  pub Queues-after :
      (key : Text) (db after : Db)
      → text_eq n.idempotency_key key ≡ false
      → Queues key Wanted (create_if_absent s now n db).1 after
      → Queues key Wanted db after
  Queues-after key db after other (j, found, inr wanted) = (j, found, inr wanted)
  Queues-after key db after other (j, found, inl (old, there)) =
      (j, found, inl (old, sym (create_if_absent-other s now n db key other) ∙ there))

module _ (now : ℕ) (job : InteractionJob) (result : Fields) (tokens : ℕ) (key : Text) where
  marked :
      (db : Db)
      → get_by_idempotency_key key (mark_succeeded now job result tokens db)
        ≡ Option.map
            (λ x. if x.id == job.id then succeed_row now result tokens x else x)
            (get_by_idempotency_key key db)
  unfolding mark_succeeded
  marked db =
      find-update_where (λ j. text_eq j.idempotency_key key) (λ j. j.id == job.id)
        (succeed_row now result tokens) (λ _. refl) db.jobs

  -- Neither does it matter that a job is marked as SUCCEEDED before,
  pub Queues-marked :
      (Wanted : InteractionJob → Type 0) (db after : Db)
      → Queues key Wanted (mark_succeeded now job result tokens db) after
      → Queues key Wanted db after
  Queues-marked Wanted db after (j, found, inr wanted) = (j, found, inr wanted)
  Queues-marked Wanted db after (j, found, inl (old, there)) =
      elim (Option-cases (get_by_idempotency_key key db)) [
        | inr here ↦ (j, found, inl here)
        | inl absent ↦ absurd (ground (arith, sym there ∙ marked db ∙ ap (Option.map _) absent))
      ]

  -- nor after, which leaves what a child was asked to do.
  pub marked-Queues :
      {parent : InteractionJob} {t : JobType} {p : JobPriority} {payload : Fields} {estimate : ℕ}
      (before db : Db)
      → Queues key (IsChildOf parent t p payload estimate) before db
      → Queues key
          (IsChildOf parent t p payload estimate)
          before
          (mark_succeeded now job result tokens db)
  marked-Queues before db (j, found, which) = (
    (if j.id == job.id then succeed_row now result tokens j else j),
    marked db ∙ ap (Option.map _) found,
    elim which [
      | inl old ↦ inl old
      | inr child ↦ elim (Bool-cases (j.id == job.id)) [
        | inl own ↦ rw own (
            inr (record {
              interaction = child.interaction;
              session = child.session;
              lead = child.lead;
              campaign = child.campaign;
              customer = child.customer;
              kind = child.kind;
              urgency = child.urgency;
              input = child.input;
              tokens = child.tokens;
            }))
        | inr other ↦ rw other (inr child)
      ]
    ],
  )

-- Two keys with a common part differ where the rest does.
pub text_eq-append : (p a b : Text) → text_eq (p ++ a) (p ++ b) ≡ text_eq a b
unfolding text_eq
text_eq-append [] a b = refl
text_eq-append (c ∷ p) a b = ground (arith, text_eq-append p a b)

differ :
    (i : ℕ) (a b : Text)
    → text_eq (text ":" ++ a) (text ":" ++ b) ≡ false
    → text_eq
        (text "interaction:" ++ (uuid_str i ++ (text ":" ++ a)))
        (text "interaction:" ++ (uuid_str i ++ (text ":" ++ b)))
      ≡ false
differ i a b h =
    text_eq-append (text "interaction:") (uuid_str i ++ (text ":" ++ a))
      (uuid_str i ++ (text ":" ++ b))
    ∙ text_eq-append (uuid_str i) (text ":" ++ a) (text ":" ++ b)
    ∙ h

-- The jobs of one call have different keys.
pub signal-lead :
    (i : ℕ) (a b : Text)
    → text_eq (staged_key i (text "signal") a) (staged_key i (text "lead") b) ≡ false
unfolding text_eq text
signal-lead i a b =
    differ i (text "signal" ++ (text ":" ++ (a ++ text ":v1")))
      (text "lead" ++ (text ":" ++ (b ++ text ":v1"))) refl

pub recording-llm :
    (i : ℕ) → text_eq (plain_key i (text "recording")) (plain_key i (text "llm")) ≡ false
unfolding text_eq text
recording-llm i = differ i (text "recording" ++ text ":v1") (text "llm" ++ text ":v1") refl

pub recording-signal :
    (i : ℕ) (a : Text)
    → text_eq (plain_key i (text "recording")) (staged_key i (text "signal") a) ≡ false
unfolding text_eq text
recording-signal i a =
    differ i (text "recording" ++ text ":v1") (text "signal" ++ (text ":" ++ (a ++ text ":v1")))
      refl

pub recording-lead :
    (i : ℕ) (a : Text)
    → text_eq (plain_key i (text "recording")) (staged_key i (text "lead") a) ≡ false
unfolding text_eq text
recording-lead i a =
    differ i (text "recording" ++ text ":v1") (text "lead" ++ (text ":" ++ (a ++ text ":v1"))) refl

-- Only the rows of the jobs matter.
pub Queues-same :
    (key : Text) (Wanted : InteractionJob → Type 0) (before before' after : Db)
    → before.jobs ≡ before'.jobs
    → Queues key Wanted before after
    → Queues key Wanted before' after
Queues-same key Wanted before before' after same (j, found, inr wanted) = (j, found, inr wanted)
Queues-same key Wanted before before' after same (j, found, inl (old, there)) =
    (j, found, inl (old, ap (find (λ x. text_eq x.idempotency_key key)) (sym same) ∙ there))
