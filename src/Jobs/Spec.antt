-- ===== src/Jobs/Spec.antt =====
-- What the queue of repositories/jobs.py promises, without its table: for each idempotency key what
-- was asked for, how often it was tried, and where it stands. The order of the rows, the locks and
-- the times are left out.
use post_call_processing_pip.Common.{
  ℕ, ◌+◌, ◌≤◌, ◌≡◌, ◌≢◌, refl, sym, ◌∙◌, ap, true, Option, none, some, arith,
}
use mathlib.Core.Path.{subst}
use mathlib.Core.Option
use post_call_processing_pip.Text.{Text}
use post_call_processing_pip.Json.{Fields}
use post_call_processing_pip.Models.{
  Db, InteractionJob, JobPriority, JobType, JobStatus, pending, running, deferred, succeeded,
  failed, dead_lettered, is_waiting,
}
use post_call_processing_pip.Jobs.{get_by_idempotency_key}

-- What was asked for; no operation changes it.
pub record Request : Type 0 where
  pub id : ℕ
  pub interaction_id : ℕ
  pub session_id : ℕ
  pub lead_id : ℕ
  pub campaign_id : ℕ
  pub customer_id : ℕ
  pub job_type : JobType
  pub priority : JobPriority
  pub payload : Fields
  pub token_estimate : ℕ
  pub max_attempts : ℕ

pub record Entry : Type 0 where
  pub request : Request
  pub status : JobStatus
  pub attempts : ℕ

abbrev pub Queue : Type 0
Queue = Text → Option Entry

abbrev pub entry_of : InteractionJob → Entry
entry_of j = record {
  request = record {
    id = j.id;
    interaction_id = j.interaction_id;
    session_id = j.session_id;
    lead_id = j.lead_id;
    campaign_id = j.campaign_id;
    customer_id = j.customer_id;
    job_type = j.job_type;
    priority = j.priority;
    payload = j.payload;
    token_estimate = j.token_estimate;
    max_attempts = j.max_attempts;
  };
  status = j.status;
  attempts = j.attempts;
}

-- The queue that the tables stand for.
abbrev pub queue_of : Db → Queue
queue_of db key = Option.map entry_of (get_by_idempotency_key key db)

-- What a step may do to one key: nothing; start a try of a waiting job, which counts; or put the
-- job back or close it, which does not.
pub data EntryStep : Option Entry → Option Entry → Type 0 where
  unchanged : {e : Option Entry} → EntryStep e e
  taken :
      (e : Entry)
      → is_waiting e.status ≡ true
      → EntryStep (some e) (some (record e { status = running; attempts = e.attempts + 1 }))
  put_back : (e : Entry) → EntryStep (some e) (some (record e { status = deferred }))
  completed : (e : Entry) → EntryStep (some e) (some (record e { status = succeeded }))
  given_up : (e : Entry) → EntryStep (some e) (some (record e { status = dead_lettered }))

pub data QueueStep (q q' : Queue) : Type 0 where
  submits :
      (key : Text) (e : Entry)
      → q key ≡ none
      → q' key ≡ some e
      → e.status ≡ pending
      → e.attempts ≡ 0
      → ((k : Text) → k ≢ key → q' k ≡ q k)
      → QueueStep q q'
  works : ((k : Text) → EntryStep (q k) (q' k)) → QueueStep q q'

pub data Reaches : Queue → Queue → Type 0 where
  here : {q : Queue} → Reaches q q
  then_ : {q r : Queue} (next : Queue) → QueueStep q next → Reaches next r → Reaches q r

-- What is kept of an entry: the request, tries that were counted, and that it has left PENDING; and
-- FAILED is never reached.
pub record IsLater (e e' : Entry) : Type 0 where
  pub same : e'.request ≡ e.request
  pub counted : e.attempts ≤ e'.attempts
  pub started : e'.status ≡ pending → (e.status ≡ pending) × (e'.attempts ≡ e.attempts)
  pub never_failed : e'.status ≡ failed → e.status ≡ failed

IsLater-refl : (e : Entry) → IsLater e e
IsLater-refl e = record {
  same = refl;
  counted = omega arith;
  started = λ h. (h, refl);
  never_failed = λ h. h;
}

IsLater-trans : (a b c : Entry) → IsLater a b → IsLater b c → IsLater a c
IsLater-trans a b c u v = record {
  same = v.same ∙ u.same;
  counted = omega (arith, u.counted, v.counted);
  started = λ h. ((u.started (v.started h).0).0, (v.started h).1 ∙ (u.started (v.started h).0).1);
  never_failed = λ h. u.never_failed (v.never_failed h);
}

moved :
    (x x' e : Entry)
    → some x ≡ some e
    → IsLater x x'
    → (e' : Entry) × (some x' ≡ some e') × IsLater e e'
moved x x' e h later =
    let same : x ≡ e = ground arith in (x', refl, subst (λ y. IsLater y x') same later)

-- A step to a status that is neither PENDING nor FAILED, with no try uncounted.
IsLater-to :
    (x : Entry) (to : JobStatus) (attempts : ℕ)
    → x.attempts ≤ attempts
    → to ≢ pending
    → to ≢ failed
    → IsLater x (record x { status = to; attempts = attempts })
IsLater-to x to attempts le waiting broken = record {
  same = refl;
  counted = le;
  started = λ h. absurd (waiting h);
  never_failed = λ h. absurd (broken h);
}

EntryStep-IsLater :
    (o o' : Option Entry) (e : Entry)
    → EntryStep o o'
    → o ≡ some e
    → (e' : Entry) × (o' ≡ some e') × IsLater e e'
EntryStep-IsLater o _ e unchanged h = (e, h, IsLater-refl e)
EntryStep-IsLater _ _ e (taken x waits) h =
    moved x _ e h
      (IsLater-to x running (x.attempts + 1) (omega arith) (λ h. ground arith) (λ h. ground arith))
EntryStep-IsLater _ _ e (put_back x) h =
    moved x _ e h
      (IsLater-to x deferred x.attempts (omega arith) (λ h. ground arith) (λ h. ground arith))
EntryStep-IsLater _ _ e (completed x) h =
    moved x _ e h
      (IsLater-to x succeeded x.attempts (omega arith) (λ h. ground arith) (λ h. ground arith))
EntryStep-IsLater _ _ e (given_up x) h =
    moved x _ e h
      (IsLater-to x dead_lettered x.attempts (omega arith) (λ h. ground arith) (λ h. ground arith))

QueueStep-IsLater :
    (q q' : Queue) (key : Text) (e : Entry)
    → QueueStep q q'
    → q key ≡ some e
    → (e' : Entry) × (q' key ≡ some e') × IsLater e e'
QueueStep-IsLater q q' key e (works each) h = EntryStep-IsLater (q key) (q' key) e (each key) h
QueueStep-IsLater q q' key e (submits new n absent there waits zero others) h =
    let other : key ≢ new = λ same.
      let both : none ≡ some e = sym absent ∙ ap q (sym same) ∙ h in absurd (ground arith) in
    (e, others key other ∙ h, IsLater-refl e)

-- Along any steps of the queue, what was asked for under a key is never lost or changed.
pub Reaches-IsLater :
    (q r : Queue) (key : Text) (e : Entry)
    → Reaches q r
    → q key ≡ some e
    → (e' : Entry) × (r key ≡ some e') × IsLater e e'
Reaches-IsLater q _ key e here h = (e, h, IsLater-refl e)
Reaches-IsLater q r key e (then_ next step steps) h =
    let (e1, there, later) = QueueStep-IsLater q next key e step h in
    let (e2, final, later') = Reaches-IsLater next r key e1 steps there in
    (e2, final, IsLater-trans e e1 e2 later later')

pub Reaches-trans : {p q r : Queue} → Reaches p q → Reaches q r → Reaches p r
Reaches-trans here steps = steps
Reaches-trans (then_ next step more) steps = then_ next step (Reaches-trans more steps)
