-- ===== src/Pipeline/Soundness.antt =====
-- Whole transactions of the pipeline in any order: what holds of the tables after them, and the
-- abstract queue that they implement.
use post_call_processing_pip.Common.{◌≡◌, refl, All, inl, inr, Option-cases}
use post_call_processing_pip.Settings.{Settings}
use post_call_processing_pip.Runtime.{Runtime}
use post_call_processing_pip.Models.{Db}
use post_call_processing_pip.Jobs.{
  get_by_idempotency_key, create_if_absent, claim_ready_jobs, recover_stale_running_jobs,
  mark_succeeded, defer, dead_letter,
}
use post_call_processing_pip.Jobs.Invariant.{
  IsWellFormed, Operation, creates, claims, recovers, succeeds, defers, dead_letters, operate,
  operate-IsWellFormed,
}
use post_call_processing_pip.Jobs.Spec.{
  queue_of, unchanged, works, Reaches, here, then_, Reaches-trans,
}
use post_call_processing_pip.Jobs.Refinement.{operate-refines}
use post_call_processing_pip.Interactions.{modify}
use post_call_processing_pip.Interactions.Log.{
  IsCounted, Update, ends, processes, analyses, skips, records, fails, moves_lead, apply,
  apply-IsCounted,
}
use post_call_processing_pip.Pipeline.{Call, on_jobs, on_calls, elsewhere, Trace}

-- Unique keys and ids, locks held exactly while jobs run, and error counters that match their logs.
pub record IsSound (db : Db) : Type 0 where
  pub jobs : IsWellFormed db
  pub calls : All IsCounted db.interactions

moved-IsWellFormed :
    (a b : Db) → b.jobs ≡ a.jobs → b.next_uuid ≡ a.next_uuid → IsWellFormed a → IsWellFormed b
moved-IsWellFormed a b jobs ids v = record {
  distinct_keys = rw jobs v.distinct_keys;
  distinct_ids = rw jobs v.distinct_ids;
  fresh = rw (jobs, ids) v.fresh;
  locks = rw jobs v.locks;
}

operate-interactions :
    (s : Settings) (o : Operation) (db : Db) → (operate s o db).interactions ≡ db.interactions
unfolding operate create_if_absent claim_ready_jobs recover_stale_running_jobs mark_succeeded defer
    dead_letter
operate-interactions s (creates now n) db =
    elim (Option-cases (get_by_idempotency_key n.idempotency_key db)) [
      | inl e ↦ rw (e, operate, create_if_absent) refl
      | inr (j, e) ↦ rw (e, operate, create_if_absent) refl
    ]
operate-interactions s (claims held worker types limit now) db = refl
operate-interactions s (recovers worker now clock) db = refl
operate-interactions s (succeeds now job result tokens) db = refl
operate-interactions s (defers job run_after code message) db = refl
operate-interactions s (dead_letters now job stage code message) db = refl

apply-jobs :
    (rt : Runtime) (u : Update) (db : Db)
    → ((apply rt u db).jobs ≡ db.jobs) × ((apply rt u db).next_uuid ≡ db.next_uuid)
unfolding apply modify
apply-jobs rt (ends i at duration call_sid) db = (refl, refl)
apply-jobs rt (processes i status) db = (refl, refl)
apply-jobs rt (analyses now i stage entities summary tokens provider model) db = (refl, refl)
apply-jobs rt (skips i) db = (refl, refl)
apply-jobs rt (records i key) db = (refl, refl)
apply-jobs rt (fails now i stage code message) db = (refl, refl)
apply-jobs rt (moves_lead i stage) db = (refl, refl)

same_queue : (a b : Db) → b.jobs ≡ a.jobs → Reaches (queue_of a) (queue_of b)
same_queue a b e = then_ (queue_of b) (works λ key. rw e unchanged) here

module _ {s : Settings} {rt : Runtime} where
  Call-IsSound : (a b : Db) → Call s rt a b → IsSound a → IsSound b
  Call-IsSound a b (on_jobs o e) v = rw e (record {
    jobs = operate-IsWellFormed s o a v.jobs;
    calls = rw (operate-interactions s o a) v.calls;
  })
  Call-IsSound a b (on_calls u e) v = rw e (record {
    jobs = moved-IsWellFormed a (apply rt u a) (apply-jobs rt u a).0 (apply-jobs rt u a).1 v.jobs;
    calls = apply-IsCounted rt u a v.calls;
  })
  Call-IsSound a b (elsewhere jobs ids calls) v = record {
    jobs = moved-IsWellFormed a b jobs ids v.jobs;
    calls = rw calls v.calls;
  }

  pub Trace-IsSound : (a b : Db) → Trace s rt a b → IsSound a → IsSound b
  Trace-IsSound a b Trace.here v = v
  Trace-IsSound a c (Trace.then_ b call t) v = Trace-IsSound b c t (Call-IsSound a b call v)

  Call-Reaches : (a b : Db) → Call s rt a b → IsSound a → Reaches (queue_of a) (queue_of b)
  Call-Reaches a b (on_jobs o e) v =
      rw e (then_ (queue_of (operate s o a)) (operate-refines s o a v.jobs) here)
  Call-Reaches a b (on_calls u e) v = rw e (same_queue a (apply rt u a) (apply-jobs rt u a).0)
  Call-Reaches a b (elsewhere jobs ids calls) v = same_queue a b jobs

  pub Trace-Reaches : (a b : Db) → Trace s rt a b → IsSound a → Reaches (queue_of a) (queue_of b)
  Trace-Reaches a b Trace.here v = here
  Trace-Reaches a c (Trace.then_ b call t) v =
      Reaches-trans (Call-Reaches a b call v) (Trace-Reaches b c t (Call-IsSound a b call v))
