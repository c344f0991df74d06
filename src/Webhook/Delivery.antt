-- ===== src/Webhook/Delivery.antt =====
-- api/endpoints.py and queues/durable.py: one delivery of the call-end webhook, and a second one.
use post_call_processing_pip.Common.{
  ℕ, ◌≡◌, refl, sym, ap, ◌∙◌, ◌⊎◌, inl, inr, Option, none, some, ◌==◌, find, find-update_where-some,
  find-passes, ==_iff, Option-cases, Bool-cases,
}
use post_call_processing_pip.Text.{Text, text, text_eq}
use post_call_processing_pip.Keys.{plain_key}
use post_call_processing_pip.Settings.{Settings}
use post_call_processing_pip.Runtime.{Runtime}
use post_call_processing_pip.Attempt.{ok, Attempt-cases}
use post_call_processing_pip.Models.{Db, Interaction, InteractionJob}
use post_call_processing_pip.Jobs.{NewJob, create_if_absent, get_by_idempotency_key}
use post_call_processing_pip.Jobs.Create.{create_if_absent-found, create_if_absent-existing}
use post_call_processing_pip.Interactions.{get, modify, mark_ended}
use post_call_processing_pip.Audit.{emit}
use post_call_processing_pip.Webhook.{
  InteractionEndRequest, transcript_text, payload_of, new_job, enqueue_interaction_ended, queued,
  rejected, ended, nudge, accept, end_interaction,
}

nudge-jobs :
    (n : Option (Text × Text)) (job : InteractionJob) (db : Db) → (nudge n job db).jobs ≡ db.jobs
unfolding nudge emit
nudge-jobs none job db = refl
nudge-jobs (some e) job db = refl

nudge-interactions :
    (n : Option (Text × Text)) (job : InteractionJob) (db : Db)
    → (nudge n job db).interactions ≡ db.interactions
unfolding nudge emit
nudge-interactions none job db = refl
nudge-interactions (some e) job db = refl

create_if_absent-interactions :
    (s : Settings) (now : ℕ) (n : NewJob) (db : Db)
    → (create_if_absent s now n db).1.interactions ≡ db.interactions
unfolding create_if_absent
create_if_absent-interactions s now n db =
    elim (Option-cases (get_by_idempotency_key n.idempotency_key db)) [
      | inl e ↦ rw (e, create_if_absent) refl
      | inr (job, e) ↦ rw (e, create_if_absent) refl
    ]

module _ (s : Settings) (rt : Runtime) (ended_at now : ℕ) (request : InteractionEndRequest)
    (nudged : Option (Text × Text)) where
  abbrev asked : Interaction → Text → NewJob
  asked i t =
      new_job (ended i ended_at request)
        (payload_of rt (ended i ended_at request) request ended_at t)

  abbrev marked : Interaction → Db → Db
  marked i db = mark_ended i ended_at request.duration_seconds request.call_sid db

  accept_job :
      (i : Interaction) (t : Text) (db : Db)
      → transcript_text rt i.conversation_data ≡ ok t
      → let made = create_if_absent s now (asked i t) (marked i db) in
        ((accept s rt ended_at now i request nudged db).0 ≡ queued made.0.id)
        × ((accept s rt ended_at now i request nudged db).1.jobs ≡ made.1.jobs)
        × ((accept s rt ended_at now i request nudged db).1.interactions ≡ made.1.interactions)
  unfolding accept enqueue_interaction_ended emit
  accept_job i t db h =
      rw (h, accept, enqueue_interaction_ended)
        (refl, nudge-jobs nudged _ _, nudge-interactions nudged _ _)

  marked-get :
      (i : Interaction) (db : Db)
      → get i.id db ≡ some i
      → get i.id (marked i db) ≡ some (ended i ended_at request)
  unfolding mark_ended modify
  marked-get i db e =
      let own = λ (x : Interaction). x.id == i.id in
      find-update_where-some own own (λ x. ended x ended_at request) (λ _. refl) db.interactions e
      ∙ rw (find-passes own db.interactions e)

  accept_again :
      (i : Interaction) (t : Text) (db : Db) {job : InteractionJob}
      → transcript_text rt i.conversation_data ≡ ok t
      → get_by_idempotency_key (plain_key i.id (text "orchestrate")) db ≡ some job
      → let r = accept s rt ended_at now i request nudged db in
        (r.0 ≡ queued job.id) × (r.1.jobs ≡ db.jobs)
  unfolding mark_ended modify
  accept_again i t db {job} h there =
      let done = accept_job i t db h in
      let kept = create_if_absent-existing s now (asked i t) (marked i db) {job = job} there in
      (done.0 ∙ ap (λ r. queued r.0.id) kept, done.1 ∙ ap (λ r. r.1.jobs) kept)

  end_interaction-accept :
      (session_id interaction_id : ℕ) (i : Interaction) (db : Db)
      → get interaction_id db ≡ some i
      → i.session_id ≡ session_id
      → end_interaction s rt none ended_at now session_id interaction_id request nudged db
        ≡ accept s rt ended_at now i request nudged db
  unfolding end_interaction
  end_interaction-accept session_id interaction_id i db e same =
      rw (e, (==_iff i.session_id session_id).1 same, end_interaction) refl

  -- A delivery with a valid signature, for a call of its session whose transcript can be read: the
  -- answer names a job, that job is in the table under the call's key, and the call is ENDED with
  -- the time and the duration of the request. This holds whether or not Celery can be reached.
  pub end_interaction_accepted :
      (session_id interaction_id : ℕ) (i : Interaction) (t : Text) (db : Db)
      → get interaction_id db ≡ some i
      → i.session_id ≡ session_id
      → transcript_text rt i.conversation_data ≡ ok t
      → let r =
          end_interaction s rt none ended_at now session_id interaction_id request nudged db in
        (job : InteractionJob) × (r.0 ≡ queued job.id)
        × (get_by_idempotency_key (plain_key interaction_id (text "orchestrate")) r.1 ≡ some job)
        × (get interaction_id r.1 ≡ some (ended i ended_at request))
  end_interaction_accepted session_id interaction_id i t db e same h =
      let at : i.id ≡ interaction_id =
        (==_iff i.id interaction_id).0
          (find-passes (λ x. x.id == interaction_id) db.interactions e) in
      let done = accept_job i t db h in
      let made = create_if_absent s now (asked i t) (marked i db) in
      let answer = accept s rt ended_at now i request nudged db in
      let here = ap (λ k. get k db) at ∙ e in
      rw (end_interaction-accept session_id interaction_id i db e same) (
        made.0,
        done.0,
        ap (λ k. get_by_idempotency_key (plain_key k (text "orchestrate")) answer.1) (sym at)
            ∙ ap (find (λ j. text_eq j.idempotency_key (plain_key i.id (text "orchestrate"))))
                done.1
            ∙ create_if_absent-found s now (asked i t) (marked i db),
        ap (λ k. get k answer.1) (sym at)
            ∙ ap (find (λ x. x.id == i.id)) done.2
            ∙ ap (find (λ x. x.id == i.id))
                (create_if_absent-interactions s now (asked i t) (marked i db))
            ∙ marked-get i db here,
      )

  -- A delivery that is not accepted, for whatever reason, changes no table.
  pub end_interaction_rejected :
      (signature : Option ℕ) (session_id interaction_id : ℕ) (db : Db)
      → let r =
          end_interaction s rt signature ended_at now session_id interaction_id request nudged db in
        ((id : ℕ) × (r.0 ≡ queued id)) ⊎ (((code : ℕ) × (r.0 ≡ rejected code)) × (r.1 ≡ db))
  unfolding end_interaction accept
  end_interaction_rejected (some code) session_id interaction_id db = inr ((code, refl), refl)
  end_interaction_rejected none session_id interaction_id db =
      elim (Option-cases (get interaction_id db)) [
        | inl e ↦ rw (e, end_interaction) (inr ((404, refl), refl))
        | inr (i, e) ↦ elim (Bool-cases (i.session_id == session_id)) [
          | inr other ↦ rw (e, other, end_interaction) (inr ((409, refl), refl))
          | inl own ↦
              elim (Attempt-cases (
                enqueue_interaction_ended s rt now (ended i ended_at request) request ended_at
                  (marked i db))) [
                    | inl ((job, db'), made) ↦
                        rw (e, own, made, end_interaction, accept) (inl (job.id, refl))
                    | inr (error, broken) ↦
                        rw (e, own, broken, end_interaction, accept) (inr ((500, refl), refl))
                  ]
        ]
      ]

  -- A delivery for a call that has a job under its key: the answer names that job, and no job is
  -- added or changed.
  pub end_interaction_again :
      (session_id interaction_id : ℕ) (i : Interaction) (t : Text) (db : Db) {job : InteractionJob}
      → get interaction_id db ≡ some i
      → i.session_id ≡ session_id
      → transcript_text rt i.conversation_data ≡ ok t
      → get_by_idempotency_key (plain_key interaction_id (text "orchestrate")) db ≡ some job
      → let r =
          end_interaction s rt none ended_at now session_id interaction_id request nudged db in
        (r.0 ≡ queued job.id) × (r.1.jobs ≡ db.jobs)
  end_interaction_again session_id interaction_id i t db {job} e same h there =
      let at : i.id ≡ interaction_id =
        (==_iff i.id interaction_id).0
          (find-passes (λ x. x.id == interaction_id) db.interactions e) in
      let call = end_interaction-accept session_id interaction_id i db e same in
      let kept =
        accept_again i t db {job = job} h
          (ap (λ k. get_by_idempotency_key (plain_key k (text "orchestrate")) db) at ∙ there) in
      (ap (λ r. r.0) call ∙ kept.0, ap (λ r. r.1.jobs) call ∙ kept.1)
