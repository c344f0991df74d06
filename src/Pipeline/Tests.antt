-- ===== src/Pipeline/Tests.antt =====
-- A call that ends, its delivery, a tick of the orchestrator, the claim of an analysis and of a
-- result, and the work on one.
use post_call_processing_pip.Common.{
  ◌≡◌, refl, false, none, some, List, [], ◌∷◌, arith, update_where,
}
use post_call_processing_pip.Text.{Text, text, text_eq, uuid_str}
use post_call_processing_pip.Json
use post_call_processing_pip.Attempt.{ok}
use post_call_processing_pip.Interactions.{get}
use post_call_processing_pip.Webhook.{
  InteractionEndRequest, end_interaction, ended, transcript_text,
}
use post_call_processing_pip.Pipeline.Redelivery.{end_interaction_redelivered}
use post_call_processing_pip.Settings.{defaults}
use post_call_processing_pip.Models.{
  Db, InteractionJob, signal_jobs, lead_stage_update, orchestrate_interaction,
}
use post_call_processing_pip.Jobs.{get_by_idempotency_key, claim_ready_jobs}
use post_call_processing_pip.Jobs.Spec.{Reaches, queue_of, entry_of, IsLater}
use post_call_processing_pip.Failure.{Readings}
use post_call_processing_pip.ResultWorker.{snapshot_of}
use post_call_processing_pip.Pipeline.Soundness.{IsSound}
use post_call_processing_pip.Pipeline.Transactions.{
  Event, delivers, orchestrates, admits, claims, settles, happen_all, happen_all-IsSound,
  happen_all-refines, happen_all-IsLater,
}
use post_call_processing_pip.Samples.{runtime, call, tables, waiting_low}

abbrev start : Db
start = record (tables (waiting_low ∷ []) []) { interactions = call ∷ [] }

start-IsSound : IsSound start
start-IsSound = record {
  jobs = record {
    distinct_keys = (tt, tt);
    distinct_ids = (tt, tt);
    fresh = (omega arith, tt);
    locks = (refl, tt);
  };
  calls = (refl, tt);
}

abbrev message : Text → Text
message e = e

abbrev failed : Readings
failed = record { decided = 90; logged = 91; closed = 92 }

abbrev events : List Event
events =
    delivers none 70 71 5 103
      (record { call_sid = none; duration_seconds = none; additional_data = none }) none
    ∷ orchestrates (λ n. n) message
        (λ i. record {
          children = record { recording_at = 75; signal_at = 76; lead_at = 77; llm_at = 78 };
          orchestrated_at = 79;
          completed_at = 80;
          failed = failed;
        })
        (record {
          worker_id = text "orchestrator-a";
          limit = 10;
          held = λ i. false;
          recover_now = 72;
          recovered_at = λ i. 73;
          claim_now = 74;
        })
    ∷ admits (record {
      worker_id = text "llm-worker-a";
      limit = 10;
      held = λ i. false;
      recover_now = 81;
      recovered_at = λ i. 82;
      claim_now = 83;
      admit_at = λ i. 84;
      defer_at = λ i. 85;
    })
    ∷ claims (λ i. false) (text "result-worker-a") (signal_jobs ∷ lead_stage_update ∷ []) 10 86
    ∷ settles message 87 failed (snapshot_of waiting_low)
    ∷ []

happen_all-IsSound_example : IsSound (happen_all defaults runtime events start)
happen_all-IsSound_example = happen_all-IsSound defaults runtime events start start-IsSound

happen_all-refines_example :
    Reaches (queue_of start) (queue_of (happen_all defaults runtime events start))
happen_all-refines_example = happen_all-refines defaults runtime events start start-IsSound

its_key : get_by_idempotency_key waiting_low.idempotency_key start ≡ some waiting_low
unfolding text text_eq
its_key = refl

happen_all-IsLater_example :
    (j' : InteractionJob) × (get_by_idempotency_key waiting_low.idempotency_key
        (happen_all defaults runtime events start)
      ≡ some j')
    × IsLater (entry_of waiting_low) (entry_of j')
happen_all-IsLater_example =
    happen_all-IsLater defaults runtime events start waiting_low.idempotency_key waiting_low
      start-IsSound its_key

-- Between the two deliveries a worker claims the job.
abbrev claimed : List Event
claimed = claims (λ i. false) (text "orchestrator-a") (orchestrate_interaction ∷ []) 10 75 ∷ []

abbrev request : InteractionEndRequest
request = record { call_sid = none; duration_seconds = none; additional_data = none }

no_transcript : transcript_text runtime call.conversation_data ≡ ok []
unfolding transcript_text Json.get
no_transcript = refl

abbrev delivered : Db
delivered = (end_interaction defaults runtime none 70 71 5 103 request none start).1

still_there : get 103 (happen_all defaults runtime claimed delivered) ≡ some (ended call 70 request)
unfolding happen_all end_interaction claim_ready_jobs Json.get text_eq text uuid_str update_where
still_there = refl

end_interaction_redelivered_example :
    let first = end_interaction defaults runtime none 70 71 5 103 request none start in
    let later = happen_all defaults runtime claimed first.1 in
    let again = end_interaction defaults runtime none 80 81 5 103 request none later in
    (again.0 ≡ first.0) × (again.1.jobs ≡ later.jobs)
end_interaction_redelivered_example =
    end_interaction_redelivered defaults runtime 70 71 request none 5 103 claimed 80 81 request none
      call (ended call 70 request) [] [] start start-IsSound refl refl no_transcript still_there
      refl no_transcript
