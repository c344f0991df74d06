-- ===== src/ResultWorker/Tests.antt =====
-- A lead whose call was a booked demo, and an analysis result that is no dict.
use post_call_processing_pip.Common.{ℕ, ◌≤◌, length, arith, ◌≡◌, ◌≢◌, refl, some, [], ◌∷◌}
use post_call_processing_pip.Text.{Text, text, text_eq}
use post_call_processing_pip.Json.{Json, str, obj, Fields, end, field, get_or}
use post_call_processing_pip.Json
use post_call_processing_pip.Settings.{defaults}
use post_call_processing_pip.Attempt.{raise}
use post_call_processing_pip.Models.{Db, InteractionJob, Lead, medium, running, lead_stage_update}
use post_call_processing_pip.Jobs.{get, succeed_row}
use post_call_processing_pip.Failure.{Readings}
use post_call_processing_pip.Attempt.{get_of}
use post_call_processing_pip.ResultWorker.{snapshot_of, find_lead, process}
use post_call_processing_pip.ResultWorker.Outcome.{listed, lead_stages, process_lead}
use post_call_processing_pip.Samples.{runtime, job, tables}

abbrev lead : Lead
lead = record { id = 6; campaign_id = 3; customer_id = 7; stage = text "new" }

abbrev analysis : Fields
analysis = field (text "call_stage") (str (text "demo_booked")) end

abbrev lead_job : Json → InteractionJob
lead_job result =
    record (job 5 medium running 10 (some (text "result-worker-a")) (some 40)
      (field (text "analysis_result") result end)) { job_type = lead_stage_update }

abbrev leads : InteractionJob → Db
leads j = record (tables (j ∷ []) []) { leads = lead ∷ [] }

abbrev clock : Readings
clock = record { decided = 90; logged = 91; closed = 92 }

abbrev message : Text → Text
message e = text "'str' object has no attribute 'get'"

analysis_is_read :
    get_or (text "analysis_result") (obj end) (lead_job (obj analysis)).payload ≡ obj analysis
unfolding get_or text text_eq
analysis_is_read = refl

stage_is_read : Json.get (text "call_stage") analysis ≡ some (str (text "demo_booked"))
unfolding Json.get text text_eq
stage_is_read = refl

fits : length (listed lead_stages (text "demo_booked")) ≤ 100
unfolding text text_eq
fits = omega arith

process_lead_example :
    let j = lead_job (obj analysis) in
    let db' = process defaults runtime message 80 clock (snapshot_of j) (leads j) in
    (find_lead 6 db' ≡ some (record lead { stage = listed lead_stages (text "demo_booked") }))
    × ((i : ℕ) → i ≢ 6 → find_lead i db' ≡ find_lead i (leads j))
    × (get 5 db' ≡ some (succeed_row 80 end 0 j))
process_lead_example =
    process_lead defaults runtime message 80 clock (snapshot_of (lead_job (obj analysis)))
      (leads (lead_job (obj analysis))) analysis (text "demo_booked") lead (lead_job (obj analysis))
      refl analysis_is_read stage_is_read refl refl refl fits

abbrev broken : InteractionJob
broken = lead_job (str (text "oops"))

broken_raises :
    get_of (text "call_stage") (get_or (text "analysis_result") (obj end) broken.payload)
    ≡ raise (text "AttributeError")
unfolding get_of get_or text text_eq
broken_raises = refl
