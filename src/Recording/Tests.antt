-- ===== src/Recording/Tests.antt =====
-- A recording that is uploaded, and one without the provider's ids.
use post_call_processing_pip.Common.{◌≡◌, refl, ◌++◌, some, [], ◌∷◌, arith}
use post_call_processing_pip.Text.{Text, text, text_eq}
use post_call_processing_pip.Json
use post_call_processing_pip.Json.{Json, bool, str, obj, Fields, end, field, get_or, is_truthy}
use post_call_processing_pip.Settings.{defaults}
use post_call_processing_pip.Models.{Db, InteractionJob, medium, running, recording_fetch}
use post_call_processing_pip.Jobs.{get, succeed_row, dead_letter_row, dead_letter_of}
use post_call_processing_pip.Interactions
use post_call_processing_pip.Failure.{Readings}
use post_call_processing_pip.Attempt.{get_of}
use post_call_processing_pip.Recording.{
  snapshot_of, HttpAnswer, answered, uploaded, s3_key_of, read_body, read_answer, poll_once,
  process,
}
use post_call_processing_pip.Recording.Outcome.{process_missing, process_uploaded}
use post_call_processing_pip.Samples.{runtime, job, call, tables}

abbrev fetch_job : Fields → InteractionJob
fetch_job payload = record (job 3 medium running 10 (some (text "recording-a")) (some 40) payload) {
  job_type = recording_fetch;
}

abbrev db : InteractionJob → Db
db j = record (tables (j ∷ []) []) { interactions = call ∷ [] }

abbrev url : Json
url = str (text "https://recordings.example/1.mp3")

abbrev provider : Text → Text → HttpAnswer
provider account call_sid = answered 200 (obj (field (text "recording_url") url end))

abbrev clock : Readings
clock = record { decided = 90; logged = 91; closed = 92 }

abbrev message : Text → Text
message e = text "failed"

abbrev ids : Fields
ids =
    field (text "call_sid") (str (text "CA1"))
      (field (text "exotel_account_id") (str (text "EX")) end)

is_uploaded : poll_once provider 103 (text "CA1") (text "EX") ≡ uploaded (s3_key_of 103) url
unfolding poll_once read_answer read_body get_of Json.get is_truthy text text_eq
is_uploaded = refl

process_missing_example :
    let j = fetch_job end in
    let db' = process defaults runtime message provider 80 clock (snapshot_of j) (db j) in
    let m = text "Missing call SID or Exotel account ID" in
    let code = text "RECORDING_UNAVAILABLE" in
    (get 3 db' ≡ some (dead_letter_row 92 code m j))
    × (db'.dead_letters ≡ [] ++ dead_letter_of j (text "recording_worker") code m ∷ [])
unfolding get_or Json.get
process_missing_example =
    process_missing defaults runtime message provider 80 clock (snapshot_of (fetch_job end))
      (db (fetch_job end)) (fetch_job end) refl refl (omega arith) (omega arith)

process_uploaded_example :
    let j = fetch_job ids in
    let db' = process defaults runtime message provider 80 clock (snapshot_of j) (db j) in
    (Interactions.get 103 db' ≡ some (record call { recording_s3_key = some (s3_key_of 103) }))
    × (get 3 db'
        ≡ some (
            succeed_row 80
              (field
                (text "s3_key")
                (str (s3_key_of 103))
                (field (text "recording_url_present") (bool (is_truthy url)) end))
              0
              j))
unfolding get_or Json.get is_truthy text text_eq
process_uploaded_example =
    process_uploaded defaults runtime message provider 80 clock (snapshot_of (fetch_job ids))
      (db (fetch_job ids)) (s3_key_of 103) url (fetch_job ids) call is_uploaded refl refl refl
