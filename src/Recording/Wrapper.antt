-- ===== src/Recording/Wrapper.antt =====
-- services/recording.py: the wrapper that polls once and forgets why there is no recording.
use post_call_processing_pip.Common.{ℕ, Option, none, some}
use post_call_processing_pip.Text.{Text}
use post_call_processing_pip.Attempt.{Attempt, ok, raise}
use post_call_processing_pip.Recording.{
  HttpAnswer, Poll, uploaded, not_ready, unavailable, broken, poll_once,
}

-- The `return` and the `except` clauses.
unfoldable pub key_of : Poll → Attempt (Option Text)
key_of (uploaded s3_key url) = ok (some s3_key)
key_of (not_ready e) = ok none
key_of (unavailable e) = ok none
key_of (broken e) = raise e

unfoldable pub fetch_and_upload_recording :
    (Text → Text → HttpAnswer) → ℕ → Text → Text → Attempt (Option Text)
unfolding key_of
fetch_and_upload_recording provider interaction_id call_sid exotel_account_id =
    key_of (poll_once provider interaction_id call_sid exotel_account_id)
