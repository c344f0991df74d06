-- ===== src/Llm/Tests.antt =====
-- Headers of a rate limit, and the mock's answer.
use post_call_processing_pip.Common.{◌≡◌, refl, none, some, []}
use post_call_processing_pip.Text.{Text, text, text_eq, parse_int}
use post_call_processing_pip.Json.{null}
use post_call_processing_pip.Settings.{defaults}
use post_call_processing_pip.Llm.{
  answered, failed, returned, raised, mock_result, parse_retry_after, read_response, analyze_call,
}
use post_call_processing_pip.Samples.{runtime}

parse_retry_after_samples :
    (parse_retry_after none ≡ 60)
    × (parse_retry_after (some []) ≡ 60)
    × (parse_retry_after (some (text "7")) ≡ 7)
    × (parse_retry_after (some (text "0")) ≡ 1)
    × (parse_retry_after (some (text "-4")) ≡ 1)
    × (parse_retry_after (some (text "Wed, 21 Oct 2026 07:28:00 GMT")) ≡ 60)
unfolding parse_retry_after parse_int text
parse_retry_after_samples = (refl, refl, refl, refl, refl, refl)

abbrev message : Text → Text
message e = e

mocked : analyze_call defaults runtime message (failed (text "timeout")) ≡ returned mock_result
unfolding analyze_call text_eq text
mocked = refl

overloaded :
    read_response runtime message (answered 503 none (some null))
    ≡ raised (text "HTTPStatusError") (text "HTTPStatusError")
unfolding read_response
overloaded = refl
