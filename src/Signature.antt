-- ===== src/Signature.antt =====
-- security/webhooks.py: `validate_webhook_signature`. The HMAC of Python's library, as hexadecimal
-- text, is an argument; a body is the list of its bytes.
pub mod Check
mod Tests
use post_call_processing_pip.Common.{
  ℕ, Bool, true, false, ◌&&◌, Option, none, some, List, [], ◌∷◌, leb, if◌then◌else◌,
}
use post_call_processing_pip.Text.{Text, text, text_eq, is_nonempty}
use post_call_processing_pip.Text.Strip.{strip, remove_prefix}
use post_call_processing_pip.Settings.{Settings}
use post_call_processing_pip.Attempt.{Attempt, ok, raise}

-- How the check ends: a return, the HTTPException 401 with its detail, or another exception.
pub data Verdict : Type 0 where
  valid : Verdict
  refused : Text → Verdict
  broken : Text → Verdict

unfoldable pub is_ascii : Text → Bool
is_ascii [] = true
is_ascii (c ∷ s) = leb c 127 && is_ascii s

-- `hmac.compare_digest(a, b)` of two `str`.
unfoldable pub compare_digest : Text → Text → Attempt Bool
unfolding is_ascii
compare_digest a b = if is_ascii a && is_ascii b then ok (text_eq a b) else raise (text "TypeError")

-- `supplied.removeprefix("sha256=").strip()`
unfoldable pub normalized : Text → Text
unfolding text
normalized supplied = strip (remove_prefix (text "sha256=") supplied)

abbrev pub verdict_of : Attempt Bool → Verdict
verdict_of (ok true) = valid
verdict_of (ok false) = refused (text "Invalid webhook signature")
verdict_of (raise e) = broken e

-- `header` is what the request has under the configured name.
unfoldable pub validate_webhook_signature :
    Settings → (Text → List ℕ → Text) → Option Text → List ℕ → Verdict
unfolding compare_digest normalized
validate_webhook_signature s hmac none body =
    if is_nonempty s.webhook_signing_secret
    then refused (text "Missing webhook signature")
    else valid
validate_webhook_signature s hmac (some supplied) body =
    if is_nonempty s.webhook_signing_secret
    then if is_nonempty supplied
      then verdict_of (compare_digest (normalized supplied) (hmac s.webhook_signing_secret body))
      else refused (text "Missing webhook signature")
    else valid

-- What `end_interaction` makes of it: the status code that it answers, if any.
abbrev pub status_of : Verdict → Option ℕ
status_of valid = none
status_of (refused detail) = some 401
status_of (broken error_class) = some 500
