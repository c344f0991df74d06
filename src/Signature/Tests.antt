-- ===== src/Signature/Tests.antt =====
-- A signed delivery, one with the wrong digits, and one whose header is not ASCII. The HMAC is a
-- stand-in with two hexadecimal digits.
use post_call_processing_pip.Common.{
  ℕ, ◌≡◌, ◌≢◌, refl, none, some, true, List, [], ◌∷◌, ◌++◌, arith,
}
use post_call_processing_pip.Text.{Text, text, text_eq, is_nonempty, starts_with}
use post_call_processing_pip.Text.Strip.{strip, left_strip, remove_prefix}
use post_call_processing_pip.Settings.{Settings, defaults}
use post_call_processing_pip.Webhook.{rejected, end_interaction}
use post_call_processing_pip.Signature.{
  valid, broken, normalized, validate_webhook_signature, status_of, compare_digest, is_ascii,
}
use post_call_processing_pip.Signature.Check.{
  validate_webhook_signature_signed, end_interaction_unsigned,
}
use post_call_processing_pip.Webhook.{InteractionEndRequest}
use post_call_processing_pip.Samples.{runtime, db}

abbrev settings : Settings
settings = record defaults { webhook_signing_secret = text "s3cret" }

abbrev hmac : Text → List ℕ → Text
hmac secret body = b'a' ∷ b'7' ∷ []

abbrev body : List ℕ
body = 123 ∷ 125 ∷ []

configured : is_nonempty settings.webhook_signing_secret ≡ true
unfolding text
configured = refl

validate_webhook_signature_signed_example :
    (validate_webhook_signature settings hmac
        (some (text "sha256=" ++ ((b' ' ∷ []) ++ ((b'a' ∷ b'7' ∷ []) ++ (10 ∷ [])))))
        body
      ≡ valid)
    × (validate_webhook_signature settings hmac (some ((b'a' ∷ b'7' ∷ []) ++ (10 ∷ []))) body
        ≡ valid)
validate_webhook_signature_signed_example =
    validate_webhook_signature_signed settings hmac body configured (b' ' ∷ []) (10 ∷ [])
      (refl, (refl, tt)) (refl, tt) (refl, tt)

passes : validate_webhook_signature settings hmac (some (text "sha256=a7")) body ≡ valid
unfolding validate_webhook_signature compare_digest normalized is_ascii strip left_strip
    remove_prefix starts_with text text_eq
passes = refl

-- The last digit of the header is no ASCII character: 500, not 401.
not_ascii :
    validate_webhook_signature settings hmac (some (b'a' ∷ 233 ∷ [])) body
    ≡ broken (text "TypeError")
unfolding validate_webhook_signature compare_digest normalized is_ascii strip left_strip
    remove_prefix starts_with text text_eq
not_ascii = refl

abbrev request : InteractionEndRequest
request = record { call_sid = none; duration_seconds = none; additional_data = none }

no_header : (supplied : Text) → none ≡ some supplied → normalized supplied ≢ b'a' ∷ b'7' ∷ []
no_header supplied h = absurd (ground arith)

end_interaction_unsigned_example :
    (code : ℕ) × (end_interaction settings runtime
        (status_of (validate_webhook_signature settings hmac none body))
        70
        71
        5
        103
        request
        none
        db
      ≡ (rejected code, db))
end_interaction_unsigned_example =
    end_interaction_unsigned settings hmac body configured runtime none 70 71 5 103 request none db
      no_header
