-- ===== src/Signature/Check.antt =====
-- security/webhooks.py: which deliveries pass the check, and what becomes of the others.
use post_call_processing_pip.Common.{
  ℕ, ◌≡◌, ◌≢◌, refl, inl, inr, Bool, true, false, ◌&&◌, ◌||◌, Option, none, some, List, [], ◌∷◌,
  ◌++◌, leb, ◌==◌, All, Bool-cases, arith,
}
use post_call_processing_pip.Text.{Text, text, text_eq, text_eq_iff, is_nonempty, starts_with}
use post_call_processing_pip.Text.Strip.{
  IsTight, IsBlank, strip-append, remove_prefix, remove_prefix-append,
}
use post_call_processing_pip.Settings.{Settings}
use post_call_processing_pip.Runtime.{Runtime}
use post_call_processing_pip.Models.{Db}
use post_call_processing_pip.Webhook.{InteractionEndRequest, rejected, end_interaction}
use post_call_processing_pip.Signature.{
  Verdict, valid, refused, broken, is_ascii, compare_digest, normalized, verdict_of,
  validate_webhook_signature, status_of,
}

abbrev is_hex : ℕ → Bool
is_hex c = (leb 48 c && leb c 57) || (leb 97 c && leb c 102)

-- Lower-case hexadecimal digits, at least one: what `hexdigest()` is documented to return.
abbrev pub IsHexText : Text → Type 0
IsHexText [] = ⊥
IsHexText (c ∷ s) = All (λ d. is_hex d ≡ true) (c ∷ s)

hex-IsTight : (s : Text) → All (λ d. is_hex d ≡ true) s → IsTight s
hex-IsTight [] h = tt
hex-IsTight (c ∷ s) h = (ground arith, hex-IsTight s h.1)

hex-is_ascii : (s : Text) → All (λ d. is_hex d ≡ true) s → is_ascii s ≡ true
unfolding is_ascii
hex-is_ascii [] h = refl
hex-is_ascii (c ∷ s) h =
    let low : leb c 127 ≡ true = ground arith in rw (low, hex-is_ascii s h.1) refl

-- The prefix is cut where it stands, and nothing else.
normalized_prefixed :
    (before digest after : Text)
    → IsBlank before
    → IsHexText digest
    → IsBlank after
    → normalized (text "sha256=" ++ (before ++ (digest ++ after))) ≡ digest
unfolding normalized
normalized_prefixed before [] after b h a = absurd h
normalized_prefixed before (c ∷ s) after b h a =
    rw (remove_prefix-append (text "sha256=") (before ++ ((c ∷ s) ++ after)))
      (strip-append before s after c b (hex-IsTight (c ∷ s) h) a)

normalized_bare :
    (digest after : Text) → IsHexText digest → IsBlank after → normalized (digest ++ after) ≡ digest
unfolding normalized remove_prefix starts_with text
normalized_bare [] after h a = absurd h
normalized_bare (c ∷ s) after h a =
    let other : (b's' == c) ≡ false = ground arith in
    rw other (strip-append [] s after c tt (hex-IsTight (c ∷ s) h) a)

compare_digest_valid : (a b : Text) → verdict_of (compare_digest a b) ≡ valid → a ≡ b
unfolding compare_digest
compare_digest_valid a b h = elim (Bool-cases (is_ascii a && is_ascii b)) [
  | inr foreign ↦
      let stopped : broken (text "TypeError") ≡ valid = rw foreign at h in absurd (ground arith)
  | inl ascii ↦ elim (Bool-cases (text_eq a b)) [
    | inl same ↦ (text_eq_iff a b).0 same
    | inr other ↦
        let refusal : refused (text "Invalid webhook signature") ≡ valid = rw (ascii, other) at h in
        absurd (ground arith)
  ]
]

module _ (s : Settings) (hmac : Text → List ℕ → Text) (body : List ℕ)
    (secret : is_nonempty s.webhook_signing_secret ≡ true) where
  abbrev expected : Text
  expected = hmac s.webhook_signing_secret body

  abbrev checked : Option Text → Verdict
  checked header = validate_webhook_signature s hmac header body

  matching :
      (supplied : Text)
      → is_nonempty supplied ≡ true
      → IsHexText expected
      → normalized supplied ≡ expected
      → checked (some supplied) ≡ valid
  unfolding validate_webhook_signature compare_digest
  matching supplied some_text hex same =
      let ascii : is_ascii expected ≡ true = hex_ascii expected hex in
      let equal : text_eq expected expected ≡ true = (text_eq_iff expected expected).1 refl in
      rw (secret, some_text, same, ascii, equal) refl
    where
      hex_ascii : (d : Text) → IsHexText d → is_ascii d ≡ true
      hex_ascii [] h = absurd h
      hex_ascii (c ∷ t) h = hex-is_ascii (c ∷ t) h

  -- When a secret is configured and the HMAC is hexadecimal: a sender that signs the body with the
  -- secret passes the check, with the prefix `sha256=` or without it, and with white space after
  -- the digits, or after the prefix.
  pub validate_webhook_signature_signed :
      (before after : Text)
      → IsHexText expected
      → IsBlank before
      → IsBlank after
      → (checked (some (text "sha256=" ++ (before ++ (expected ++ after)))) ≡ valid)
        × (checked (some (expected ++ after)) ≡ valid)
  unfolding text
  validate_webhook_signature_signed before after hex b a = (
    matching _ refl hex (normalized_prefixed before expected after b hex a),
    matching (expected ++ after) (some_digits expected hex) hex
        (normalized_bare expected after hex a),
  )
    where
      some_digits : (d : Text) → IsHexText d → is_nonempty (d ++ after) ≡ true
      some_digits [] h = absurd h
      some_digits (c ∷ t) h = refl

  -- When a secret is configured, only a header that carries exactly the HMAC of this body under
  -- the secret passes.
  pub validate_webhook_signature_valid :
      (header : Option Text)
      → checked header ≡ valid
      → (supplied : Text) × (header ≡ some supplied) × (normalized supplied ≡ expected)
  unfolding validate_webhook_signature compare_digest
  validate_webhook_signature_valid none h =
      let missing : refused (text "Missing webhook signature") ≡ valid = rw secret at h in
      absurd (ground arith)
  validate_webhook_signature_valid (some supplied) h = elim (Bool-cases (is_nonempty supplied)) [
    | inr empty ↦
        let missing : refused (text "Missing webhook signature") ≡ valid =
          rw (secret, empty) at h in
        absurd (ground arith)
    | inl some_text ↦ (
      supplied,
      refl,
      compare_digest_valid (normalized supplied) expected (rw (secret, some_text) at h),
    )
  ]

  -- When a secret is configured, a delivery without a header that carries the HMAC of its body is
  -- rejected whatever it asks for, and changes no table.
  pub end_interaction_unsigned :
      (rt : Runtime) (header : Option Text) (ended_at now session_id interaction_id : ℕ)
      (request : InteractionEndRequest) (nudged : Option (Text × Text)) (db : Db)
      → ((supplied : Text) → header ≡ some supplied → normalized supplied ≢ expected)
      → (code : ℕ) × (end_interaction s rt
            (status_of (checked header))
            ended_at
            now
            session_id
            interaction_id
            request
            nudged
            db
          ≡ (rejected code, db))
  unfolding end_interaction
  end_interaction_unsigned rt header ended_at now session_id interaction_id request nudged db
        wrong =
      go (checked header) refl
    where
      go :
          (v : Verdict)
          → checked header ≡ v
          → (code : ℕ) × (end_interaction s rt
                (status_of v)
                ended_at
                now
                session_id
                interaction_id
                request
                nudged
                db
              ≡ (rejected code, db))
      go valid e =
          let (supplied, there, same) = validate_webhook_signature_valid header e in
          absurd (wrong supplied there same)
      go (refused detail) e = (401, refl)
      go (broken error_class) e = (500, refl)
