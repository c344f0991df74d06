-- ===== src/Keys.antt =====
-- The idempotency keys that the pipeline gives its jobs.
use post_call_processing_pip.Common.{ℕ, ◌++◌}
use post_call_processing_pip.Text.{Text, text, uuid_str}

-- f"interaction:{interaction_id}:{kind}:v1"
abbrev pub plain_key : ℕ → Text → Text
plain_key interaction_id kind =
    text "interaction:" ++ (uuid_str interaction_id ++ (text ":" ++ (kind ++ text ":v1")))

-- f"interaction:{interaction_id}:{kind}:{stage}:v1"
abbrev pub staged_key : ℕ → Text → Text → Text
staged_key interaction_id kind stage =
    text "interaction:"
    ++ (uuid_str interaction_id ++ (text ":" ++ (kind ++ (text ":" ++ (stage ++ text ":v1")))))
