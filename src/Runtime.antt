-- ===== src/Runtime.antt =====
-- What the program takes from Python's library and the model does not spell out: `isoformat()` of
-- a time and `fromisoformat()` of a text, `UUID()` of a text, `str()` of a JSON number, list or
-- dict, and `json.dumps` and `json.loads`. `none` is a ValueError.
use post_call_processing_pip.Common.{ℕ, Option}
use post_call_processing_pip.Text.{Text}
use post_call_processing_pip.Json.{Json}

pub record Runtime : Type 0 where
  pub isoformat : ℕ → Text
  pub repr : Json → Text
  pub fromisoformat : Text → Option ℕ
  pub dumps : Json → Text
  pub loads : Text → Option Json
  pub parse_uuid : Text → Option ℕ
