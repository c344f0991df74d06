-- ===== src/Llm.antt =====
-- llm/client.py: `LLMClient`. What the provider answers to the POST is an argument.
pub mod Limits
mod Tests
use post_call_processing_pip.Common.{
  ℕ, Bool, true, false, not, ◌&&◌, Option, none, some, List, [], ◌∷◌, ◌++◌, take, ◌==◌, leb,
  if◌then◌else◌, ℤ, pos, negsuc, max,
}
use post_call_processing_pip.Text.{Text, text, text_eq, is_nonempty, parse_int}
use post_call_processing_pip.Json.{
  Json, null, bool, num, str, arr, obj, Items, nil, cons, Fields, end, field, set,
}
use post_call_processing_pip.Json
use post_call_processing_pip.Settings.{Settings}
use post_call_processing_pip.Runtime.{Runtime}
use post_call_processing_pip.Attempt.{Attempt, ok, raise, ◌>>=◌, get_of}

-- A response with its status, its Retry-After header and its body, which is `none` if it is no
-- JSON; or the text of an `httpx.HTTPError`.
pub data ProviderAnswer : Type 0 where
  answered : ℕ → Option Text → Option Json → ProviderAnswer
  failed : Text → ProviderAnswer

-- How `analyze_call` ends: a dict, a `RateLimitExceeded`, or another exception with its class and
-- text.
pub data ClientResult : Type 0 where
  returned : Fields → ClientResult
  limited : Text → ℕ → ClientResult
  raised : Text → Text → ClientResult

-- `max(z, 1)`
abbrev pub at_least_one : ℤ → ℕ
at_least_one (pos n) = max n 1
at_least_one (negsuc n) = 1

-- `_parse_retry_after`
unfoldable pub parse_retry_after : Option Text → ℕ
unfolding parse_int
parse_retry_after none = 60
parse_retry_after (some value) =
    if is_nonempty value then elim (parse_int value) [ some z ↦ at_least_one z | none ↦ 60 ] else 60

-- `v[key]`
unfoldable pub item_of : Text → Json → Attempt Json
item_of key (obj d) = elim (Json.get key d) [ none ↦ raise (text "KeyError") | some v ↦ ok v ]
item_of key v = raise (text "TypeError")

-- `v[0]`
unfoldable pub first_of : Json → Attempt Json
first_of (arr nil) = raise (text "IndexError")
first_of (arr (cons v vs)) = ok v
first_of (str []) = raise (text "IndexError")
first_of (str (c ∷ s)) = ok (str (c ∷ []))
first_of (obj d) = raise (text "KeyError")
first_of v = raise (text "TypeError")

-- `json.loads(content)`, and the dict that stands in for a text that is no JSON.
unfoldable pub parse_content : Runtime → Json → Attempt Json
parse_content rt (str content) = elim (rt.loads content) [
  | some v ↦ ok v
  | none ↦ ok (
      obj (
        field (text "call_stage") (str (text "unknown")) (
          field (text "entities") (obj (field (text "raw_content") (str content) end))
            (field (text "summary") (str (take 500 content)) end))))
]
parse_content rt v = raise (text "TypeError")

-- `parsed[key] = v`
unfoldable pub set_item : Text → Json → Json → Attempt Fields
set_item key v (obj d) = ok (set key v d)
set_item key v w = raise (text "TypeError")

abbrev pub or_default {ℓ} : {A : Type ℓ} → Option A → A → A
or_default none d = d
or_default (some a) d = a

-- The body of a success: the parsed content with the tokens that the provider counted.
unfoldable pub read_completion : Runtime → Json → Attempt Fields
unfolding get_of item_of first_of parse_content set_item
read_completion rt body = do
  choices ← item_of (text "choices") body
  choice ← first_of choices
  message ← item_of (text "message") choice
  content ← item_of (text "content") message
  usage ← get_of (text "usage") body
  parsed ← parse_content rt content
  total ← get_of (text "total_tokens") (or_default usage (obj end))
  set_item (text "usage") (obj (field (text "total_tokens") (or_default total (num (pos 0))) end))
      parsed

-- The result of the mock provider.
unfoldable pub mock_result : Fields
mock_result = field (text "call_stage") (str (text "unknown")) (
    field (text "entities") (obj end) (
      field (text "summary") (str (text "Mock analysis result"))
        (field (text "usage") (obj (field (text "total_tokens") (num (pos 1500)) end)) end)))

abbrev pub is_success : ℕ → Bool
is_success status = leb 200 status && leb status 299

-- The end of a step, with `message` the text of an exception by its class.
abbrev pub client_result : (Text → Text) → Attempt Fields → ClientResult
client_result message (ok parsed) = returned parsed
client_result message (raise e) = raised e (message e)

-- What follows the POST.
unfoldable pub read_response : Runtime → (Text → Text) → ProviderAnswer → ClientResult
unfolding parse_retry_after read_completion
read_response rt message (failed error) =
    raised (text "RuntimeError") (text "LLM provider request failed: " ++ error)
read_response rt message (answered status retry_after body) =
    if status == 429
    then limited (text "LLM provider rate limit exceeded") (parse_retry_after retry_after)
    else if not (is_success status)
    then raised (text "HTTPStatusError") (message (text "HTTPStatusError"))
    else elim body [
      | none ↦ raised (text "JSONDecodeError") (message (text "JSONDecodeError"))
      | some v ↦ client_result message (read_completion rt v)
    ]

-- `analyze_call`
unfoldable pub analyze_call : Settings → Runtime → (Text → Text) → ProviderAnswer → ClientResult
unfolding mock_result read_response
analyze_call s rt message answer =
    if text_eq s.llm_api_key (text "sk-mock-key-for-assessment")
    then returned mock_result
    else read_response rt message answer
