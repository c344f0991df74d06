-- ===== src/Llm/Limits.antt =====
-- llm/client.py: the time that a rate limit asks for, and what a completion leaves to be read.
use post_call_processing_pip.Common.{
  ◌<◌, ◌≡◌, sym, Option, none, some, ℤ, pos, negsuc, Option-cases, Bool-cases, inl, inr, arith,
}
use post_call_processing_pip.Text.{Text, text, is_nonempty, parse_int}
use post_call_processing_pip.Json.{Json, null, bool, num, str, arr, obj, Fields, end, field}
use post_call_processing_pip.Json
use post_call_processing_pip.Json.Lookup.{get-set}
use post_call_processing_pip.Runtime.{Runtime}
use post_call_processing_pip.Attempt.{ok, get_of, bind-ok}
use post_call_processing_pip.Llm.{
  at_least_one, parse_retry_after, item_of, first_of, parse_content, or_default, set_item,
  read_completion,
}

at_least_one_pos : (z : ℤ) → 0 < at_least_one z
at_least_one_pos (pos n) = omega arith
at_least_one_pos (negsuc n) = omega arith

pub parse_retry_after_pos : (header : Option Text) → 0 < parse_retry_after header
unfolding parse_retry_after
parse_retry_after_pos none = omega arith
parse_retry_after_pos (some value) = elim (Bool-cases (is_nonempty value)) [
  | inr e ↦ rw e (omega arith)
  | inl e ↦ elim (Option-cases (parse_int value)) [
    | inl e' ↦ rw (e, e') (omega arith)
    | inr (z, e') ↦ rw (e, e') (at_least_one_pos z)
  ]
]

-- The tokens that a completion was charged with.
abbrev pub HasTotal : Fields → Json → Type 0
HasTotal response total =
    Json.get (text "usage") response ≡ some (obj (field (text "total_tokens") total end))

set_item-total :
    (total parsed : Json) (response : Fields)
    → set_item (text "usage") (obj (field (text "total_tokens") total end)) parsed ≡ ok response
    → HasTotal response total
unfolding set_item
set_item-total total (obj d) response e =
    let same : Json.set (text "usage") (obj (field (text "total_tokens") total end)) d ≡ response =
      ground arith in
    rw (sym same) (get-set (text "usage") _ d)
set_item-total total null response e = absurd (ground arith)
set_item-total total (bool _) response e = absurd (ground arith)
set_item-total total (num _) response e = absurd (ground arith)
set_item-total total (str _) response e = absurd (ground arith)
set_item-total total (arr _) response e = absurd (ground arith)

-- A completion that can be read carries a total of tokens, whatever JSON the model wrote.
pub read_completion-HasTotal :
    (rt : Runtime) (body : Json) (response : Fields)
    → read_completion rt body ≡ ok response
    → (total : Json) × HasTotal response total
unfolding read_completion
read_completion-HasTotal rt body response e =
    let (choices, _, e1) = bind-ok (item_of (text "choices") body) _ e in
    let (choice, _, e2) = bind-ok (first_of choices) _ e1 in
    let (message, _, e3) = bind-ok (item_of (text "message") choice) _ e2 in
    let (content, _, e4) = bind-ok (item_of (text "content") message) _ e3 in
    let (usage, _, e5) = bind-ok (get_of (text "usage") body) _ e4 in
    let (parsed, _, e6) = bind-ok (parse_content rt content) _ e5 in
    let (total, _, e7) = bind-ok (get_of (text "total_tokens") (or_default usage (obj end))) _ e6 in
    (or_default total (num (pos 0)), set_item-total _ parsed response e7)
