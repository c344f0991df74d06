-- ===== src/Classifier.antt =====
-- scheduler/classifier.py: `InteractionClassifier`.
pub mod Keywords
pub mod Pressure
mod Tests
use post_call_processing_pip.Common.{
  ℕ, zero, suc, Bool, true, false, ◌||◌, List, [], ◌∷◌, ◌++◌, ltb, if◌then◌else◌,
}
use post_call_processing_pip.Text.{Text, text, is_in, lower}
use post_call_processing_pip.Json.{
  Json, null, bool, num, str, arr, obj, Items, nil, cons, Fields, get_or,
}
use post_call_processing_pip.Runtime.{Runtime}
use post_call_processing_pip.Models.{JobPriority, high, medium, low}

pub record Classification : Type 0 where
  pub skip_llm : Bool
  pub priority : JobPriority
  pub call_stage : Text
  pub reason : Text

unfoldable pub high_keywords : List Text
unfolding text
high_keywords =
    text "confirmed"
    ∷ text "booked"
    ∷ text "demo"
    ∷ text "appointment"
    ∷ text "reschedule"
    ∷ text "manager"
    ∷ text "complaint"
    ∷ text "escalate"
    ∷ text "unacceptable"
    ∷ []

unfoldable pub medium_keywords : List Text
unfolding text
medium_keywords =
    text "callback" ∷ text "call back" ∷ text "later" ∷ text "baad mein" ∷ text "follow-up" ∷ []

unfoldable pub low_keywords : List Text
unfolding text
low_keywords =
    text "not interested"
    ∷ text "dont call"
    ∷ text "don't call"
    ∷ text "wrong number"
    ∷ text "already booked"
    ∷ text "already purchased"
    ∷ text "already done"
    ∷ []

-- `any(keyword in text for keyword in keywords)`
unfoldable pub contains_any : Text → List Text → Bool
contains_any t [] = false
contains_any t (k ∷ ks) = is_in k t || contains_any t ks

-- `len(transcript)`
abbrev pub len : Items → ℕ
len nil = 0
len (cons x xs) = suc (len xs)

-- `str(v)`
abbrev pub str_of : Runtime → Json → Text
str_of rt null = text "None"
str_of rt (bool true) = text "True"
str_of rt (bool false) = text "False"
str_of rt (str s) = s
str_of rt v = rt.repr v

-- What is searched: `f"{transcript_text} {disposition}".lower()`.
unfoldable pub searched : Runtime → Text → Fields → Text
searched rt transcript_text additional_data =
    let disposition = lower (str_of rt (get_or (text "disposition") (str []) additional_data)) in
    lower (transcript_text ++ (b' ' ∷ disposition))

abbrev pub analysed : JobPriority → Text → Classification
analysed priority reason = record {
  skip_llm = false;
  priority = priority;
  call_stage = text "needs_analysis";
  reason = reason;
}

unfoldable pub classify_text : Text → Classification
classify_text t =
    if contains_any t high_keywords
    then analysed high (text "high_value_keyword")
    else if contains_any t medium_keywords
    then analysed medium (text "medium_value_keyword")
    else if contains_any t low_keywords
    then analysed low (text "low_value_keyword")
    else analysed medium (text "default_medium")

unfoldable pub classify : Runtime → Items → Text → Fields → Classification
classify rt transcript transcript_text additional_data =
    if ltb (len transcript) 4
    then record {
      skip_llm = true;
      priority = low;
      call_stage = text "short_call";
      reason = text "short_transcript";
    }
    else classify_text (searched rt transcript_text additional_data)
