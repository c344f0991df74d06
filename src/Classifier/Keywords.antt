-- ===== src/Classifier/Keywords.antt =====
-- scheduler/classifier.py: what decides the priority of a call.
use post_call_processing_pip.Common.{
  ◌≤◌, ◌≡◌, ◌≢◌, refl, sym, ◌∙◌, inl, inr, ◌↔◌, Bool, true, false, ◌||◌, List, [], ◌∷◌, ◌++◌, ltb,
  Bool-cases, arith, ◌<◌,
}
use post_call_processing_pip.Text.{Text, text, is_in, lower}
use post_call_processing_pip.Text.Substrings.{is_in-append, is_in-suffix, lower-append}
use post_call_processing_pip.Json.{Items, Fields}
use post_call_processing_pip.Runtime.{Runtime}
use post_call_processing_pip.Models.{high}
use post_call_processing_pip.Classifier.{
  classify, classify_text, searched, contains_any, high_keywords, len,
}

pub classify_text-analysed :
    (t : Text)
    → ((classify_text t).skip_llm ≡ false) × ((classify_text t).call_stage ≡ text "needs_analysis")
unfolding classify_text
classify_text-analysed t = ground arith

classify_text-high :
    (t : Text)
    → contains_any t high_keywords ≡ true
    → ((classify_text t).skip_llm ≡ false) × ((classify_text t).priority ≡ high)
unfolding classify_text
classify_text-high t h = rw h (refl, refl)

not_short : text "needs_analysis" ≢ text "short_call"
unfolding text
not_short e = cc

-- The LLM is skipped exactly for transcripts of fewer than four turns, whatever they say; these
-- calls have the stage "short_call".
pub classify-skip_iff :
    (rt : Runtime) (transcript : Items) (transcript_text : Text) (additional_data : Fields)
    → let c = classify rt transcript transcript_text additional_data in
      ((c.skip_llm ≡ true) ↔ (len transcript < 4))
      × ((c.call_stage ≡ text "short_call") ↔ (len transcript < 4))
unfolding classify
classify-skip_iff rt transcript transcript_text additional_data =
    let t = searched rt transcript_text additional_data in
    elim (Bool-cases (ltb (len transcript) 4)) [
      | inl short ↦ rw short (((λ _. ground arith), λ _. refl), ((λ _. ground arith), λ _. refl))
      | inr long ↦ rw long (
        ((λ h. cc (h, (classify_text-analysed t).0)), λ h. absurd (ground arith)),
        (
          (λ h. absurd (not_short (sym (classify_text-analysed t).1 ∙ h))),
          λ h. absurd (ground arith),
        ),
      )
    ]

contains_any-append :
    (s t : Text) (ks : List Text) → contains_any s ks ≡ true → contains_any (s ++ t) ks ≡ true
unfolding contains_any
contains_any-append s t [] h = cc
contains_any-append s t (k ∷ ks) h = ground (arith, is_in-append k s t, contains_any-append s t ks)

searched-high :
    (rt : Runtime) (transcript_text : Text) (additional_data : Fields)
    → contains_any (lower transcript_text) high_keywords ≡ true
    → contains_any (searched rt transcript_text additional_data) high_keywords ≡ true
unfolding searched
searched-high rt transcript_text additional_data h =
    rw lower-append (contains_any-append (lower transcript_text) _ high_keywords h)

-- A HIGH keyword in the transcript, in upper or lower case, gives a call of four turns or more HIGH
-- priority and an LLM analysis, whatever else the transcript or the disposition says.
pub classify_high :
    (rt : Runtime) (transcript : Items) (transcript_text : Text) (additional_data : Fields)
    → 4 ≤ len transcript
    → contains_any (lower transcript_text) high_keywords ≡ true
    → let c = classify rt transcript transcript_text additional_data in
      (c.skip_llm ≡ false) × (c.priority ≡ high)
unfolding classify
classify_high rt transcript transcript_text additional_data long h =
    let enough : ltb (len transcript) 4 ≡ false = ground arith in
    rw enough (classify_text-high _ (searched-high rt transcript_text additional_data h))

already_is_booked :
    (t : Text) → is_in (text "already booked") t ≡ true → is_in (text "booked") t ≡ true
unfolding text
already_is_booked t h = is_in-suffix (text "already ") (text "booked") t h

second_of : (a b c : Bool) → b ≡ true → (a || (b || c)) ≡ true
second_of a b c h = ground arith

booked_is_high : (t : Text) → is_in (text "booked") t ≡ true → contains_any t high_keywords ≡ true
unfolding contains_any high_keywords
booked_is_high t h = second_of _ _ _ h

-- The keyword "already booked" is meant for LOW priority; a text that has it has "booked", and is
-- never given LOW priority unless the call is too short to be analysed.
pub classify_already_booked :
    (rt : Runtime) (transcript : Items) (transcript_text : Text) (additional_data : Fields)
    → 4 ≤ len transcript
    → is_in (text "already booked") (searched rt transcript_text additional_data) ≡ true
    → (classify rt transcript transcript_text additional_data).priority ≡ high
unfolding classify
classify_already_booked rt transcript transcript_text additional_data long h =
    let enough : ltb (len transcript) 4 ≡ false = ground arith in
    rw enough (classify_text-high _ (booked_is_high _ (already_is_booked _ h))).1
