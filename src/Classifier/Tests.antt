-- ===== src/Classifier/Tests.antt =====
-- Calls of three and of four turns.
use post_call_processing_pip.Common.{◌<◌, ◌≡◌, refl, ◌↔◌, true}
use post_call_processing_pip.Text.{text, is_in, starts_with, lower}
use post_call_processing_pip.Json.{obj, Items, nil, cons, end}
use post_call_processing_pip.Classifier.{classify, len, contains_any, high_keywords, searched}
use post_call_processing_pip.Classifier.Keywords.{classify-skip_iff}
use post_call_processing_pip.Samples.{runtime}

abbrev three_turns : Items
three_turns = cons (obj end) (cons (obj end) (cons (obj end) nil))

abbrev four_turns : Items
four_turns = cons (obj end) three_turns

classify-skip_iff_example :
    let c = classify runtime three_turns (text "hello") end in
    ((c.skip_llm ≡ true) ↔ (len three_turns < 4))
    × ((c.call_stage ≡ text "short_call") ↔ (len three_turns < 4))
classify-skip_iff_example = classify-skip_iff runtime three_turns (text "hello") end

is_booked : contains_any (lower (text "Demo BOOKED")) high_keywords ≡ true
unfolding contains_any high_keywords text lower is_in starts_with
is_booked = refl

is_already_booked :
    is_in (text "already booked") (searched runtime (text "Already booked!") end) ≡ true
unfolding text searched lower is_in starts_with
is_already_booked = refl
