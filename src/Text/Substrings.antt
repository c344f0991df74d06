-- ===== src/Text/Substrings.antt =====
-- `s in t`: what holds of substrings of longer texts.
use mathlib.Core.List.{map-append}
use post_call_processing_pip.Common.{◌≡◌, refl, true, [], ◌∷◌, ◌++◌, arith}
use post_call_processing_pip.Text.Defs.{Text, starts_with, is_in, lower}

starts_with-append : (s t u : Text) → starts_with s t ≡ true → starts_with s (t ++ u) ≡ true
unfolding starts_with
starts_with-append [] t u h = refl
starts_with-append (a ∷ s) [] u h = cc
starts_with-append (a ∷ s) (b ∷ t) u h = ground (arith, starts_with-append s t u)

starts_with-is_in : (s t : Text) → starts_with s t ≡ true → is_in s t ≡ true
unfolding is_in
starts_with-is_in s [] h = h
starts_with-is_in s (b ∷ t) h = rw h

-- What occurs in a text occurs in every text that begins with it.
pub is_in-append : (s t u : Text) → is_in s t ≡ true → is_in s (t ++ u) ≡ true
unfolding is_in
is_in-append s [] u h = starts_with-is_in s u (starts_with-append s [] u h)
is_in-append s (b ∷ t) u h = ground (arith, starts_with-append s (b ∷ t) u, is_in-append s t u)

starts_with-suffix : (p s t : Text) → starts_with (p ++ s) t ≡ true → is_in s t ≡ true
unfolding starts_with is_in
starts_with-suffix [] s t h = starts_with-is_in s t h
starts_with-suffix (a ∷ p) s [] h = cc
starts_with-suffix (a ∷ p) s (b ∷ t) h = ground (arith, starts_with-suffix p s t)

-- Where a text occurs, so does what it ends with.
pub is_in-suffix : (p s t : Text) → is_in (p ++ s) t ≡ true → is_in s t ≡ true
unfolding is_in
is_in-suffix p s [] h = starts_with-suffix p s [] h
is_in-suffix p s (b ∷ t) h = ground (arith, starts_with-suffix p s (b ∷ t), is_in-suffix p s t)

pub lower-append : (s t : Text) → lower (s ++ t) ≡ lower s ++ lower t
unfolding lower
lower-append s t = map-append _ s t
