-- ===== src/Text/Numbers.antt =====
-- `int(s)` of a `str`: white space around it, a sign, and digits that single underscores may
-- part. `none` is the ValueError.
use post_call_processing_pip.Common.{
  ℕ, zero, suc, ◌+◌, ◌-◌, ◌*◌, [], ◌∷◌, Bool, false, ◌&&◌, ◌||◌, leb, ◌==◌, if◌then◌else◌, Option,
  none, some, ℤ, pos, negsuc, ◌≡◌, refl,
}
use post_call_processing_pip.Text.Defs.{Text, text}
use post_call_processing_pip.Text.Strip.{strip}
use mathlib.Core.Option

is_digit : ℕ → Bool
is_digit c = leb b'0' c && leb c b'9'

-- The digits read so far, and whether the last character was one.
digits : ℕ → Bool → Text → Option ℕ
digits n last [] = if last then some n else none
digits n last (c ∷ s) =
    let next = digits (if is_digit c then n * 10 + (c - 48) else n) (is_digit c) s in
    if is_digit c || (last && c == b'_') then next else none

negate : ℕ → ℤ
negate zero = pos zero
negate (suc n) = negsuc n

signed : Text → Option ℤ
signed [] = none
signed (c ∷ s) =
    if c == b'-'
    then Option.map negate (digits 0 false s)
    else if c == b'+'
    then Option.map pos (digits 0 false s)
    else Option.map pos (digits 0 false (c ∷ s))

unfoldable pub parse_int : Text → Option ℤ
unfolding is_digit strip digits negate signed
parse_int s = signed (strip s)

parse_int_samples :
    (parse_int (text " 5000\n") ≡ some (pos 5000))
    × (parse_int (text "-7") ≡ some (negsuc 6))
    × (parse_int (text "1_0") ≡ some (pos 10))
    × (parse_int (text "1.5") ≡ none)
    × (parse_int (text "abc") ≡ none)
    × (parse_int (text "") ≡ none)
unfolding parse_int text
parse_int_samples = (refl, refl, refl, refl, refl, refl)
