-- ===== src/Text/Strip.antt =====
-- `s.strip()` and `s.removeprefix(p)` of a `str`, on Latin-1, and texts that they leave alone.
use mathlib.Core.List
use mathlib.Core.List.{reverse}
use post_call_processing_pip.Common.{
  ℕ, ◌≡◌, refl, ◌∙◌, ap, [], ◌∷◌, ◌++◌, Bool, true, false, ◌&&◌, ◌||◌, leb, ◌==◌, if◌then◌else◌,
  All, ==_iff,
}
use post_call_processing_pip.Text.Defs.{Text, starts_with}

abbrev pub is_space : ℕ → Bool
is_space c = (leb 9 c && leb c 13) || (leb 28 c && leb c 32) || c == 133 || c == 160

unfoldable pub left_strip : Text → Text
left_strip [] = []
left_strip (c ∷ s) = if is_space c then left_strip s else c ∷ s

unfoldable pub strip : Text → Text
unfolding left_strip
strip s = reverse (left_strip (reverse (left_strip s)))

abbrev pub drop_prefix : Text → Text → Text
drop_prefix [] s = s
drop_prefix (p ∷ ps) [] = []
drop_prefix (p ∷ ps) (c ∷ s) = drop_prefix ps s

unfoldable pub remove_prefix : Text → Text → Text
unfolding starts_with
remove_prefix p s = if starts_with p s then drop_prefix p s else s

-- Without white space.
abbrev pub IsTight : Text → Type 0
IsTight = All (λ c. is_space c ≡ false)

left_strip-IsTight : (s : Text) → IsTight s → left_strip s ≡ s
unfolding left_strip
left_strip-IsTight [] h = refl
left_strip-IsTight (c ∷ s) h = rw h.0 refl

-- White space only.
abbrev pub IsBlank : Text → Type 0
IsBlank = All (λ c. is_space c ≡ true)

-- Spaces before a text that starts with none.
left_strip-append :
    (before s : Text) → IsBlank before → left_strip s ≡ s → left_strip (before ++ s) ≡ s
unfolding left_strip
left_strip-append [] s spaces h = h
left_strip-append (c ∷ before) s spaces h = rw spaces.0 (left_strip-append before s spaces.1 h)

All-reverse_aux : (P : ℕ → Type 0) (s t : Text) → All P s → All P t → All P (List.reverse_aux s t)
All-reverse_aux P [] t h k = k
All-reverse_aux P (c ∷ s) t h k = All-reverse_aux P s (c ∷ t) h.1 (h.0, k)

-- Spaces around a text are stripped, and nothing else if it has none itself.
pub strip-append :
    (before s after : Text) (c : ℕ)
    → IsBlank before
    → IsTight (c ∷ s)
    → IsBlank after
    → strip (before ++ ((c ∷ s) ++ after)) ≡ c ∷ s
unfolding strip left_strip
strip-append before s after c blank tight blank' =
    let first : left_strip (before ++ ((c ∷ s) ++ after)) ≡ (c ∷ s) ++ after =
      left_strip-append before ((c ∷ s) ++ after) blank (rw tight.0 refl) in
    let second : left_strip (reverse after ++ reverse (c ∷ s)) ≡ reverse (c ∷ s) =
      left_strip-append (reverse after) (reverse (c ∷ s)) (All-reverse_aux _ after [] blank' tt)
        (left_strip-IsTight (reverse (c ∷ s)) (All-reverse_aux _ (c ∷ s) [] tight tt)) in
    ap (λ r. reverse (left_strip (reverse r))) first
    ∙ ap (λ r. reverse (left_strip r)) (List.reverse-append (c ∷ s) after)
    ∙ ap reverse second
    ∙ List.reverse-reverse (c ∷ s)

pub remove_prefix-append : (p s : Text) → remove_prefix p (p ++ s) ≡ s
unfolding remove_prefix starts_with
remove_prefix-append p s = rw (starts_with-append p s) (dropped p s)
  where
    starts_with-append : (p s : Text) → starts_with p (p ++ s) ≡ true
    starts_with-append [] s = refl
    starts_with-append (c ∷ p) s = rw ((==_iff c c).1 refl) (starts_with-append p s)

    dropped : (p s : Text) → drop_prefix p (p ++ s) ≡ s
    dropped [] s = refl
    dropped (c ∷ p) s = dropped p s
