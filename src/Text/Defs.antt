-- ===== src/Text/Defs.antt =====
-- Python's `str` as the list of its code points, with the operations that the program uses.
use post_call_processing_pip.Common.{
  ℕ, ◌+◌, String, List, [], ◌∷◌, Bool, true, false, ◌&&◌, ◌||◌, leb, ◌==◌, if◌then◌else◌, map,
}
use Prim.Native.Char.{code}

abbrev pub Text : Type 0
Text = List ℕ

-- A literal.
unfoldable pub text : String → Text
text String.[] = []
text (String.◌∷◌ c s) = code c ∷ text s

-- `a == b`
unfoldable pub text_eq : Text → Text → Bool
text_eq [] [] = true
text_eq (a ∷ s) (b ∷ t) = a == b && text_eq s t
text_eq _ _ = false

-- `t.startswith(s)`
unfoldable pub starts_with : Text → Text → Bool
starts_with [] t = true
starts_with (a ∷ s) [] = false
starts_with (a ∷ s) (b ∷ t) = a == b && starts_with s t

-- `s in t`
unfoldable pub is_in : Text → Text → Bool
unfolding starts_with
is_in s [] = starts_with s []
is_in s (b ∷ t) = starts_with s (b ∷ t) || is_in s t

-- `str.lower` on one ASCII character; the others are left as they are.
abbrev lower_code : ℕ → ℕ
lower_code c = if leb b'A' c && leb c b'Z' then c + 32 else c

-- `s.lower()`
unfoldable pub lower : Text → Text
lower = map lower_code

-- `bool(s)`
abbrev pub is_nonempty : Text → Bool
is_nonempty [] = false
is_nonempty (c ∷ s) = true
