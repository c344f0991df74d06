-- ===== src/Text/Uuid.antt =====
-- `str(u)` of a `uuid.UUID`, which is a number below 2^128: 32 hexadecimal digits in five groups.
use post_call_processing_pip.Common.{
  ℕ, zero, suc, ◌+◌, ◌/◌, ◌%◌, ◌≡◌, refl, [], ◌∷◌, ◌++◌, ltb, if◌then◌else◌, take, drop,
}
use post_call_processing_pip.Text.Defs.{Text, text}

abbrev hex_digit : ℕ → ℕ
hex_digit d = if ltb d 10 then d + 48 else d + 87

hex : ℕ → ℕ → Text
hex zero n = []
hex (suc k) n = hex k (n / 16) ++ hex_digit (n % 16) ∷ []

dashed : Text → Text
dashed h =
    take 8 h
    ++ b'-'
      ∷ (take 4 (drop 8 h)
          ++ b'-' ∷ (take 4 (drop 12 h) ++ b'-' ∷ (take 4 (drop 16 h) ++ b'-' ∷ drop 20 h)))

unfoldable pub uuid_str : ℕ → Text
unfolding hex dashed
uuid_str u = dashed (hex 32 u)

uuid_str_sample :
    uuid_str 0x0102030405060708090a0b0c0d0e0fff ≡ text "01020304-0506-0708-090a-0b0c0d0e0fff"
unfolding uuid_str text
uuid_str_sample = refl
