-- ===== src/Tests/Texts.antt =====
-- The theorems of the string values at concrete inputs.
use famepy.Prelude.{ℕ, ◌≡◌, refl, Bytes, none, List, [], ◌∷◌}
use famepy.Errors.{ok}
use famepy.Text.{str, no_nul}
use famepy.Text.Values.{utf8_policy, encode_value, decode_value}
use famepy.Text.Values.Utf8.{encode_point, encode_utf8, decode_from, decode_utf8}
use famepy.Text.Values.RoundTrip.{decode-encode_value}

-- an A, an e with an acute accent, a euro sign and a smiling face
abbrev points : List ℕ
points = 0x41 ∷ 0xe9 ∷ 0x20ac ∷ 0x1f600 ∷ []

abbrev point_bytes : Bytes
point_bytes = 0x41 ∷ 0xc3 ∷ 0xa9 ∷ 0xe2 ∷ 0x82 ∷ 0xac ∷ 0xf0 ∷ 0x9f ∷ 0x98 ∷ 0x80 ∷ []

points-encoded : encode_value (str points) utf8_policy ≡ ok point_bytes
unfolding encode_value encode_utf8 encode_point no_nul
points-encoded = refl

-- an overlong form and a surrogate are refused
overlong : decode_utf8 (0xc0 ∷ 0x80 ∷ []) ≡ none
unfolding decode_utf8 decode_from
overlong = refl

surrogate : decode_utf8 (0xed ∷ 0xa0 ∷ 0x80 ∷ []) ≡ none
unfolding decode_utf8 decode_from
surrogate = refl

decode-encode_value_example : decode_value point_bytes utf8_policy ≡ ok (str points)
decode-encode_value_example =
    decode-encode_value (str points) utf8_policy point_bytes tt points-encoded
