-- ===== src/Text/Values.antt =====
-- The value text policies of src/famepy/_text.py: `encode_value`, `decode_value` and `from_native`.
pub mod Utf8
pub mod RoundTrip
use famepy.Prelude.{
  ℕ, ◌+◌, ◌-◌, ◌/◌, ◌%◌, Bytes, Bool, true, false, Option, none, some, List, [], ◌∷◌, ◌++◌, codes,
  bytes_eq, ltb, if◌then◌else◌,
}
use famepy.Errors.{Result, ok, err, text_encoding, value_error}
use famepy.Text.{Text, str, bytes, is_ascii, no_nul}
use famepy.Text.Values.Utf8.{encode_utf8, decode_utf8}

-- `VALUE_TEXT_POLICIES`
pub data Policy : Type 0 where
  ascii_policy bytes_policy utf8_policy : Policy

-- `check_value_policy` of a string
unfoldable pub check_value_policy : List ℕ → Result Policy
check_value_policy cs =
    if bytes_eq cs (codes "ascii")
    then ok ascii_policy
    else if bytes_eq cs (codes "bytes")
    then ok bytes_policy
    else if bytes_eq cs (codes "utf-8")
    then ok utf8_policy
    else err value_error

abbrev pub encoded : Option Bytes → Result Bytes
encoded none = err text_encoding
encoded (some data') = no_nul data'

-- `value.encode("ascii")`, `bytes.decode("ascii")`
abbrev pub only_ascii : List ℕ → Option (List ℕ)
only_ascii cs = if is_ascii cs then some cs else none

-- `encode_value`
unfoldable pub encode_value : Text → Policy → Result Bytes
encode_value (bytes bs) policy = no_nul bs
encode_value (str cs) utf8_policy = encoded (encode_utf8 cs)
encode_value (str cs) policy = encoded (only_ascii cs)

abbrev pub decoded : Option (List ℕ) → Result Text
decoded none = err text_encoding
decoded (some cs) = ok (str cs)

-- `decode_value`
unfoldable pub decode_value : Bytes → Policy → Result Text
decode_value data' bytes_policy = ok (bytes data')
decode_value data' ascii_policy = decoded (only_ascii data')
decode_value data' utf8_policy = decoded (decode_utf8 data')

abbrev pub hex_digit : ℕ → ℕ
hex_digit n = if ltb n 10 then b'0' + n else b'a' + n - 10

-- `decode("ascii", errors="backslashreplace")`
unfoldable pub escaped : Bytes → List ℕ
escaped [] = []
escaped (b ∷ bs) =
    let rest = escaped bs in
    if ltb b 128 then b ∷ rest else 92 ∷ b'x' ∷ hex_digit (b / 16) ∷ hex_digit (b % 16) ∷ rest

-- `from_native`
unfoldable pub from_native : Bool → Bytes → Result (List ℕ)
from_native strict data' =
    if is_ascii data' then ok data' else if strict then err text_encoding else ok (escaped data')
