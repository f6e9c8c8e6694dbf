-- ===== src/Text.antt =====
-- The text boundary of src/famepy/_text.py for names, paths and commands.
pub mod Names
pub mod Values
use famepy.Prelude.{
  ℕ, Bytes, Bool, true, ◌&&◌, ◌||◌, List, [], ◌∷◌, leb, ltb, length, contains_byte, ◌==◌, ◌+◌, map,
  if◌then◌else◌,
}
use mathlib.Core.List.{reverse}
use famepy.Errors.{Result, ok, err, text_encoding, value_error}

-- A `str` by its code points, or a bytes-like object by its bytes.
pub data Text : Type 0 where
  str bytes : List ℕ → Text

unfoldable pub is_ascii : List ℕ → Bool
is_ascii [] = true
is_ascii (c ∷ cs) = ltb c 128 && is_ascii cs

unfoldable pub no_nul : List ℕ → Result Bytes
no_nul data' = if contains_byte 0 data' then err text_encoding else ok data'

-- `to_native`
unfoldable pub to_native : Text → Result Bytes
unfolding is_ascii no_nul
to_native (str cs) = if is_ascii cs then no_nul cs else err text_encoding
to_native (bytes bs) = no_nul bs

-- `NAME_CAPACITY` of src/famepy/_constants.py
abbrev pub name_capacity : ℕ
name_capacity = 242

-- `object_name`
unfoldable pub object_name : Text → Result Bytes
unfolding to_native
object_name value = elim (to_native value) [
  | err e ↦ err e
  | ok data' ↦
      if leb 1 (length data') && leb (length data') name_capacity then ok data' else err value_error
]

-- The code points that `str.strip` takes for white space.
abbrev pub is_space : ℕ → Bool
is_space c =
    leb 9 c && leb c 13
    || leb 28 c && leb c 32
    || c == 0x85
    || c == 0xa0
    || c == 0x1680
    || leb 0x2000 c && leb c 0x200a
    || leb 0x2028 c && leb c 0x2029
    || c == 0x202f
    || c == 0x205f
    || c == 0x3000

-- `not value.strip()`
unfoldable pub is_blank : List ℕ → Bool
is_blank [] = true
is_blank (c ∷ cs) = is_space c && is_blank cs

-- the leading white space dropped
unfoldable pub strip_start : List ℕ → List ℕ
strip_start [] = []
strip_start (c ∷ cs) = if is_space c then strip_start cs else c ∷ cs

-- `value.strip()`
unfoldable pub strip : List ℕ → List ℕ
unfolding strip_start
strip cs = reverse (strip_start (reverse (strip_start cs)))

-- `value.lower()`, as far as ASCII letters come out of it: the Kelvin sign is the one other
-- code point that becomes an ASCII letter.
abbrev pub lower : ℕ → ℕ
lower c = if leb b'A' c && leb c b'Z' then c + 32 else if c == 0x212a then b'k' else c

-- `.replace("-", "_").replace(" ", "_")`
abbrev pub underscored : ℕ → ℕ
underscored c = if c == b'-' || c == b' ' then b'_' else c

-- The key that `_lookup` looks up for a name.
unfoldable pub normalized : List ℕ → List ℕ
unfolding strip
normalized cs = map (λ c. underscored (lower c)) (strip cs)
