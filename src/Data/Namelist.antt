-- ===== src/Data/Namelist.antt =====
-- The text of a namelist: `namelist_members` of src/famepy/_data.py.
pub mod Members
pub mod Parsing
use famepy.Prelude.{
  ℕ, Bytes, Bool, true, false, not, ◌&&◌, ◌||◌, List, [], ◌∷◌, ltb, ◌==◌, if◌then◌else◌,
}
use mathlib.Core.List.{reverse}
use famepy.Errors.{Result, ok, err, data_validation}

-- a blank of `strip(b" \t")`
abbrev pub is_blank_byte : ℕ → Bool
is_blank_byte b = b == b' ' || b == 9

unfoldable pub strip_left : Bytes → Bytes
strip_left [] = []
strip_left (b ∷ bs) = if is_blank_byte b then strip_left bs else b ∷ bs

-- `part.strip(b" \t")`
unfoldable pub strip_blanks : Bytes → Bytes
unfolding strip_left
strip_blanks bs = reverse (strip_left (reverse (strip_left bs)))

-- a byte that may stand in a member: no `_MEMBER_EXCLUDED`, and printable
abbrev pub is_member_byte : ℕ → Bool
is_member_byte b =
    not (b == b'{' || b == b'}' || b == b',' || b == b' ' || b == 9 || b == 13 || b == 10)
    && ltb 0x20 b
    && ltb b 0x7f

unfoldable pub all_member_bytes : Bytes → Bool
all_member_bytes [] = true
all_member_bytes (b ∷ bs) = is_member_byte b && all_member_bytes bs

abbrev pub is_empty_bytes : Bytes → Bool
is_empty_bytes [] = true
is_empty_bytes _ = false

-- one part of the body
unfoldable pub member_of : Bytes → Result Bytes
member_of part =
    let member = strip_blanks part in
    if is_empty_bytes member
    then err data_validation
    else if all_member_bytes member
    then ok member
    else err data_validation

-- a part in front of those that follow a comma
abbrev pub add_member : Result Bytes → Result (List Bytes) → Result (List Bytes)
add_member (err e) rest = err e
add_member (ok m) (err e) = err e
add_member (ok m) (ok ms) = ok (m ∷ ms)

-- The loop over `body.split(b",")`, with what was read of the current part, backwards.
unfoldable pub members_from : Bytes → Bytes → Result (List Bytes)
members_from part [] = add_member (member_of (reverse part)) (ok [])
members_from part (b ∷ bs) =
    let again = members_from (if b == b',' then [] else b ∷ part) bs in
    if b == b',' then add_member (member_of (reverse part)) again else again

-- the members of the body between the braces
unfoldable pub body_members : Bytes → Result (List Bytes)
body_members body = if is_empty_bytes (strip_blanks body) then ok [] else members_from [] body

-- the body of a text after its opening brace, up to a closing brace that is its last byte
unfoldable pub closed_body : Bytes → Result Bytes
closed_body [] = err data_validation
closed_body (b ∷ []) = if b == b'}' then ok [] else err data_validation
closed_body (b ∷ c ∷ bs) = elim (closed_body (c ∷ bs)) [ ok body ↦ ok (b ∷ body) | err e ↦ err e ]

abbrev pub members_of : Result Bytes → Result (List Bytes)
members_of (ok body) = body_members body
members_of (err e) = err e

-- `namelist_members`
unfoldable pub namelist_members : Bytes → Result (List Bytes)
namelist_members [] = err data_validation
namelist_members (b ∷ bs) = if b == b'{' then members_of (closed_body bs) else err data_validation
