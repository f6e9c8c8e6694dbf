-- ===== src/Wildcard/Filters.antt =====
-- The filters of src/famepy/_wildcard.py: the words of the class and type filters, the codes of
-- the frequency filter, and the native selectors for a set of codes.
use famepy.Prelude.{
  ℕ, ◌-◌, Bytes, ℤ, ◌==ℤ◌, Bool, true, false, not, ◌&&◌, ◌||◌, Option, none, some, List, [], ◌∷◌,
  ◌++◌, codes, bytes_eq, leb, ltb, ◌==◌, if◌then◌else◌,
}
use famepy.Errors.{Result, ok, err, value_error}
use famepy.Text.{is_ascii, is_blank, strip}
use famepy.Constants.{CodeArg, Table, frequencies, name_of, lookup}
use famepy.Objects.{frequency_case}

-- `is_wildcard`
unfoldable pub is_wildcard : Bytes → Bool
is_wildcard [] = false
is_wildcard (b ∷ bs) = b == b'?' || b == b'^' || is_wildcard bs

-- a filter of words: none, one string, or a sequence of strings
pub data Words : Type 0 where
  absent : Words
  word : List ℕ → Words
  words : List (List ℕ) → Words

-- a frequency filter: none, one value, or a sequence of values
pub data Frequencies : Type 0 where
  absent : Frequencies
  one : CodeArg → Frequencies
  several : List CodeArg → Frequencies

-- the first part and the other parts of `split(separator)`
abbrev pub push_part : ℕ → Bool → List (List ℕ) → List (List ℕ)
push_part c true parts = [] ∷ parts
push_part c false [] = (c ∷ []) ∷ []
push_part c false (p ∷ parts) = (c ∷ p) ∷ parts

-- `split(separator)` of a string
unfoldable pub split_on : ℕ → List ℕ → List (List ℕ)
split_on separator [] = [] ∷ []
split_on separator (c ∷ cs) = push_part c (c == separator) (split_on separator cs)

-- `c.upper()`, as far as ASCII comes out of it: the sharp s, the dotless i, the long s and the
-- ligatures become ASCII letters; a code point whose upper case is not ASCII stays as it is.
abbrev pub upper : ℕ → List ℕ
upper c =
    if leb b'a' c && leb c b'z'
    then (c - 32) ∷ []
    else if c == 0xdf
    then codes "SS"
    else if c == 0x131
    then codes "I"
    else if c == 0x17f
    then codes "S"
    else if c == 0xfb00
    then codes "FF"
    else if c == 0xfb01
    then codes "FI"
    else if c == 0xfb02
    then codes "FL"
    else if c == 0xfb03
    then codes "FFI"
    else if c == 0xfb04
    then codes "FFL"
    else if c == 0xfb05 || c == 0xfb06
    then codes "ST"
    else c ∷ []

unfoldable pub upper_all : List ℕ → List ℕ
upper_all [] = []
upper_all (c ∷ cs) = upper c ++ upper_all cs

abbrev pub is_alnum : ℕ → Bool
is_alnum c = leb b'0' c && leb c b'9' || leb b'A' c && leb c b'Z' || leb b'a' c && leb c b'z'

-- every character is alphanumeric or an underscore
unfoldable pub all_words : List ℕ → Bool
all_words [] = true
all_words (c ∷ cs) = (c == b'_' || is_alnum c) && all_words cs

-- some character is no underscore
unfoldable pub some_word : List ℕ → Bool
some_word [] = false
some_word (c ∷ cs) = not (c == b'_') || some_word cs

-- `token.isascii() and token.replace("_", "").isalnum()`
abbrev pub is_token : List ℕ → Bool
is_token token = is_ascii token && all_words token && some_word token

-- `token in {member.name for member in ...}`, where the table has the names in lower case
unfoldable pub has_member : List ℕ → Table → Bool
has_member token [] = false
has_member token ((n, c) ∷ table) = bytes_eq (upper_all n) token || has_member token table

-- one part of a filter: nothing if it is blank, else the token
unfoldable pub token_of : Table → List ℕ → Result (List Bytes)
token_of table part = take_token (upper_all (strip part))
  where
    take_token : List ℕ → Result (List Bytes)
    take_token [] = ok []
    take_token (c ∷ cs) =
        if is_token (c ∷ cs) && has_member (c ∷ cs) table
        then ok ((c ∷ cs) ∷ [])
        else err value_error

-- the tokens of the parts, or the first error
unfoldable pub tokens_of : Table → List (List ℕ) → Result (List Bytes)
tokens_of table [] = ok []
tokens_of table (part ∷ parts) = elim (token_of table part) [
  | err e ↦ err e
  | ok found ↦ elim (tokens_of table parts) [ err e ↦ err e | ok others ↦ ok (found ++ others) ]
]

unfoldable pub parts_of : List (List ℕ) → List (List ℕ)
parts_of [] = []
parts_of (item ∷ items) = split_on b',' item ++ parts_of items

-- `_values` after `_filter_values`: a blank string is no filter
unfoldable pub values : Table → Words → Result (List Bytes)
values table absent = ok []
values table (word cs) = if is_blank cs then ok [] else tokens_of table (split_on b',' cs)
values table (words items) = tokens_of table (parts_of items)

-- `code in codes`
unfoldable pub has_element : ℤ → List ℤ → Bool
has_element c [] = false
has_element c (d ∷ ds) = d ==ℤ c || has_element c ds

-- `codes.add(code)`
abbrev pub add_code : ℤ → List ℤ → List ℤ
add_code c ds = if has_element c ds then ds else c ∷ ds

-- the parts of a value that are no blank string
unfoldable pub not_blank : List (List ℕ) → List CodeArg
not_blank [] = []
not_blank (part ∷ parts) =
    let rest = not_blank parts in if is_blank part then rest else CodeArg.name part ∷ rest

unfoldable pub frequency_parts : List CodeArg → List CodeArg
frequency_parts [] = []
frequency_parts (CodeArg.name cs ∷ items) = not_blank (split_on b',' cs) ++ frequency_parts items
frequency_parts (item ∷ items) = item ∷ frequency_parts items

-- the set of the codes of the parts: any refusal of the lookup is one kind of error
unfoldable pub collect : List CodeArg → List ℤ → Result (List ℤ)
collect [] found = ok found
collect (part ∷ parts) found = elim (lookup part frequencies) [
  | err e ↦ err value_error
  | ok code ↦ collect parts (add_code code found)
]

-- `codes or None`
abbrev pub or_none : Result (List ℤ) → Result (Option (List ℤ))
or_none (ok []) = ok none
or_none (ok (c ∷ cs)) = ok (some (c ∷ cs))
or_none (err e) = err e

-- `_frequency_filter` after `_filter_values`
unfoldable pub frequency_filter : Frequencies → Result (Option (List ℤ))
frequency_filter absent = ok none
frequency_filter (one (CodeArg.name cs)) =
    if is_blank cs then ok none else or_none (collect (frequency_parts (CodeArg.name cs ∷ [])) [])
frequency_filter (one v) = or_none (collect (v ∷ []) [])
frequency_filter (several items) = or_none (collect (frequency_parts items) [])

-- `name.split("_", 1)[0]`
unfoldable pub before_underscore : List ℕ → List ℕ
before_underscore [] = []
before_underscore (c ∷ cs) = if c == b'_' then [] else c ∷ before_underscore cs

-- the family of a frequency by its name
abbrev pub family_name : List ℕ → Option Bytes
family_name n =
    if bytes_eq n (codes "undefined") || bytes_eq n (codes "case")
    then none
    else if bytes_eq n (codes "weekly_pattern")
    then some (codes "USERDEFINED")
    else some (upper_all (before_underscore n))

-- `FREQUENCY_FAMILIES.get(code)`
unfoldable pub family_of : ℤ → Option Bytes
family_of code = elim (name_of code frequencies) [ none ↦ none | some n ↦ family_name n ]

-- the order of strings
unfoldable pub before : Bytes → Bytes → Bool
before [] [] = false
before [] (y ∷ ys) = true
before (x ∷ xs) [] = false
before (x ∷ xs) (y ∷ ys) = if x == y then before xs ys else ltb x y

-- a string put into a sorted list of different strings
unfoldable pub insert_sorted : Bytes → List Bytes → List Bytes
insert_sorted x [] = x ∷ []
insert_sorted x (y ∷ ys) =
    if bytes_eq x y then y ∷ ys else if before x y then x ∷ y ∷ ys else y ∷ insert_sorted x ys

-- `sorted({FREQUENCY_FAMILIES[code] for code in codes})`, if every code has a family
unfoldable pub families : List ℤ → Option (List Bytes)
families [] = some []
families (c ∷ cs) = elim (family_of c) [
  | none ↦ none
  | some f ↦ elim (families cs) [ none ↦ none | some fs ↦ some (insert_sorted f fs) ]
]

-- The words for `ITEM FREQUENCY` and for `ITEM INDEX`.
pub record Selectors : Type 0 where
  pub frequency : List Bytes
  pub index : List Bytes

-- `codes == {FREQUENCY_CASE}`, of a list without repetitions
abbrev pub only_case : List ℤ → Bool
only_case (c ∷ []) = c ==ℤ frequency_case
only_case _ = false

-- `native_selectors`
unfoldable pub native_selectors : Option (List ℤ) → Selectors
native_selectors none = record { frequency = []; index = [] }
native_selectors (some cs) = elim (families cs) [
  | some fs ↦ record { frequency = fs; index = [] }
  | none ↦ record { frequency = []; index = if only_case cs then codes "CASE" ∷ [] else [] }
]
