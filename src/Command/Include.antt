-- ===== src/Command/Include.antt =====
-- The expansion of INPUT statements in src/famepy/_command.py. The file system is outside: a
-- `Files` says which file a name resolves to and what the file holds.
pub mod Bounds
pub mod Plain
use famepy.Prelude.{
  ℕ, suc, zero, ◌+◌, Bytes, Bool, true, false, not, ◌&&◌, ◌||◌, Option, none, some, List, [], ◌∷◌,
  ◌++◌, codes, bytes_eq, contains_byte, leb, ltb, ◌==◌, if◌then◌else◌,
}
use mathlib.Core.List.{reverse}
use famepy.Errors.{Result, ok, err, include_error}
use famepy.Text.{is_ascii, is_blank, lower}

-- `resolve`: the file that a name stands for, if there is one; `inspect`: whether it is regular,
-- and its size; `read`: its content. `none` is an `OSError`.
pub record Files : Type 0 where
  pub resolve : Bytes → Option ℕ
  pub inspect : ℕ → Option (Bool × ℕ)
  pub read : ℕ → Option Bytes

-- a space or a tab
abbrev pub is_gap : ℕ → Bool
is_gap c = c == 32 || c == 9

-- the white space that `bytes.strip` drops
abbrev pub is_white : ℕ → Bool
is_white c = c == 32 || leb 9 c && leb c 13

unfoldable pub drop_while : (ℕ → Bool) → Bytes → Bytes
drop_while p [] = []
drop_while p (b ∷ bs) = if p b then drop_while p bs else b ∷ bs

-- `value.strip()`
unfoldable pub strip_bytes : Bytes → Bytes
strip_bytes bs = reverse (drop_while is_white (reverse (drop_while is_white bs)))

-- what follows a word, whatever the case of its letters
unfoldable pub after_word : Bytes → Bytes → Option Bytes
after_word [] bs = some bs
after_word (c ∷ word) [] = none
after_word (c ∷ word) (b ∷ bs) =
    if (if leb b'A' b && leb b b'Z' then b + 32 else b) == c then after_word word bs else none

-- The value of a statement that `file(` began: the last character that is no gap has to be `)`.
unfoldable pub file_value : Bytes → Option Bytes
file_value bs = elim (drop_while is_gap (reverse bs)) [
  | [] ↦ none
  | c ∷ cs ↦ if c == b')' then some (reverse cs) else none
]

-- the argument of `file(`, if there is one
unfoldable pub file_argument : Bytes → Option Bytes
file_argument bs = elim (after_word (codes "file") bs) [
  | none ↦ none
  | some rest ↦ elim (drop_while is_gap rest) [
    | [] ↦ none
    | c ∷ cs ↦ if c == b'(' then file_value (drop_while is_gap cs) else none
  ]
]

-- the groups `file` and `value` of a match
abbrev pub groups : Bytes → Option Bytes → Bool × Bytes
groups rest none = (false, strip_bytes rest)
groups rest (some value) = (true, strip_bytes value)

-- what follows `input`: at least one gap, and then a value on one line
unfoldable pub input_value : Bytes → Option (Bool × Bytes)
input_value [] = none
input_value (c ∷ cs) =
    if is_gap c && not (contains_byte 10 cs)
    then some (groups (drop_while is_gap cs) (file_argument (drop_while is_gap cs)))
    else none

-- `_INPUT.fullmatch(statement)`: whether `FILE(` was there, and the value stripped
unfoldable pub input_of : Bytes → Option (Bool × Bytes)
input_of statement = elim (after_word (codes "input") (drop_while is_gap statement)) [
  | none ↦ none
  | some rest ↦ input_value rest
]

-- a value in double quotes, without them
unfoldable pub unquoted : Bytes → Option Bytes
unquoted [] = none
unquoted (c ∷ cs) = if c == b'"' then close_quote (reverse cs) else none
  where
    close_quote : Bytes → Option Bytes
    close_quote [] = none
    close_quote (d ∷ ds) = if d == b'"' then some (reverse ds) else none

-- the part after the last slash
unfoldable pub base_name : Bytes → Bytes → Bytes
base_name found [] = found
base_name found (b ∷ bs) = base_name (if b == b'/' then bs else found) bs

-- `os.path.splitext(name)[1]` is not empty
unfoldable pub has_extension : Bytes → Bool
has_extension name = contains_byte b'.' (drop_while (λ c. c == b'.') (base_name name name))

-- the suffix rules: a trailing `!` keeps the name, else `.inp` is added to a name without one
unfoldable pub with_suffix : Bytes → Bytes
with_suffix name = elim (reverse name) [
  | [] ↦ name ++ codes ".inp"
  | c ∷ cs ↦
      if c == b'!' then reverse cs else if has_extension name then name else name ++ codes ".inp"
]

-- `_resolve_include`, up to the path
unfoldable pub include_name : Bytes → Result Bytes
include_name value =
    let name : Bytes = elim (unquoted value) [ none ↦ value | some v ↦ v ] in
    let full = with_suffix name in
    if not (is_ascii full)
    then err include_error
    else if is_blank full
    then err include_error
    else ok full

-- `resolved in stack`
unfoldable pub in_stack : ℕ → List ℕ → Bool
in_stack f [] = false
in_stack f (g ∷ gs) = g == f || in_stack f gs

-- `b"\n".join(content.splitlines())`: the line ends become line feeds
unfoldable pub line_feeds : Bool → Bytes → Bytes
line_feeds after_return [] = []
line_feeds after_return (b ∷ bs) =
    let rest = line_feeds (b == 13) bs in
    if b == 13 then 10 ∷ rest else if b == 10 && after_return then rest else b ∷ rest

-- the last line end dropped
unfoldable pub drop_last_feed : Bytes → Bytes
drop_last_feed [] = []
drop_last_feed (b ∷ []) = if b == 10 then [] else b ∷ []
drop_last_feed (b ∷ c ∷ bs) = b ∷ drop_last_feed (c ∷ bs)

-- the expansion of a body below one more file; `none` where the depth is used up
abbrev pub Nested : Type 0
Nested = Option (List ℕ → Bytes → ℕ → Result (Bytes × ℕ))

module _ (files : Files) (max_bytes : ℕ) where
  -- the content of a file within the size, expanded; `total` counts the bytes of all files so far
  unfoldable pub read_file :
      (List ℕ → Bytes → ℕ → Result (Bytes × ℕ)) → List ℕ → ℕ → ℕ → Result (Bytes × ℕ)
  read_file nested stack f total = elim (files.read f) [
    | none ↦ err include_error
    | some content ↦
        if contains_byte 0 content
        then err include_error
        else elim (nested (f ∷ stack) (drop_last_feed (line_feeds false content)) total) [
          | err e ↦ err e
          | ok (body, total') ↦ ok ((10 ∷ body) ++ (10 ∷ []), total')
        ]
  ]

  -- the checks of a resolved file, in the source's order
  unfoldable pub include_file : Nested → List ℕ → ℕ → ℕ → Result (Bytes × ℕ)
  include_file none stack f total = err include_error
  include_file (some nested) stack f total =
      if in_stack f stack then err include_error else elim (files.inspect f) [
        | none ↦ err include_error
        | some (regular, size) ↦
            if not regular || ltb max_bytes size || ltb max_bytes (total + size)
            then err include_error
            else read_file nested stack f (total + size)
      ]

  -- `replace(match)`
  unfoldable pub replace : Nested → List ℕ → Bool → Bytes → ℕ → Result (Bytes × ℕ)
  replace nested stack has_file value total =
      if has_file && elim (unquoted value) [ none ↦ true | some _ ↦ false ]
      then err include_error
      else elim (include_name value) [
        | err e ↦ err e
        | ok name ↦ elim (files.resolve name) [
          | none ↦ err include_error
          | some f ↦ include_file nested stack f total
        ]
      ]

  -- `replace(match) if match else statement`
  unfoldable pub expand_statement : Nested → List ℕ → Bytes → ℕ → Result (Bytes × ℕ)
  expand_statement nested stack statement total = elim (input_of statement) [
    | none ↦ ok (statement, total)
    | some (has_file, value) ↦ replace nested stack has_file value total
  ]

-- the quote after a byte that is one
abbrev pub next_quote : ℕ → Option ℕ → Option ℕ
next_quote b none = some b
next_quote b (some q) = if q == b then none else some q

abbrev pub is_quote : ℕ → Bool
is_quote b = b == 34 || b == 39

-- an unquoted delimiter
abbrev pub is_delimiter : ℕ → Option ℕ → Bool
is_delimiter b none = b == 59 || b == 10
is_delimiter b (some q) = false

-- The statements of a command, each with the delimiter that ends it, and the last statement. The
-- statement that is being read comes backwards.
unfoldable pub statements : Bytes → Option ℕ → Bytes → List (Bytes × ℕ) × Bytes
statements current quote [] = ([], reverse current)
statements current quote (b ∷ bs) =
    let ends = is_delimiter b quote in
    let rest =
      statements (if ends then [] else b ∷ current)
        (if is_quote b then next_quote b quote else quote) bs in
    if ends then ((reverse current, b) ∷ rest.0, rest.1) else rest

-- the statements and their delimiters in a row
unfoldable pub join : List (Bytes × ℕ) → Bytes → Bytes
join [] last = last
join ((s, d) ∷ rest) last = s ++ (d ∷ join rest last)

module _ (expand_one : Bytes → ℕ → Result (Bytes × ℕ)) where
  -- the statements expanded from left to right
  unfoldable pub expand_all : List (Bytes × ℕ) → Bytes → ℕ → Result (Bytes × ℕ)
  expand_all [] last total = expand_one last total
  expand_all ((s, d) ∷ rest) last total = elim (expand_one s total) [
    | err e ↦ err e
    | ok (body, total') ↦ elim (expand_all rest last total') [
      | err e ↦ err e
      | ok (others, total'') ↦ ok (body ++ (d ∷ others), total'')
    ]
  ]

  unfoldable pub expand_command : Bytes → ℕ → Result (Bytes × ℕ)
  expand_command command total =
      let (found, last) = statements [] none command in expand_all found last total

-- `_expand`, where `depth` more files may be entered
unfoldable pub expand : Files → ℕ → ℕ → List ℕ → Bytes → ℕ → Result (Bytes × ℕ)
expand files max_bytes zero stack command total =
    expand_command (expand_statement files max_bytes none stack) command total
expand files max_bytes (suc depth) stack command total =
    expand_command (expand_statement files max_bytes (some (expand files max_bytes depth)) stack)
      command total

-- `MAX_INCLUDE_DEPTH`
abbrev pub max_include_depth : ℕ
max_include_depth = 32

-- `expand_input`
unfoldable pub expand_input : Files → ℕ → ℕ → Bytes → Result Bytes
expand_input files max_depth max_bytes command =
    elim (expand files max_bytes max_depth [] command 0) [
      | err e ↦ err e
      | ok (text, total) ↦ ok text
    ]
