-- ===== src/Constants.antt =====
-- The code tables of src/famepy/_constants.py and the lookups in them: access modes, object
-- classes, value types and frequencies.
mod Tables
pub mod Codes
pub use Tables.*
use famepy.Prelude.{
  ℕ, ℤ, pos, ◌==ℤ◌, Bool, true, false, ◌||◌, Option, none, some, List, [], ◌∷◌, bytes_eq,
  if◌then◌else◌,
}
use famepy.Errors.{Result, ok, err, value_error, type_error}
use famepy.World.{AccessMode, readonly, create, overwrite, update, shared, write, direct_write}
use famepy.Text.{normalized}

-- A Python value given for a code: a Boolean, an integer (or an enumeration member), a name, or
-- anything else.
pub data CodeArg : Type 0 where
  boolean : Bool → CodeArg
  number : ℤ → CodeArg
  name : List ℕ → CodeArg
  object : CodeArg

-- `table[key]`
unfoldable pub code_of : List ℕ → Table → Option ℤ
code_of key [] = none
code_of key ((n, c) ∷ rest) = if bytes_eq n key then some c else code_of key rest

-- `code in table.values()`
unfoldable pub has_code : ℤ → Table → Bool
has_code code [] = false
has_code code ((n, c) ∷ rest) = c ==ℤ code || has_code code rest

-- `FREQUENCY_NAMES[code]`
unfoldable pub name_of : ℤ → Table → Option (List ℕ)
name_of code [] = none
name_of code ((n, c) ∷ rest) = if c ==ℤ code then some n else name_of code rest

-- `_lookup`
unfoldable pub lookup : CodeArg → Table → Result ℤ
unfolding code_of has_code normalized
lookup (boolean _) table = err type_error
lookup (name cs) table = elim (code_of (normalized cs) table) [
  | none ↦ err value_error
  | some c ↦ ok c
]
lookup (number code) table = if has_code code table then ok code else err value_error
lookup object table = err type_error

-- The value of an `AccessMode` member.
abbrev pub mode_code : AccessMode → ℤ
mode_code readonly = pos 1
mode_code create = pos 2
mode_code overwrite = pos 3
mode_code update = pos 4
mode_code shared = pos 5
mode_code write = pos 6
mode_code direct_write = pos 7

-- `AccessMode(code)`
unfoldable pub mode_of : ℤ → Result AccessMode
mode_of code =
    if code ==ℤ pos 1
    then ok readonly
    else if code ==ℤ pos 2
    then ok create
    else if code ==ℤ pos 3
    then ok overwrite
    else if code ==ℤ pos 4
    then ok update
    else if code ==ℤ pos 5
    then ok shared
    else if code ==ℤ pos 6
    then ok write
    else if code ==ℤ pos 7
    then ok direct_write
    else err value_error

-- `selected in LOCAL_ACCESS_MODES`
abbrev pub is_local : AccessMode → Bool
is_local write = false
is_local direct_write = false
is_local _ = true

-- `access_mode`
unfoldable pub access_mode : CodeArg → Result AccessMode
access_mode value = elim (lookup value access_modes) [ ok c ↦ mode_of c | err e ↦ err e ]
