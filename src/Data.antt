-- ===== src/Data.antt =====
-- The value kinds of src/famepy/_data.py, the Python values that stand for data, and what NumPy
-- makes of them.
pub mod Results
pub mod Namelist
pub mod Carriers
pub mod Sentinels
pub mod Buffers
pub mod Reading
pub mod Writing
pub mod Keeps
pub mod Fields
pub mod RoundTrip
use famepy.Prelude.{
  ℕ, ◌^◌, ◌≤◌, Bytes, ℤ, pos, fits, ◌==ℤ◌, Bool, true, false, not, ◌&&◌, Option, none, some, List,
  [], ◌∷◌, contains_byte, length, leb, ◌==◌, if◌then◌else◌,
}
use famepy.Errors.{Error, Result, ok, err, data_validation}
use famepy.Constants.{CodeArg, frequencies, lookup}
use famepy.Objects.{is_date_type, frequency_case, and_then}

-- The kinds by their names; `undefined` is the name of the type 0 and none of `KINDS`.
pub data Kind : Type 0 where
  undefined precision numeric boolean date string namelist : Kind

-- A one-dimensional contiguous array of one of the four types of `_DTYPES`.
pub data Cells : Type 0 where
  precisions numerics : List ℕ → Cells
  booleans dates : List ℤ → Cells

-- Data with a length: such an array, an array of another type, shape or layout by its length, or
-- a list or tuple, in which an item that is no `bytes` is `none`.
pub data Buffer : Type 0 where
  array : Cells → Buffer
  foreign : ℕ → Buffer
  items : List (Option Bytes) → Buffer

-- A Python value given as data: `None`, a `bool`, an integer of Python or NumPy, a float of 64 or
-- 32 bits by its bit pattern, `bytes`, data with a length, or anything else.
pub data Value : Type 0 where
  absent : Value
  truth : Bool → Value
  integer : ℤ → Value
  double single : ℕ → Value
  text : Bytes → Value
  buffer : Buffer → Value
  object : Value

-- What NumPy does to a number: an integer as a 64-bit float, if it does not overflow; a 64-bit float
-- as a 32-bit float, if it does not overflow; and a 32-bit float as a 64-bit float.
pub record Numpy : Type 0 where
  pub from_integer : ℤ → Option ℕ
  pub narrowed : ℕ → Option ℕ
  pub widened : ℕ → ℕ

abbrev pub max_observations : ℕ
max_observations = 2147483647

abbrev pub count : Cells → ℕ
count (precisions xs) = length xs
count (numerics xs) = length xs
count (booleans xs) = length xs
count (dates xs) = length xs

-- `len(values)`
abbrev pub size : Buffer → ℕ
size (array cells) = count cells
size (foreign n) = n
size (items xs) = length xs

-- `_kind_from_type`
unfoldable pub kind_from_type : ℤ → Result Kind
kind_from_type code =
    if is_date_type code
    then ok date
    else if code ==ℤ pos 0
    then ok undefined
    else if code ==ℤ pos 1
    then ok numeric
    else if code ==ℤ pos 2
    then ok namelist
    else if code ==ℤ pos 3
    then ok boolean
    else if code ==ℤ pos 4
    then ok string
    else if code ==ℤ pos 5
    then ok precision
    else if code ==ℤ pos 6
    then ok date
    else err data_validation

-- `_TYPE_CODES[kind]`; the type of a date is its frequency.
abbrev pub kind_code : Kind → ℤ
kind_code undefined = pos 0
kind_code numeric = pos 1
kind_code namelist = pos 2
kind_code boolean = pos 3
kind_code string = pos 4
kind_code precision = pos 5
kind_code date = pos 6

unfoldable pub no_nul_bytes : Bytes → Result Bytes
no_nul_bytes bs = if contains_byte 0 bs then err data_validation else ok bs

-- `_check_bytes`
unfoldable pub check_bytes : Value → Result Bytes
check_bytes (text bs) = no_nul_bytes bs
check_bytes _ = err data_validation

-- the frequency of a lookup that may type a date
unfoldable pub calendar : Result ℤ → Result ℤ
calendar (err e) = err data_validation
calendar (ok code) =
    if code ==ℤ frequency_case
    then err data_validation
    else if is_date_type code
    then ok code
    else err data_validation

-- `_date_frequency`
unfoldable pub date_frequency : ℤ → Result ℤ
date_frequency f = calendar (lookup (CodeArg.number f) frequencies)

-- `values.dtype` is the type of the kind.
abbrev pub cells_for : Kind → Cells → Bool
cells_for precision (precisions _) = true
cells_for numeric (numerics _) = true
cells_for boolean (booleans _) = true
cells_for date (dates _) = true
cells_for _ _ = false

-- the length of a buffer against the one that is asked for
abbrev pub length_is : Option ℤ → ℕ → Bool
length_is none n = true
length_is (some l) n = pos n ==ℤ l

-- `check_buffer` of src/famepy/_native.py, for the types of `_DTYPES`
unfoldable pub check_buffer : Kind → Buffer → Option ℤ → Result Cells
check_buffer kind (array cells) l =
    if cells_for kind cells && length_is l (count cells) && leb (count cells) max_observations
    then ok cells
    else err data_validation
check_buffer kind _ l = err data_validation

abbrev pub encoded_cells : {A : Type 0} → (A → Cells) → Option A → Result Cells
encoded_cells f none = err data_validation
encoded_cells f (some a) = ok (f a)

abbrev pub option_bind : {A B : Type 0} → Option A → (A → Option B) → Option B
option_bind none f = none
option_bind (some a) f = f a

module _ (numpy : Numpy) where
  -- `_encode_scalar`, for the values that the checks of `RawScalar` let through; any other value is
  -- refused by those checks with the same error.
  unfoldable pub encode_scalar : Kind → Value → Result Cells
  encode_scalar boolean (integer n) =
      if fits (2 ^ 31) n then ok (booleans (n ∷ [])) else err data_validation
  encode_scalar date (integer n) =
      if fits (2 ^ 63) n then ok (dates (n ∷ [])) else err data_validation
  encode_scalar precision (integer n) =
      encoded_cells (λ b. precisions (b ∷ [])) (numpy.from_integer n)
  encode_scalar precision (double b) = ok (precisions (b ∷ []))
  encode_scalar precision (single b) = ok (precisions (numpy.widened b ∷ []))
  encode_scalar numeric (integer n) =
      encoded_cells (λ b. numerics (b ∷ [])) (option_bind (numpy.from_integer n) numpy.narrowed)
  encode_scalar numeric (double b) = encoded_cells (λ b. numerics (b ∷ [])) (numpy.narrowed b)
  encode_scalar numeric (single b) = ok (numerics (b ∷ []))
  encode_scalar _ _ = err data_validation
