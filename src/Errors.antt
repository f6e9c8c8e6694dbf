-- ===== src/Errors.antt =====
-- The exceptions of src/famepy/_errors.py as values, and `check_status`.
use famepy.Prelude.{Bytes, ℤ, pos, fits, ◌==ℤ◌, Bool, true, false, Option, none, ◌^◌, if◌then◌else◌}

-- The attributes of an `HLIError`; its message is fixed text and is left out.
pub record Hli : Type 0 where
  pub status : ℤ
  pub extended_text : Option Bytes
  pub extended_captured : Bool

-- `COMMAND_STAGES`
pub data Stage : Type 0 where
  redirect command restore : Stage

pub record CommandFailure : Type 0 where
  pub hli : Hli
  pub output : Option Bytes
  pub stage : Stage
  pub restore_status : Option ℤ

-- One constructor for each exception class; `interrupt` is a `BaseException` that is no
-- `Exception`, and `other` any exception that the package does not name.
pub data Error : Type 0 where
  hli_error : Hli → Error
  command_error : CommandFailure → Error
  runtime_state inherited_runtime stale_handle licensing : Error
  unsupported_operation data_validation value_error type_error overflow : Error
  text_encoding include_error name_collision : Error
  unsupported_frequency missing_value empty_series : Error
  name_truncated : ℤ → ℤ → Error
  library_not_found library_load : Error
  interrupt other : Error

-- `isinstance(error, Exception)`
abbrev pub is_exception : Error → Bool
is_exception interrupt = false
is_exception _ = true

pub data Result {ℓ} (A : Type ℓ) : Type ℓ where
  ok : A → Result A
  err : Error → Result A

abbrev pub new_hli : ℤ → Hli
new_hli status = record { status = status; extended_text = none; extended_captured = false }

-- `HLIError.__init__` through `raise HLIError(status)`
abbrev pub hli_status : ℤ → Error
hli_status status = hli_error (new_hli status)

-- `check_status`: a status is an `int` here, so the test for a Boolean has no case.
unfoldable pub check_status : ℤ → Result (Unit {0})
check_status status =
    if fits (2 ^ 31) status
    then (if status ==ℤ pos 0 then ok tt else err (hli_status status))
    else err overflow
