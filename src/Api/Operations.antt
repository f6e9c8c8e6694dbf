-- ===== src/Api/Operations.antt =====
-- The operations of a program, as data.
use famepy.Prelude.{ℕ, ℤ, Bytes, Bool, Option}
use famepy.Errors.{Result}
use famepy.Text.{Text}
use famepy.Constants.{CodeArg}
use famepy.Wildcard.Filters.{Words, Frequencies}
use famepy.Command.{Output}
use famepy.Command.Include.{Files}
use famepy.Data.{Numpy}
use famepy.Data.Reading.{DataObject}

-- One operation of a program. Sessions and handles are named by their allocation numbers, and
-- `fork` goes on in the child.
pub data Op : Type 0 where
  new_session : Bool → Bool → Option (Option Bytes) → Option Bool → Op
  load initialize finalize version enable_extended_errors : ℕ → Op
  default_session init_chli : Bool → Result (Unit {0}) → Op
  close_chli : Op
  opendb : Text → CodeArg → Option ℕ → Op
  workdb : Option ℕ → Op
  postdb closedb : ℕ → Op
  quick_info : ℕ → Text → Op
  listdb : ℕ → ℕ → Text → Bool → Words → Words → Frequencies → ℤ → Op
  fame : Files → Output → Text → Option ℕ → Bool → Bool → Op
  do_read : Numpy → ℕ → DataObject → Op
  do_write : Numpy → ℕ → DataObject → Bool → Option CodeArg → Option CodeArg → Op
  delete_object : ℕ → Text → Bool → Op
  fork : ℕ → Op
