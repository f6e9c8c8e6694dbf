-- ===== src/Command.antt =====
-- `fame` of src/famepy/_command.py: a command runs between a redirection of the output to a file
-- and its restoration. The temporary directory and its file are outside.
pub mod Include
pub mod Outcome
pub mod Keeps
use famepy.Prelude.{
  ℕ, ◌^◌, Bytes, ℤ, pos, ◌==ℤ◌, Bool, true, false, not, ◌&&◌, ◌||◌, Option, none, some, List, [],
  ◌∷◌, ◌++◌, codes, contains_byte, length, ltb, if◌then◌else◌,
}
use famepy.Errors.{
  Error, Hli, Stage, redirect, command, restore, CommandFailure, Result, ok, err, command_error,
  data_validation, text_encoding, value_error,
}
use famepy.Native.{Native, Call, cfmfame}
use famepy.World.{World}
use famepy.Exec.{Exec, pure, raise, lift, gets, catch, skip, raise_if, call_status, ◌>>=◌, ◌>>◌}
use famepy.Text.{Text, to_native, is_ascii}
use famepy.Runtime.{capture_extended_error, operation}
use famepy.Database.{session_or_current}
use famepy.Command.Include.{Files, expand_input, max_include_depth}

-- `path`: the path of the output file in a new directory, or the failure to make one; `captured`:
-- what the file holds after the calls so far, empty where the library never made it.
pub record Output : Type 0 where
  pub path : Result (List ℕ)
  pub captured : List Call → Result Bytes

-- `_quote_path`
unfoldable pub quote_path : List ℕ → Result Bytes
quote_path text =
    if not (is_ascii text)
    then err text_encoding
    else if contains_byte b'"' text
    then err text_encoding
    else ok text

-- `CommandError(status, ...)`
abbrev pub failure : ℤ → Stage → Option Bytes → Option Bytes → Option ℤ → Error
failure status stage output extended restored = command_error (record {
  hli = record { status = status; extended_text = extended; extended_captured = true };
  output = output;
  stage = stage;
  restore_status = restored;
})

-- `None if restore == HSUCC else restore`
abbrev pub nonzero : ℤ → Option ℤ
nonzero status = if status ==ℤ pos 0 then none else some status

module _ (native : Native) where
  -- `native.execute`
  unfoldable pub execute : Bytes → Exec ℤ
  execute text = do
    raise_if (contains_byte 0 text) data_validation
    r ← call_status native (cfmfame text)
    pure r.0

  -- the extended text of a status that is a failure
  unfoldable pub text_of : ℕ → ℤ → Exec (Option Bytes)
  text_of sid status = if status ==ℤ pos 0 then pure none else capture_extended_error native sid

  -- the command itself
  unfoldable pub payload : ℕ → Bytes → Exec (ℤ × Option Bytes)
  payload sid text = do
    status ← execute text
    extended ← text_of sid status
    pure (status, extended)

  -- a failed redirection ends the operation
  unfoldable pub redirect_failed : ℕ → ℤ → Exec Unit
  redirect_failed sid status = if status ==ℤ pos 0 then skip else do
    extended ← capture_extended_error native sid
    raise (failure status redirect none extended none)

  -- the outcome of the command and of the restoration
  unfoldable pub conclude : ℕ → ℤ → Option Bytes → ℤ → Bytes → Exec Bytes
  conclude sid status extended restored captured =
      if not (status ==ℤ pos 0)
      then raise (failure status command (some captured) extended (nonzero restored))
      else if not (restored ==ℤ pos 0)
      then (do
        text ← capture_extended_error native sid
        raise (failure restored restore (some captured) text none))
      else pure captured

  -- the locked operation, without the removal of the temporary directory
  unfoldable pub run_command : Output → ℕ → Bytes → Exec Bytes
  run_command output sid text = do
    path ← lift output.path
    quoted ← lift (quote_path path)
    status ← execute (codes "output file(\"" ++ (quoted ++ codes "!\")"))
    redirect_failed sid status
    p ← catch (payload sid text) (λ e. execute (codes "output terminal") >> raise e)
    restored ← execute (codes "output terminal")
    calls ← gets (λ w. w.calls)
    captured ← lift (output.captured calls)
    conclude sid p.0 p.1 restored captured

  -- the command with its includes expanded, where that is asked for
  unfoldable pub expanded : Files → Bool → Bytes → Result Bytes
  expanded files true text = expand_input files max_include_depth (2 ^ 24) text
  expanded files false text = ok text

  -- `fame`
  unfoldable pub fame : Files → Output → Text → Option ℕ → Bool → Bool → Exec Bytes
  fame files output text given quiet expand_includes = do
    t ← lift (to_native text)
    owner ← session_or_current given
    full ← lift (expanded files expand_includes t)
    raise_if (ltb (2 ^ 20) (length full)) value_error
    captured ← operation native owner (run_command output owner full)
    pure (if quiet then [] else captured)
