-- ===== src/Bridge/Writes.antt =====
-- The writes of whole workspaces in src/famepy/bridge/_workspace.py.
pub mod Complete
use famepy.Prelude.{
  ℕ, Bool, true, false, ◌&&◌, Option, none, some, List, [], ◌∷◌, ◌++◌, codes, if◌then◌else◌,
}
use famepy.Errors.{
  Error, hli_error, command_error, unsupported_operation, data_validation, value_error, type_error,
  text_encoding, include_error, name_collision, unsupported_frequency, missing_value, empty_series,
  Result, ok, err,
}
use famepy.Native.{Native}
use famepy.World.{World}
use famepy.Exec.{Exec, pure, raise, lift, gets, catch, finally, skip, ◌>>=◌, ◌>>◌}
use famepy.Text.{Text, str}
use famepy.Constants.{CodeArg, access_mode}
use famepy.Objects.{and_then}
use famepy.Database.{opendb, postdb, closedb, session_or_current}
use famepy.Data.{Kind, Numpy}
use famepy.Data.Carriers.{RawObject}
use famepy.Data.Writing.{attribute_codes, write_raw}
use famepy.Bridge.Naming.{Str}
use famepy.Bridge.Workspaces.{ObjectFailure, contained}
use famepy.Bridge.Flattening.{Container, flatten_names}

-- an open database, or a path
pub data Target : Type 0 where
  open_database : ℕ → Target
  path : Text → Target

-- `WriteReport`
pub record WriteReport : Type 0 where
  pub written : List Str
  pub failures : List ObjectFailure
  pub posted : Bool

-- the keyword arguments of a write, without the policies
pub record WriteOptions : Type 0 where
  pub mode : Option CodeArg
  pub prefix : Option Str
  pub glue : Str
  pub replace : Bool
  pub basis : Option CodeArg
  pub observed : Option CodeArg

-- `HLIError`, `TypeError`, `ValueError` and `UnsupportedOperationError` with their subclasses
abbrev pub is_object_error : Error → Bool
is_object_error (hli_error h) = true
is_object_error (command_error c) = true
is_object_error unsupported_operation = true
is_object_error unsupported_frequency = true
is_object_error data_validation = true
is_object_error value_error = true
is_object_error type_error = true
is_object_error text_encoding = true
is_object_error include_error = true
is_object_error name_collision = true
is_object_error missing_value = true
is_object_error empty_series = true
is_object_error _ = false

-- `HLIError` and `DataValidationError` with their subclasses
abbrev pub is_native_error : Error → Bool
is_native_error (hli_error h) = true
is_native_error (command_error c) = true
is_native_error data_validation = true
is_native_error _ = false

-- `_check_target`, and that a path has a mode
unfoldable pub check_target : Target → Option CodeArg → Result (Unit {0})
check_target (open_database hid) (some m) = err value_error
check_target (open_database hid) none = ok tt
check_target (path p) none = err value_error
check_target (path p) (some m) = ok tt

-- `access_mode` of a mode that is given
unfoldable pub check_mode : Option CodeArg → Result (Unit {0})
check_mode none = ok tt
check_mode (some m) = and_then (access_mode m) λ a. ok tt

abbrev pub or_readonly : Option CodeArg → CodeArg
or_readonly none = CodeArg.name (codes "readonly")
or_readonly (some m) = m

abbrev pub object_failure : Str → Error → ObjectFailure
object_failure n e = record { name = n; key = n ∷ []; error = e }

abbrev pub add_converted :
    Str
    → Result RawObject
    → List (Str × RawObject) × List ObjectFailure
    → List (Str × RawObject) × List ObjectFailure
add_converted n (ok raw) p = ((n, raw) ∷ p.0, p.1)
add_converted n (err e) p = (p.0, object_failure n e ∷ p.1)

abbrev pub add_written :
    Str → Result (Unit {0}) → List Str × List ObjectFailure → List Str × List ObjectFailure
add_written n (ok u) p = (n ∷ p.0, p.1)
add_written n (err e) p = (p.0, object_failure n e ∷ p.1)

abbrev pub any_written : List Str → Bool
any_written [] = false
any_written (n ∷ ns) = true

module _ {V : Type 0} where
  -- `_prepare_write`; the kind decides the defaults of the attributes alone, not what is refused
  unfoldable pub prepare_write :
      Target → WriteOptions → List (Option (Container V)) → Result (List (Str × V))
  prepare_write target opts data' = and_then (check_target target opts.mode) λ t.
      and_then (check_mode opts.mode) λ m.
        and_then (attribute_codes opts.basis opts.observed Kind.precision)
          λ a. flatten_names opts.prefix opts.glue data'

  module _ (validate : V → Result (Unit {0})) where
    -- the loop that validates the values
    unfoldable pub validate_all : List (Str × V) → Result (Unit {0})
    validate_all [] = ok tt
    validate_all ((n, v) ∷ rest) = and_then (validate v) λ u. validate_all rest

    module _ (to_fame : ℕ → V → Exec RawObject) where
      -- `_convert_all`
      unfoldable pub convert_all : ℕ → List (Str × V) → Exec (List (Str × RawObject))
      convert_all session [] = pure []
      convert_all session ((n, v) ∷ rest) = do
        raw ← to_fame session v
        raws ← convert_all session rest
        pure ((n, raw) ∷ raws)

      abbrev pub convert : ℕ → V → Exec RawObject
      convert session v = do u ← lift (validate v); to_fame session v

      -- The first loop of `writefame_report`: what was converted, and the failures.
      unfoldable pub convert_each :
          ℕ → List (Str × V) → Exec (List (Str × RawObject) × List ObjectFailure)
      convert_each session [] = pure ([], [])
      convert_each session ((n, v) ∷ rest) = do
        r ← contained is_object_error (convert session v)
        p ← convert_each session rest
        pure (add_converted n r p)

-- `owner_session` of the database, if the target is one
unfoldable pub target_session : Target → Exec ℕ
target_session (open_database hid) = gets (λ w. (w.handles hid).session)
target_session (path p) = session_or_current none

module _ (native : Native) (numpy : Numpy) where
  -- `_resolve_target`
  unfoldable pub resolve_target : Target → Option CodeArg → Exec (ℕ × Bool)
  resolve_target (open_database hid) mode = pure (hid, false)
  resolve_target (path p) mode = do hid ← opendb native p (or_readonly mode) none; pure (hid, true)

  -- `finally: if owned: closedb(database)`
  unfoldable pub close_owned : ℕ → Bool → Exec (Unit {0})
  close_owned hid owned = if owned then closedb native hid else skip

  module _ (opts : WriteOptions) where
    unfoldable pub write_one : ℕ → Str → RawObject → Exec (Unit {0})
    write_one hid n raw =
        write_raw native numpy hid (str n) raw opts.replace opts.basis opts.observed

    -- the loop of `writefame`
    unfoldable pub write_all : ℕ → List (Str × RawObject) → Exec (List Str)
    write_all hid [] = pure []
    write_all hid ((n, raw) ∷ rest) = do
      u ← write_one hid n raw
      ns ← write_all hid rest
      pure (n ∷ ns)

    -- The second loop of `writefame_report`: the names that were written, and the failures.
    unfoldable pub write_each : ℕ → List (Str × RawObject) → Exec (List Str × List ObjectFailure)
    write_each hid [] = pure ([], [])
    write_each hid ((n, raw) ∷ rest) = do
      r ← contained is_native_error (write_one hid n raw)
      p ← write_each hid rest
      pure (add_written n r p)

    -- the write of all, then the post
    unfoldable pub write_and_post : ℕ → Bool → List (Str × RawObject) → Exec (List Str)
    write_and_post hid owned raws = do
      ns ← write_all hid raws
      u ← if owned then postdb native hid else skip
      pure ns

    unfoldable pub write_and_report :
        ℕ → Bool → List ObjectFailure → List (Str × RawObject) → Exec WriteReport
    write_and_report hid owned failures raws = do
      p ← write_each hid raws
      u ← if owned && any_written p.0 then postdb native hid else skip
      pure (record { written = p.0; failures = failures ++ p.1; posted = owned && any_written p.0 })

    -- what is written of the converted objects; with none the target is not opened
    unfoldable pub write_converted : Target → List (Str × RawObject) → Exec (List Str)
    write_converted target [] = pure []
    write_converted target (raw ∷ raws) = do
      d ← resolve_target target opts.mode
      finally (write_and_post d.0 d.1 (raw ∷ raws)) (close_owned d.0 d.1)

    unfoldable pub report_converted :
        Target → List ObjectFailure → List (Str × RawObject) → Exec WriteReport
    report_converted target failures [] =
        pure (record { written = []; failures = failures; posted = false })
    report_converted target failures (raw ∷ raws) = do
      d ← resolve_target target opts.mode
      finally (write_and_report d.0 d.1 failures (raw ∷ raws)) (close_owned d.0 d.1)

    module _ {V : Type 0} (validate : V → Result (Unit {0}))
        (to_fame : ℕ → V → Exec RawObject) where
      -- `writefame`
      unfoldable pub writefame : Target → List (Option (Container V)) → Exec (List Str)
      writefame target data' = do
        flat ← lift (prepare_write target opts data')
        u ← lift (validate_all validate flat)
        session ← target_session target
        raws ← convert_all validate to_fame session flat
        write_converted target raws

      -- `writefame_report`
      unfoldable pub writefame_report : Target → List (Option (Container V)) → Exec WriteReport
      writefame_report target data' = do
        flat ← lift (prepare_write target opts data')
        session ← target_session target
        p ← convert_each validate to_fame session flat
        report_converted target p.1 p.0
