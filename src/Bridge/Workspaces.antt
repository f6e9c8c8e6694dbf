-- ===== src/Bridge/Workspaces.antt =====
-- The workspace that src/famepy/bridge/_workspace.py builds, and the reads that fill it.
pub mod Places
pub mod Placing
pub mod Complete
use famepy.Prelude.{
  ℕ, Bool, true, false, not, ◌&&◌, ◌||◌, Option, none, some, List, [], ◌∷◌, ◌++◌, Bytes, bytes_eq,
  ◌==◌, if◌then◌else◌,
}
use famepy.Errors.{
  Error, hli_error, command_error, unsupported_operation, data_validation, text_encoding,
  unsupported_frequency, missing_value, empty_series, Result, ok, err, other,
}
use famepy.Native.{Native}
use famepy.World.{World}
use famepy.Exec.{Exec, pure, raise, lift, catch, ◌>>=◌}
use famepy.Text.Values.{from_native}
use famepy.Wildcard.Filters.{upper_all}
use famepy.Objects.{FameObject}
use famepy.Data.{Numpy}
use famepy.Data.Reading.{DataObject, do_read}
use famepy.Bridge.Naming.{Str, Key}

-- A `Workspace` of values: an ordered dictionary, in which an entry is a value or a workspace.
mutual
  pub data Workspace (V : Type 0) : Type 0 where
    empty : Workspace V
    bound : Str → Entry V → Workspace V → Workspace V

  pub data Entry (V : Type 0) : Type 0 where
    value : V → Entry V
    space : Workspace V → Entry V

module _ {V : Type 0} where
  -- `node.get(part)`
  unfoldable pub get_entry : Str → Workspace V → Option (Entry V)
  get_entry s empty = none
  get_entry s (bound t e w) = if bytes_eq t s then some e else get_entry s w

  -- `node[part] = child`
  unfoldable pub set_entry : Str → Entry V → Workspace V → Workspace V
  set_entry s x empty = bound s x empty
  set_entry s x (bound t e w) = if bytes_eq t s then bound t x w else bound t e (set_entry s x w)

  abbrev pub set_space : Str → Workspace V → Result (Workspace V) → Result (Workspace V)
  set_space s root (ok child) = ok (set_entry s (space child) root)
  set_space s root (err e) = err e

  -- the child to go down into: a new one if there is none; a value has no entries
  abbrev pub child_of : Option (Entry V) → Result (Workspace V)
  child_of none = ok empty
  child_of (some (space child)) = ok child
  child_of (some (value v)) = err other

  abbrev pub within :
      Result (Workspace V) → (Workspace V → Result (Workspace V)) → Result (Workspace V)
  within (ok child) f = f child
  within (err e) f = err e

  -- `_place`
  unfoldable pub place : Key → V → Workspace V → Result (Workspace V)
  place [] v root = err other
  place (s ∷ []) v root = ok (set_entry s (value v) root)
  place (s ∷ t ∷ k) v root =
      set_space s root (within (child_of (get_entry s root)) (place (t ∷ k) v))

  abbrev pub found_value : Option (Entry V) → Option V
  found_value (some (value v)) = some v
  found_value _ = none

  abbrev pub found_space : Option (Entry V) → (Workspace V → Option V) → Option V
  found_space (some (space w)) f = f w
  found_space _ f = none

  -- The value at a path: what a reader of the workspace finds.
  unfoldable pub find : Key → Workspace V → Option V
  find [] root = none
  find (s ∷ []) root = found_value (get_entry s root)
  find (s ∷ t ∷ k) root = found_space (get_entry s root) (find (t ∷ k))

-- What is stored of an object: its converted value, or the object itself.
pub data Item (V : Type 0) : Type 0 where
  converted : V → Item V
  unconverted : DataObject → Item V

-- `_fame_name_text`; a name that is not ASCII raises
unfoldable pub fame_name_text : FameObject → Result Str
fame_name_text obj = elim (from_native true obj.name) [ ok cs ↦ ok (upper_all cs) | err e ↦ err e ]

-- `ObjectFailure`
pub record ObjectFailure : Type 0 where
  pub name : Str
  pub key : Key
  pub error : Error

-- `ReadReport`
pub record ReadReport (V : Type 0) : Type 0 where
  pub workspace : Workspace (Item V)
  pub failures : List ObjectFailure
  pub raw : List Str

-- the errors of a read that are contained
abbrev pub is_read_error : Error → Bool
is_read_error (hli_error h) = true
is_read_error (command_error c) = true
is_read_error unsupported_operation = true
is_read_error unsupported_frequency = true
is_read_error data_validation = true
is_read_error _ = false

-- `CONVERSION_ERRORS`
abbrev pub is_conversion_error : Error → Bool
is_conversion_error unsupported_frequency = true
is_conversion_error missing_value = true
is_conversion_error empty_series = true
is_conversion_error text_encoding = true
is_conversion_error data_validation = true
is_conversion_error unsupported_operation = true
is_conversion_error _ = false

-- an action whose expected errors are given back as values
unfoldable pub contained : {A : Type 0} → (Error → Bool) → Exec A → Exec (Result A)
contained expected m =
    catch (m >>= λ a. pure (ok a)) (λ e. if expected e then pure (err e) else raise e)

module _ {V : Type 0} (raw_fallback contain : Bool) where
  -- a failure that is recorded, or raised
  abbrev pub record_failure : Str → Key → Error → ReadReport V → Exec (ReadReport V)
  record_failure name' key e report =
      if contain
      then pure (record report {
        failures = report.failures ++ (record { name = name'; key = key; error = e } ∷ []);
      })
      else raise e

  unfoldable pub store : Key → Item V → ReadReport V → Exec (ReadReport V)
  store key item report = do
    workspace ← lift (place key item report.workspace)
    pure (record report { workspace = workspace })

  -- what is stored of an object that was read, by its conversion
  unfoldable pub store_result :
      Str → DataObject → Key → Result V → ReadReport V → Exec (ReadReport V)
  store_result name' obj key (ok v) report = store key (converted v) report
  store_result name' obj key (err e) report =
      if raw_fallback
      then store key (unconverted obj) (record report { raw = report.raw ++ (name' ∷ []) })
      else record_failure name' key e report

  module _ (unfame : DataObject → Exec V) where
    unfoldable pub store_read : Str → Key → Result DataObject → ReadReport V → Exec (ReadReport V)
    store_read name' key (err e) report = record_failure name' key e report
    store_read name' key (ok obj) report = do
      v ← contained is_conversion_error (unfame obj)
      store_result name' obj key v report

    module _ (native : Native) (numpy : Numpy) (hid : ℕ) where
      unfoldable pub read_one : DataObject → Key → ReadReport V → Exec (ReadReport V)
      read_one obj key report = do
        name' ← lift (fame_name_text obj.info)
        r ← contained is_read_error (do_read native numpy hid obj)
        store_read name' key r report

      -- the loop of `_read_into`
      unfoldable pub read_all : List (DataObject × Key) → ReadReport V → Exec (ReadReport V)
      read_all [] report = pure report
      read_all ((obj, key) ∷ rest) report = do
        report' ← read_one obj key report
        read_all rest report'

      -- `_read_into`, where `unfame` is the conversion of src/famepy/bridge/_values.py under the
      -- policies that were chosen
      unfoldable pub read_into : List (DataObject × Key) → Exec (ReadReport V)
      read_into resolved = read_all resolved (record { workspace = empty; failures = []; raw = [] })
