-- ===== src/Data/Writing.antt =====
-- Writes of src/famepy/_data.py, `do_write`, `write_raw` and `delete_object`, over the calls of
-- src/famepy/_native.py.
pub mod Bare
pub mod Payloads
pub mod Ready
pub mod Checked
pub mod Outcome
use famepy.Prelude.{
  ℕ, ◌^◌, Bytes, ℤ, pos, negsuc, fits, ◌==ℤ◌, ◌+ℤ◌, ◌-ℤ◌, Bool, true, false, not, ◌&&◌, ◌||◌,
  Option, none, some, List, [], ◌∷◌, codes, contains_byte, bytes_eq, map, ◌==◌, length,
  if◌then◌else◌,
}
use famepy.Errors.{Error, Result, ok, err, data_validation, value_error}
use famepy.Native.{
  Native, Range, cfmnwob, cfmdlob, fame_write_precisions, fame_write_numerics, fame_write_booleans,
  fame_write_dates, fame_write_strings, cfmwtnl,
}
use famepy.World.{World, AccessMode, readonly}
use famepy.Exec.{Exec, pure, raise, lift, gets, catch, skip, raise_if, call, ◌>>=◌, ◌>>◌}
use famepy.Text.{Text, bytes, object_name, to_native, strip, underscored}
use famepy.Constants.{CodeArg, Table, frequencies, has_code, lookup}
use famepy.Wildcard.{hnoobj}
use famepy.Wildcard.Filters.{upper_all}
use famepy.Runtime.{int32, hli_of, sentinels}
use famepy.Database.{db_operation}
use famepy.Objects.{FameObject, is_scalar, check_supported_class, and_then}
use famepy.Data.{
  Kind, precision, numeric, boolean, date, string, namelist, undefined, Cells, precisions, numerics,
  booleans, dates, Buffer, array, foreign, items, Value, absent, truth, integer, double, single,
  text, buffer, object, Numpy, size, kind_from_type, check_buffer, count,
}
use famepy.Data.Carriers.{
  RawScalar, RawSeries, RawObject, raw_scalar, raw_series, raw_type, raw_kind, Payload, block,
  namelist_text, string_text, string_texts, series_range, is_empty_series, new_raw_scalar,
  new_raw_series, prepare,
}
use famepy.Data.Buffers.{namelist_all, bulk_length, range_argument, native_name, bulk}
use famepy.Data.Reading.{DataObject, object_date_frequency}

-- `Basis` and `Observed`
abbrev pub bases : Table
bases = (codes "UNDEFINED", pos 0) ∷ (codes "DAILY", pos 1) ∷ (codes "BUSINESS", pos 2) ∷ []

abbrev pub observations : Table
observations =
    (codes "UNDEFINED", pos 0)
    ∷ (codes "BEGINNING", pos 1)
    ∷ (codes "ENDING", pos 2)
    ∷ (codes "AVERAGED", pos 3)
    ∷ (codes "SUMMED", pos 4)
    ∷ (codes "ANNUALIZED", pos 5)
    ∷ (codes "FORMULA", pos 6)
    ∷ (codes "HIGH", pos 7)
    ∷ (codes "LOW", pos 8)
    ∷ []

-- `table[key]`
unfoldable pub attribute_named : List ℕ → Table → Result ℤ
attribute_named key [] = err value_error
attribute_named key ((n, c) ∷ table) = if bytes_eq n key then ok c else attribute_named key table

-- `code` of `attribute_codes`, with what stands for `None`
unfoldable pub attribute_code : Option CodeArg → Table → ℤ → Result ℤ
attribute_code none table default' = ok default'
attribute_code (some (CodeArg.boolean _)) table default' = err value_error
attribute_code (some (CodeArg.name cs)) table default' =
    attribute_named (map underscored (upper_all (strip cs))) table
attribute_code (some (CodeArg.number n)) table default' =
    if has_code n table then ok n else err value_error
attribute_code (some CodeArg.object) table default' = err value_error

-- `_default_observed`
abbrev pub default_observed : Kind → ℤ
default_observed precision = pos 4
default_observed numeric = pos 4
default_observed _ = pos 0

-- `attribute_codes` of a carrier
unfoldable pub attribute_codes : Option CodeArg → Option CodeArg → Kind → Result (ℤ × ℤ)
attribute_codes basis observed kind =
    and_then (attribute_code basis bases (pos 1))
      λ b. and_then (attribute_code observed observations (default_observed kind)) λ o. ok (b, o)

abbrev pub defined_frequency : ℤ → Result ℤ
defined_frequency f = if f ==ℤ pos 0 then err data_validation else ok f

-- the class and the frequency of the object that is created
unfoldable pub class_of : RawObject → Result (ℤ × ℤ)
class_of (raw_scalar s) = ok (pos 2, pos 0)
class_of (raw_series s) =
    and_then (lookup (CodeArg.number s.frequency) frequencies)
      λ f. and_then (defined_frequency f) λ g. ok (pos 1, g)

abbrev pub raw_range : RawObject → Result (Option Range)
raw_range (raw_scalar s) = ok none
raw_range (raw_series s) = series_range s

abbrev pub is_writable : AccessMode → Bool
is_writable readonly = false
is_writable _ = true

-- What `write_raw` has checked when it makes its first native call.
pub record Plan : Type 0 where
  pub name' : Bytes
  pub class_code : ℤ
  pub frequency : ℤ
  pub type_code : ℤ
  pub basis : ℤ
  pub observed : ℤ
  pub payload : Payload
  pub range : Option Range
  pub is_empty : Bool

abbrev pub writes_nothing : RawObject → Bool
writes_nothing (raw_scalar s) = false
writes_nothing (raw_series s) = is_empty_series s

-- `obj.last_index is None` or the last index that the data has
abbrev pub ends_at : ℤ → ℕ → Option ℤ → Bool
ends_at first n none = true
ends_at first n (some l) = l ==ℤ first +ℤ pos n -ℤ pos 1

-- `raw_of`: the checks of a series with data against its endpoints
unfoldable pub raw_series_of :
    FameObject → Kind → Buffer → ℤ → Option ℤ → Option ℤ → Result RawSeries
raw_series_of obj kind values index_nc none last = err data_validation
raw_series_of obj kind values index_nc (some first) last =
    if first ==ℤ index_nc || not (ends_at first (size values) last)
    then err data_validation
    else new_raw_series kind obj.frequency first values (object_date_frequency obj)

-- `raw_of` of a series by its data
unfoldable pub raw_data_of : FameObject → Kind → Value → ℤ → Result RawSeries
raw_data_of obj namelist v index_nc = err data_validation
raw_data_of obj kind (buffer values) index_nc =
    if size values == 0
    then new_raw_series kind obj.frequency index_nc values (object_date_frequency obj)
    else raw_series_of obj kind values index_nc obj.first_index obj.last_index
raw_data_of obj kind _ index_nc = err data_validation

abbrev pub is_absent : Value → Bool
is_absent absent = true
is_absent _ = false

abbrev pub mapped : {A B : Type 0} → (A → B) → Result A → Result B
mapped f (ok a) = ok (f a)
mapped f (err e) = err e

module _ (numpy : Numpy) where
  -- `raw_of`
  unfoldable pub raw_of : DataObject → ℤ → Result RawObject
  raw_of obj index_nc = and_then (check_supported_class obj.info) λ u.
      if is_absent obj.data' || obj.info.type_code ==ℤ pos 6
      then err data_validation
      else and_then (kind_from_type obj.info.type_code) λ kind.
        if is_scalar obj.info
        then (if not (obj.info.frequency ==ℤ pos 0)
            then err data_validation
            else mapped raw_scalar
                (new_raw_scalar numpy kind obj.data' (object_date_frequency obj.info)))
        else mapped raw_series (raw_data_of obj.info kind obj.data' index_nc)

  -- the checks of `write_raw`, in the order in which it makes them
  unfoldable pub plan_of :
      AccessMode → Text → RawObject → Option CodeArg → Option CodeArg → Result Plan
  plan_of mode n obj basis observed = and_then (object_name n) λ text'.
      if not (is_writable mode)
      then err data_validation
      else and_then (class_of obj) λ c.
        and_then (attribute_codes basis observed (raw_kind obj)) λ a.
          and_then (prepare numpy obj) λ payload. and_then (raw_range obj) λ range. ok (record {
            name' = text';
            class_code = c.0;
            frequency = c.1;
            type_code = raw_type obj;
            basis = a.0;
            observed = a.1;
            payload = payload;
            range = range;
            is_empty = writes_nothing obj;
          })

abbrev pub is_hnoobj : Error → Bool
is_hnoobj e = elim (hli_of e) [ none ↦ false | some h ↦ h.status ==ℤ hnoobj ]

-- `write_strings` refuses a NUL in an item again.
unfoldable pub any_nul : List Bytes → Bool
any_nul [] = false
any_nul (bs ∷ rest) = contains_byte 0 bs || any_nul rest

module _ (native : Native) where
  -- `native.delete_object`
  unfoldable pub delete_native : ℤ → Bytes → Exec Unit
  delete_native key n = do
    text' ← lift (native_name n)
    k ← lift (int32 key)
    call native (cfmdlob k text')

  -- a deletion in which the status of an absent object may be ignored
  unfoldable pub delete_or_ignore : Bool → ℤ → Bytes → Exec Unit
  delete_or_ignore missing_ok key n =
      catch (delete_native key n) (λ e. if missing_ok && is_hnoobj e then skip else raise e)

  -- `native.new_object`
  unfoldable pub new_object : ℤ → Plan → Exec Unit
  new_object key p = do
    text' ← lift (native_name p.name')
    k ← lift (int32 key)
    c ← lift (int32 p.class_code)
    f ← lift (int32 p.frequency)
    t ← lift (int32 p.type_code)
    b ← lift (int32 p.basis)
    o ← lift (int32 p.observed)
    call native (cfmnwob k text' c f t b o)

  -- `write_strings`
  unfoldable pub write_strings : ℤ → Bytes → Option Range → List Bytes → Exec Unit
  write_strings key n range values = do
    raise_if (length values == 0) data_validation
    raise_if (any_nul values) data_validation
    pointer ← lift (range_argument range (length values))
    k ← lift (int32 key)
    name' ← lift (native_name n)
    call native (fame_write_strings k name' pointer values)

  -- `write_namelist`
  unfoldable pub write_namelist : ℤ → Bytes → Bytes → Exec Unit
  write_namelist key n value = do
    text' ← lift (native_name n)
    payload ← lift (native_name value)
    k ← lift (int32 key)
    call native (cfmwtnl k text' namelist_all payload)

  -- `write_precisions`, `write_numerics`, `write_booleans` and `write_dates`
  unfoldable pub write_cells : ℤ → Bytes → Option Range → ℤ → Cells → Exec Unit
  write_cells key n range t (precisions xs) =
      bulk native key n range (length xs)
        λ k name'. call native (fame_write_precisions k name' range xs)
  write_cells key n range t (numerics xs) =
      bulk native key n range (length xs)
        λ k name'. call native (fame_write_numerics k name' range xs)
  write_cells key n range t (booleans xs) =
      bulk native key n range (length xs)
        λ k name'. call native (fame_write_booleans k name' range xs)
  write_cells key n range t (dates xs) = do
    date_type ← lift (int32 t)
    bulk native key n range (length xs)
        λ k name'. call native (fame_write_dates k name' range date_type xs)

  -- `_write_values`
  unfoldable pub write_values : ℤ → Bytes → Option Range → ℤ → Payload → Exec Unit
  write_values key n range t (namelist_text bs) = write_namelist key n bs
  write_values key n range t (string_text bs) = write_strings key n none (bs ∷ [])
  write_values key n range t (string_texts bss) = write_strings key n range bss
  write_values key n range t (block cells) = write_cells key n range t cells

  -- the locked part of `write_raw`
  unfoldable pub write_plan : Bool → Plan → ℤ → Exec Unit
  write_plan replace p key = do
    if replace then delete_or_ignore true key p.name' else skip
    new_object key p
    if p.is_empty then skip else write_values key p.name' p.range p.type_code p.payload

  module _ (numpy : Numpy) where
    -- `write_raw`
    unfoldable pub write_raw :
        ℕ → Text → RawObject → Bool → Option CodeArg → Option CodeArg → Exec Unit
    write_raw hid n obj replace basis observed = do
      w ← gets (λ w. w)
      plan ← lift (plan_of numpy (w.handles hid).mode n obj basis observed)
      db_operation native hid (write_plan replace plan)

    -- `do_write`
    unfoldable pub do_write : ℕ → DataObject → Bool → Option CodeArg → Option CodeArg → Exec Unit
    do_write hid obj replace basis observed = do
      w ← gets (λ w. w)
      s ← sentinels (w.handles hid).session
      raw ← lift (raw_of numpy obj s.index_nc)
      write_raw hid (bytes obj.info.name) raw replace basis observed

  -- `delete_object`
  unfoldable pub delete_object : ℕ → Text → Bool → Exec Unit
  delete_object hid n missing_ok = do
    text' ← lift (to_native n)
    db_operation native hid (λ key. delete_or_ignore missing_ok key text')
