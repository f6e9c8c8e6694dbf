-- ===== src/Data/Reading.antt =====
-- Reads of src/famepy/_data.py, `do_read` and `read_named`.
pub mod Gives
pub mod Parts
pub mod Replies
pub mod Within
use famepy.Prelude.{
  ℕ, suc, zero, ◌+◌, ◌-◌, ◌%◌, ◌^◌, Bytes, ℤ, pos, negsuc, pos_part, fits, ◌==ℤ◌, ◌+ℤ◌, ◌-ℤ◌, leb_ℤ,
  ltb_ℤ, Bool, true, false, not, ◌&&◌, ◌||◌, Option, none, some, List, [], ◌∷◌, map, leb, ltb, ◌==◌,
  contains_byte, if◌then◌else◌,
}
use famepy.Errors.{Error, Result, ok, err, data_validation, other}
use famepy.Native.{
  Native, Range, Sentinels, fame_get_precisions, fame_get_numerics, fame_get_booleans,
  fame_get_dates, fame_len_strings, fame_get_strings, cfmnlen, cfmgtnl,
}
use famepy.World.{World}
use famepy.Exec.{Exec, pure, raise, lift, gets, raise_if, call, ◌>>=◌, ◌>>◌}
use famepy.Text.{Text, to_native}
use famepy.Constants.{CodeArg}
use famepy.Runtime.{int32, sentinels}
use famepy.Database.{db_operation}
use famepy.Objects.{
  FameObject, is_date_type, is_series, is_scalar, is_empty, check_supported_class, query_info,
  and_then, new_fame_object,
}
use famepy.Data.{
  Kind, undefined, precision, numeric, boolean, date, string, namelist, Cells, precisions, numerics,
  booleans, dates, Buffer, array, foreign, items, Value, integer, double, single, text, buffer,
  object, Numpy, max_observations, kind_from_type, length_is,
}
use famepy.Data.Carriers.{
  fame_range, range_length, RawScalar, RawSeries, RawObject, raw_scalar, raw_series, new_raw_scalar,
  new_raw_series, is_empty_series, last_index, raw_type,
}
use famepy.Data.Buffers.{first_value, get_namelist, read_values}

-- an empty buffer of a kind; `_DTYPES` has no entry for the type 0
unfoldable pub empty_buffer : Kind → Result Buffer
empty_buffer precision = ok (array (precisions []))
empty_buffer numeric = ok (array (numerics []))
empty_buffer boolean = ok (array (booleans []))
empty_buffer date = ok (array (dates []))
empty_buffer string = ok (items [])
empty_buffer _ = err other

-- `_check_index`
unfoldable pub check_index : Option ℤ → Result (Unit {0})
check_index none = ok tt
check_index (some n) = if fits (2 ^ 63) n then ok tt else err data_validation

-- `info.date_frequency`
abbrev pub object_date_frequency : FameObject → Option ℤ
object_date_frequency info = if is_date_type info.type_code then some info.type_code else none

abbrev pub is_present : Option ℤ → Bool
is_present none = false
is_present (some _) = true

abbrev pub stored_or : Option ℤ → ℤ → ℤ
stored_or none stored = stored
stored_or (some i) stored = i

-- the range of a read: the selected endpoints, else the stored ones, which they may not leave
unfoldable pub read_range : ℤ → ℤ → ℤ → Option ℤ → Option ℤ → Result Range
read_range frequency low high first last =
    if ltb_ℤ (stored_or first low) low || ltb_ℤ high (stored_or last high)
    then err data_validation
    else fame_range frequency (stored_or first low) (stored_or last high)

-- `obj.class_code`, `obj.type_code` and `obj.frequency` are those of the stored object
abbrev pub same_object : FameObject → FameObject → Bool
same_object obj info =
    obj.class_code ==ℤ info.class_code
    && obj.type_code ==ℤ info.type_code
    && obj.frequency ==ℤ info.frequency

-- an endpoint that selects: neither absent nor the NC index
abbrev pub selected : ℤ → Option ℤ → Option ℤ
selected index_nc none = none
selected index_nc (some i) = if i ==ℤ index_nc then none else some i

-- the endpoints that a read selects: of a series with observations its own, else none
unfoldable pub endpoints : FameObject → FameObject → ℤ → Result (Option ℤ × Option ℤ)
endpoints obj info index_nc =
    if not (is_series info)
    then ok (none, none)
    else if not (is_empty info index_nc)
    then ok (selected index_nc obj.first_index, selected index_nc obj.last_index)
    else if is_present (selected index_nc obj.first_index)
        || is_present (selected index_nc obj.last_index)
    then err data_validation
    else ok (none, none)

-- `FameObject` with its data
pub record DataObject : Type 0 where
  pub info : FameObject
  pub data' : Value

-- `fill_object`
unfoldable pub fill_object : DataObject → Option FameObject → RawObject → DataObject
fill_object obj info (raw_series s) = record {
  info = record obj.info {
    first_index = some s.first_index;
    last_index = some (if is_empty_series s then s.first_index else last_index s);
  };
  data' = buffer s.values;
}
fill_object obj none (raw_scalar s) = record obj { data' = s.value }
fill_object obj (some info) (raw_scalar s) = record {
  info = record obj.info { first_index = info.first_index; last_index = info.last_index };
  data' = s.value;
}

abbrev pub with_data : Value → Result FameObject → Result DataObject
with_data v (ok info) = ok (record { info = info; data' = v })
with_data v (err e) = err e

-- `object_from_raw`
unfoldable pub object_from_raw : Text → RawObject → Result DataObject
object_from_raw n (raw_series s) = with_data (buffer s.values) (
    new_fame_object n (CodeArg.number (pos 1)) (CodeArg.number (raw_type (raw_series s)))
      (CodeArg.number s.frequency) (some s.first_index)
      (some (if is_empty_series s then s.first_index else last_index s)))
object_from_raw n (raw_scalar s) = with_data s.value (
    new_fame_object n (CodeArg.number (pos 2)) (CodeArg.number (raw_type (raw_scalar s)))
      (CodeArg.number (pos 0)) (some (pos 0)) (some (pos 0)))

module _ (native : Native) where
  module _ (numpy : Numpy) where
    -- `RawScalar("namelist", native.get_namelist(key, info.name))`
    unfoldable pub read_namelist : ℤ → FameObject → Exec RawObject
    read_namelist key info = do
      bs ← get_namelist native key info.name
      s ← lift (new_raw_scalar numpy namelist (text bs) none)
      pure (raw_scalar s)

    unfoldable pub read_scalar : ℤ → FameObject → Kind → Exec RawObject
    read_scalar key info namelist = read_namelist key info
    read_scalar key info kind = do
      values ← read_values native key info.name kind none 1
      s ← lift (new_raw_scalar numpy kind (first_value values) (object_date_frequency info))
      pure (raw_scalar s)

    -- a series without observations
    unfoldable pub read_empty : FameObject → Kind → ℤ → Exec RawObject
    read_empty info kind index_nc = do
      values ← lift (empty_buffer kind)
      s ← lift (new_raw_series kind info.frequency index_nc values (object_date_frequency info))
      pure (raw_series s)

    -- a series with the stored endpoints
    unfoldable pub read_stored :
        ℤ → FameObject → Kind → ℤ → ℤ → Option ℤ → Option ℤ → Exec RawObject
    read_stored key info kind low high first last = do
      range ← lift (read_range info.frequency low high first last)
      values ← read_values native key info.name kind (some range) (pos_part (range_length range))
      s ← lift (new_raw_series kind info.frequency range.first values (object_date_frequency info))
      pure (raw_series s)

    -- the assertion on the stored endpoints, which a query always gives
    unfoldable pub read_endpoints :
        ℤ → FameObject → Kind → Option ℤ → Option ℤ → Option ℤ → Option ℤ → Exec RawObject
    read_endpoints key info kind (some low) (some high) first last =
        read_stored key info kind low high first last
    read_endpoints key info kind _ _ first last = raise other

    unfoldable pub read_series : ℤ → FameObject → Kind → ℤ → Option ℤ → Option ℤ → Exec RawObject
    read_series key info namelist index_nc first last = raise data_validation
    read_series key info kind index_nc first last =
        if is_empty info index_nc
        then (do
          raise_if (is_present first || is_present last) data_validation
          read_empty info kind index_nc)
        else read_endpoints key info kind info.first_index info.last_index first last

    -- `_read_locked`
    unfoldable pub read_locked : ℕ → ℤ → FameObject → Option ℤ → Option ℤ → Exec RawObject
    read_locked sid key info first last = do
      lift (check_supported_class info)
      kind ← lift (kind_from_type info.type_code)
      if is_scalar info
          then (do
            raise_if (is_present first || is_present last) data_validation
            read_scalar key info kind)
          else (do s ← sentinels sid; read_series key info kind s.index_nc first last)

    -- `read_named`
    unfoldable pub read_named : ℕ → Text → Option ℤ → Option ℤ → Exec RawObject
    read_named hid n first last = do
      name' ← lift (to_native n)
      lift (check_index first)
      lift (check_index last)
      db_operation native hid λ key. do
        w ← gets (λ w. w)
        info ← query_info native key name'
        read_locked (w.handles hid).session key info first last

    -- the locked part of `do_read`
    unfoldable pub read_object : ℕ → ℤ → FameObject → Exec (FameObject × RawObject)
    read_object sid key obj = do
      info ← query_info native key obj.name
      lift (check_supported_class info)
      raise_if (not (same_object obj info)) data_validation
      s ← sentinels sid
      chosen ← lift (endpoints obj info s.index_nc)
      raw ← read_locked sid key info chosen.0 chosen.1
      pure (info, raw)

    -- `do_read`: the object that it gives back; where it raises the object is as it was.
    unfoldable pub do_read : ℕ → DataObject → Exec DataObject
    do_read hid obj = do
      w ← gets (λ w. w)
      r ← db_operation native hid λ key. read_object (w.handles hid).session key obj.info
      pure (fill_object obj (some r.0) r.1)
