-- ===== src/Objects.antt =====
-- src/famepy/_objects.py: the metadata of an object, and the query for it.
pub mod Fields
use famepy.Prelude.{
  ℕ, ◌^◌, Bytes, ℤ, pos, negsuc, ◌+ℤ◌, ◌-ℤ◌, fits, ◌==ℤ◌, leb_ℤ, Bool, true, false, not, ◌&&◌, ◌||◌,
  Option, none, some, List, [], ◌∷◌, codes, bytes_eq, contains_byte, if◌then◌else◌,
}
use famepy.Errors.{Error, Result, ok, err, data_validation, unsupported_operation, value_error}
use famepy.Native.{Native, Info, fame_quick_info}
use famepy.World.{World}
use famepy.Exec.{Exec, pure, raise, lift, raise_if, call, ◌>>=◌, ◌>>◌}
use famepy.Text.{Text, object_name, strip, lower}
use famepy.Constants.{
  CodeArg, boolean, number, name, object, Table, object_classes, object_types, frequencies, code_of,
  has_code, name_of, lookup,
}
use famepy.Runtime.{int32}
use famepy.Database.{db_operation}
use mathlib.Core.List.{map, ◌++◌}

-- `FameObject` without its data
pub record FameObject : Type 0 where
  pub name : Bytes
  pub class_code : ℤ
  pub type_code : ℤ
  pub frequency : ℤ
  pub first_index : Option ℤ
  pub last_index : Option ℤ

-- `FREQUENCY_CASE`
abbrev pub frequency_case : ℤ
frequency_case = pos 232

-- `is_date_type`
unfoldable pub is_date_type : ℤ → Bool
is_date_type code = leb_ℤ (pos 8) code && not (code ==ℤ frequency_case) && has_code code frequencies

-- the refusal of the case frequency as a value type
unfoldable pub not_case : Result ℤ → Result ℤ
not_case (ok code) = if code ==ℤ frequency_case then err value_error else ok code
not_case (err e) = err e

-- the name branch of `type_code`: a value type's name, else a frequency's
unfoldable pub named_type : List ℕ → Option ℤ → Result ℤ
named_type cs (some code) = ok code
named_type cs none = not_case (lookup (CodeArg.name cs) frequencies)

-- `type_code` of a name, a number or another object
unfoldable pub type_code : CodeArg → Result ℤ
type_code (CodeArg.name cs) = named_type cs (code_of (map lower (strip cs)) object_types)
type_code v = not_case (lookup v (object_types ++ frequencies))

-- `_index_or_none` of an integer or `None`
unfoldable pub index_or_none : Option ℤ → Result (Option ℤ)
index_or_none none = ok none
index_or_none (some n) = if fits (2 ^ 63) n then ok (some n) else err data_validation

-- a `ValueError` of the type's setter becomes a `DataValidationError`
abbrev pub type_error_of : Error → Error
type_error_of value_error = data_validation
type_error_of e = e

abbrev pub and_then : {A B : Type 0} → Result A → (A → Result B) → Result B
and_then (ok a) f = f a
and_then (err e) f = err e

abbrev pub typed : Result ℤ → Result ℤ
typed (ok code) = ok code
typed (err e) = err (type_error_of e)

-- `FameObject(name, class_, type, freq, first_index, last_index)`: the setters in their order
unfoldable pub new_fame_object :
    Text → CodeArg → CodeArg → CodeArg → Option ℤ → Option ℤ → Result FameObject
new_fame_object name' class' type' freq first last = and_then (object_name name') λ n.
    and_then (lookup class' object_classes) λ c. and_then (typed (type_code type')) λ t.
      and_then (lookup freq frequencies) λ f. and_then (index_or_none first) λ a.
        and_then (index_or_none last) λ b. ok (record {
          name = n;
          class_code = c;
          type_code = t;
          frequency = f;
          first_index = a;
          last_index = b;
        })

-- `FameObject._from_codes`
abbrev pub from_codes : Bytes → Info → FameObject
from_codes n info = record {
  name = n;
  class_code = info.class_code;
  type_code = info.type_code;
  frequency = info.frequency;
  first_index = some info.first_index;
  last_index = some info.last_index;
}

-- `is_series`, `is_scalar`
abbrev pub is_series : FameObject → Bool
is_series obj = obj.class_code ==ℤ pos 1

abbrev pub is_scalar : FameObject → Bool
is_scalar obj = obj.class_code ==ℤ pos 2

abbrev pub is_index : ℤ → Option ℤ → Bool
is_index n none = false
is_index n (some i) = i ==ℤ n

-- `is_empty`
abbrev pub is_empty : FameObject → ℤ → Bool
is_empty obj index_nc =
    is_series obj && (is_index index_nc obj.first_index || is_index index_nc obj.last_index)

abbrev pub length_between : Option ℤ → Option ℤ → ℤ
length_between (some first) (some last) = last -ℤ first +ℤ pos 1
length_between _ _ = pos 0

-- `length` of an object
unfoldable pub object_length : FameObject → ℤ → ℤ
object_length obj index_nc =
    if not (is_series obj) || is_empty obj index_nc
    then pos 0
    else length_between obj.first_index obj.last_index

-- `check_supported_class`
unfoldable pub check_supported_class : FameObject → Result (Unit {0})
check_supported_class obj =
    if is_series obj || is_scalar obj then ok tt else err unsupported_operation

module _ (native : Native) where
  -- `query_info`, over `CtypesNative.quick_info`
  unfoldable pub query_info : ℤ → Bytes → Exec FameObject
  query_info key n = do
    k ← lift (int32 key)
    raise_if (contains_byte 0 n) data_validation
    info ← call native (fame_quick_info k n)
    pure (from_codes n info)

  -- `quick_info`
  unfoldable pub quick_info : ℕ → Text → Exec FameObject
  quick_info hid name' = do
    text ← lift (object_name name')
    db_operation native hid (λ key. query_info key text)
