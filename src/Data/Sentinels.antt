-- ===== src/Data/Sentinels.antt =====
-- Missing values by the sentinels of the library: `classify_by_sentinel` and `sentinel_value` of
-- src/famepy/_data.py.
pub mod Classes
use famepy.Prelude.{
  ℕ, Bytes, ℤ, pos, ◌==ℤ◌, Bool, Option, none, some, List, [], ◌∷◌, map, bytes_eq, ◌==◌,
  if◌then◌else◌,
}
use famepy.Errors.{Result, ok, err, data_validation, value_error}
use famepy.Native.{Sentinels}
use famepy.Objects.{and_then}
use famepy.Data.{
  Kind, precision, numeric, boolean, date, string, Cells, precisions, numerics, booleans, dates,
  Buffer, items, Value, integer, double, single, text, check_buffer,
}

-- MISSING_NORMAL, MISSING_NC, MISSING_NA and MISSING_ND
pub data Category : Type 0 where
  normal nc na nd : Category

-- the three sentinels of a kind, in the order NC, NA, ND
pub record Triplet (A : Type 0) : Type 0 where
  pub of_nc : A
  pub of_na : A
  pub of_nd : A

abbrev pub precision_triplet : Sentinels → Triplet ℕ
precision_triplet s = record {
  of_nc = s.precision_nc;
  of_na = s.precision_na;
  of_nd = s.precision_nd;
}

abbrev pub numeric_triplet : Sentinels → Triplet ℕ
numeric_triplet s = record { of_nc = s.numeric_nc; of_na = s.numeric_na; of_nd = s.numeric_nd }

abbrev pub boolean_triplet : Sentinels → Triplet ℤ
boolean_triplet s = record { of_nc = s.boolean_nc; of_na = s.boolean_na; of_nd = s.boolean_nd }

abbrev pub index_triplet : Sentinels → Triplet ℤ
index_triplet s = record { of_nc = s.index_nc; of_na = s.index_na; of_nd = s.index_nd }

abbrev pub string_triplet : Sentinels → Triplet Bytes
string_triplet s = record { of_nc = s.string_nc; of_na = s.string_na; of_nd = s.string_nd }

module _ {A : Type 0} (eq : A → A → Bool) where
  -- the conditional of a string: the first sentinel that is equal
  unfoldable pub first_match : Triplet A → A → Category
  first_match t a =
      if eq a t.of_nc then nc else if eq a t.of_na then na else if eq a t.of_nd then nd else normal

  abbrev assign : Category → A → A → Category → Category
  assign code sentinel a before = if eq a sentinel then code else before

  -- the assignments of an array: the last sentinel that is equal
  unfoldable pub last_match : Triplet A → A → Category
  last_match t a = assign nd t.of_nd a (assign na t.of_na a (assign nc t.of_nc a normal))

-- an item that is no `bytes` is equal to no sentinel
abbrev pub item_category : Triplet Bytes → Option Bytes → Category
item_category t none = normal
item_category t (some bs) = first_match bytes_eq t bs

-- the codes of an array
unfoldable pub classify_cells : Cells → Sentinels → List Category
classify_cells (precisions xs) s = map (last_match ◌==◌ (precision_triplet s)) xs
classify_cells (numerics xs) s = map (last_match ◌==◌ (numeric_triplet s)) xs
classify_cells (booleans xs) s = map (last_match ◌==ℤ◌ (boolean_triplet s)) xs
classify_cells (dates xs) s = map (last_match ◌==ℤ◌ (index_triplet s)) xs

-- `classify_by_sentinel`, where the values of the kind string are a list
unfoldable pub classify_by_sentinel : Kind → Buffer → Sentinels → Result (List Category)
classify_by_sentinel string (items xs) s = ok (map (item_category (string_triplet s)) xs)
classify_by_sentinel string _ s = err data_validation
classify_by_sentinel Kind.undefined values s = err value_error
classify_by_sentinel Kind.namelist values s = err value_error
classify_by_sentinel kind values s =
    and_then (check_buffer kind values none) (λ cells. ok (classify_cells cells s))

abbrev pub chosen : {A : Type 0} → Triplet A → Category → Result A
chosen t nc = ok t.of_nc
chosen t na = ok t.of_na
chosen t nd = ok t.of_nd
chosen t normal = err value_error

abbrev pub valued : {A : Type 0} → (A → Value) → Result A → Result Value
valued f (ok a) = ok (f a)
valued f (err e) = err e

-- `sentinel_value`
unfoldable pub sentinel_value : Kind → Category → Sentinels → Result Value
sentinel_value precision c s = valued double (chosen (precision_triplet s) c)
sentinel_value numeric c s = valued single (chosen (numeric_triplet s) c)
sentinel_value boolean c s = valued integer (chosen (boolean_triplet s) c)
sentinel_value date c s = valued integer (chosen (index_triplet s) c)
sentinel_value string c s = valued text (chosen (string_triplet s) c)
sentinel_value kind c s = err value_error
