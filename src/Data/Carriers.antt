-- ===== src/Data/Carriers.antt =====
-- `RawScalar` and `RawSeries` of src/famepy/_data.py, the carriers whose construction checks the
-- data, and the ranges of src/famepy/_native.py.
use famepy.Prelude.{
  ℕ, ◌^◌, Bytes, ℤ, pos, fits, ◌+ℤ◌, ◌-ℤ◌, leb_ℤ, ltb_ℤ, Bool, true, false, not, ◌&&◌, ◌||◌, Option,
  none, some, List, [], ◌∷◌, leb, ◌==◌, if◌then◌else◌,
}
use famepy.Errors.{Result, ok, err, data_validation}
use famepy.Native.{Range}
use famepy.Objects.{and_then}
use famepy.Data.{
  Kind, date, string, namelist, undefined, Cells, Buffer, items, Value, Numpy, max_observations,
  size, kind_code, no_nul_bytes, check_bytes, date_frequency, check_buffer, encode_scalar,
}

-- `FameRange(frequency, first, last)`
unfoldable pub fame_range : ℤ → ℤ → ℤ → Result Range
fame_range frequency first last =
    if fits (2 ^ 63) first
      && fits (2 ^ 63) last
      && (leb_ℤ (pos 0) frequency && fits (2 ^ 31) frequency)
      && leb_ℤ first last
      && leb_ℤ (last -ℤ first +ℤ pos 1) (pos max_observations)
    then ok (record { frequency = frequency; first = first; last = last })
    else err data_validation

-- `FameRange.length`
abbrev pub range_length : Range → ℤ
range_length r = r.last -ℤ r.first +ℤ pos 1

-- the value frequency of a carrier: of dates, and of nothing else
unfoldable pub value_frequency : Kind → Option ℤ → Result (Option ℤ)
value_frequency date none = err data_validation
value_frequency date (some f) = and_then (date_frequency f) (λ code. ok (some code))
value_frequency kind none = ok none
value_frequency kind (some f) = err data_validation

pub record RawScalar : Type 0 where
  pub kind : Kind
  pub value : Value
  pub date_frequency : Option ℤ

pub record RawSeries : Type 0 where
  pub kind : Kind
  pub frequency : ℤ
  pub first_index : ℤ
  pub values : Buffer
  pub date_frequency : Option ℤ
  pub declared_length : ℕ

-- `RawObject`
pub data RawObject : Type 0 where
  raw_scalar : RawScalar → RawObject
  raw_series : RawSeries → RawObject

abbrev pub type_of : Kind → Option ℤ → ℤ
type_of date (some f) = f
type_of kind f = kind_code kind

-- `type_code` of both carriers
abbrev pub raw_type : RawObject → ℤ
raw_type (raw_scalar s) = type_of s.kind s.date_frequency
raw_type (raw_series s) = type_of s.kind s.date_frequency

abbrev pub raw_kind : RawObject → Kind
raw_kind (raw_scalar s) = s.kind
raw_kind (raw_series s) = s.kind

-- the checks of the items of a string series
unfoldable pub all_bytes : List (Option Bytes) → Result (List Bytes)
all_bytes [] = ok []
all_bytes (none ∷ xs) = err data_validation
all_bytes (some bs ∷ xs) =
    and_then (no_nul_bytes bs) λ b. and_then (all_bytes xs) λ rest. ok (b ∷ rest)

-- What a native write is given. A text is a scalar's, by its kind.
pub data Payload : Type 0 where
  block : Cells → Payload
  namelist_text string_text : Bytes → Payload
  string_texts : List Bytes → Payload

abbrev pub blocked : Result Cells → Result Payload
blocked (ok cells) = ok (block cells)
blocked (err e) = err e

-- the checks of the values of a series, with the length that they must have
unfoldable pub series_payload : Kind → Buffer → Option ℤ → Result Payload
series_payload string (items xs) l = and_then (all_bytes xs) (λ bs. ok (string_texts bs))
series_payload string _ l = err data_validation
series_payload kind values l = blocked (check_buffer kind values l)

-- `len(self.values) and self.first_index + len(self.values) - 1 >= 2**63`
abbrev pub overflows : ℤ → ℕ → Bool
overflows first n = not (n == 0) && not (ltb_ℤ (first +ℤ pos n -ℤ pos 1) (pos (2 ^ 63)))

abbrev pub series_kind : Kind → Bool
series_kind namelist = false
series_kind undefined = false
series_kind _ = true

-- `RawSeries(kind, frequency, first_index, values, date_frequency)`
unfoldable pub new_raw_series : Kind → ℤ → ℤ → Buffer → Option ℤ → Result RawSeries
new_raw_series kind frequency first values freq =
    if not (series_kind kind) || not (fits (2 ^ 63) first)
    then err data_validation
    else and_then (value_frequency kind freq) λ f. and_then (series_payload kind values none) λ p.
      if not (leb (size values) max_observations) || overflows first (size values)
      then err data_validation
      else ok (record {
        kind = kind;
        frequency = frequency;
        first_index = first;
        values = values;
        date_frequency = f;
        declared_length = size values;
      })

-- `is_empty` and `last_index` of a series
abbrev pub is_empty_series : RawSeries → Bool
is_empty_series s = size s.values == 0

abbrev pub last_index : RawSeries → ℤ
last_index s = s.first_index +ℤ pos (size s.values) -ℤ pos 1

-- `RawSeries.range`
unfoldable pub series_range : RawSeries → Result (Option Range)
series_range s =
    if is_empty_series s
    then ok none
    else and_then (fame_range s.frequency s.first_index (last_index s)) (λ r. ok (some r))

module _ (numpy : Numpy) where
  -- the checks of the value of a scalar, which give what is written
  unfoldable pub scalar_payload : Kind → Value → Result Payload
  scalar_payload string v = and_then (check_bytes v) (λ b. ok (string_text b))
  scalar_payload namelist v = and_then (check_bytes v) (λ b. ok (namelist_text b))
  scalar_payload kind v = blocked (encode_scalar numpy kind v)

  -- `RawScalar(kind, value, date_frequency)`
  unfoldable pub new_raw_scalar : Kind → Value → Option ℤ → Result RawScalar
  new_raw_scalar kind value freq = and_then (value_frequency kind freq) λ f.
      and_then (scalar_payload kind value)
        λ p. ok (record { kind = kind; value = value; date_frequency = f })

  -- `_prepare`
  unfoldable pub prepare : RawObject → Result Payload
  prepare (raw_scalar s) = scalar_payload s.kind s.value
  prepare (raw_series s) =
      if size s.values == s.declared_length
      then series_payload s.kind s.values (some (pos (size s.values)))
      else err data_validation
