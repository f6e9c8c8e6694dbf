-- ===== src/Data/Buffers.antt =====
-- The reads of src/famepy/_native.py: the typed buffers, the strings and the namelists, and the
-- choice between them in src/famepy/_data.py.
use famepy.Prelude.{
  ℕ, suc, zero, ◌+◌, ◌-◌, ◌%◌, ◌^◌, Bytes, ℤ, pos, negsuc, pos_part, ◌==ℤ◌, leb_ℤ, ltb_ℤ, Bool,
  false, not, ◌&&◌, ◌||◌, Option, none, some, List, [], ◌∷◌, map, leb, ltb, contains_byte,
  if◌then◌else◌,
}
use famepy.Errors.{Result, ok, err, data_validation, other}
use famepy.Native.{
  Native, Range, fame_get_precisions, fame_get_numerics, fame_get_booleans, fame_get_dates,
  fame_len_strings, fame_get_strings, cfmnlen, cfmgtnl,
}
use famepy.Exec.{Exec, pure, raise, lift, raise_if, call, ◌>>=◌, ◌>>◌}
use famepy.Runtime.{int32}
use famepy.Objects.{and_then}
use famepy.Data.{
  Kind, precision, numeric, boolean, date, string, precisions, numerics, booleans, dates, Buffer,
  array, items, Value, integer, double, single, text, object, max_observations,
}
use famepy.Data.Carriers.{range_length}

-- `NAMELIST_ALL`
abbrev pub namelist_all : ℤ
namelist_all = negsuc 0

-- `MAX_STRING_BYTES`
abbrev pub max_string_bytes : ℕ
max_string_bytes = 268435456

-- the elements at the first `n` positions of a buffer
unfoldable pub tabulate : {A : Type 0} → ℕ → (ℕ → A) → List A
tabulate zero f = []
tabulate (suc n) f = f 0 ∷ tabulate n (λ i. f (suc i))

-- a word of a buffer as a signed integer of the width whose half range is given
abbrev pub signed_word : ℕ → ℕ → ℤ
signed_word half n =
    let m = n % (half + half) in if ltb m half then pos m else negsuc (half + half - 1 - m)

-- `1 if range_ is None else range_.length`
abbrev pub bulk_length : Option Range → ℤ
bulk_length none = pos 1
bulk_length (some r) = range_length r

-- `_range_argument`
unfoldable pub range_argument : Option Range → ℕ → Result (Option Range)
range_argument r n = if pos n ==ℤ bulk_length r then ok r else err data_validation

-- `_name`
unfoldable pub native_name : Bytes → Result Bytes
native_name n = if contains_byte 0 n then err data_validation else ok n

-- `np.any(lengths < 0)`
unfoldable pub any_negative : List ℤ → Bool
any_negative [] = false
any_negative (l ∷ ls) = ltb_ℤ l (pos 0) || any_negative ls

unfoldable pub total : List ℤ → ℕ
total [] = 0
total (l ∷ ls) = pos_part l + total ls

abbrev pub smaller : ℤ → ℤ → ℤ
smaller a b = if leb_ℤ a b then a else b

-- the strings of a reply, by the lengths that were asked for
unfoldable pub strings_of : List ℤ → (ℕ → (ℕ → ℕ) × ℕ) → Result (List Bytes)
strings_of [] reply = ok []
strings_of (l ∷ ls) reply =
    let used = smaller (signed_word (2 ^ 31) (reply 0).1) l in
    if ltb_ℤ used (pos 0)
    then err data_validation
    else and_then (strings_of ls (λ i. reply (suc i)))
        λ rest. ok (tabulate (pos_part used) (λ j. (reply 0).0 j % 256) ∷ rest)

-- the first element of what was read
unfoldable pub first_value : Buffer → Value
first_value (array (precisions (x ∷ _))) = double x
first_value (array (numerics (x ∷ _))) = single x
first_value (array (booleans (x ∷ _))) = integer x
first_value (array (dates (x ∷ _))) = integer x
first_value (items (some bs ∷ _)) = text bs
first_value _ = object

module _ (native : Native) where
  -- `_bulk` with the name and the range that are passed to the library
  unfoldable pub bulk : {A : Type 0} → ℤ → Bytes → Option Range → ℕ → (ℤ → Bytes → Exec A) → Exec A
  bulk key n range count body = do
    raise_if (not (pos count ==ℤ bulk_length range) || not (leb count max_observations))
        data_validation
    checked ← lift (range_argument range count)
    k ← lift (int32 key)
    name' ← lift (native_name n)
    body k name'

  -- `get_strings`
  unfoldable pub get_strings : ℤ → Bytes → Option Range → ℕ → Exec Buffer
  get_strings key n range count = do
    c ← lift (int32 (pos count))
    raise_if (not (leb 1 count && leb count max_observations)) data_validation
    pointer ← lift (range_argument range count)
    k ← lift (int32 key)
    name' ← lift (native_name n)
    words ← call native (fame_len_strings k name' pointer)
    let lengths = tabulate count (λ i. signed_word (2 ^ 31) (words i))
    raise_if (any_negative lengths || not (leb (total lengths) max_string_bytes)) data_validation
    reply ← call native (fame_get_strings k name' pointer lengths)
    strings ← lift (strings_of lengths reply)
    pure (items (map some strings))

  -- `get_namelist`
  unfoldable pub get_namelist : ℤ → Bytes → Exec Bytes
  get_namelist key n = do
    k ← lift (int32 key)
    name' ← lift (native_name n)
    length' ← call native (cfmnlen k name' namelist_all)
    raise_if (ltb_ℤ length' (pos 0) || not (leb_ℤ length' (pos max_string_bytes))) data_validation
    reply ← call native (cfmgtnl k name' namelist_all length')
    let used = smaller (if leb_ℤ (pos 0) reply.1 then reply.1 else pos 0) length'
    pure (tabulate (pos_part used) (λ j. reply.0 j % 256))

  -- `_read_values`, with `get_precisions`, `get_numerics`, `get_booleans` and `get_dates`
  unfoldable pub read_values : ℤ → Bytes → Kind → Option Range → ℕ → Exec Buffer
  read_values key n string range count = get_strings key n range count
  read_values key n precision range count = bulk key n range count λ k name'. do
    words ← call native (fame_get_precisions k name' range)
    pure (array (precisions (tabulate count (λ i. words i % 2 ^ 64))))
  read_values key n numeric range count = bulk key n range count λ k name'. do
    words ← call native (fame_get_numerics k name' range)
    pure (array (numerics (tabulate count (λ i. words i % 2 ^ 32))))
  read_values key n boolean range count = bulk key n range count λ k name'. do
    words ← call native (fame_get_booleans k name' range)
    pure (array (booleans (tabulate count (λ i. signed_word (2 ^ 31) (words i)))))
  read_values key n date range count = bulk key n range count λ k name'. do
    words ← call native (fame_get_dates k name' range)
    pure (array (dates (tabulate count (λ i. signed_word (2 ^ 63) (words i)))))
  read_values key n _ range count = raise other
