-- ===== src/Data/RoundTrip.antt =====
-- An object that is made of a carrier gives the carrier back when it is written.
use famepy.Prelude.{
  ◌^◌, ℤ, pos, fits, ◌==ℤ◌, ==ℤ_iff, ◌+ℤ◌, ◌-ℤ◌, ◌≡◌, refl, sym, ◌∙◌, ap, subst, Bool, true, false,
  not, ◌||◌, Option, none, some, if◌then◌else◌, ◌==◌, Bytes,
}
use famepy.Errors.{Result, ok, err, data_validation}
use famepy.Text.{Text}
use famepy.Constants.{CodeArg}
use famepy.Objects.{FameObject, new_fame_object, check_supported_class}
use famepy.Data.{
  Kind, undefined, precision, numeric, boolean, date, string, namelist, Buffer, Value, absent,
  truth, integer, double, single, text, buffer, object, Numpy, size, check_bytes, encode_scalar,
}
use famepy.Data.Carriers.{
  RawScalar, RawSeries, RawObject, raw_scalar, raw_series, type_of, value_frequency, series_kind,
  series_payload, Payload, scalar_payload, new_raw_scalar, new_raw_series,
}
use famepy.Data.Reading.{DataObject, with_data, object_from_raw, object_date_frequency}
use famepy.Data.Writing.{is_absent, mapped, raw_series_of, raw_data_of, raw_of}
use famepy.Data.Results.{and_then-ok, refuse-ok, err-ok, ok-injective, or_parts, not-false}
use famepy.Data.Fields.{
  Typed, fields, new_fame_object-fields, value_frequency-same, value_frequency-Typed,
}

abbrev holding : FameObject → Value → DataObject
holding info v = record { info = info; data' = v }

module _ (numpy : Numpy) (index_nc : ℤ) where
  raw_of-series :
      (n : Bytes) (k : Kind) (v : Option ℤ) (f a b : ℤ) (values : Buffer)
      → Typed k v
      → raw_of numpy (holding (fields n (pos 1) (type_of k v) f a b) (buffer values)) index_nc
        ≡ mapped raw_series
            (raw_data_of (fields n (pos 1) (type_of k v) f a b) k (buffer values) index_nc)
  unfolding raw_of check_supported_class
  raw_of-series n k v f a b values t = rw (t.no_date, t.kind_is) refl

  raw_of-scalar :
      (n : Bytes) (k : Kind) (v : Option ℤ) (value : Value)
      → Typed k v
      → is_absent value ≡ false
      → raw_of numpy
          (holding (fields n (pos 2) (type_of k v) (pos 0) (pos 0) (pos 0)) value)
          index_nc
        ≡ mapped raw_scalar (new_raw_scalar numpy k value v)
  unfolding raw_of check_supported_class
  raw_of-scalar n k v value t h =
      rw (h, t.no_date, t.kind_is)
        (ap (λ x. mapped raw_scalar (new_raw_scalar numpy k value x)) t.frequency_is)

raw_data_of-buffer :
    (obj : FameObject) (k : Kind) (values : Buffer) (index_nc : ℤ)
    → series_kind k ≡ true
    → raw_data_of obj k (buffer values) index_nc ≡ (
        if size values == 0
        then new_raw_series k obj.frequency index_nc values (object_date_frequency obj)
        else raw_series_of obj k values index_nc obj.first_index obj.last_index)
unfolding raw_data_of
raw_data_of-buffer obj namelist values index_nc h = absurd (refused h)
  where
    refused : false ≡ true → ⊥
    refused q = cc
raw_data_of-buffer obj undefined values index_nc h = refl
raw_data_of-buffer obj precision values index_nc h = refl
raw_data_of-buffer obj numeric values index_nc h = refl
raw_data_of-buffer obj boolean values index_nc h = refl
raw_data_of-buffer obj date values index_nc h = refl
raw_data_of-buffer obj string values index_nc h = refl

abbrev series_from : Kind → ℤ → ℤ → Buffer → Option ℤ → RawSeries
series_from k f first values v = record {
  kind = k;
  frequency = f;
  first_index = first;
  values = values;
  date_frequency = v;
  declared_length = size values;
}

-- what a carrier that was built holds
new_raw_series-fields :
    (k : Kind) (f first : ℤ) (values : Buffer) (v : Option ℤ) (s : RawSeries)
    → new_raw_series k f first values v ≡ ok s
    → (series_kind k ≡ true) × Typed k v × (series_from k f first values v ≡ s)
unfolding new_raw_series
new_raw_series-fields k f first values v s e =
    let (tests, e1) =
      refuse-ok (not (series_kind k) || not (fits (2 ^ 63) first)) data_validation e in
    let (u, eu, e2) = and_then-ok (value_frequency k v) _ e1 in
    let (p, ep, e3) = and_then-ok (series_payload k values none) _ e2 in
    let e4 = (refuse-ok _ data_validation e3).1 in
    let same = value_frequency-same k v u eu in
    (
      not-false (series_kind k) (or_parts (not (series_kind k)) _ tests).0,
      subst (Typed k) (sym same) (value_frequency-Typed k v u eu),
      ap (series_from k f first values) same ∙ ok-injective e4,
    )

abbrev last_of_series : ℤ → Buffer → ℤ
last_of_series first values =
    if size values == 0 then first else first +ℤ pos (size values) -ℤ pos 1

module _ (index_nc : ℤ) (n : Bytes) (k : Kind) (f first : ℤ) (values : Buffer) (v : Option ℤ)
    (s : RawSeries) (made : new_raw_series k f first values v ≡ ok s) (typed' : Typed k v) where
  abbrev obj : FameObject
  obj = fields n (pos 1) (type_of k v) f first (last_of_series first values)

  remade : new_raw_series k f first values (object_date_frequency obj) ≡ ok s
  remade = ap (new_raw_series k f first values) typed'.frequency_is ∙ made

  with_values :
      (size values == 0) ≡ false
      → (first ==ℤ index_nc) ≡ false
      → raw_series_of obj k values index_nc obj.first_index obj.last_index ≡ ok s
  unfolding raw_series_of
  with_values e h = rw (e, h, (==ℤ_iff (first +ℤ pos (size values) -ℤ pos 1) _).1 refl) remade

  rebuilt :
      (b : Bool)
      → (size values == 0) ≡ b
      → (first ==ℤ index_nc) ≡ b
      → (if b
          then new_raw_series k f index_nc values (object_date_frequency obj)
          else raw_series_of obj k values index_nc obj.first_index obj.last_index)
        ≡ ok s
  rebuilt true e h =
      ap (λ x. new_raw_series k f x values (object_date_frequency obj))
        (sym ((==ℤ_iff first index_nc).0 h))
      ∙ remade
  rebuilt false e h = with_values e h

-- The endpoints tell an empty series: its first index is the NC index, and no other series' is.
abbrev pub Placed : ℤ → RawSeries → Type 0
Placed index_nc s = (size s.values == 0) ≡ (s.first_index ==ℤ index_nc)

series-RoundTrip :
    (numpy : Numpy) (index_nc : ℤ) (n : Text) (k : Kind) (f first : ℤ) (values : Buffer)
    (v : Option ℤ) (obj : DataObject)
    → (made : new_raw_series k f first values v ≡ ok (series_from k f first values v))
    → Placed index_nc (series_from k f first values v)
    → object_from_raw n (raw_series (series_from k f first values v)) ≡ ok obj
    → raw_of numpy obj index_nc ≡ ok (raw_series (series_from k f first values v))
unfolding object_from_raw
series-RoundTrip numpy index_nc n k f first values v obj made placed e =
    go (new_fame_object n _ _ _ _ _) refl e
  where
    go :
        (r : Result FameObject)
        → new_fame_object n
            (CodeArg.number (pos 1))
            (CodeArg.number (type_of k v))
            (CodeArg.number f)
            (some first)
            (some (last_of_series first values))
          ≡ r
        → with_data (buffer values) r ≡ ok obj
        → raw_of numpy obj index_nc ≡ ok (raw_series (series_from k f first values v))
    go (err x) q e = absurd (err-ok e)
    go (ok info) q e =
        let (known, typed', same) =
          new_raw_series-fields k f first values v (series_from k f first values v) made in
        let shape =
          new_fame_object-fields n (pos 1) (type_of k v) f first (last_of_series first values) info
            q in
        subst (λ o. raw_of numpy o index_nc ≡ ok (raw_series (series_from k f first values v)))
          (ap (λ i. holding i (buffer values)) shape ∙ ok-injective e)
          (raw_of-series numpy index_nc info.name k v f first (last_of_series first values) values
              typed'
            ∙ ap (mapped raw_series) (
                raw_data_of-buffer _ k values index_nc known
                ∙ rebuilt index_nc info.name k f first values v _ made typed' (size values == 0)
                    refl (sym placed)))

is_absent-kept :
    (numpy : Numpy) (k : Kind) (value : Value) (p : Payload)
    → scalar_payload numpy k value ≡ ok p
    → is_absent value ≡ false
unfolding scalar_payload check_bytes encode_scalar
is_absent-kept numpy undefined absent p e = absurd (err-ok e)
is_absent-kept numpy precision absent p e = absurd (err-ok e)
is_absent-kept numpy numeric absent p e = absurd (err-ok e)
is_absent-kept numpy boolean absent p e = absurd (err-ok e)
is_absent-kept numpy date absent p e = absurd (err-ok e)
is_absent-kept numpy string absent p e = absurd (err-ok e)
is_absent-kept numpy namelist absent p e = absurd (err-ok e)
is_absent-kept numpy k (truth b) p e = refl
is_absent-kept numpy k (integer i) p e = refl
is_absent-kept numpy k (double b) p e = refl
is_absent-kept numpy k (single b) p e = refl
is_absent-kept numpy k (text bs) p e = refl
is_absent-kept numpy k (buffer b) p e = refl
is_absent-kept numpy k object p e = refl

abbrev scalar_from : Kind → Value → Option ℤ → RawScalar
scalar_from k value v = record { kind = k; value = value; date_frequency = v }

-- what a scalar carrier that was built holds
new_raw_scalar-fields :
    (numpy : Numpy) (k : Kind) (value : Value) (v : Option ℤ) (s : RawScalar)
    → new_raw_scalar numpy k value v ≡ ok s
    → (is_absent value ≡ false) × Typed k v × (scalar_from k value v ≡ s)
unfolding new_raw_scalar
new_raw_scalar-fields numpy k value v s e =
    let (u, eu, e1) = and_then-ok (value_frequency k v) _ e in
    let (p, ep, e2) = and_then-ok (scalar_payload numpy k value) _ e1 in
    let same = value_frequency-same k v u eu in
    (
      is_absent-kept numpy k value p ep,
      subst (Typed k) (sym same) (value_frequency-Typed k v u eu),
      ap (scalar_from k value) same ∙ ok-injective e2,
    )

scalar-RoundTrip :
    (numpy : Numpy) (index_nc : ℤ) (n : Text) (k : Kind) (value : Value) (v : Option ℤ)
    (obj : DataObject)
    → new_raw_scalar numpy k value v ≡ ok (scalar_from k value v)
    → object_from_raw n (raw_scalar (scalar_from k value v)) ≡ ok obj
    → raw_of numpy obj index_nc ≡ ok (raw_scalar (scalar_from k value v))
unfolding object_from_raw
scalar-RoundTrip numpy index_nc n k value v obj made e = go (new_fame_object n _ _ _ _ _) refl e
  where
    go :
        (r : Result FameObject)
        → new_fame_object n
            (CodeArg.number (pos 2))
            (CodeArg.number (type_of k v))
            (CodeArg.number (pos 0))
            (some (pos 0))
            (some (pos 0))
          ≡ r
        → with_data value r ≡ ok obj
        → raw_of numpy obj index_nc ≡ ok (raw_scalar (scalar_from k value v))
    go (err x) q e = absurd (err-ok e)
    go (ok info) q e =
        let (kept, typed', same) = new_raw_scalar-fields numpy k value v _ made in
        let shape = new_fame_object-fields n (pos 2) (type_of k v) (pos 0) (pos 0) (pos 0) info q in
        subst (λ o. raw_of numpy o index_nc ≡ ok (raw_scalar (scalar_from k value v)))
          (ap (λ i. holding i value) shape ∙ ok-injective e)
          (raw_of-scalar numpy index_nc info.name k v value typed' kept
            ∙ ap (mapped raw_scalar) made)

-- a carrier that its constructor accepts, and that is placed
abbrev pub IsCarrier : Numpy → ℤ → RawObject → Type 0
IsCarrier numpy index_nc (raw_scalar s) =
    new_raw_scalar numpy s.kind s.value s.date_frequency ≡ ok s
IsCarrier numpy index_nc (raw_series s) =
    (new_raw_series s.kind s.frequency s.first_index s.values s.date_frequency ≡ ok s)
    × Placed index_nc s

-- The object that is made of a carrier gives back that carrier when it is written, where the
-- constructor accepts the carrier's own fields and, of the series, the empty ones alone begin at
-- the NC index.
pub raw_of-object_from_raw :
    (numpy : Numpy) (index_nc : ℤ) (n : Text) (raw : RawObject) (obj : DataObject)
    → IsCarrier numpy index_nc raw
    → object_from_raw n raw ≡ ok obj
    → raw_of numpy obj index_nc ≡ ok raw
raw_of-object_from_raw numpy index_nc n (raw_scalar s) obj made e =
    scalar-RoundTrip numpy index_nc n s.kind s.value s.date_frequency obj made e
raw_of-object_from_raw numpy index_nc n (raw_series s) obj (made, placed) e =
    let same =
      (new_raw_series-fields s.kind s.frequency s.first_index s.values s.date_frequency s made).2 in
    subst (λ x. raw_of numpy obj index_nc ≡ ok (raw_series x)) same
      (series-RoundTrip numpy index_nc n s.kind s.frequency s.first_index s.values s.date_frequency
        obj (made ∙ ap ok (sym same)) placed (ap (λ x. object_from_raw n (raw_series x)) same ∙ e))
