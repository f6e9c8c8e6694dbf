-- ===== src/Data/Fields.antt =====
-- The fields of an object that is made of a carrier.
use famepy.Prelude.{
  ◌^◌, ℤ, pos, fits, ◌==ℤ◌, ◌≡◌, refl, ◌∙◌, ap, subst, true, false, Option, none, some,
  if◌then◌else◌, leb_ℤ, arith, Bytes,
}
use famepy.Errors.{Result, ok, err, data_validation, value_error}
use famepy.Text.{Text, object_name}
use famepy.Constants.{CodeArg, Table, object_classes, frequencies, has_code, lookup}
use famepy.Objects.{
  FameObject, frequency_case, is_date_type, not_case, type_code, index_or_none, typed,
  new_fame_object,
}
use famepy.Data.{
  Kind, undefined, precision, numeric, boolean, date, string, namelist, kind_from_type, calendar,
  date_frequency,
}
use famepy.Data.Carriers.{type_of, value_frequency}
use famepy.Data.Writing.Ready.{calendar-ok}
use famepy.Data.Results.{and_then-ok, refuse-ok, guard-ok, err-ok, ok-injective, and_parts}

lookup-number : (n : ℤ) (t : Table) (c : ℤ) → lookup (CodeArg.number n) t ≡ ok c → n ≡ c
unfolding lookup
lookup-number n t c e = (guard-ok (has_code n t) value_error e).1

not_case-ok : (r : Result ℤ) (c : ℤ) → not_case r ≡ ok c → r ≡ ok c
unfolding not_case
not_case-ok (ok d) c e = (refuse-ok (d ==ℤ frequency_case) value_error e).1
not_case-ok (err x) c e = absurd (err-ok e)

typed-ok : (r : Result ℤ) (c : ℤ) → typed r ≡ ok c → r ≡ ok c
typed-ok (ok d) c e = e
typed-ok (err x) c e = absurd (err-ok e)

type_code-number : (n c : ℤ) → typed (type_code (CodeArg.number n)) ≡ ok c → n ≡ c
unfolding type_code
type_code-number n c e =
    lookup-number n _ c (not_case-ok _ c (typed-ok (type_code (CodeArg.number n)) c e))

index_or_none-ok : (n : ℤ) (o : Option ℤ) → index_or_none (some n) ≡ ok o → some n ≡ o
unfolding index_or_none
index_or_none-ok n o e = (guard-ok (fits (2 ^ 63) n) data_validation e).1

abbrev pub fields : Bytes → ℤ → ℤ → ℤ → ℤ → ℤ → FameObject
fields n c t f a b = record {
  name = n;
  class_code = c;
  type_code = t;
  frequency = f;
  first_index = some a;
  last_index = some b;
}

-- the fields that are given as numbers are kept
pub new_fame_object-fields :
    (n : Text) (c t f a b : ℤ) (info : FameObject)
    → new_fame_object n (CodeArg.number c) (CodeArg.number t) (CodeArg.number f) (some a) (some b)
      ≡ ok info
    → fields info.name c t f a b ≡ info
unfolding new_fame_object
new_fame_object-fields n c t f a b info e =
    let (name', en, e1) = and_then-ok (object_name n) _ e in
    let (c', ec, e2) = and_then-ok (lookup (CodeArg.number c) object_classes) _ e1 in
    let (t', et, e3) = and_then-ok (typed (type_code (CodeArg.number t))) _ e2 in
    let (f', ef, e4) = and_then-ok (lookup (CodeArg.number f) frequencies) _ e3 in
    let (a', ea, e5) = and_then-ok (index_or_none (some a)) _ e4 in
    let (b', eb, e6) = and_then-ok (index_or_none (some b)) _ e5 in
    kept name' c' t' f' a' b' (lookup-number c object_classes c' ec) (type_code-number t t' et)
      (lookup-number f frequencies f' ef) (index_or_none-ok a a' ea) (index_or_none-ok b b' eb)
      (ok-injective e6)
  where
    kept :
        (name' : Bytes) (c' t' f' : ℤ) (a' b' : Option ℤ)
        → c ≡ c'
        → t ≡ t'
        → f ≡ f'
        → some a ≡ a'
        → some b ≡ b'
        → (let made : FameObject = record {
          name = name';
          class_code = c';
          type_code = t';
          frequency = f';
          first_index = a';
          last_index = b';
        } in
            made ≡ info)
        → fields info.name c t f a b ≡ info
    kept name' c' t' f' a' b' qc qt qf qa qb q = cc

-- a value frequency that is accepted is the one that was given
pub value_frequency-same :
    (k : Kind) (given f : Option ℤ) → value_frequency k given ≡ ok f → given ≡ f
unfolding value_frequency date_frequency
value_frequency-same date none f e = absurd (err-ok e)
value_frequency-same date (some g) f e =
    let (c, ec, last) = and_then-ok (date_frequency g) (λ code. ok (some code)) e in
    ap some (lookup-number g frequencies c (calendar-ok _ c ec)) ∙ ok-injective last
value_frequency-same k none f e = ok-injective e
value_frequency-same k (some g) f e = absurd (err-ok e)

abbrev pub kind_frequency : ℤ → Option ℤ
kind_frequency t = if is_date_type t then some t else none

-- the type of a carrier tells its kind and its value frequency
pub record Typed (k : Kind) (f : Option ℤ) : Type 0 where
  pub kind_is : kind_from_type (type_of k f) ≡ ok k
  pub frequency_is : kind_frequency (type_of k f) ≡ f
  pub no_date : (type_of k f ==ℤ pos 6) ≡ false

calendar-date : (r : Result ℤ) (c : ℤ) → calendar r ≡ ok c → is_date_type c ≡ true
unfolding calendar
calendar-date (err x) c e = absurd (err-ok e)
calendar-date (ok d) c e =
    let (yes', same) =
      guard-ok (is_date_type d) data_validation
        (refuse-ok (d ==ℤ frequency_case) data_validation e).1 in
    subst (λ x. is_date_type x ≡ true) same yes'

date_type-large : (c : ℤ) → is_date_type c ≡ true → (c ==ℤ pos 6) ≡ false
unfolding is_date_type
date_type-large c h =
    large (and_parts (leb_ℤ (pos 8) c) _ (and_parts _ (has_code c frequencies) h).0).0
  where
    large : leb_ℤ (pos 8) c ≡ true → (c ==ℤ pos 6) ≡ false
    large h = ground arith

date-Typed : (c : ℤ) → is_date_type c ≡ true → Typed date (some c)
unfolding kind_from_type
date-Typed c h = record {
  kind_is = rw h refl;
  frequency_is = rw h refl;
  no_date = date_type-large c h;
}

pub value_frequency-Typed :
    (k : Kind) (given f : Option ℤ) → value_frequency k given ≡ ok f → Typed k f
unfolding value_frequency date_frequency kind_from_type is_date_type
value_frequency-Typed date none f e = absurd (err-ok e)
value_frequency-Typed date (some g) f e =
    let (c, ec, last) = and_then-ok (date_frequency g) (λ code. ok (some code)) e in
    subst (Typed date) (ok-injective last) (date-Typed c (calendar-date _ c ec))
value_frequency-Typed undefined none f e =
    subst (Typed undefined) (ok-injective e)
      (record { kind_is = refl; frequency_is = refl; no_date = refl })
value_frequency-Typed precision none f e =
    subst (Typed precision) (ok-injective e)
      (record { kind_is = refl; frequency_is = refl; no_date = refl })
value_frequency-Typed numeric none f e =
    subst (Typed numeric) (ok-injective e)
      (record { kind_is = refl; frequency_is = refl; no_date = refl })
value_frequency-Typed boolean none f e =
    subst (Typed boolean) (ok-injective e)
      (record { kind_is = refl; frequency_is = refl; no_date = refl })
value_frequency-Typed string none f e =
    subst (Typed string) (ok-injective e)
      (record { kind_is = refl; frequency_is = refl; no_date = refl })
value_frequency-Typed namelist none f e =
    subst (Typed namelist) (ok-injective e)
      (record { kind_is = refl; frequency_is = refl; no_date = refl })
value_frequency-Typed k (some g) f e = absurd (err-ok e)
