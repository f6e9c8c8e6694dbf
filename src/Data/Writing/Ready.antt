-- ===== src/Data/Writing/Ready.antt =====
-- The plan of a write is ready: the checks before the first native call imply those of the native
-- layer.
use famepy.Prelude.{
  ℕ, ◌^◌, ℤ, pos, fits, ◌==ℤ◌, ==ℤ_iff, ◌≡◌, refl, sym, ◌∙◌, ap, subst, Bool, true, false, not,
  ◌&&◌, ◌||◌, Bool-cases, inl, inr, Option, none, some, List, [], ◌∷◌, map, bytes_eq,
}
use famepy.Errors.{Result, ok, err, data_validation, value_error}
use famepy.Text.{strip, underscored}
use famepy.Constants.{CodeArg, Table, frequencies, has_code, lookup}
use famepy.Constants.Codes.{lookup-has_code}
use famepy.Wildcard.Filters.{upper_all}
use famepy.World.{AccessMode}
use famepy.Text.{Text, object_name}
use famepy.Text.Names.{object_name-bounds}
use famepy.Objects.{is_date_type, frequency_case}
use famepy.Data.{
  Kind, undefined, precision, numeric, boolean, date, string, namelist, Numpy, kind_code, calendar,
  date_frequency,
}
use famepy.Data.Writing.{
  bases, observations, attribute_named, attribute_code, default_observed, attribute_codes,
  defined_frequency, class_of, raw_range, is_writable, Plan, plan_of,
}
use famepy.Data.Writing.Bare.{Ready}
use famepy.Data.Writing.Payloads.{prepare-Ready}
use famepy.Data.Carriers.{
  RawObject, raw_scalar, raw_series, raw_type, raw_kind, type_of, prepare, value_frequency,
}
use famepy.Data.Results.{and_then-ok, guard-ok, refuse-ok, err-ok, ok-injective, and_parts}

-- the codes of a table fit 32 bits
unfoldable all_fit : Table → Bool
all_fit [] = true
all_fit ((n, c) ∷ t) = fits (2 ^ 31) c && all_fit t

has_code-fits :
    (c : ℤ) (t : Table) → has_code c t ≡ true → all_fit t ≡ true → fits (2 ^ 31) c ≡ true
unfolding has_code all_fit
has_code-fits c [] h a = absurd (refused h)
  where
    refused : false ≡ true → ⊥
    refused q = cc
has_code-fits c ((n, d) ∷ t) h a = elim (Bool-cases (d ==ℤ c)) [
  | inl same ↦
      subst (λ x. fits (2 ^ 31) x ≡ true) ((==ℤ_iff d c).0 same)
        (and_parts (fits (2 ^ 31) d) (all_fit t) a).0
  | inr other' ↦
      has_code-fits c t (ap (λ b. b || has_code c t) (sym other') ∙ h)
        (and_parts (fits (2 ^ 31) d) (all_fit t) a).1
]

frequencies-fit : all_fit frequencies ≡ true
unfolding all_fit
frequencies-fit = refl

lookup-fits : (v : CodeArg) (c : ℤ) → lookup v frequencies ≡ ok c → fits (2 ^ 31) c ≡ true
lookup-fits v c e = has_code-fits c frequencies (lookup-has_code v frequencies c e) frequencies-fit

attribute_named-fits :
    (key : List ℕ) (t : Table) (c : ℤ)
    → attribute_named key t ≡ ok c
    → all_fit t ≡ true
    → fits (2 ^ 31) c ≡ true
unfolding attribute_named all_fit
attribute_named-fits key [] c e a = absurd (err-ok e)
attribute_named-fits key ((n, d) ∷ t) c e a = elim (Bool-cases (bytes_eq n key)) [
  | inl found ↦
      (let q : d ≡ c = cc (found, e) in
        subst (λ x. fits (2 ^ 31) x ≡ true) q (and_parts (fits (2 ^ 31) d) (all_fit t) a).0)
  | inr other' ↦
      attribute_named-fits key t c (cc (other', e)) (and_parts (fits (2 ^ 31) d) (all_fit t) a).1
]

attribute_code-fits :
    (v : Option CodeArg) (t : Table) (d c : ℤ)
    → attribute_code v t d ≡ ok c
    → all_fit t ≡ true
    → fits (2 ^ 31) d ≡ true
    → fits (2 ^ 31) c ≡ true
unfolding attribute_code
attribute_code-fits none t d c e a h =
    (let q : d ≡ c = cc e in subst (λ x. fits (2 ^ 31) x ≡ true) q h)
attribute_code-fits (some (CodeArg.boolean b)) t d c e a h = absurd (err-ok e)
attribute_code-fits (some CodeArg.object) t d c e a h = absurd (err-ok e)
attribute_code-fits (some (CodeArg.name cs)) t d c e a h =
    attribute_named-fits (map underscored (upper_all (strip cs))) t c e a
attribute_code-fits (some (CodeArg.number n)) t d c e a h =
    let (known, same) = guard-ok (has_code n t) value_error e in
    has_code-fits c t (ap (λ x. has_code x t) (sym same) ∙ known) a

default_observed-fits : (k : Kind) → fits (2 ^ 31) (default_observed k) ≡ true
default_observed-fits precision = refl
default_observed-fits numeric = refl
default_observed-fits _ = refl

attribute_codes-fits :
    (basis observed : Option CodeArg) (k : Kind) (a : ℤ × ℤ)
    → attribute_codes basis observed k ≡ ok a
    → (fits (2 ^ 31) a.0 ≡ true) × (fits (2 ^ 31) a.1 ≡ true)
unfolding attribute_codes all_fit
attribute_codes-fits basis observed k a e =
    let (b, eb, rest) = and_then-ok (attribute_code basis bases (pos 1)) _ e in
    let (o, eo, last) =
      and_then-ok (attribute_code observed observations (default_observed k)) _ rest in
    let q : (b, o) ≡ a = cc last in
    subst (λ (x : ℤ × ℤ). (fits (2 ^ 31) x.0 ≡ true) × (fits (2 ^ 31) x.1 ≡ true)) q
      (
        attribute_code-fits basis bases (pos 1) b eb refl refl,
        attribute_code-fits observed observations (default_observed k) o eo refl
            (default_observed-fits k),
      )

class_of-fits :
    (obj : RawObject) (c : ℤ × ℤ)
    → class_of obj ≡ ok c
    → (fits (2 ^ 31) c.0 ≡ true) × (fits (2 ^ 31) c.1 ≡ true)
unfolding class_of
class_of-fits (raw_scalar s) c e =
    let q : (pos 2, pos 0) ≡ c = cc e in
    subst (λ (x : ℤ × ℤ). (fits (2 ^ 31) x.0 ≡ true) × (fits (2 ^ 31) x.1 ≡ true)) q (refl, refl)
class_of-fits (raw_series s) c e =
    let (f, ef, rest) = and_then-ok (lookup (CodeArg.number s.frequency) frequencies) _ e in
    let (g, eg, last) = and_then-ok (defined_frequency f) _ rest in
    let same : f ≡ g = cc ((refuse-ok (f ==ℤ pos 0) data_validation eg).1) in
    let q : (pos 1, g) ≡ c = cc last in
    subst (λ (x : ℤ × ℤ). (fits (2 ^ 31) x.0 ≡ true) × (fits (2 ^ 31) x.1 ≡ true)) q
      (
        refl,
        subst (λ x. fits (2 ^ 31) x ≡ true) same (lookup-fits (CodeArg.number s.frequency) f ef),
      )

-- a carrier whose type is a 32-bit code, as those that were built are
abbrev pub FitsType : RawObject → Type 0
FitsType obj = fits (2 ^ 31) (raw_type obj) ≡ true

-- What `write_raw` has checked before its first native call is enough for every later check.
pub plan_of-Ready :
    (numpy : Numpy) (mode : AccessMode) (n : Text) (obj : RawObject)
    (basis observed : Option CodeArg) (p : Plan)
    → FitsType obj
    → plan_of numpy mode n obj basis observed ≡ ok p
    → Ready p
unfolding plan_of
plan_of-Ready numpy mode n obj basis observed p t e =
    let (name', en, e1) = and_then-ok (object_name n) _ e in
    let (writable, e2) = refuse-ok (not (is_writable mode)) data_validation e1 in
    let (c, ec, e3) = and_then-ok (class_of obj) _ e2 in
    let (a, ea, e4) = and_then-ok (attribute_codes basis observed (raw_kind obj)) _ e3 in
    let (payload, ep, e5) = and_then-ok (prepare numpy obj) _ e4 in
    let (range, er, e6) = and_then-ok (raw_range obj) _ e5 in
    subst Ready (ok-injective e6) (record {
      name_ok = (object_name-bounds n name' en).3;
      class_fits = (class_of-fits obj c ec).0;
      frequency_fits = (class_of-fits obj c ec).1;
      type_fits = t;
      basis_fits = (attribute_codes-fits basis observed (raw_kind obj) a ea).0;
      observed_fits = (attribute_codes-fits basis observed (raw_kind obj) a ea).1;
      payload_ready = λ h. prepare-Ready numpy obj payload range ep er h;
    })

pub calendar-ok : (r : Result ℤ) (c : ℤ) → calendar r ≡ ok c → r ≡ ok c
unfolding calendar
calendar-ok (err x) c e = absurd (err-ok e)
calendar-ok (ok d) c e =
    ap ok
      (guard-ok (is_date_type d) data_validation
        (refuse-ok (d ==ℤ frequency_case) data_validation e).1).1

date_frequency-fits : (f c : ℤ) → date_frequency f ≡ ok c → fits (2 ^ 31) c ≡ true
unfolding date_frequency
date_frequency-fits f c e = lookup-fits (CodeArg.number f) c (calendar-ok _ c e)

kind_code-fits : (k : Kind) → fits (2 ^ 31) (kind_code k) ≡ true
kind_code-fits undefined = refl
kind_code-fits precision = refl
kind_code-fits numeric = refl
kind_code-fits boolean = refl
kind_code-fits date = refl
kind_code-fits string = refl
kind_code-fits namelist = refl

pub value_frequency-fits :
    (k : Kind) (given f : Option ℤ)
    → value_frequency k given ≡ ok f
    → fits (2 ^ 31) (type_of k f) ≡ true
unfolding value_frequency
value_frequency-fits date none f e = absurd (err-ok e)
value_frequency-fits date (some g) f e =
    let (c, ec, last) = and_then-ok (date_frequency g) (λ code. ok (some code)) e in
    subst (λ x. fits (2 ^ 31) (type_of date x) ≡ true) (ok-injective last)
      (date_frequency-fits g c ec)
value_frequency-fits k none f e =
    subst (λ x. fits (2 ^ 31) (type_of k x) ≡ true) (ok-injective e) (kind_code-fits k)
value_frequency-fits k (some g) f e = absurd (err-ok e)
