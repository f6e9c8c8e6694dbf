-- ===== src/Data/Writing/Payloads.antt =====
-- What a carrier's checks say of the payload and the range that are written.
use famepy.Prelude.{
  ℕ, suc, ◌^◌, ℤ, pos, fits, ◌==ℤ◌, ==ℤ_iff, ◌+ℤ◌, ◌-ℤ◌, int_laws, ◌≡◌, refl, sym, ◌∙◌, ap, subst,
  Bytes, Bool, true, false, Option, none, some, List, [], ◌∷◌, leb, ◌==◌, length, contains_byte,
  if◌then◌else◌,
}
use famepy.Errors.{Result, ok, err, data_validation}
use famepy.Native.{Range}
use famepy.Data.{
  Kind, precision, numeric, boolean, date, string, namelist, Cells, precisions, numerics, Buffer,
  array, foreign, items, Value, integer, double, single, text, Numpy, count, size, max_observations,
  no_nul_bytes, check_bytes, check_buffer, encoded_cells, option_bind, encode_scalar,
}
use famepy.Data.Carriers.{
  fame_range, range_length, RawSeries, RawObject, raw_scalar, raw_series, all_bytes, Payload, block,
  namelist_text, string_text, string_texts, blocked, series_payload, is_empty_series, last_index,
  series_range, scalar_payload, prepare,
}
use famepy.Data.Buffers.{bulk_length}
use famepy.Data.Writing.{any_nul, raw_range, writes_nothing}
use famepy.Data.Writing.Bare.{ReadyPayload}
use famepy.Data.Results.{and_then-ok, guard-ok, refuse-ok, err-ok, and_parts}

length_between : (first : ℤ) (n : ℕ) → (first +ℤ pos n -ℤ pos 1) -ℤ first +ℤ pos 1 ≡ pos n
length_between first n = grind int_laws

no_nul_bytes-ok :
    (bs : Bytes) (b : Bytes) → no_nul_bytes bs ≡ ok b → (contains_byte 0 b ≡ false) × (b ≡ bs)
unfolding no_nul_bytes
no_nul_bytes-ok bs b e =
    let (clean, last) = refuse-ok (contains_byte 0 bs) data_validation e in
    let q : bs ≡ b = cc last in (subst (λ x. contains_byte 0 x ≡ false) q clean, sym q)

check_bytes-ok : (v : Value) (b : Bytes) → check_bytes v ≡ ok b → contains_byte 0 b ≡ false
unfolding check_bytes
check_bytes-ok (text bs) b e = (no_nul_bytes-ok bs b e).0
check_bytes-ok _ b e = absurd (err-ok e)

-- one element, if any
abbrev One : Result Cells → Type 0
One (ok cells) = count cells ≡ 1
One (err e) = Unit

encoded_cells-One :
    {A : Type 0} (f : A → Cells) (o : Option A)
    → ((a : A) → count (f a) ≡ 1)
    → One (encoded_cells f o)
encoded_cells-One f none h = tt
encoded_cells-One f (some a) h = h a

checked-One :
    (b : Bool) (cells : Cells) → count cells ≡ 1 → One (if b then ok cells else err data_validation)
checked-One true cells h = h
checked-One false cells h = tt

encode_scalar-One : (numpy : Numpy) (kind : Kind) (v : Value) → One (encode_scalar numpy kind v)
unfolding encode_scalar
encode_scalar-One numpy boolean (integer n) = checked-One (fits (2 ^ 31) n) _ refl
encode_scalar-One numpy date (integer n) = checked-One (fits (2 ^ 63) n) _ refl
encode_scalar-One numpy precision (integer n) =
    encoded_cells-One (λ b. precisions (b ∷ [])) (numpy.from_integer n) (λ b. refl)
encode_scalar-One numpy precision (double b) = refl
encode_scalar-One numpy precision (single b) = refl
encode_scalar-One numpy numeric (integer n) =
    encoded_cells-One (λ b. numerics (b ∷ [])) (option_bind (numpy.from_integer n) numpy.narrowed)
      (λ b. refl)
encode_scalar-One numpy numeric (double b) =
    encoded_cells-One (λ b. numerics (b ∷ [])) (numpy.narrowed b) (λ b. refl)
encode_scalar-One numpy numeric (single b) = refl
encode_scalar-One numpy _ _ = tt

abbrev ReadyResult : Option Range → Result Payload → Type 0
ReadyResult range (ok p) = ReadyPayload range p
ReadyResult range (err e) = Unit

One-Ready : (r : Result Cells) → One r → ReadyResult none (blocked r)
One-Ready (err e) h = tt
One-Ready (ok cells) h =
    subst (λ n. ((pos n ==ℤ pos 1) ≡ true) × (leb n max_observations ≡ true)) (sym h) (refl, refl)

texts-Ready :
    (v : Value) (f : Bytes → Payload)
    → ((b : Bytes) → contains_byte 0 b ≡ false → ReadyPayload none (f b))
    → (p : Payload) → famepy.Objects.and_then (check_bytes v) (λ b. ok (f b)) ≡ ok p
    → ReadyPayload none p
texts-Ready v f h p e =
    let (b, eb, last) = and_then-ok (check_bytes v) _ e in
    let q : f b ≡ p = cc last in subst (ReadyPayload none) q (h b (check_bytes-ok v b eb))

scalar_payload-Ready :
    (numpy : Numpy) (kind : Kind) (v : Value) (p : Payload)
    → scalar_payload numpy kind v ≡ ok p
    → ReadyPayload none p
unfolding scalar_payload
scalar_payload-Ready numpy string v p e = texts-Ready v string_text (λ b h. h) p e
scalar_payload-Ready numpy namelist v p e = texts-Ready v namelist_text (λ b h. h) p e
scalar_payload-Ready numpy kind v p e =
    subst (ReadyResult none) e (One-Ready _ (encode_scalar-One numpy kind v))

all_bytes-ok :
    (xs : List (Option Bytes)) (bss : List Bytes)
    → all_bytes xs ≡ ok bss
    → (length bss ≡ length xs) × (any_nul bss ≡ false)
unfolding all_bytes any_nul
all_bytes-ok [] bss e =
    let q : [] ≡ bss = cc e in subst (λ bs. (length bs ≡ 0) × (any_nul bs ≡ false)) q (refl, refl)
all_bytes-ok (none ∷ xs) bss e = absurd (err-ok e)
all_bytes-ok (some bs ∷ xs) bss e =
    let (b, eb, rest) = and_then-ok (no_nul_bytes bs) _ e in
    let (cs, ec, last) = and_then-ok (all_bytes xs) _ rest in
    let q : b ∷ cs ≡ bss = cc last in
    let (same, clean) = all_bytes-ok xs cs ec in
    subst (λ bs. (length bs ≡ suc (length xs)) × (any_nul bs ≡ false)) q
      (ap suc same, rw ((no_nul_bytes-ok bs b eb).0) clean)

check_buffer-ok :
    (kind : Kind) (values : Buffer) (l : Option ℤ) (cells : Cells)
    → check_buffer kind values l ≡ ok cells
    → (values ≡ array cells) × (leb (count cells) max_observations ≡ true)
unfolding check_buffer
check_buffer-ok kind (foreign n) l cells e = absurd (err-ok e)
check_buffer-ok kind (items xs) l cells e = absurd (err-ok e)
check_buffer-ok kind (array cs) l cells e =
    let (tests, last) = guard-ok _ data_validation e in
    let q : cs ≡ cells = cc last in
    let (c, d) = and_parts _ (leb (count cs) max_observations) tests in
    (ap array q, subst (λ x. leb (count x) max_observations ≡ true) q d)

-- what the payload of a series holds, by the number of its values
abbrev Sized : ℕ → Payload → Type 0
Sized n (block cells) = (count cells ≡ n) × (leb (count cells) max_observations ≡ true)
Sized n (string_texts bss) = (length bss ≡ n) × (any_nul bss ≡ false)
Sized n _ = ⊥

blocked-Sized :
    (kind : Kind) (values : Buffer) (l : Option ℤ) (p : Payload)
    → blocked (check_buffer kind values l) ≡ ok p
    → Sized (size values) p
blocked-Sized kind values l p e = go (check_buffer kind values l) refl e
  where
    go :
        (r : Result Cells)
        → check_buffer kind values l ≡ r
        → blocked r ≡ ok p
        → Sized (size values) p
    go (err x) q e = absurd (err-ok e)
    go (ok cells) q e =
        let (same, bound) = check_buffer-ok kind values l cells q in
        let r : block cells ≡ p = cc e in subst (Sized (size values)) r (sym (ap size same), bound)

series_payload-Sized :
    (kind : Kind) (values : Buffer) (l : Option ℤ) (p : Payload)
    → series_payload kind values l ≡ ok p
    → Sized (size values) p
unfolding series_payload
series_payload-Sized string (items xs) l p e =
    let (bss, eb, last) = and_then-ok (all_bytes xs) _ e in
    let q : string_texts bss ≡ p = cc last in subst (Sized (length xs)) q (all_bytes-ok xs bss eb)
series_payload-Sized string (array cells) l p e = absurd (err-ok e)
series_payload-Sized string (foreign n) l p e = absurd (err-ok e)
series_payload-Sized kind values l p e = blocked-Sized kind values l p e

eq_self : (n : ℕ) (l : ℤ) → l ≡ pos n → (pos n ==ℤ l) ≡ true
eq_self n l h = (==ℤ_iff (pos n) l).1 (sym h)

Sized-Ready :
    (n : ℕ) (range : Option Range) (p : Payload)
    → (n == 0) ≡ false
    → bulk_length range ≡ pos n
    → Sized n p
    → ReadyPayload range p
Sized-Ready n range (block cells) h l (c, m) =
    (eq_self (count cells) (bulk_length range) (l ∙ ap pos (sym c)), m)
Sized-Ready n range (string_texts bss) h l (c, z) = (
  subst (λ k. (k == 0) ≡ false) (sym c) h,
  z,
  eq_self (length bss) (bulk_length range) (l ∙ ap pos (sym c)),
)
Sized-Ready n range (namelist_text bs) h l c = absurd c
Sized-Ready n range (string_text bs) h l c = absurd c

abbrev pub range_from : ℤ → ℤ → ℤ → Range
range_from frequency first last = record { frequency = frequency; first = first; last = last }

pub fame_range-ok :
    (frequency first last : ℤ) (r : Range)
    → fame_range frequency first last ≡ ok r
    → range_from frequency first last ≡ r
unfolding fame_range
fame_range-ok frequency first last r e = let q = (guard-ok _ data_validation e).1 in q

series_range-length :
    (s : RawSeries) (range : Option Range)
    → is_empty_series s ≡ false
    → series_range s ≡ ok range
    → bulk_length range ≡ pos (size s.values)
unfolding series_range
series_range-length s range h e =
    let (r, er, last) =
      and_then-ok (fame_range s.frequency s.first_index (last_index s)) (λ r. ok (some r))
        (nonempty (is_empty_series s) h e) in
    let q : some r ≡ range = cc last in
    subst (λ x. bulk_length x ≡ pos (size s.values)) q
      (ap range_length (sym (fame_range-ok s.frequency s.first_index (last_index s) r er))
        ∙ length_between s.first_index (size s.values))
  where
    nonempty :
        (b : Bool)
        → b ≡ false
        → (if b
            then ok none
            else famepy.Objects.and_then
                (fame_range s.frequency s.first_index (last_index s))
                (λ r. ok (some r)))
          ≡ ok range
        → famepy.Objects.and_then
            (fame_range s.frequency s.first_index (last_index s))
            (λ r. ok (some r))
          ≡ ok range
    nonempty false h e = e
    nonempty true h e = cc

-- The payload of a carrier is ready for its range, unless it is of an empty series.
pub prepare-Ready :
    (numpy : Numpy) (obj : RawObject) (p : Payload) (range : Option Range)
    → prepare numpy obj ≡ ok p
    → raw_range obj ≡ ok range
    → writes_nothing obj ≡ false
    → ReadyPayload range p
unfolding prepare
prepare-Ready numpy (raw_scalar s) p range e r h =
    let q : none ≡ range = cc r in
    subst (λ x. ReadyPayload x p) q (scalar_payload-Ready numpy s.kind s.value p e)
prepare-Ready numpy (raw_series s) p range e r h =
    let (same, made) = guarded (size s.values == s.declared_length) e in
    Sized-Ready (size s.values) range p h (series_range-length s range h r)
      (series_payload-Sized s.kind s.values (some (pos (size s.values))) p made)
  where
    guarded :
        (b : Bool) {x : Result Payload}
        → (if b then x else err data_validation) ≡ ok p
        → (b ≡ true) × (x ≡ ok p)
    guarded true e = (refl, e)
    guarded false e = absurd (err-ok e)
