-- ===== src/Bridge/Frequencies/Inverse.antt =====
-- The two frequency maps are inverse to each other.
use famepy.Prelude.{
  ℕ, ℤ, ◌==◌, ◌==ℤ◌, ==_iff, ==ℤ_iff, ◌≡◌, ◌↔◌, refl, sym, ◌∙◌, ap, subst, Bool, true, false, ◌&&◌,
  Bool-cases, inl, inr, Option, none, some, [], ◌∷◌, if◌then◌else◌,
}
use famepy.Errors.{Result, ok, err, unsupported_frequency, value_error}
use famepy.Constants.{CodeArg, code_of, has_code, frequencies, lookup}
use famepy.Data.Results.{and_parts, err-ok, ok-injective}
use famepy.Bridge.Frequencies.{
  Frequency, unit, daily, bdaily, monthly, weekly, quarterly, half_yearly, yearly, other_frequency,
  Codes, FrequencyTable, numbered, weekly_codes, quarterly_codes, half_yearly_codes, yearly_codes,
  to_tsecon, get_code, get_frequency, or_key_error, or_unsupported, fame_frequency,
  tsecon_frequency,
}
use famepy.Bridge.Frequencies.Values.{
  weekly_values, weekly_codes-values, quarterly_values, quarterly_codes-values, half_yearly_values,
  half_yearly_codes-values, yearly_values, yearly_codes-values, tsecon_values, to_tsecon-values,
}

-- every code of a table with its number
abbrev AllCodes : (ℕ → ℤ → Type 0) → Codes → Type 0
AllCodes P [] = Unit
AllCodes P ((i, none) ∷ t) = AllCodes P t
AllCodes P ((i, some c) ∷ t) = P i c × AllCodes P t

none-some : {A : Type 0} {x : A} → none ≡ some x → ⊥
none-some e = cc

some-injective : {A : Type 0} {x y : A} → some x ≡ some y → x ≡ y
some-injective e = cc

taken : {A : Type 0} (b : Bool) (x y z : A) → b ≡ true → (if b then x else y) ≡ z → x ≡ z
taken true x y z h e = e
taken false x y z h e = cc

passed : {A : Type 0} (b : Bool) (x y z : A) → b ≡ false → (if b then x else y) ≡ z → y ≡ z
passed true x y z h e = cc
passed false x y z h e = e

get_code-AllCodes :
    (P : ℕ → ℤ → Type 0) (t : Codes) (i : ℕ) (c : ℤ) → AllCodes P t → get_code i t ≡ some c → P i c
unfolding get_code
get_code-AllCodes P [] i c h e = absurd (none-some e)
get_code-AllCodes P ((j, none) ∷ t) i c h e = elim (Bool-cases (j == i)) [
  | inl same ↦ absurd (none-some (taken (j == i) _ _ _ same e))
  | inr apart ↦ get_code-AllCodes P t i c h (passed (j == i) _ _ _ apart e)
]
get_code-AllCodes P ((j, some d) ∷ t) i c h e = elim (Bool-cases (j == i)) [
  | inl same ↦
      subst (λ x. P x c) ((==_iff j i).0 same)
        (subst (P j) (some-injective (taken (j == i) _ _ _ same e)) h.0)
  | inr apart ↦ get_code-AllCodes P t i c h.1 (passed (j == i) _ _ _ apart e)
]

-- every entry of a table is the code of its frequency
abbrev is_code : ℤ → Result ℤ → Bool
is_code c (ok d) = d ==ℤ c
is_code c (err e) = false

is_code-ok : (c : ℤ) (r : Result ℤ) → is_code c r ≡ true → r ≡ ok c
is_code-ok c (ok d) h = ap ok ((==ℤ_iff d c).0 h)
is_code-ok c (err e) h = cc

abbrev all_coded : FrequencyTable → Bool
all_coded [] = true
all_coded ((c, f) ∷ t) = is_code c (fame_frequency f) && all_coded t

all_coded-get_frequency :
    (t : FrequencyTable) (c : ℤ) (f : Frequency)
    → all_coded t ≡ true
    → get_frequency c t ≡ some f
    → fame_frequency f ≡ ok c
unfolding get_frequency
all_coded-get_frequency [] c f h e = absurd (none-some e)
all_coded-get_frequency ((d, g) ∷ t) c f h e = elim (Bool-cases (d ==ℤ c)) [
  | inl same ↦
      subst (λ x. fame_frequency f ≡ ok x) ((==ℤ_iff d c).0 same)
        (subst (λ x. fame_frequency x ≡ ok d) (some-injective (taken (d ==ℤ c) _ _ _ same e))
          (is_code-ok d (fame_frequency g)
            (and_parts (is_code d (fame_frequency g)) (all_coded t) h).0))
  | inr apart ↦
      all_coded-get_frequency t c f (and_parts (is_code d (fame_frequency g)) (all_coded t) h).1
        (passed (d ==ℤ c) _ _ _ apart e)
]

-- a code of the library that the bridge maps to a frequency
abbrev Mapped : Frequency → ℤ → Type 0
Mapped f c = (has_code c frequencies ≡ true) × (get_frequency c tsecon_values ≡ some f)

-- `tsecon_frequency` of a number, by what the lookup of the number gives
abbrev looked_up : Result ℤ → Result Frequency
looked_up r = elim r [
  | ok value ↦ or_unsupported (get_frequency value to_tsecon)
  | err e ↦ err unsupported_frequency
]

Mapped-tsecon_frequency :
    (f : Frequency) (c : ℤ) → Mapped f c → tsecon_frequency (CodeArg.number c) ≡ ok f
unfolding tsecon_frequency lookup
Mapped-tsecon_frequency f c h =
    ap (λ b. looked_up (if b then ok c else err value_error)) h.0
    ∙ ap (λ t. or_unsupported (get_frequency c t)) to_tsecon-values
    ∙ ap or_unsupported h.1

or_unsupported-ok : (x : Option Frequency) (f : Frequency) → or_unsupported x ≡ ok f → x ≡ some f
or_unsupported-ok none f e = absurd (err-ok e)
or_unsupported-ok (some g) f e = ap some (ok-injective e)

or_key_error-ok : (x : Option ℤ) (c : ℤ) → or_key_error x ≡ ok c → x ≡ some c
or_key_error-ok none c e = absurd (err-ok e)
or_key_error-ok (some d) c e = ap some (ok-injective e)

tsecon_frequency-get_frequency :
    (c : ℤ) (f : Frequency)
    → tsecon_frequency (CodeArg.number c) ≡ ok f
    → get_frequency c tsecon_values ≡ some f
unfolding tsecon_frequency lookup
tsecon_frequency-get_frequency c f e = elim (Bool-cases (has_code c frequencies)) [
  | inl known ↦ or_unsupported-ok _ f (
      sym (
        ap (λ b. looked_up (if b then ok c else err value_error)) known
        ∙ ap (λ t. or_unsupported (get_frequency c t)) to_tsecon-values)
      ∙ e)
  | inr unknown ↦
      absurd (err-ok (sym (ap (λ b. looked_up (if b then ok c else err value_error)) unknown) ∙ e))
]

weekly_values-Mapped : AllCodes (λ i c. Mapped (weekly i) c) weekly_values
unfolding has_code get_frequency
weekly_values-Mapped = (
  (refl, refl),
  (
    (refl, refl),
    ((refl, refl), ((refl, refl), ((refl, refl), ((refl, refl), ((refl, refl), tt))))),
  ),
)

quarterly_values-Mapped : AllCodes (λ i c. Mapped (quarterly i) c) quarterly_values
unfolding has_code get_frequency
quarterly_values-Mapped = ((refl, refl), ((refl, refl), ((refl, refl), tt)))

half_yearly_values-Mapped : AllCodes (λ i c. Mapped (half_yearly i) c) half_yearly_values
unfolding has_code get_frequency
half_yearly_values-Mapped = (
  (refl, refl),
  ((refl, refl), ((refl, refl), ((refl, refl), ((refl, refl), ((refl, refl), tt))))),
)

yearly_values-Mapped : AllCodes (λ i c. Mapped (yearly i) c) yearly_values
unfolding has_code get_frequency
yearly_values-Mapped = (
  (refl, refl),
  (
    (refl, refl),
    (
      (refl, refl),
      (
        (refl, refl),
        (
          (refl, refl),
          (
            (refl, refl),
            (
              (refl, refl),
              ((refl, refl), ((refl, refl), ((refl, refl), ((refl, refl), ((refl, refl), tt))))),
            ),
          ),
        ),
      ),
    ),
  ),
)

tsecon_values-coded : all_coded tsecon_values ≡ true
unfolding fame_frequency get_code code_of numbered weekly_codes quarterly_codes half_yearly_codes
    yearly_codes
tsecon_values-coded = refl

fame_frequency-Mapped : (f : Frequency) (c : ℤ) → fame_frequency f ≡ ok c → Mapped f c
unfolding fame_frequency has_code get_frequency code_of
fame_frequency-Mapped unit c e = subst (Mapped unit) (ok-injective e) (refl, refl)
fame_frequency-Mapped daily c e = subst (Mapped daily) (ok-injective e) (refl, refl)
fame_frequency-Mapped bdaily c e = subst (Mapped bdaily) (ok-injective e) (refl, refl)
fame_frequency-Mapped monthly c e = subst (Mapped monthly) (ok-injective e) (refl, refl)
fame_frequency-Mapped (weekly i) c e =
    get_code-AllCodes (λ j d. Mapped (weekly j) d) weekly_values i c weekly_values-Mapped
      (ap (get_code i) (sym weekly_codes-values) ∙ or_key_error-ok _ c e)
fame_frequency-Mapped (quarterly i) c e =
    get_code-AllCodes (λ j d. Mapped (quarterly j) d) quarterly_values i c quarterly_values-Mapped
      (ap (get_code i) (sym quarterly_codes-values) ∙ or_key_error-ok _ c e)
fame_frequency-Mapped (half_yearly i) c e =
    get_code-AllCodes (λ j d. Mapped (half_yearly j) d) half_yearly_values i c
      half_yearly_values-Mapped
      (ap (get_code i) (sym half_yearly_codes-values) ∙ or_key_error-ok _ c e)
fame_frequency-Mapped (yearly i) c e =
    get_code-AllCodes (λ j d. Mapped (yearly j) d) yearly_values i c yearly_values-Mapped
      (ap (get_code i) (sym yearly_codes-values) ∙ or_key_error-ok _ c e)
fame_frequency-Mapped other_frequency c e = absurd (err-ok e)

-- A frequency has a code exactly where `tsecon_frequency` of the code gives the frequency back: the
-- two maps are inverse to each other on what each of them accepts.
pub fame_frequency-tsecon_frequency :
    (f : Frequency) (c : ℤ)
    → (fame_frequency f ≡ ok c) ↔ (tsecon_frequency (CodeArg.number c) ≡ ok f)
fame_frequency-tsecon_frequency f c = (
  λ e. Mapped-tsecon_frequency f c (fame_frequency-Mapped f c e),
  λ e.
      all_coded-get_frequency tsecon_values c f tsecon_values-coded
        (tsecon_frequency-get_frequency c f e),
)
