-- ===== src/Data/Sentinels/Classes.antt =====
-- The two ways of classification agree, and undo `sentinel_value`, where the sentinels differ.
use famepy.Prelude.{
  ◌≡◌, ◌≢◌, ◌↔◌, refl, sym, subst, ap, ◌∙◌, Bool, true, false, Bool-cases, inl, inr, [], ◌∷◌, ◌==◌,
  ==_iff, ◌==ℤ◌, ==ℤ_iff, bytes_eq, bytes_eq_iff, some,
}
use famepy.Errors.{Result, ok, err}
use famepy.Native.{Sentinels}
use famepy.Data.{
  Kind, precision, numeric, boolean, date, string, precisions, numerics, booleans, dates, Buffer,
  array, items, Value, integer, double, single, text, check_buffer,
}
use famepy.Data.Sentinels.{
  Category, normal, nc, na, nd, Triplet, precision_triplet, numeric_triplet, boolean_triplet,
  index_triplet, string_triplet, first_match, last_match, classify_cells, classify_by_sentinel,
  sentinel_value,
}

-- the test is equality
abbrev pub Decides : {A : Type 0} → (A → A → Bool) → Type 0
Decides {A} eq = (a b : A) → (eq a b ≡ true) ↔ (a ≡ b)

-- three different sentinels
pub record Distinct {A : Type 0} (t : Triplet A) : Type 0 where
  pub nc_na : t.of_nc ≢ t.of_na
  pub nc_nd : t.of_nc ≢ t.of_nd
  pub na_nd : t.of_na ≢ t.of_nd

-- what a category says of a value
abbrev pub Means : {A : Type 0} → Triplet A → A → Category → Type 0
Means t a nc = a ≡ t.of_nc
Means t a na = a ≡ t.of_na
Means t a nd = a ≡ t.of_nd
Means t a normal = (a ≢ t.of_nc) × (a ≢ t.of_na) × (a ≢ t.of_nd)

module _ {A : Type 0} (eq : A → A → Bool) (decides : Decides eq) (t : Triplet A)
    (distinct : Distinct t) where
  unequal : (a b : A) → a ≢ b → eq a b ≡ false
  unequal a b h = elim (Bool-cases (eq a b)) [
    | inl yes' ↦ absurd (h ((decides a b).0 yes'))
    | inr no' ↦ no'
  ]

  equal : (a b : A) → a ≡ b → eq a b ≡ true
  equal a b h = (decides a b).1 h

  first_match-of : (a : A) (c : Category) → Means t a c → first_match eq t a ≡ c
  unfolding first_match
  first_match-of a nc h = rw (equal a t.of_nc h) refl
  first_match-of a na h =
      rw (unequal a t.of_nc (λ q. distinct.nc_na (sym q ∙ h)), equal a t.of_na h) refl
  first_match-of a nd h =
      rw
        (
          unequal a t.of_nc (λ q. distinct.nc_nd (sym q ∙ h)),
          unequal a t.of_na (λ q. distinct.na_nd (sym q ∙ h)),
          equal a t.of_nd h,
        )
        refl
  first_match-of a normal (p, q, r) =
      rw (unequal a t.of_nc p, unequal a t.of_na q, unequal a t.of_nd r) refl

  last_match-of : (a : A) (c : Category) → Means t a c → last_match eq t a ≡ c
  unfolding last_match
  last_match-of a nc h =
      rw
        (
          unequal a t.of_nd (λ q. distinct.nc_nd (sym h ∙ q)),
          unequal a t.of_na (λ q. distinct.nc_na (sym h ∙ q)),
          equal a t.of_nc h,
        )
        refl
  last_match-of a na h =
      rw (unequal a t.of_nd (λ q. distinct.na_nd (sym h ∙ q)), equal a t.of_na h) refl
  last_match-of a nd h = rw (equal a t.of_nd h) refl
  last_match-of a normal (p, q, r) =
      rw (unequal a t.of_nd r, unequal a t.of_na q, unequal a t.of_nc p) refl

  Means-cases : (a : A) → (c : Category) × Means t a c
  Means-cases a = elim (Bool-cases (eq a t.of_nc)) [
    | inl e ↦ (nc, (decides a t.of_nc).0 e)
    | inr n1 ↦ elim (Bool-cases (eq a t.of_na)) [
      | inl e ↦ (na, (decides a t.of_na).0 e)
      | inr n2 ↦ elim (Bool-cases (eq a t.of_nd)) [
        | inl e ↦ (nd, (decides a t.of_nd).0 e)
        | inr n3 ↦ (normal, (differs a t.of_nc n1, differs a t.of_na n2, differs a t.of_nd n3))
      ]
    ]
  ]
    where
      differs : (a b : A) → eq a b ≡ false → a ≢ b
      differs a b n q = refused (sym (equal a b q) ∙ n)
        where
          refused : true ≡ false → ⊥
          refused q = cc

  -- The first sentinel that is equal, by which a string is classified, and the last, by which an
  -- array is, give the one category that the value has: where the three sentinels differ.
  pub first_match-last_match :
      (a : A) → (first_match eq t a ≡ last_match eq t a) × Means t a (first_match eq t a)
  first_match-last_match a = go (Means-cases a)
    where
      go :
          (c : Category) × Means t a c
          → (first_match eq t a ≡ last_match eq t a) × Means t a (first_match eq t a)
      go (c, h) = (
        first_match-of a c h ∙ sym (last_match-of a c h),
        subst (Means t a) (sym (first_match-of a c h)) h,
      )

-- the sentinels of each kind are three different values
pub record DistinctSentinels (s : Sentinels) : Type 0 where
  pub precisions_differ : Distinct (precision_triplet s)
  pub numerics_differ : Distinct (numeric_triplet s)
  pub booleans_differ : Distinct (boolean_triplet s)
  pub indices_differ : Distinct (index_triplet s)
  pub strings_differ : Distinct (string_triplet s)

-- a series that holds one value of a kind
abbrev pub one : Kind → Value → Buffer
one precision (double b) = array (precisions (b ∷ []))
one numeric (single b) = array (numerics (b ∷ []))
one boolean (integer n) = array (booleans (n ∷ []))
one date (integer n) = array (dates (n ∷ []))
one string (text bs) = items (some bs ∷ [])
one kind _ = items []

abbrev Classified : Kind → Sentinels → Category → Result Value → Type 0
Classified kind s c (ok v) = classify_by_sentinel kind (one kind v) s ≡ ok (c ∷ [])
Classified kind s c (err e) = Unit

sentinel_value-Classified :
    (s : Sentinels) (kind : Kind) (c : Category)
    → DistinctSentinels s
    → Classified kind s c (sentinel_value kind c s)
unfolding classify_by_sentinel sentinel_value check_buffer classify_cells
sentinel_value-Classified s precision nc d =
    ap (λ x. ok (x ∷ [])) (last_match-of ◌==◌ ==_iff _ d.precisions_differ _ nc refl)
sentinel_value-Classified s precision na d =
    ap (λ x. ok (x ∷ [])) (last_match-of ◌==◌ ==_iff _ d.precisions_differ _ na refl)
sentinel_value-Classified s precision nd d =
    ap (λ x. ok (x ∷ [])) (last_match-of ◌==◌ ==_iff _ d.precisions_differ _ nd refl)
sentinel_value-Classified s numeric nc d =
    ap (λ x. ok (x ∷ [])) (last_match-of ◌==◌ ==_iff _ d.numerics_differ _ nc refl)
sentinel_value-Classified s numeric na d =
    ap (λ x. ok (x ∷ [])) (last_match-of ◌==◌ ==_iff _ d.numerics_differ _ na refl)
sentinel_value-Classified s numeric nd d =
    ap (λ x. ok (x ∷ [])) (last_match-of ◌==◌ ==_iff _ d.numerics_differ _ nd refl)
sentinel_value-Classified s boolean nc d =
    ap (λ x. ok (x ∷ [])) (last_match-of ◌==ℤ◌ ==ℤ_iff _ d.booleans_differ _ nc refl)
sentinel_value-Classified s boolean na d =
    ap (λ x. ok (x ∷ [])) (last_match-of ◌==ℤ◌ ==ℤ_iff _ d.booleans_differ _ na refl)
sentinel_value-Classified s boolean nd d =
    ap (λ x. ok (x ∷ [])) (last_match-of ◌==ℤ◌ ==ℤ_iff _ d.booleans_differ _ nd refl)
sentinel_value-Classified s date nc d =
    ap (λ x. ok (x ∷ [])) (last_match-of ◌==ℤ◌ ==ℤ_iff _ d.indices_differ _ nc refl)
sentinel_value-Classified s date na d =
    ap (λ x. ok (x ∷ [])) (last_match-of ◌==ℤ◌ ==ℤ_iff _ d.indices_differ _ na refl)
sentinel_value-Classified s date nd d =
    ap (λ x. ok (x ∷ [])) (last_match-of ◌==ℤ◌ ==ℤ_iff _ d.indices_differ _ nd refl)
sentinel_value-Classified s string nc d =
    ap (λ x. ok (x ∷ [])) (first_match-of bytes_eq bytes_eq_iff _ d.strings_differ _ nc refl)
sentinel_value-Classified s string na d =
    ap (λ x. ok (x ∷ [])) (first_match-of bytes_eq bytes_eq_iff _ d.strings_differ _ na refl)
sentinel_value-Classified s string nd d =
    ap (λ x. ok (x ∷ [])) (first_match-of bytes_eq bytes_eq_iff _ d.strings_differ _ nd refl)
sentinel_value-Classified s _ _ d = tt

-- Where the sentinels of each kind differ, a series of the sentinel that `sentinel_value` gives for
-- a kind and a category is classified as that category.
pub classify-sentinel_value :
    (s : Sentinels) (kind : Kind) (c : Category) (v : Value)
    → DistinctSentinels s
    → sentinel_value kind c s ≡ ok v
    → classify_by_sentinel kind (one kind v) s ≡ ok (c ∷ [])
classify-sentinel_value s kind c v d e =
    subst (Classified kind s c) e (sentinel_value-Classified s kind c d)
