-- ===== src/Wildcard/Narrowing.antt =====
-- The native selectors never leave out a requested frequency.
use famepy.Prelude.{
  ℤ, ==ℤ_iff, ==_iff, ◌≡◌, refl, ap, subst, ◌⊎◌, inl, inr, Bytes, List, [], ◌∷◌, codes, bytes_eq,
  Bool, true, false, ◌||◌, Option, none, some, All, if◌then◌else◌,
}
use famepy.Objects.{frequency_case}
use famepy.Wildcard.Filters.{
  Selectors, family_of, before, insert_sorted, families, only_case, native_selectors,
}

-- membership of a word
abbrev pub has_word : Bytes → List Bytes → Bool
has_word f [] = false
has_word f (g ∷ gs) = bytes_eq f g || has_word f gs

bytes_eq_refl : (b : Bytes) → bytes_eq b b ≡ true
bytes_eq_refl [] = refl
bytes_eq_refl (c ∷ cs) = rw ((==_iff c c).1 refl, bytes_eq_refl cs) refl

or_right : (a b : Bool) → b ≡ true → (a || b) ≡ true
or_right true b e = refl
or_right false b e = e

or_cases : (a b c : Bool) → (b ≡ true → c ≡ true) → (a || b) ≡ true → (a || c) ≡ true
or_cases true b c f e = refl
or_cases false b c f e = f e

insert_sorted-has_word : (x : Bytes) (ys : List Bytes) → has_word x (insert_sorted x ys) ≡ true
unfolding insert_sorted
insert_sorted-has_word x [] = rw (bytes_eq_refl x) refl
insert_sorted-has_word x (y ∷ ys) =
    pick (bytes_eq x y) (before x y) (insert_sorted-has_word x ys) refl
  where
    pick :
        (same less : Bool)
        → has_word x (insert_sorted x ys) ≡ true
        → bytes_eq x y ≡ same
        → has_word x (if same then y ∷ ys else if less then x ∷ y ∷ ys else y ∷ insert_sorted x ys)
          ≡ true
    pick true less k e = rw e refl
    pick false true k e = rw (bytes_eq_refl x) refl
    pick false false k e = or_right (bytes_eq x y) _ k

insert_sorted-keeps :
    (z x : Bytes) (ys : List Bytes) → has_word z ys ≡ true → has_word z (insert_sorted x ys) ≡ true
unfolding insert_sorted
insert_sorted-keeps z x [] h = or_right (bytes_eq z x) false h
insert_sorted-keeps z x (y ∷ ys) h = pick (bytes_eq x y) (before x y) (insert_sorted-keeps z x ys)
  where
    pick :
        (same less : Bool)
        → (has_word z ys ≡ true → has_word z (insert_sorted x ys) ≡ true)
        → has_word z (if same then y ∷ ys else if less then x ∷ y ∷ ys else y ∷ insert_sorted x ys)
          ≡ true
    pick true less k = h
    pick false true k = or_right (bytes_eq z x) _ h
    pick false false k =
        or_cases (bytes_eq z y) (has_word z ys) (has_word z (insert_sorted x ys)) k h

-- the family of a code is among the words
abbrev pub Selected : List Bytes → ℤ → Type 0
Selected fs c = (f : Bytes) × (family_of c ≡ some f) × (has_word f fs ≡ true)

All-Selected :
    (x : Bytes) (fs : List Bytes) (cs : List ℤ)
    → All (Selected fs) cs
    → All (Selected (insert_sorted x fs)) cs
All-Selected x fs [] h = tt
All-Selected x fs (c ∷ cs) h =
    ((h.0.0, h.0.1, insert_sorted-keeps h.0.0 x fs h.0.2), All-Selected x fs cs h.1)

families-Selected : (cs : List ℤ) (fs : List Bytes) → families cs ≡ some fs → All (Selected fs) cs
unfolding families
families-Selected [] fs e = tt
families-Selected (c ∷ cs) fs e = go (family_of c) (families cs) (families-Selected cs) refl refl e
  where
    go :
        (o : Option Bytes) (rest : Option (List Bytes))
        → ((gs : List Bytes) → families cs ≡ some gs → All (Selected gs) cs)
        → family_of c ≡ o
        → families cs ≡ rest
        → elim o [
          | none ↦ none
          | some f ↦ elim rest [ none ↦ none | some fs ↦ some (insert_sorted f fs) ]
        ]
          ≡ some fs
        → All (Selected fs) (c ∷ cs)
    go none rest k p q e = absurd (nothing e)
      where
        nothing : none ≡ some fs → ⊥
        nothing x = cc
    go (some f) none k p q e = absurd (nothing e)
      where
        nothing : none ≡ some fs → ⊥
        nothing x = cc
    go (some f) (some gs) k p q e =
        let same : insert_sorted f gs ≡ fs = cc e in
        subst (λ x. All (Selected x) (c ∷ cs)) same
          ((f, p, insert_sorted-has_word f gs), All-Selected f gs cs (k gs q))

only_case_lem : (cs : List ℤ) → only_case cs ≡ true → cs ≡ frequency_case ∷ []
only_case_lem [] h = cc
only_case_lem (c ∷ []) h = ap (λ x. x ∷ []) ((==ℤ_iff c frequency_case).0 h)
only_case_lem (c ∷ d ∷ cs) h = cc

-- Where the selectors narrow the frequencies, the family of every requested code is selected; where
-- they narrow the index, `case` alone was requested.
pub native_selectors-Selected :
    (cs : List ℤ)
    → (((native_selectors (some cs)).frequency ≡ [])
        ⊎ All (Selected (native_selectors (some cs)).frequency) cs)
      × (((native_selectors (some cs)).index ≡ []) ⊎ (cs ≡ frequency_case ∷ []))
unfolding native_selectors
native_selectors-Selected cs = go (families cs) refl
  where
    select : Option (List Bytes) → Selectors
    select o = elim o [
      | some fs ↦ record { frequency = fs; index = [] }
      | none ↦ record { frequency = []; index = if only_case cs then codes "CASE" ∷ [] else [] }
    ]

    go :
        (o : Option (List Bytes))
        → families cs ≡ o
        → (((select o).frequency ≡ []) ⊎ All (Selected (select o).frequency) cs)
          × (((select o).index ≡ []) ⊎ (cs ≡ frequency_case ∷ []))
    go (some fs) e = (inr (families-Selected cs fs e), inl refl)
    go none e = (inl refl, index (only_case cs) refl)
      where
        index :
            (b : Bool)
            → only_case cs ≡ b
            → ((if b then codes "CASE" ∷ [] else []) ≡ []) ⊎ (cs ≡ frequency_case ∷ [])
        index true h = inr (only_case_lem cs h)
        index false h = inl refl
