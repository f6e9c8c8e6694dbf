-- ===== src/Constants/Codes.antt =====
-- What the lookups in the code tables accept.
use famepy.Prelude.{
  ℕ, ℤ, pos, ◌==ℤ◌, ==ℤ_iff, ◌≡◌, ◌⊎◌, ◌↔◌, codes, bytes_eq_iff, Option, refl, sym, ◌∙◌, subst, ap,
  Bool, true, false, ◌||◌, none, some, Option-cases, Bool-cases, List, [], ◌∷◌, inl, inr, bytes_eq,
  arith,
}
use famepy.Errors.{Result, ok, err, type_error, value_error}
use famepy.World.{AccessMode}
use famepy.Text.{normalized}
use famepy.Data.Results.{err-ok, ok-injective, guard-ok}
use famepy.Constants.{
  CodeArg, boolean, number, name, object, Table, access_modes, code_of, has_code, lookup, mode_code,
  mode_of, access_mode,
}

pub code_of-has_code :
    (key : List ℕ) (t : Table) (c : ℤ) → code_of key t ≡ some c → has_code c t ≡ true
unfolding code_of has_code
code_of-has_code key [] c e = absurd (nothing e)
  where
    nothing : none ≡ some c → ⊥
    nothing q = cc
code_of-has_code key ((n, d) ∷ t) c e = elim (Bool-cases (bytes_eq n key)) [
  | inl yes' ↦ (let q : d ≡ c = cc (yes', e) in rw ((==ℤ_iff d c).1 q) refl)
  | inr no' ↦
      (let q : code_of key t ≡ some c = cc (no', e) in
        rw (code_of-has_code key t c q) (or_true (d ==ℤ c)))
]
  where
    or_true : (b : Bool) → (b || true) ≡ true
    or_true true = refl
    or_true false = refl

-- A lookup gives only codes of the table, whether a name or a number was asked for.
pub lookup-has_code : (v : CodeArg) (t : Table) (c : ℤ) → lookup v t ≡ ok c → has_code c t ≡ true
unfolding lookup
lookup-has_code (boolean b) t c e = absurd (refused e)
  where
    refused : err type_error ≡ ok c → ⊥
    refused q = cc
lookup-has_code object t c e = absurd (refused e)
  where
    refused : err type_error ≡ ok c → ⊥
    refused q = cc
lookup-has_code (number n) t c e = elim (Bool-cases (has_code n t)) [
  | inl yes' ↦ (let q : n ≡ c = cc (yes', e) in subst (λ x. has_code x t ≡ true) q yes')
  | inr no' ↦ absurd (refused (cc (no', e)))
]
  where
    refused : err value_error ≡ ok c → ⊥
    refused q = cc
lookup-has_code (name cs) t c e = elim (Option-cases (code_of (normalized cs) t)) [
  | inl none' ↦ absurd (refused (cc (none', e)))
  | inr (d, some') ↦
      (let q : d ≡ c = cc (some', e) in code_of-has_code (normalized cs) t c (some' ∙ ap some q))
]
  where
    refused : err value_error ≡ ok c → ⊥
    refused q = cc

mode_of-mode_code : (m : AccessMode) → mode_of (mode_code m) ≡ ok m
unfolding mode_of
mode_of-mode_code AccessMode.readonly = refl
mode_of-mode_code AccessMode.create = refl
mode_of-mode_code AccessMode.overwrite = refl
mode_of-mode_code AccessMode.update = refl
mode_of-mode_code AccessMode.shared = refl
mode_of-mode_code AccessMode.write = refl
mode_of-mode_code AccessMode.direct_write = refl

abbrev IsMode : ℤ → Type 0
IsMode c = (m : AccessMode) × (mode_of c ≡ ok m) × (mode_code m ≡ c)

-- Every code of the table of access modes is the value of a mode.
mode_of_lem : (c : ℤ) → has_code c access_modes ≡ true → IsMode c
unfolding has_code
mode_of_lem c e = elim one_of [
  | inl p ↦ at AccessMode.readonly p
  | inr (inl p) ↦ at AccessMode.create p
  | inr (inr (inl p)) ↦ at AccessMode.overwrite p
  | inr (inr (inr (inl p))) ↦ at AccessMode.update p
  | inr (inr (inr (inr (inl p)))) ↦ at AccessMode.shared p
  | inr (inr (inr (inr (inr (inl p))))) ↦ at AccessMode.write p
  | inr (inr (inr (inr (inr (inr p))))) ↦ at AccessMode.direct_write p
]
  where
    one_of :
        (c ≡ pos 1)
        ⊎ (c ≡ pos 2)
        ⊎ (c ≡ pos 3)
        ⊎ (c ≡ pos 4)
        ⊎ (c ≡ pos 5)
        ⊎ (c ≡ pos 6)
        ⊎ (c ≡ pos 7)
    one_of = ground arith

    at : (m : AccessMode) → c ≡ mode_code m → IsMode c
    at m p = (m, ap mode_of p ∙ mode_of-mode_code m, sym p)

-- the lower-case names of the modes
abbrev mode_name : AccessMode → List ℕ
mode_name AccessMode.readonly = codes "readonly"
mode_name AccessMode.create = codes "create"
mode_name AccessMode.overwrite = codes "overwrite"
mode_name AccessMode.update = codes "update"
mode_name AccessMode.shared = codes "shared"
mode_name AccessMode.write = codes "write"
mode_name AccessMode.direct_write = codes "direct_write"

-- A value that stands for a mode: its code, or its name in any case, with blanks around it and
-- hyphens or blanks in place of the underscore.
abbrev pub StandsFor : CodeArg → AccessMode → Type 0
StandsFor (number n) m = n ≡ mode_code m
StandsFor (name cs) m = normalized cs ≡ mode_name m
StandsFor (boolean b) m = ⊥
StandsFor object m = ⊥

-- the mode of a code that was looked up
abbrev mode_from : Result ℤ → Result AccessMode
mode_from r = elim r [ ok c ↦ mode_of c | err e ↦ err e ]

abbrev named_code : Option ℤ → Result ℤ
named_code o = elim o [ none ↦ err value_error | some c ↦ ok c ]

access_mode-lookup :
    (v : CodeArg) (m : AccessMode)
    → access_mode v ≡ ok m
    → (c : ℤ) × (lookup v access_modes ≡ ok c) × (mode_of c ≡ ok m)
unfolding access_mode
access_mode-lookup v m e = go (lookup v access_modes) e
  where
    go : (r : Result ℤ) → mode_from r ≡ ok m → (c : ℤ) × (r ≡ ok c) × (mode_of c ≡ ok m)
    go (ok c) q = (c, refl, q)
    go (err x) q = absurd (err-ok q)

mode_of-code :
    (c : ℤ) (m : AccessMode) → has_code c access_modes ≡ true → mode_of c ≡ ok m → c ≡ mode_code m
mode_of-code c m h e =
    let (m', e', q) = mode_of_lem c h in sym q ∙ ap mode_code (ok-injective (sym e' ∙ e))

abbrev IsNamed : List ℕ → Result AccessMode → Type 0
IsNamed key (ok m) = key ≡ mode_name m
IsNamed key (err e) = ⊥

-- what holds of every entry of a table
abbrev AllEntries : (List ℕ → ℤ → Type 0) → Table → Type 0
AllEntries P [] = Unit
AllEntries P ((n, c) ∷ t) = P n c × AllEntries P t

code_of-AllEntries :
    (P : List ℕ → ℤ → Type 0) (t : Table) (key : List ℕ) (c : ℤ)
    → AllEntries P t
    → code_of key t ≡ some c
    → P key c
unfolding code_of
code_of-AllEntries P [] key c h e = absurd (nothing e)
  where
    nothing : none ≡ some c → ⊥
    nothing q = cc
code_of-AllEntries P ((n, d) ∷ t) key c h e = elim (Bool-cases (bytes_eq n key)) [
  | inl same ↦
      (let q : d ≡ c = cc (same, e) in
        subst (P key) q (subst (λ k. P k d) ((bytes_eq_iff n key).0 same) h.0))
  | inr apart ↦
      (let q : code_of key t ≡ some c = cc (apart, e) in code_of-AllEntries P t key c h.1 q)
]

modes-IsNamed : AllEntries (λ key c. IsNamed key (mode_of c)) access_modes
unfolding mode_of
modes-IsNamed = (refl, (refl, (refl, (refl, (refl, (refl, (refl, tt)))))))

access_mode-StandsFor : (v : CodeArg) (m : AccessMode) → access_mode v ≡ ok m → StandsFor v m
unfolding lookup
access_mode-StandsFor v m e = let (c, l, q) = access_mode-lookup v m e in stands v c l q
  where
    stands : (v : CodeArg) (c : ℤ) → lookup v access_modes ≡ ok c → mode_of c ≡ ok m → StandsFor v m
    stands (number n) c l q =
        (guard-ok (has_code n access_modes) value_error l).1
        ∙ mode_of-code c m (lookup-has_code (number n) access_modes c l) q
    stands (name cs) c l q = subst (IsNamed (normalized cs)) q (
        code_of-AllEntries (λ key c. IsNamed key (mode_of c)) access_modes (normalized cs) c
          modes-IsNamed (found (code_of (normalized cs) access_modes) l))
      where
        found : (o : Option ℤ) → named_code o ≡ ok c → o ≡ some c
        found none q = absurd (err-ok q)
        found (some d) q = ap some (ok-injective q)
    stands (boolean b) c l q = absurd (err-ok l)
    stands object c l q = absurd (err-ok l)

number-mode : (m : AccessMode) → access_mode (number (mode_code m)) ≡ ok m
unfolding access_mode lookup has_code mode_of
number-mode AccessMode.readonly = refl
number-mode AccessMode.create = refl
number-mode AccessMode.overwrite = refl
number-mode AccessMode.update = refl
number-mode AccessMode.shared = refl
number-mode AccessMode.write = refl
number-mode AccessMode.direct_write = refl

name-mode : (m : AccessMode) → mode_from (named_code (code_of (mode_name m) access_modes)) ≡ ok m
unfolding code_of mode_of
name-mode AccessMode.readonly = refl
name-mode AccessMode.create = refl
name-mode AccessMode.overwrite = refl
name-mode AccessMode.update = refl
name-mode AccessMode.shared = refl
name-mode AccessMode.write = refl
name-mode AccessMode.direct_write = refl

StandsFor-access_mode : (v : CodeArg) (m : AccessMode) → StandsFor v m → access_mode v ≡ ok m
unfolding access_mode lookup
StandsFor-access_mode (number n) m h = ap (λ c. access_mode (number c)) h ∙ number-mode m
StandsFor-access_mode (name cs) m h =
    ap (λ k. mode_from (named_code (code_of k access_modes))) h ∙ name-mode m
StandsFor-access_mode (boolean b) m h = absurd h
StandsFor-access_mode object m h = absurd h

-- `access_mode` gives a mode exactly for its code, and for its name in any case, with blanks around
-- it and hyphens or blanks in place of the underscore.
pub access_mode_iff : (v : CodeArg) (m : AccessMode) → (access_mode v ≡ ok m) ↔ StandsFor v m
access_mode_iff v m = (access_mode-StandsFor v m, StandsFor-access_mode v m)
