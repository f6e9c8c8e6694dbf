-- ===== src/Objects/Fields.antt =====
-- What the setters of an object accept.
use famepy.Prelude.{
  ℕ, ◌^◌, ℤ, fits, ◌==ℤ◌, ◌≡◌, ◌≤◌, refl, ◌∙◌, ap, subst, length, contains_byte, true, false,
  Bool-cases, inl, inr, Option, none, some, List, ◌++◌, map, arith,
}
use famepy.Errors.{Error, Result, ok, err, value_error, data_validation}
use famepy.Text.{Text, object_name, name_capacity, strip, lower}
use famepy.Text.Names.{object_name-bounds}
use famepy.Constants.{
  CodeArg, boolean, number, object, object_classes, object_types, frequencies, code_of, has_code,
  lookup,
}
use famepy.Constants.Codes.{code_of-has_code, lookup-has_code}
use famepy.Objects.{
  FameObject, frequency_case, not_case, named_type, type_code, index_or_none, and_then, typed,
  new_fame_object,
}

not_case_lem : (r : Result ℤ) (c : ℤ) → not_case r ≡ ok c → (c ==ℤ frequency_case) ≡ false
unfolding not_case
not_case_lem (err e) c h = absurd (refused h)
  where
    refused : err e ≡ ok c → ⊥
    refused q = cc
not_case_lem (ok d) c h = elim (Bool-cases (d ==ℤ frequency_case)) [
  | inl yes' ↦ absurd (refused (cc (yes', h)))
  | inr no' ↦ (let q : d ≡ c = cc (no', h) in subst (λ x. (x ==ℤ frequency_case) ≡ false) q no')
]
  where
    refused : err value_error ≡ ok c → ⊥
    refused q = cc

type_of-not_case : (c : ℤ) → has_code c object_types ≡ true → (c ==ℤ frequency_case) ≡ false
unfolding has_code
type_of-not_case c h = ground arith

named_type_lem :
    (cs key : List ℕ) (o : Option ℤ) (c : ℤ)
    → code_of key object_types ≡ o
    → named_type cs o ≡ ok c
    → (c ==ℤ frequency_case) ≡ false
unfolding named_type
named_type_lem cs key none c e h = not_case_lem (lookup (CodeArg.name cs) frequencies) c h
named_type_lem cs key (some d) c e h =
    let q : d ≡ c = cc h in type_of-not_case c (code_of-has_code key object_types c (e ∙ ap some q))

-- A value type is never the case frequency.
type_code-not_case : (v : CodeArg) (c : ℤ) → type_code v ≡ ok c → (c ==ℤ frequency_case) ≡ false
unfolding type_code
type_code-not_case (CodeArg.name cs) c h = named_type_lem cs (map lower (strip cs)) _ c refl h
type_code-not_case (boolean b) c h =
    not_case_lem (lookup (boolean b) (object_types ++ frequencies)) c h
type_code-not_case (number n) c h =
    not_case_lem (lookup (number n) (object_types ++ frequencies)) c h
type_code-not_case object c h = not_case_lem (lookup object (object_types ++ frequencies)) c h

-- an index is absent or a 64-bit integer
abbrev pub FitsIndex : Option ℤ → Type 0
FitsIndex none = Unit
FitsIndex (some n) = fits (2 ^ 63) n ≡ true

-- what holds of the fields of an object that was made by its constructor
pub record Valid (obj : FameObject) : Type 0 where
  pub shortest : 1 ≤ length obj.name
  pub longest : length obj.name ≤ name_capacity
  pub no_nul : contains_byte 0 obj.name ≡ false
  pub class_known : has_code obj.class_code object_classes ≡ true
  pub frequency_known : has_code obj.frequency frequencies ≡ true
  pub type_not_case : (obj.type_code ==ℤ frequency_case) ≡ false
  pub first_fits : FitsIndex obj.first_index
  pub last_fits : FitsIndex obj.last_index

-- a condition on an accepted result
abbrev OnOk : {A : Type 0} → (A → Type 0) → Result A → Type 0
OnOk Q (ok a) = Q a
OnOk Q (err e) = Unit

OnOk-and_then :
    {A B : Type 0} (Q : B → Type 0) (r : Result A) (f : A → Result B)
    → ((a : A) → r ≡ ok a → OnOk Q (f a))
    → OnOk Q (and_then r f)
OnOk-and_then Q (ok a) f h = h a refl
OnOk-and_then Q (err e) f h = tt

typed_lem : (r : Result ℤ) (c : ℤ) → typed r ≡ ok c → r ≡ ok c
typed_lem (ok d) c h = h
typed_lem (err e) c h = absurd (refused h)
  where
    refused : {f : Error} → err f ≡ ok c → ⊥
    refused q = cc

index_or_none_lem : (o p : Option ℤ) → index_or_none o ≡ ok p → FitsIndex p
unfolding index_or_none
index_or_none_lem none p h = (let q : none ≡ p = cc h in subst FitsIndex q tt)
index_or_none_lem (some n) p h = elim (Bool-cases (fits (2 ^ 63) n)) [
  | inl yes' ↦ (let q : some n ≡ p = cc (yes', h) in subst FitsIndex q yes')
  | inr no' ↦ absurd (refused (cc (no', h)))
]
  where
    refused : err data_validation ≡ ok p → ⊥
    refused q = cc

-- An object that the constructor accepts has a name of 1 to 242 bytes without NUL, a class and a
-- frequency of the tables, a type that is not the case frequency, and indices that are absent or
-- fit 64 bits.
pub new_fame_object-Valid :
    (n : Text) (c t f : CodeArg) (first last : Option ℤ) (obj : FameObject)
    → new_fame_object n c t f first last ≡ ok obj
    → Valid obj
unfolding new_fame_object
new_fame_object-Valid n c t f first last obj h = subst (OnOk Valid) h (
    OnOk-and_then Valid (object_name n) _ λ n' hn.
      OnOk-and_then Valid (lookup c object_classes) _ λ c' hc.
        OnOk-and_then Valid (typed (type_code t)) _ λ t' ht.
          OnOk-and_then Valid (lookup f frequencies) _ λ f' hf.
            OnOk-and_then Valid (index_or_none first) _ λ a ha.
              OnOk-and_then Valid (index_or_none last) _ λ b hb.
                (let (same, low, high, clear) = object_name-bounds n n' hn in
                  record {
                    shortest = low;
                    longest = high;
                    no_nul = clear;
                    class_known = lookup-has_code c object_classes c' hc;
                    frequency_known = lookup-has_code f frequencies f' hf;
                    type_not_case = type_code-not_case t t' (typed_lem (type_code t) t' ht);
                    first_fits = index_or_none_lem first a ha;
                    last_fits = index_or_none_lem last b hb;
                  }))
